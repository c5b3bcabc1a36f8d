-- ===== src/Transition/Rules/Available/Budget.antt =====
-- pkg/controllers/podtransitionrule/processor/rules/available.go: how many pods AvailableRuler.Filter
-- lets pass.
use kuperator.Common.{
  ℕ, suc, ◌+◌, ◌-◌, ◌≤◌, ◌≡◌, ◌⊎◌, refl, Bool, true, false, not, ◌||◌, Option, none, some, List, [],
  ◌∷◌, if◌then◌else◌, length, count, arith, ℤ, pos, to_nat, to_nat-decrement, is_positive-to_nat,
  leaves_none-to_nat, Text, Dict, ok, returns,
}
use kuperator.Pod.{Pod, set_insert}
use kuperator.Transition.Detail.{Detail}
use kuperator.Transition.Rules.{AvailablePolicy, FilterResult, resolve}
use kuperator.Transition.Rules.Available.{
  Cluster, Tally, Verdict, has_passed, is_unavailable, survey_pod, survey, approve_pod,
  approve_each, verdict_result, waiting, start_verdict, effective_targets, consider_owner_replicas,
  quota, available_filter,
}

length-set_insert : (k : Text) (s : List Text) → length (set_insert k s) ≤ suc (length s)
unfolding set_insert
length-set_insert k s = ground arith

module _ (C : Cluster) (rule : Text) (details : List Detail) where
  -- The pods that count as unavailable: those that the status lets pass the rule, and those that a
  -- registered test finds unavailable.
  abbrev pub is_disturbed : Text × Pod → Bool
  is_disturbed (k, pod) = has_passed rule details pod || is_unavailable C pod

  abbrev pub is_undisturbed : Text × Pod → Bool
  is_undisturbed s = not (is_disturbed s)

  survey_pod-allow :
      (k : Text) (pod : Pod) (t : Tally)
      → to_nat (survey_pod C rule details pod t).allow
        ≡ to_nat t.allow - (if is_disturbed (k, pod) then 1 else 0)
  unfolding survey_pod
  survey_pod-allow k pod t = ground (arith, to_nat-decrement t.allow)

  survey_pod-available :
      (k : Text) (pod : Pod) (t : Tally)
      → (survey_pod C rule details pod t).available
        ≡ t.available + (if is_undisturbed (k, pod) then 1 else 0)
  unfolding survey_pod
  survey_pod-available k pod t = ground arith

  survey-allow :
      (pods : List (Text × Pod)) (t : Tally)
      → to_nat (survey C rule details pods t).allow ≡ to_nat t.allow - count is_disturbed pods
  unfolding survey
  survey-allow [] t = omega arith
  survey-allow ((k, pod) ∷ pods) t =
      omega (arith, survey_pod-allow k pod t, survey-allow pods (survey_pod C rule details pod t))

  survey-available :
      (pods : List (Text × Pod)) (t : Tally)
      → (survey C rule details pods t).available ≡ t.available + count is_undisturbed pods
  unfolding survey
  survey-available [] t = omega arith
  survey-available ((k, pod) ∷ pods) t =
      omega (
        arith,
        survey_pod-available k pod t,
        survey-available pods (survey_pod C rule details pod t),
      )

  -- What a verdict spends, when `free` of its subjects are disturbed.
  abbrev Spends : ℕ → ℕ → Verdict → Verdict → Type 0
  Spends least free v w =
      ((length w.pass + to_nat w.allow_left) ≤ (length v.pass + to_nat v.allow_left + free))
      × ((length w.pass + to_nat w.available_left)
          ≤ (length v.pass + to_nat v.available_left + free))
      × (((length w.pass ≤ (length v.pass + free))
            × (to_nat w.available_left ≡ to_nat v.available_left))
          ⊎ (least ≤ to_nat w.available_left))

  approve_pod-Spends :
      (m : ℕ) (k : Text) (pod : Pod) (v : Verdict)
      → Spends m
          (if is_disturbed (k, pod) then 1 else 0)
          v
          (approve_pod C rule details (pos m) (k, pod) v)
  unfolding approve_pod
  approve_pod-Spends m k pod v = ground (
    arith,
    length-set_insert k v.pass,
    length-set_insert pod.name v.pass,
    to_nat-decrement v.allow_left,
    to_nat-decrement v.available_left,
    is_positive-to_nat v.allow_left,
    leaves_none-to_nat v.available_left m,
  )

  approve_each-Spends :
      (m : ℕ) (subjects : List (Text × Pod)) (v : Verdict)
      → Spends m (count is_disturbed subjects) v (approve_each C rule details (pos m) subjects v)
  unfolding approve_each
  approve_each-Spends m [] v = ground arith
  approve_each-Spends m ((k, pod) ∷ subjects) v = ground (
    arith,
    approve_pod-Spends m k pod v,
    approve_each-Spends m subjects (approve_pod C rule details (pos m) (k, pod) v),
  )

waiting-passed : (t : Option ℕ) (r : FilterResult) → (waiting t r).passed ≡ r.passed
waiting-passed none r = refl
waiting-passed (some t) r = refl

module _ (C : Cluster) (rule : Text) (details : List Detail) (policy : AvailablePolicy)
    (targets : Dict Pod) (subjects : List Text) where
  abbrev pub total : ℕ
  total = length (effective_targets targets [])

  -- The quotas, the missing replicas, the target pods and the subject pods can all be read.
  pub record IsReadable : Type 0 where
    pub max_quota : ℤ
    pub min_quota : ℕ
    pub missing : ℕ
    pub pods : List (Text × Pod)
    pub subject_pods : List (Text × Pod)
    pub reads_max : quota policy.max_unavailable_value total true (pos total) ≡ ok max_quota
    pub reads_min : quota policy.min_available_value total false (pos 0) ≡ ok (pos min_quota)
    pub reads_missing : consider_owner_replicas C targets ≡ ok missing
    pub reads_pods : resolve targets (effective_targets targets []) ≡ some pods
    pub reads_subjects : resolve targets subjects ≡ some subject_pods

  abbrev verdict_of : IsReadable → Verdict
  verdict_of R = approve_each C rule details (pos R.min_quota) R.subject_pods (
      start_verdict (
        survey C rule details R.pods (record {
          allow = pos (to_nat R.max_quota - R.missing);
          available = 0;
          min_time_left = none;
        })))

  abbrev time_left_of : IsReadable → Option ℕ
  time_left_of R =
      (survey C rule details R.pods (record {
        allow = pos (to_nat R.max_quota - R.missing);
        available = 0;
        min_time_left = none;
      })).min_time_left

  available_filter-read :
      (R : IsReadable)
      → available_filter C rule details targets policy subjects
        ≡ returns (verdict_result (time_left_of R) (verdict_of R))
  unfolding available_filter
  available_filter-read R =
      rw (R.reads_max, R.reads_min, R.reads_missing, R.reads_pods, R.reads_subjects) refl

  abbrev pub disturbed_subjects : IsReadable → ℕ
  disturbed_subjects R = count (is_disturbed C rule details) R.subject_pods

  abbrev pub disturbed_targets : IsReadable → ℕ
  disturbed_targets R = count (is_disturbed C rule details) R.pods

  abbrev pub available_targets : IsReadable → ℕ
  available_targets R = count (is_undisturbed C rule details) R.pods

  -- When the quotas and the pods can be read and the minimum is not negative, Filter returns. Beyond
  -- the subjects that are unavailable or have passed before, it lets at most as many pods pass as the
  -- maximum leaves once the missing replicas, the unavailable targets and the targets that have passed
  -- before are taken off; and if it lets any such pod pass, the minimum of the targets stays available.
  pub available_filter-Budget :
      (R : IsReadable)
      → (r : FilterResult) × (available_filter C rule details targets policy subjects ≡ returns r)
        × (length r.passed
            ≤ (disturbed_subjects R + ((to_nat R.max_quota - R.missing) - disturbed_targets R)))
        × ((length r.passed ≤ disturbed_subjects R)
            ⊎ ((R.min_quota + length r.passed) ≤ (disturbed_subjects R + available_targets R)))
  available_filter-Budget R =
      let start : Tally = record {
        allow = pos (to_nat R.max_quota - R.missing);
        available = 0;
        min_time_left = none;
      } in
      let spends =
        approve_each-Spends C rule details R.min_quota R.subject_pods
          (start_verdict (survey C rule details R.pods start)) in
      let allow = survey-allow C rule details R.pods start in
      let free = survey-available C rule details R.pods start in
      (
        verdict_result (time_left_of R) (verdict_of R),
        available_filter-read R,
        rw (waiting-passed (time_left_of R) (verdict_result none (verdict_of R)))
            (omega (arith, spends.0, allow)),
        rw (waiting-passed (time_left_of R) (verdict_result none (verdict_of R)))
            (ground (arith, spends, free)),
      )
