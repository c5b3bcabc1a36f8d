-- ===== src/Transition/Rules/Available/Decisive.antt =====
-- pkg/controllers/podtransitionrule/processor/rules/available.go: AvailableRuler.Filter as a ruler.
use kuperator.Common.{
  ◌≡◌, refl, subst, Bool, true, false, ◌||◌, Option, none, some, List, [], ◌∷◌, arith, length, ℕ,
  ◌-◌, ℤ, pos, to_nat, Text, text_eq, Dict, has, lookup, Result, ok, err, Outcome, returns,
}
use kuperator.Pod.{Pod, contains, set_insert}
use kuperator.Pod.Sets.{contains-set_insert}
use kuperator.Transition.Detail.{Detail, min_available, max_unavailable}
use kuperator.Transition.Rules.{AvailablePolicy, FilterResult, reject_all_with_err, reject_each}
use kuperator.Transition.Rules.Interface.{
  IsKeyed, AreTargets, Decides, IsRuler, names_of, resolve-Resolved, reject_all_with_err-Decides,
  has-reject_each,
}
use kuperator.Transition.Rules.Available.{
  Cluster, Tally, Verdict, approve_pod, approve_each, survey, verdict_result, start_verdict,
  with_owners, with_min, with_max, available_filter, effective_targets, consider_owner_replicas,
  quota,
}

-- A verdict has decided a pod.
abbrev has_decided : Text → Verdict → Bool
has_decided k v = contains k v.pass || contains k v.by_max || contains k v.by_min

module _ (C : Cluster) (rule : Text) (details : List Detail) where
  approve_pod-has_decided :
      (m : ℤ) (j : Text) (pod : Pod) (v : Verdict) (k : Text)
      → pod.name ≡ j
      → has_decided k (approve_pod C rule details m (j, pod) v) ≡ (text_eq j k || has_decided k v)
  unfolding approve_pod
  approve_pod-has_decided m j pod v k same =
      let by_name : contains k (set_insert pod.name v.pass) ≡ (text_eq j k || contains k v.pass) =
        subst (λ n. contains k (set_insert pod.name v.pass) ≡ (text_eq n k || contains k v.pass))
          same (contains-set_insert k pod.name v.pass) in
      ground (
        arith,
        by_name,
        contains-set_insert k j v.pass,
        contains-set_insert k j v.by_max,
        contains-set_insert k j v.by_min,
      )

  approve_each-has_decided :
      (m : ℤ) (pods : List (Text × Pod)) (v : Verdict) (k : Text)
      → IsKeyed pods
      → has_decided k (approve_each C rule details m pods v)
        ≡ (contains k (names_of pods) || has_decided k v)
  unfolding approve_each contains
  approve_each-has_decided m [] v k keyed = refl
  approve_each-has_decided m ((j, pod) ∷ pods) v k keyed = ground (
    arith,
    approve_pod-has_decided m j pod v k keyed.0,
    approve_each-has_decided m pods (approve_pod C rule details m (j, pod) v) k keyed.1,
  )

verdict_result-has_decided :
    (t : Option ℕ) (v : Verdict) (k : Text)
    → (contains k (verdict_result t v).passed || has k (verdict_result t v).rejected)
      ≡ has_decided k v
unfolding lookup
verdict_result-has_decided none v k = ground (
  arith,
  has-reject_each v.by_max max_unavailable (reject_each v.by_min min_available []) k,
  has-reject_each v.by_min min_available [] k,
)
verdict_result-has_decided (some t) v k = ground (
  arith,
  has-reject_each v.by_max max_unavailable (reject_each v.by_min min_available []) k,
  has-reject_each v.by_min min_available [] k,
)

effective_targets_lem :
    (targets : Dict Pod) (names : List Text) (k : Text)
    → IsKeyed targets
    → contains k (effective_targets targets names) ≡ (has k targets || contains k names)
unfolding effective_targets lookup
effective_targets_lem [] names k keyed = refl
effective_targets_lem ((j, pod) ∷ targets) names k keyed =
    let by_name : contains k (set_insert pod.name names) ≡ (text_eq j k || contains k names) =
      subst (λ n. contains k (set_insert pod.name names) ≡ (text_eq n k || contains k names))
        keyed.0 (contains-set_insert k pod.name names) in
    ground (arith, by_name, effective_targets_lem targets (set_insert pod.name names) k keyed.1)

module _ (C : Cluster) (rule : Text) (details : List Detail) where
  abbrev Decided : List Text → Outcome FilterResult → Type 0
  Decided subjects o = (r : FilterResult) × (o ≡ returns r) × Decides subjects r

  module _ (targets : Dict Pod) (subjects : List Text) (keyed : IsKeyed targets)
      (are : AreTargets targets subjects) where
    with_owners-Decided :
        (max_quota min_quota : ℤ) (o : Result ℕ)
        → Decided subjects (with_owners C rule details targets subjects max_quota min_quota o)
    unfolding contains
    with_owners-Decided max_quota min_quota (err e) =
        (reject_all_with_err subjects [] [] e, refl, reject_all_with_err-Decides subjects e)
    with_owners-Decided max_quota min_quota (ok u) =
        let (pods, e, names, pods_keyed) =
          resolve-Resolved targets (effective_targets targets []) keyed
            (λ k m. ground (arith, m, effective_targets_lem targets [] k keyed)) in
        let (subs, f, sub_names, subs_keyed) = resolve-Resolved targets subjects keyed are in
        let start : Tally = record {
          allow = pos (to_nat max_quota - u);
          available = 0;
          min_time_left = none;
        } in
        let tally = survey C rule details pods start in
        let v = approve_each C rule details min_quota subs (start_verdict tally) in
        let t = tally.min_time_left in
        (
          verdict_result t v,
          rw (e, f) refl,
          λ k.
              subst
                (λ ks.
                  (contains k (verdict_result t v).passed || has k (verdict_result t v).rejected)
                  ≡ contains k ks)
                sub_names
                (ground (
                  arith,
                  verdict_result-has_decided t v k,
                  approve_each-has_decided C rule details min_quota subs (start_verdict tally) k
                      subs_keyed,
                )),
        )

    with_min-Decided :
        (max_quota : ℤ) (o : Result ℤ)
        → Decided subjects (with_min C rule details targets subjects max_quota o)
    with_min-Decided max_quota (err e) =
        (reject_all_with_err subjects [] [] e, refl, reject_all_with_err-Decides subjects e)
    with_min-Decided max_quota (ok min_quota) =
        with_owners-Decided max_quota min_quota (consider_owner_replicas C targets)

    with_max-Decided :
        (policy : AvailablePolicy) (o : Result ℤ)
        → Decided subjects (with_max C rule details targets policy subjects o)
    with_max-Decided policy (err e) =
        (reject_all_with_err subjects [] [] e, refl, reject_all_with_err-Decides subjects e)
    with_max-Decided policy (ok max_quota) =
        with_min-Decided max_quota
          (quota policy.min_available_value (length (effective_targets targets [])) false (pos 0))

-- Whatever the policy and the cluster are, if the targets are keyed by the names of the pods and the
-- subjects are targets, Filter does not panic, and the pods that it lets pass and those that it
-- rejects are together the subjects, also when a quota or an owner cannot be read.
pub available_filter-Decides :
    (C : Cluster) (rule : Text) (details : List Detail) (policy : AvailablePolicy)
    (targets : Dict Pod) (subjects : List Text)
    → IsKeyed targets
    → AreTargets targets subjects
    → (r : FilterResult) × (available_filter C rule details targets policy subjects ≡ returns r)
      × Decides subjects r
unfolding available_filter
available_filter-Decides C rule details policy targets subjects keyed are =
    let total = length (effective_targets targets []) in
    with_max-Decided C rule details targets subjects keyed are policy
      (quota policy.max_unavailable_value total true (pos total))

pub available_filter-IsRuler :
    (C : Cluster) (rule : Text) (details : List Detail) (policy : AvailablePolicy)
    → IsRuler (λ targets subjects. available_filter C rule details targets policy subjects)
available_filter-IsRuler = available_filter-Decides
