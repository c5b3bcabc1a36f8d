-- ===== src/Transition/Rules/Available.antt =====
-- pkg/controllers/podtransitionrule/processor/rules/available.go: the ruler that keeps enough pods
-- available. (A Go int is a ℤ here, or a natural number where it is never negative.)
pub mod Budget
pub mod Decisive
use kuperator.Common.{
  ℕ, suc, ◌+◌, ◌-◌, ◌*◌, ◌%◌, Bool, true, false, not, ◌&&◌, ◌||◌, Option, none, some, List, [], ◌∷◌,
  if◌then◌else◌, length, ℤ, pos, to_nat, decrement, is_positive, leaves_none, word, signed_lt, Text,
  codes, text_eq, Dict, lookup, insert, Error, not_warmed_up, Result, ok, err, not_found, Outcome,
  returns, panics,
}
use kuperator.Pod.{Names, OwnerRef, Pod, is_pod_ready, is_pod_terminal, set_insert}
use kuperator.Transition.Detail.{Reason, min_available, max_unavailable, Detail}
use kuperator.Transition.Rules.{
  IntOrString, AvailablePolicy, FilterResult, reject_all_with_err, resolve, reject_each,
  is_pod_pass_rule,
}

-- A registered test of unavailability, with the seconds until the pod is available, an int64.
abbrev pub UnavailableFunc : Type 0
UnavailableFunc = Pod → Bool × Option ℕ

-- DefaultInit
unfoldable pub default_unavailable : Names → UnavailableFunc
default_unavailable N pod = (not (is_pod_ready N pod) || is_pod_terminal pod, none)

-- What the ruler reads beside its arguments: the registered tests, the API version of CollaSets, and
-- what the cluster has for a CollaSet of a namespace and a name, its UID and its replicas.
pub record Cluster : Type 0 where
  pub unavailable_funcs : List UnavailableFunc
  pub collaset_version : Text
  pub get_collaset : Text → Text → Result (Text × Option ℤ)

-- The shorter of two intervals, where nil is none.
abbrev pub min : Option ℕ → Option ℕ → Option ℕ
min none b = b
min (some a) none = some a
min (some a) (some b) = if signed_lt a b then some a else some b

-- The loop's state: whether the pod is unavailable, and the interval so far.
abbrev unavailable_by : Bool × Option ℕ → Bool × Option ℕ → Bool × Option ℕ
unavailable_by (false, interval) state = state
unavailable_by (true, none) (b, so_far) = (true, so_far)
unavailable_by (true, some t) (b, none) = (true, some t)
unavailable_by (true, some t) (b, some u) = (true, if signed_lt t u then some t else some u)

abbrev unavailable_loop : List UnavailableFunc → Pod → Bool × Option ℕ → Bool × Option ℕ
unavailable_loop [] pod state = state
unavailable_loop (f ∷ fs) pod state = unavailable_loop fs pod (unavailable_by (f pod) state)

unfoldable pub process_unavailable_func : Cluster → Pod → Bool × Option ℕ
process_unavailable_func C pod = unavailable_loop C.unavailable_funcs pod (false, none)

-- The desired and the current replicas of an owner, by its UID.
abbrev pub OwnerStats : Type 0
OwnerStats = Dict (ℤ × ℕ)

abbrev desired_of : Option ℤ → ℤ
desired_of none = pos 1
desired_of (some replicas) = replicas

-- The replicas that a reference desires: none if its CollaSet is gone, or is another by now.
unfoldable pub desired_replicas : OwnerRef → Result (Text × Option ℤ) → Result ℤ
desired_replicas ref (err not_found) = ok (pos 0)
desired_replicas ref (err e) = err e
desired_replicas ref (ok (uid, replicas)) =
    ok (if text_eq uid ref.uid then desired_of replicas else pos 0)

unfoldable pub is_collaset : Cluster → OwnerRef → Bool
is_collaset C ref =
    text_eq ref.owner_kind (codes "CollaSet") && text_eq ref.api_version C.collaset_version

abbrev counted_new : OwnerRef → OwnerStats → Result ℤ → Result OwnerStats
counted_new ref stats (err e) = err e
counted_new ref stats (ok desired) = ok (insert ref.uid (desired, 1) stats)

abbrev counted : Cluster → Pod → OwnerRef → OwnerStats → Option (ℤ × ℕ) → Result OwnerStats
counted C pod ref stats (some (desired, current)) = ok (insert ref.uid (desired, suc current) stats)
counted C pod ref stats none =
    counted_new ref stats (desired_replicas ref (C.get_collaset pod.namespace ref.owner_name))

unfoldable pub count_owner : Cluster → Pod → Option OwnerRef → OwnerStats → Result OwnerStats
unfolding is_collaset desired_replicas
count_owner C pod none stats = ok stats
count_owner C pod (some ref) stats =
    if is_collaset C ref then counted C pod ref stats (lookup ref.uid stats) else ok stats

unfoldable pub count_owners : Cluster → Dict Pod → Result OwnerStats → Result OwnerStats
unfolding count_owner
count_owners C targets (err e) = err e
count_owners C [] (ok stats) = ok stats
count_owners C ((k, pod) ∷ targets) (ok stats) =
    count_owners C targets (count_owner C pod pod.controller stats)

-- A deficit is added if it is positive: the difference stops at 0 here.
unfoldable pub uncreated : OwnerStats → ℕ
uncreated [] = 0
uncreated ((uid, (desired, current)) ∷ stats) = (to_nat desired - current) + uncreated stats

abbrev uncreated_of : Result OwnerStats → Result ℕ
uncreated_of (err e) = err e
uncreated_of (ok stats) = ok (uncreated stats)

unfoldable pub consider_owner_replicas : Cluster → Dict Pod → Result ℕ
unfolding count_owners uncreated
consider_owner_replicas C targets = uncreated_of (count_owners C targets (ok []))

-- The names of the targets.
unfoldable pub effective_targets : Dict Pod → List Text → List Text
effective_targets [] names = names
effective_targets ((k, pod) ∷ targets) names = effective_targets targets (set_insert pod.name names)

-- The first loop: what is left to allow, the pods that are available, and the shortest wait.
pub record Tally : Type 0 where
  pub allow : ℤ
  pub available : ℕ
  pub min_time_left : Option ℕ

-- The second loop: the pods that pass, and those that either policy rejects.
pub record Verdict : Type 0 where
  pub allow_left : ℤ
  pub available_left : ℤ
  pub pass : List Text
  pub by_max : List Text
  pub by_min : List Text

abbrev pub has_passed : Text → List Detail → Pod → Bool
has_passed rule details pod = is_pod_pass_rule pod.name details rule

abbrev pub is_unavailable : Cluster → Pod → Bool
is_unavailable C pod = (process_unavailable_func C pod).0

unfoldable pub survey_pod : Cluster → Text → List Detail → Pod → Tally → Tally
survey_pod C rule details pod t =
    if has_passed rule details pod
    then record t { allow = decrement t.allow }
    else if is_unavailable C pod
    then record t {
      allow = decrement t.allow;
      min_time_left = min t.min_time_left (process_unavailable_func C pod).1;
    }
    else record t { available = suc t.available }

unfoldable pub survey : Cluster → Text → List Detail → List (Text × Pod) → Tally → Tally
unfolding survey_pod
survey C rule details [] t = t
survey C rule details ((k, pod) ∷ pods) t =
    survey C rule details pods (survey_pod C rule details pod t)

unfoldable pub approve_pod : Cluster → Text → List Detail → ℤ → Text × Pod → Verdict → Verdict
approve_pod C rule details min_quota (k, pod) v =
    if has_passed rule details pod
    then record v { pass = set_insert pod.name v.pass }
    else if is_unavailable C pod
    then record v { pass = set_insert k v.pass }
    else if is_positive v.allow_left
    then (if leaves_none v.available_left min_quota
        then record v { by_min = set_insert k v.by_min }
        else record v {
          available_left = decrement v.available_left;
          pass = set_insert k v.pass;
          allow_left = decrement v.allow_left;
        })
    else record v { by_max = set_insert k v.by_max }

unfoldable pub approve_each :
    Cluster → Text → List Detail → ℤ → List (Text × Pod) → Verdict → Verdict
unfolding approve_pod
approve_each C rule details min_quota [] v = v
approve_each C rule details min_quota (s ∷ subjects) v =
    approve_each C rule details min_quota subjects (approve_pod C rule details min_quota s v)

-- A Duration, of a number of seconds.
abbrev pub seconds : ℕ → ℕ
seconds t = (t * 1000000000) % word

abbrev pub waiting : Option ℕ → FilterResult → FilterResult
waiting none r = r
waiting (some t) r = record r { interval = some (seconds t); failure = some not_warmed_up }

abbrev pub verdict_result : Option ℕ → Verdict → FilterResult
verdict_result min_time_left v = waiting min_time_left (record {
  passed = v.pass;
  rejected = reject_each v.by_max max_unavailable (reject_each v.by_min min_available []);
  interval = none;
  failure = none;
  rule_state = false;
})

-- The two loops, once the quotas are known.
abbrev pub start_verdict : Tally → Verdict
start_verdict t = record {
  allow_left = t.allow;
  available_left = pos t.available;
  pass = [];
  by_max = [];
  by_min = [];
}

abbrev pub approve_after :
    Cluster → Text → List Detail → ℤ → Tally → Option (List (Text × Pod)) → Outcome FilterResult
approve_after C rule details min_quota t none = panics
approve_after C rule details min_quota t (some subjects) = returns (
    verdict_result t.min_time_left
      (approve_each C rule details min_quota subjects (start_verdict t)))

abbrev pub survey_after :
    Cluster
    → Text
    → List Detail
    → ℕ
    → ℤ
    → Option (List (Text × Pod))
    → Option (List (Text × Pod))
    → Outcome FilterResult
survey_after C rule details allow min_quota none subjects = panics
survey_after C rule details allow min_quota (some pods) subjects =
    let start : Tally = record { allow = pos allow; available = 0; min_time_left = none } in
    approve_after C rule details min_quota (survey C rule details pods start) subjects

-- A quota of the policy, or its default.
unfoldable pub quota : Option IntOrString → ℕ → Bool → ℤ → Result ℤ
quota none total round_up default = ok default
quota (some value) total round_up default = value total round_up

module _ (C : Cluster) (rule : Text) (details : List Detail) (targets : Dict Pod) where
  abbrev pub with_owners : List Text → ℤ → ℤ → Result ℕ → Outcome FilterResult
  with_owners subjects max_quota min_quota (err e) = returns (reject_all_with_err subjects [] [] e)
  with_owners subjects max_quota min_quota (ok u) =
      survey_after C rule details (to_nat max_quota - u) min_quota
        (resolve targets (effective_targets targets [])) (resolve targets subjects)

  abbrev pub with_min : List Text → ℤ → Result ℤ → Outcome FilterResult
  with_min subjects max_quota (err e) = returns (reject_all_with_err subjects [] [] e)
  with_min subjects max_quota (ok min_quota) =
      with_owners subjects max_quota min_quota (consider_owner_replicas C targets)

  abbrev pub with_max : AvailablePolicy → List Text → Result ℤ → Outcome FilterResult
  with_max policy subjects (err e) = returns (reject_all_with_err subjects [] [] e)
  with_max policy subjects (ok max_quota) =
      let total = length (effective_targets targets []) in
      with_min subjects max_quota (quota policy.min_available_value total false (pos 0))

  unfoldable pub available_filter : AvailablePolicy → List Text → Outcome FilterResult
  unfolding quota effective_targets
  available_filter policy subjects =
      let total = length (effective_targets targets []) in
      with_max policy subjects (quota policy.max_unavailable_value total true (pos total))
