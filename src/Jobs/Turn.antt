-- ===== src/Jobs/Turn.antt =====
-- pkg/controllers/operationjob/operationjob_manager.go: a target in doReconcile, first operated and
-- then asked how far it is.
use kuperator.Common.{
  ◌≡◌, refl, sym, subst, Bool, true, false, not, ◌&&◌, ◌||◌, Option, none, some, arith,
  if◌then◌else◌, if-both, is_some, Bool-cases, inl, inr, Error,
}
use kuperator.Pod.{Names, Pod}
use kuperator.Lifecycle.Operation.{is_during_ops}
use kuperator.Jobs.{
  Progress, processing, failed, succeeded, OpsStatus, OpsCandidate, is_succeeded,
  is_candidate_ops_pending, is_candidate_ops_finished, is_candidate_service_available,
}
use kuperator.Jobs.Operate.{
  ActionProgress, action_processing, action_failed, action_succeeded, action_unknown, Site,
  operate_candidate, transfer, with_progress, cleaned, transferred, status_from,
  status_of_candidate, clean_candidate_ops_lifecycle, clean_pod, with_pod, cancel_ops_lifecycle,
  finish_operate_lifecycle,
}
use kuperator.Jobs.Careful.{
  has_succeeded, is_allowed, operate_candidate-IsCareful, finished-not_operated,
}

abbrev is_success : ActionProgress → Bool
is_success action_succeeded = true
is_success _ = false

-- The action reports success, and with a lifecycle the pod serves again.
abbrev pub is_complete : Site → OpsCandidate → OpsCandidate → Bool
is_complete W asked c =
    is_success (W.get_ops_progress asked).0
    && (not W.enable_lifecycle || is_candidate_service_available W.names c)

-- What asking for the progress of a target may do.
abbrev IsHonest : Site → OpsCandidate → OpsCandidate × Option Error → Type 0
IsHonest W c (after, e) =
    (has_succeeded after && not (has_succeeded c || is_complete W c after)) ≡ false

-- A candidate with another pod.
abbrev SameStatus : OpsCandidate → OpsCandidate × Option Error → Type 0
SameStatus c (after, e) = after.ops_status ≡ c.ops_status

with_pod-SameStatus : (c : OpsCandidate) (r : Pod × Option Error) → SameStatus c (with_pod c r)
with_pod-SameStatus c (pod, e) = refl

clean_pod-SameStatus :
    (W : Site) (forced : Bool) (c : OpsCandidate) (o : Option Pod)
    → SameStatus c (clean_pod W forced c o)
clean_pod-SameStatus W forced c none = refl
clean_pod-SameStatus W forced c (some pod) =
    if-both (SameStatus c) forced (with_pod-SameStatus c (cancel_ops_lifecycle W pod)) (
      if-both (SameStatus c) (is_during_ops W.names W.adapter pod)
        (with_pod-SameStatus c (finish_operate_lifecycle W pod)) refl)

cleaned-SameStatus :
    (W : Site) (c : OpsCandidate) (p : ActionProgress) → SameStatus c (cleaned W c p)
unfolding clean_candidate_ops_lifecycle
cleaned-SameStatus W c action_processing = refl
cleaned-SameStatus W c action_failed = clean_pod-SameStatus W true c c.pod
cleaned-SameStatus W c action_succeeded = clean_pod-SameStatus W false c c.pod
cleaned-SameStatus W c action_unknown = refl

with_progress-unfinished :
    (c : OpsCandidate) (p : Progress) (o : Option OpsStatus)
    → is_succeeded p ≡ false
    → (has_succeeded (with_progress c p o) && not (has_succeeded c)) ≡ false
with_progress-unfinished c p none e = ground arith
with_progress-unfinished c p (some s) e = ground (arith, e)

same-succeeded :
    (c : OpsCandidate) (r : OpsCandidate × Option Error)
    → SameStatus c r
    → has_succeeded r.0 ≡ has_succeeded c
same-succeeded c (after, e) same = rw same refl

unfinished-IsHonest :
    (W : Site) (c : OpsCandidate) (p : Progress) (r : OpsCandidate × Option Error)
    (e : Option Error)
    → is_succeeded p ≡ false
    → has_succeeded r.0 ≡ has_succeeded c
    → IsHonest W c (with_progress r.0 p r.0.ops_status, e)
unfinished-IsHonest W c p r e unfinished same =
    let small = with_progress-unfinished r.0 p r.0.ops_status unfinished in
    ground (arith, small, same)

-- The pod, and so its availability, is that of the candidate.
with_progress-available :
    (N : Names) (c : OpsCandidate) (p : Progress) (o : Option OpsStatus)
    → is_candidate_service_available N (with_progress c p o) ≡ is_candidate_service_available N c
unfolding is_candidate_service_available
with_progress-available N c p none = refl
with_progress-available N c p (some s) = refl

succeeded-IsHonest :
    (W : Site) (c : OpsCandidate) (c' : OpsCandidate) (e : Option Error)
    → (W.get_ops_progress c).0 ≡ action_succeeded
    → has_succeeded c' ≡ has_succeeded c
    → IsHonest W c (transfer W c' action_succeeded, e)
succeeded-IsHonest W c c' e at same =
    let success : is_success (W.get_ops_progress c).0 ≡ true = rw at refl in
    let available = with_progress-available W.names c' succeeded c'.ops_status in
    elim (Bool-cases (not W.enable_lifecycle || is_candidate_service_available W.names c')) [
      | inl holds ↦
          subst (λ b. IsHonest W c (if b then with_progress c' succeeded c'.ops_status else c', e))
            (sym holds) (ground (arith, success, available, holds))
      | inr fails ↦
          subst (λ b. IsHonest W c (if b then with_progress c' succeeded c'.ops_status else c', e))
            (sym fails) (ground (arith, same))
    ]

transferred-IsHonest :
    (W : Site) (c : OpsCandidate) (p : ActionProgress) (e : Option Error)
    (r : OpsCandidate × Option Error)
    → (W.get_ops_progress c).0 ≡ p
    → has_succeeded r.0 ≡ has_succeeded c
    → IsHonest W c (transferred W p e r)
transferred-IsHonest W c p e (c', some clean_error) at same = ground (arith, same)
transferred-IsHonest W c action_processing e (c', none) at same =
    unfinished-IsHonest W c processing (c', none) e refl same
transferred-IsHonest W c action_failed e (c', none) at same =
    unfinished-IsHonest W c failed (c', none) e refl same
transferred-IsHonest W c action_succeeded e (c', none) at same = succeeded-IsHonest W c c' e at same
transferred-IsHonest W c action_unknown e (c', none) at same =
    unfinished-IsHonest W c processing (c', none) e refl same

status_from-IsHonest :
    (W : Site) (c : OpsCandidate) (p : ActionProgress) (e : Option Error)
    → (W.get_ops_progress c).0 ≡ p
    → IsHonest W c (status_from W c (p, e))
status_from-IsHonest W c p e at =
    if-both (λ r. IsHonest W c (transferred W p e r)) W.enable_lifecycle
      (transferred-IsHonest W c p e (cleaned W c p) at
        (same-succeeded c (cleaned W c p) (cleaned-SameStatus W c p)))
      (transferred-IsHonest W c p e (c, none) at refl)

status_of_candidate-IsHonest :
    (W : Site) (c : OpsCandidate) → IsHonest W c (status_of_candidate W c)
unfolding status_of_candidate
status_of_candidate-IsHonest W c =
    if-both (IsHonest W c)
      (is_candidate_ops_finished c
        || ((W.enable_lifecycle && not (is_some c.pod)) || is_candidate_ops_pending c))
      (ground arith)
      (status_from-IsHonest W c (W.get_ops_progress c).0 (W.get_ops_progress c).1 refl)

-- A call of filterAndOperateAllowOpsTargets for a target `c` neither operates on a finished target
-- nor, with a lifecycle, on a pod whose operation AllowOps does not allow, and makes no target
-- succeeded. A call of getTargetsOpsStatus for a target `asked` makes it succeeded only where the
-- handler reports success of the action and, with a lifecycle, the pod afterwards serves again.
pub turn-Safe :
    (W : Site) (c : OpsCandidate) (asked : OpsCandidate)
    → let operated = operate_candidate W c in
      let answer = status_of_candidate W asked in
      ((is_candidate_ops_finished c && operated.1) ≡ false)
      × ((operated.1 && (W.enable_lifecycle && not (is_allowed W c))) ≡ false)
      × ((has_succeeded operated.0 && not (has_succeeded c)) ≡ false)
      × ((has_succeeded answer.0 && not (has_succeeded asked || is_complete W asked answer.0))
          ≡ false)
turn-Safe W c asked =
    let careful = operate_candidate-IsCareful W c in
    (finished-not_operated W c, careful.0, careful.1, status_of_candidate-IsHonest W asked)
