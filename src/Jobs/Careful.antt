-- ===== src/Jobs/Careful.antt =====
-- pkg/controllers/operationjob/operationjob_manager.go: what filterAndOperateAllowOpsTargets may do with
-- a target.
use kuperator.Common.{
  ◌≡◌, refl, sym, subst, Bool, true, false, not, ◌&&◌, Option, none, some, arith, if◌then◌else◌,
  if-both, Bool-cases, inl, inr, Error,
}
use kuperator.Pod.{Pod}
use kuperator.Lifecycle.Operation.{is_during_ops, allow_ops}
use kuperator.Jobs.{
  OpsStatus, OpsCandidate, is_succeeded, is_candidate_ops_pending, is_candidate_ops_finished,
  mark_candidate_failed, failed_unless_succeeded,
}
use kuperator.Jobs.Operate.{
  Site, Operated, started, operate_pod, operate_freely, operate_candidate, after_begin,
  failed_candidate, begin_operate_lifecycle,
}

abbrev succeeded_in : Option OpsStatus → Bool
succeeded_in none = false
succeeded_in (some s) = is_succeeded s.progress

abbrev pub has_succeeded : OpsCandidate → Bool
has_succeeded c = succeeded_in c.ops_status

abbrev allowed_on : Site → Option Pod → Bool
allowed_on W none = false
allowed_on W (some pod) = (allow_ops W.names W.now W.adapter W.delay_seconds pod).1

-- AllowOps allows the operation on the pod of the target.
abbrev pub is_allowed : Site → OpsCandidate → Bool
is_allowed W c = allowed_on W c.pod

-- What operating on a target may do.
abbrev pub IsCareful : Site → OpsCandidate → Operated → Type 0
IsCareful W c (after, allowed, e) =
    ((allowed && (W.enable_lifecycle && not (is_allowed W c))) ≡ false)
    × ((has_succeeded after && not (has_succeeded c)) ≡ false)

started-fresh :
    (W : Site) (c : OpsCandidate) (o : Option OpsStatus)
    → c.ops_status ≡ o
    → (has_succeeded (started W c o) && not (has_succeeded c)) ≡ false
started-fresh W c none e = ground arith
started-fresh W c (some s) e = refl

after_begin-IsCareful :
    (W : Site) (c : OpsCandidate) (r : Pod × Bool × Option Error)
    → IsCareful W c (after_begin W c (is_allowed W c) r)
after_begin-IsCareful W c (pod, updated, some e) = (refl, ground arith)
after_begin-IsCareful W c (pod, false, none) = (refl, ground arith)
after_begin-IsCareful W c (pod, true, none) =
    (ground arith, started-fresh W (record c { pod = some pod }) c.ops_status refl)

failed_candidate-IsCareful :
    (W : Site) (c : OpsCandidate) (o : Option OpsStatus)
    → IsCareful W c (failed_candidate c (failed_unless_succeeded c o))
failed_candidate-IsCareful W c none = (refl, ground arith)
failed_candidate-IsCareful W c (some s) =
    if-both (λ x. IsCareful W c (failed_candidate c x)) (is_succeeded s.progress)
      (refl, ground arith) (refl, refl)

operate_pod-IsCareful :
    (W : Site) (c : OpsCandidate) (o : Option Pod) → c.pod ≡ o → IsCareful W c (operate_pod W c o)
unfolding mark_candidate_failed
operate_pod-IsCareful W c none e = failed_candidate-IsCareful W c c.ops_status
operate_pod-IsCareful W c (some pod) e =
    let at_pod : is_allowed W c ≡ (allow_ops W.names W.now W.adapter W.delay_seconds pod).1 =
      rw e refl in
    if-both (IsCareful W c) (not (is_candidate_ops_pending c))
      (ground (arith, at_pod), ground arith)
      (if-both (IsCareful W c) (is_during_ops W.names W.adapter pod)
        (ground (arith, at_pod), started-fresh W c c.ops_status refl)
        (subst (λ allowed. IsCareful W c (after_begin W c allowed (begin_operate_lifecycle W pod)))
          at_pod (after_begin-IsCareful W c (begin_operate_lifecycle W pod))))

operate_freely-IsCareful :
    (W : Site) (c : OpsCandidate) → W.enable_lifecycle ≡ false → IsCareful W c (operate_freely W c)
operate_freely-IsCareful W c off = (
  ground (arith, off),
  if-both (λ x. (has_succeeded x && not (has_succeeded c)) ≡ false) (is_candidate_ops_pending c)
      (started-fresh W c c.ops_status refl) (ground arith),
)

pub operate_candidate-IsCareful :
    (W : Site) (c : OpsCandidate) → IsCareful W c (operate_candidate W c)
unfolding operate_candidate
operate_candidate-IsCareful W c =
    if-both (IsCareful W c) (is_candidate_ops_finished c) (refl, ground arith)
      (elim (Bool-cases W.enable_lifecycle) [
        | inl on ↦
            subst (λ b. IsCareful W c (if b then operate_pod W c c.pod else operate_freely W c))
              (sym on) (operate_pod-IsCareful W c c.pod refl)
        | inr off ↦
            subst (λ b. IsCareful W c (if b then operate_pod W c c.pod else operate_freely W c))
              (sym off) (operate_freely-IsCareful W c off)
      ])

pub finished-not_operated :
    (W : Site) (c : OpsCandidate)
    → (is_candidate_ops_finished c && (operate_candidate W c).1) ≡ false
unfolding operate_candidate
finished-not_operated W c = elim (Bool-cases (is_candidate_ops_finished c)) [
  | inl holds ↦ rw holds refl
  | inr fails ↦ rw fails refl
]
