-- ===== src/Jobs/Operate.antt =====
-- pkg/controllers/operationjob/operationjob_manager.go and utils/lifecycle.go: how a job operates on
-- its targets and learns how far they are. (Events, and the errors noted in a status, are left out;
-- every target has a status, as listTargets gives it; what a handler notes in the extra information
-- of a target when it is asked for the progress is left out.)
use kuperator.Common.{
  ℕ, Bool, true, false, not, ◌&&◌, ◌||◌, Option, none, some, [], if◌then◌else◌, ltb, is_some, Text,
  Error, Result, ok, err, Outcome, returns, panics,
}
use kuperator.Pod.{Names, Pod}
use kuperator.Lifecycle.Ids.{is_lifecycle_on_pod, num_of_lifecycle_on_pod}
use kuperator.Lifecycle.Operation.{Adapter, Client, is_during_ops, allow_ops, begin, finish, undo}
use kuperator.Jobs.{
  Progress, processing, failed, succeeded, OpsStatus, OpsCandidate, set_ops_status,
  is_candidate_ops_pending, is_candidate_ops_finished, is_candidate_service_available,
  mark_candidate_failed,
}

pub data ActionProgress : Type 0 where
  action_processing action_failed action_succeeded action_unknown : ActionProgress

-- What a job works with: the names of labels, the cluster, the store of expected versions, the
-- adapter of the lifecycle, the delay of an operation, and the progress that the handler of the
-- action reports (ActionHandler.GetOpsProgress).
pub record Site : Type 0 where
  pub names : Names
  pub client : Client
  pub now : ℕ
  pub now_text : Text
  pub expect_update : Pod → Option Error
  pub adapter : Adapter
  pub enable_lifecycle : Bool
  pub delay_seconds : ℕ
  pub get_ops_progress : OpsCandidate → ActionProgress × Option Error

abbrev expected : Site → Pod × Bool × Option Error → Pod × Bool × Option Error
expected W (pod, updated, some e) = (pod, false, some e)
expected W (pod, true, none) = (pod, true, W.expect_update pod)
expected W (pod, false, none) = (pod, true, none)

abbrev begin_unless_busy : Site → Pod → Result ℕ → Pod × Bool × Option Error
begin_unless_busy W pod (err e) = (pod, false, some e)
begin_unless_busy W pod (ok n) =
    if ltb 0 n
    then (pod, false, none)
    else expected W (begin W.names W.client W.now_text W.adapter [] pod)

-- BeginOperateLifecycle: the pod, whether the lifecycle is begun, and an error.
unfoldable pub begin_operate_lifecycle : Site → Pod → Pod × Bool × Option Error
begin_operate_lifecycle W pod = begin_unless_busy W pod (num_of_lifecycle_on_pod W.names pod.labels)

abbrev error_of : Pod × Bool × Option Error → Pod × Option Error
error_of (pod, updated, e) = (pod, e)

-- FinishOperateLifecycle
unfoldable pub finish_operate_lifecycle : Site → Pod → Pod × Option Error
finish_operate_lifecycle W pod = error_of (expected W (finish W.names W.client W.adapter [] pod))

abbrev undo_if_on : Site → Pod → Result Bool → Pod × Option Error
undo_if_on W pod (err e) = (pod, some e)
undo_if_on W pod (ok false) = (pod, none)
undo_if_on W pod (ok true) = undo W.names W.client W.adapter pod

-- CancelOpsLifecycle
unfoldable pub cancel_ops_lifecycle : Site → Pod → Pod × Option Error
cancel_ops_lifecycle W pod = undo_if_on W pod (is_lifecycle_on_pod W.names W.adapter.id pod.labels)

abbrev pub with_pod : OpsCandidate → Pod × Option Error → OpsCandidate × Option Error
with_pod c (pod, e) = (record c { pod = some pod }, e)

abbrev pub clean_pod : Site → Bool → OpsCandidate → Option Pod → OpsCandidate × Option Error
clean_pod W forced c none = (c, none)
clean_pod W forced c (some pod) =
    if forced
    then with_pod c (cancel_ops_lifecycle W pod)
    else if is_during_ops W.names W.adapter pod
    then with_pod c (finish_operate_lifecycle W pod)
    else (c, none)

unfoldable pub clean_candidate_ops_lifecycle :
    Site → Bool → OpsCandidate → OpsCandidate × Option Error
clean_candidate_ops_lifecycle W forced c = clean_pod W forced c c.pod

abbrev start_at : ℕ → Option ℕ → Option ℕ
start_at now none = some now
start_at now (some t) = some t

abbrev pub started_status : Site → OpsStatus → OpsStatus
started_status W s = record s { progress = processing; start_time = start_at W.now s.start_time }

abbrev pub started : Site → OpsCandidate → Option OpsStatus → OpsCandidate
started W c none = c
started W c (some s) = set_ops_status c (started_status W s)

-- The candidate, whether it is to be operated, and an error.
abbrev pub Operated : Type 0
Operated = OpsCandidate × Bool × Option Error

abbrev pub after_begin : Site → OpsCandidate → Bool → Pod × Bool × Option Error → Operated
after_begin W c allowed (pod, updated, some e) = (record c { pod = some pod }, false, some e)
after_begin W c allowed (pod, false, none) = (record c { pod = some pod }, false, none)
after_begin W c allowed (pod, true, none) =
    (started W (record c { pod = some pod }) c.ops_status, allowed, none)

abbrev pub failed_candidate : OpsCandidate → Outcome OpsCandidate → Operated
failed_candidate c panics = (c, false, none)
failed_candidate c (returns f) = (f, false, none)

abbrev pub operate_pod : Site → OpsCandidate → Option Pod → Operated
operate_pod W c none = failed_candidate c (mark_candidate_failed c)
operate_pod W c (some pod) =
    let allowed = (allow_ops W.names W.now W.adapter W.delay_seconds pod).1 in
    if not (is_candidate_ops_pending c)
    then (c, allowed, none)
    else if is_during_ops W.names W.adapter pod
    then (started W c c.ops_status, allowed, none)
    else after_begin W c allowed (begin_operate_lifecycle W pod)

abbrev pub operate_freely : Site → OpsCandidate → Operated
operate_freely W c =
    (if is_candidate_ops_pending c then started W c c.ops_status else c, true, none)

-- A call of filterAndOperateAllowOpsTargets.
unfoldable pub operate_candidate : Site → OpsCandidate → Operated
operate_candidate W c =
    if is_candidate_ops_finished c
    then (c, false, none)
    else if W.enable_lifecycle
    then operate_pod W c c.pod
    else operate_freely W c

abbrev pub with_progress : OpsCandidate → Progress → Option OpsStatus → OpsCandidate
with_progress c p none = c
with_progress c p (some s) = set_ops_status c (record s { progress = p })

-- The progress of the target that follows from that of the action.
abbrev pub transfer : Site → OpsCandidate → ActionProgress → OpsCandidate
transfer W c action_failed = with_progress c failed c.ops_status
transfer W c action_succeeded =
    if not W.enable_lifecycle || is_candidate_service_available W.names c
    then with_progress c succeeded c.ops_status
    else c
transfer W c _ = with_progress c processing c.ops_status

abbrev pub cleaned : Site → OpsCandidate → ActionProgress → OpsCandidate × Option Error
cleaned W c action_failed = clean_candidate_ops_lifecycle W true c
cleaned W c action_succeeded = clean_candidate_ops_lifecycle W false c
cleaned W c _ = (c, none)

abbrev pub transferred :
    Site → ActionProgress → Option Error → OpsCandidate × Option Error → OpsCandidate × Option Error
transferred W p e (c, some clean_error) = (c, some clean_error)
transferred W p e (c, none) = (transfer W c p, e)

abbrev pub status_from :
    Site → OpsCandidate → ActionProgress × Option Error → OpsCandidate × Option Error
status_from W c (p, e) = transferred W p e (if W.enable_lifecycle then cleaned W c p else (c, none))

-- A call of getTargetsOpsStatus.
unfoldable pub status_of_candidate : Site → OpsCandidate → OpsCandidate × Option Error
status_of_candidate W c =
    if is_candidate_ops_finished c
      || ((W.enable_lifecycle && not (is_some c.pod)) || is_candidate_ops_pending c)
    then (c, none)
    else status_from W c (W.get_ops_progress c)
