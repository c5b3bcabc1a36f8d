-- ===== src/Transition/Webhook/Tasks.antt =====
-- pkg/controllers/podtransitionrule/processor/rules/webhook.go: the part of Do that goes through the
-- tasks of the state.
use kuperator.Common.{
  ℕ, ◌-◌, ◌*◌, Bool, true, false, not, ◌||◌, Option, none, some, List, [], ◌∷◌, if◌then◌else◌, ltb,
  Text, Dict, insert, Outcome, returns, panics,
}
use kuperator.Pod.{Pod, contains, set_insert}
use kuperator.Transition.Detail.{Reason, polling_stopped, polling_running}
use kuperator.Transition.Rules.{insert_all}
use kuperator.Transition.Polling.{PollResult, Runner, delete_task, get_result, second}
use kuperator.Transition.Webhook.{
  TaskInfo, Webhook, remove, intersection, has_any, approve, record_task_info,
}

-- The variables of Do while it goes through the tasks.
pub record Trace : Type 0 where
  pub checked : List Text
  pub rejected_pods : Dict Reason
  pub history_info : Dict TaskInfo
  pub task_info : Dict TaskInfo
  pub tracing : List Text
  pub runner : Runner

-- The subjects that are approved already.
unfoldable pub approved_subjects : Webhook → List (Text × Pod) → List Text
approved_subjects w [] = []
approved_subjects w ((k, pod) ∷ subjects) =
    let rest = approved_subjects w subjects in
    if w.is_approved pod.name then set_insert k rest else rest

abbrev is_recent : ℕ → Option ℕ → Bool
is_recent now none = false
is_recent now (some t) = ltb (now - t) (600 * second)

unfoldable pub recent_history : ℕ → List TaskInfo → Dict TaskInfo
recent_history now [] = []
recent_history now (t ∷ ts) =
    let rest = recent_history now ts in
    if is_recent now t.last_time then insert t.task_id t rest else rest

abbrev pub is_nil : List Text → Bool
is_nil [] = true
is_nil (k ∷ ks) = false

-- The loop over the current pods of a task.
unfoldable pub decide_pod : PollResult → Text → Trace → Trace
decide_pod p k tr =
    if contains k p.approved
    then record tr { checked = set_insert k tr.checked }
    else if p.stopped
    then record tr {
      tracing = remove k tr.tracing;
      rejected_pods = insert k polling_stopped tr.rejected_pods;
    }
    else record tr { rejected_pods = insert k polling_running tr.rejected_pods }

unfoldable pub decide_current : PollResult → List Text → Trace → Trace
decide_current p [] tr = tr
decide_current p (k ∷ ks) tr = decide_current p ks (decide_pod p k tr)

abbrev pub to_history : TaskInfo → Trace → Trace
to_history t tr = record tr {
  history_info = insert t.task_id t tr.history_info;
  runner = delete_task t.task_id tr.runner;
}

-- A task whose polls are over is recorded in the history, and another in the new state.
abbrev pub record_poll : TaskInfo → PollResult → Trace → Trace
record_poll t p tr =
    if p.stopped
    then to_history (record (approve t p.approved) { last_time = some p.last_query_time }) tr
    else record tr {
      task_info = insert t.task_id (record_task_info t p.last_query_time p.approved) tr.task_info;
    }

abbrev pub approve_task : TaskInfo → PollResult → List Text → Trace → Trace
approve_task t p current tr = record tr {
  task_info = insert t.task_id (record_task_info t p.last_query_time t.processing) tr.task_info;
  checked = insert_all current tr.checked;
  runner = delete_task t.task_id tr.runner;
}

abbrev pub after_result : TaskInfo → List Text → Trace → Outcome PollResult → Outcome Trace
after_result t current tr panics = panics
after_result t current tr (returns p) = returns (
    if p.approve_all
    then approve_task t p current tr
    else decide_current p current (record_poll t p tr))

-- A task that processes some of the subjects. (GetResult never gives a nil result, so the branch for
-- one is left out.)
abbrev pub trace_current : List Text → TaskInfo → Trace → Outcome Trace
trace_current effective t tr =
    let current = insert_all (intersection effective t.processing) [] in
    let tr_one = record tr {
      checked = insert_all (intersection effective t.approved) tr.checked;
      tracing = insert_all current tr.tracing;
    } in
    after_result t current tr_one (get_result t.task_id tr.runner)

unfoldable pub trace_task : List Text → TaskInfo → Trace → Outcome Trace
trace_task effective t tr =
    if is_nil t.processing || not (has_any effective t.processing)
    then returns (to_history t tr)
    else trace_current effective t tr

unfoldable pub trace_tasks : List Text → List TaskInfo → Outcome Trace → Outcome Trace
trace_tasks effective ts panics = panics
trace_tasks effective [] (returns tr) = returns tr
trace_tasks effective (t ∷ ts) (returns tr) = trace_tasks effective ts (trace_task effective t tr)
