-- ===== src/Transition/Webhook/Do.antt =====
-- pkg/controllers/podtransitionrule/processor/rules/webhook.go: Do.
pub mod Traced
pub mod Turns
pub mod Decisive
use kuperator.Common.{
  ℕ, ◌*◌, Bool, true, false, not, ◌&&◌, ◌||◌, Option, none, some, List, [], ◌∷◌, if◌then◌else◌,
  Text, Dict, insert, Error, no_poll_config, Result, ok, err, Outcome, returns, panics,
}
use kuperator.Pod.{Pod, contains, set_insert}
use kuperator.Transition.Detail.{
  Reason, request_failed, webhook_rejected, empty_task, polling_started, filter_error,
}
use kuperator.Transition.Rules.{Poll, FilterResult, resolve, insert_all, reject_each}
use kuperator.Transition.Polling.{Runner, add, second}
use kuperator.Transition.Webhook.{
  TaskInfo, Webhook, Response, remove_all, intersection, should_poll, get_task_id, get_polling_url,
  update_interval,
}
use kuperator.Transition.Webhook.Tasks.{Trace, approved_subjects, recent_history, trace_tasks}
use kuperator.Transition.Webhook.Request.{Outside, query}

abbrev pub values_of : Dict TaskInfo → List TaskInfo
values_of [] = []
values_of ((k, t) ∷ m) = t ∷ values_of m

-- The result, the new state of the rule, and the tasks that are polled.
pub record Done : Type 0 where
  pub result : FilterResult
  pub new_tasks : List TaskInfo
  pub new_history : List TaskInfo
  pub after : Runner

-- What Do returns with the sets that it has, and the interval until a retry.
abbrev pub done : Option ℕ → Option Error → Trace → Done
done interval failure tr = record {
  result = record {
    passed = tr.checked;
    rejected = tr.rejected_pods;
    interval = interval;
    failure = failure;
    rule_state = true;
  };
  new_tasks = values_of tr.task_info;
  new_history = values_of tr.history_info;
  after = tr.runner;
}

abbrev pub pass_more : List Text → Trace → Trace
pass_more ks tr = record tr { checked = insert_all ks tr.checked }

abbrev pub reject_more : List Text → Reason → Trace → Trace
reject_more ks reason tr = record tr { rejected_pods = reject_each ks reason tr.rejected_pods }

-- newTaskInfo
abbrev pub new_task_info : ℕ → Text → List Text → List Text → TaskInfo
new_task_info now task processing approved = record {
  task_id = task;
  begin_time = now;
  last_time = none;
  processing = processing;
  approved = approved;
}

-- A task for the polls, with the pods that it still processes.
abbrev pub start_task : ℕ → Webhook → Text → Poll → Text → List Text → List Text → Trace → Trace
start_task now w task p url processing approved tr = record tr {
  runner =
      add now task url w.key (p.timeout_seconds * second) (p.interval_seconds * second) tr.runner;
  task_info = insert task (new_task_info now task processing approved) tr.task_info;
}

-- (getPollingUrl fails exactly if there is no configuration.)
abbrev pub start_polls :
    ℕ
    → Webhook
    → Text
    → List Text
    → List Text
    → List Text
    → Trace
    → Option Poll
    → Option Text
    → Done
start_polls now w task effective processing approved tr (some p) (some url) = done none none (
    reject_more processing polling_started
      (pass_more approved (start_task now w task p url processing approved tr)))
start_polls now w task effective processing approved tr o none =
    done none (some no_poll_config) (reject_more effective (filter_error no_poll_config) tr)
start_polls now w task effective processing approved tr none (some url) =
    done none (some no_poll_config) (reject_more effective (filter_error no_poll_config) tr)

abbrev pub poll_or_reject : ℕ → Webhook → List Text → List Text → List Text → Trace → Text → Done
poll_or_reject now w effective processing approved tr [] =
    done none none (reject_more effective empty_task tr)
poll_or_reject now w effective processing approved tr (c ∷ task) =
    start_polls now w (c ∷ task) effective processing approved tr w.poll
      (get_polling_url w.poll (c ∷ task))

-- What the answer to the first request makes of the subjects that are left.
abbrev pub after_query : ℕ → Webhook → List Text → Trace → Outcome (Result Response) → Outcome Done
after_query now w effective tr panics = panics
after_query now w effective tr (returns (err e)) =
    returns (done none (some e) (reject_more effective request_failed tr))
after_query now w effective tr (returns (ok res)) =
    let processing = remove_all res.finished_names effective in
    let approved = intersection effective res.finished_names in
    returns (
      if not res.success
      then done (update_interval (5 * second) none) none
          (reject_more processing webhook_rejected (pass_more approved tr))
      else if not (should_poll res)
      then done none none (pass_more effective tr)
      else poll_or_reject now w effective processing approved tr (get_task_id res))

abbrev pub query_resolved :
    ℕ → Outside → Webhook → List Text → Trace → Option (List (Text × Pod)) → Outcome Done
query_resolved now O w effective tr none = panics
query_resolved now O w effective tr (some pods) =
    after_query now w effective tr (query O w.parameters pods)

abbrev pub query_left : ℕ → Outside → Webhook → Dict Pod → Trace → List Text → Outcome Done
query_left now O w targets tr [] = returns (done none none tr)
query_left now O w targets tr (k ∷ ks) =
    query_resolved now O w (k ∷ ks) tr (resolve targets (k ∷ ks))

-- The subjects that no task traces and that are not checked.
abbrev pub left_of : List Text → Trace → List Text
left_of effective tr = remove_all tr.checked (remove_all tr.tracing effective)

abbrev pub after_tasks : ℕ → Outside → Webhook → Dict Pod → List Text → Outcome Trace → Outcome Done
after_tasks now O w targets effective panics = panics
after_tasks now O w targets effective (returns tr) =
    query_left now O w targets tr (left_of effective tr)

abbrev pub start_trace : ℕ → Webhook → List Text → Runner → Trace
start_trace now w approved runner = record {
  checked = approved;
  rejected_pods = [];
  history_info = recent_history now w.history;
  task_info = [];
  tracing = [];
  runner = runner;
}

abbrev pub do_resolved :
    ℕ
    → Outside
    → Webhook
    → Dict Pod
    → List Text
    → Runner
    → Option (List (Text × Pod))
    → Outcome Done
do_resolved now O w targets subjects runner none = panics
do_resolved now O w targets subjects runner (some pods) =
    let approved = approved_subjects w pods in
    let effective = remove_all approved subjects in
    after_tasks now O w targets effective
      (trace_tasks effective w.task_states (returns (start_trace now w approved runner)))

unfoldable pub do_webhook : ℕ → Outside → Webhook → Dict Pod → List Text → Runner → Outcome Done
do_webhook now O w targets subjects runner =
    do_resolved now O w targets subjects runner (resolve targets subjects)
