-- ===== src/Transition/Polling.antt =====
-- pkg/controllers/podtransitionrule/processor/rules/polling.go: the tasks that ask a webhook again
-- and again. The clock and the answers are arguments; an HTTP request that fails is an error. (The
-- pool of workers, the locks and the texts for people are left out.)
pub mod Poll
pub mod Guarded
pub mod Examples
use kuperator.Common.{
  ℕ, suc, ◌+◌, ◌*◌, ◌≤◌, ◌≡◌, Bool, true, false, not, ◌&&◌, ◌||◌, Option, none, some, List, [], ◌∷◌,
  ◌++◌, if◌then◌else◌, ltb, Text, Dict, lookup, insert, delete, Error, Result, ok, err, Outcome,
  returns, panics,
}
use kuperator.Transition.Rules.{insert_all}

pub record PollResult : Type 0 where
  pub count : ℕ
  pub stopped : Bool
  pub approve_all : Bool
  pub approved : List Text
  pub last_error : Option Error
  pub last_query_time : ℕ

-- What a webhook answers to a poll (PollResponse of kusionstack.io/kube-api).
pub record PollResponse : Type 0 where
  pub success : Bool
  pub finished : Bool
  pub stop : Bool
  pub finished_names : List Text

-- Times are nanoseconds.
pub record Task : Type 0 where
  pub url : Text
  pub resource_key : Text
  pub timeout_time : ℕ
  pub deadline_time : ℕ
  pub interval : ℕ
  pub result : PollResult

abbrev pub is_stopped : PollResult → Bool
is_stopped r = r.stopped

abbrev pub answered : ℕ → Result PollResponse → PollResult → PollResult
answered now (err e) r = record r {
  count = suc r.count;
  last_error = some e;
  last_query_time = now;
}
answered now (ok res) r = record r {
  count = suc r.count;
  last_error = none;
  last_query_time = now;
  approved = insert_all res.finished_names r.approved;
  approve_all = (res.success && res.finished) || r.approve_all;
  stopped = (res.success && res.finished) || (res.stop || r.stopped);
}

abbrev pub finishes : Result PollResponse → PollResult → Bool
finishes (err e) r = false
finishes (ok res) r = r.stopped

-- What do() leaves and returns, at a time and with the answer that the webhook has for a query.
unfoldable pub do_poll : ℕ → Result PollResponse → Task → Task × Bool
do_poll now response t =
    if t.result.stopped
    then (t, false)
    else if ltb t.timeout_time now
    then (record t { result = record (t.result) { stopped = true } }, false)
    else (
      record t { result = answered now response t.result },
      finishes response (answered now response t.result),
    )

-- The tasks, the ids that timers and the queue still hold with the time from which they run, the ids
-- to delete, and the keys that listeners were told of.
pub record Runner : Type 0 where
  pub tasks : Dict Task
  pub pending : List (Text × ℕ)
  pub to_delete : List Text
  pub told : List Text

-- TaskDeadLineSeconds
abbrev pub deadline_seconds : ℕ
deadline_seconds = 60

abbrev pub second : ℕ
second = 1000000000

unfoldable pub add_after : ℕ → Text → ℕ → Runner → Runner
add_after now id d r = record r { pending = r.pending ++ ((id, now + d) ∷ []) }

abbrev new_result : PollResult
new_result = record {
  count = 0;
  stopped = false;
  approve_all = false;
  approved = [];
  last_error = none;
  last_query_time = 0;
}

-- (59 is TaskDeadLineSeconds - 1.)
abbrev pub new_task : ℕ → Text → Text → ℕ → ℕ → Task
new_task now url resource_key timeout interval = record {
  url = url;
  resource_key = resource_key;
  timeout_time = now + timeout;
  deadline_time = now + (timeout + 59 * second);
  interval = interval;
  result = new_result;
}

unfoldable pub add : ℕ → Text → Text → Text → ℕ → ℕ → Runner → Runner
add now id url resource_key timeout interval r =
    add_after now id (timeout + deadline_seconds * second) (
      add_after now id interval
        (record r { tasks = insert id (new_task now url resource_key timeout interval) r.tasks }))

-- Delete
unfoldable pub delete_task : Text → Runner → Runner
delete_task id r = record r { tasks = delete id r.tasks }

abbrev result_or_panic : Option Task → Outcome PollResult
result_or_panic none = panics
result_or_panic (some t) = returns t.result

-- GetResult: the result of a missing task is read through a nil pointer.
unfoldable pub get_result : Text → Runner → Outcome PollResult
get_result id r = result_or_panic (lookup id r.tasks)

abbrev pub after_poll : ℕ → Text → Runner → Task × Bool → Runner
after_poll now id r (t, finished) =
    let done : Runner = record r {
      tasks = insert id t r.tasks;
      told = r.told ++ (t.resource_key ∷ []);
    } in
    if finished then done else add_after now id t.interval done

abbrev pub do_found : ℕ → Result PollResponse → Text → Runner → Option Task → Runner
do_found now response id r none = r
do_found now response id r (some t) =
    if ltb t.deadline_time now
    then record r { to_delete = r.to_delete ++ (id ∷ []) }
    else after_poll now id r (do_poll now response t)

-- doTask
unfoldable pub do_task : ℕ → Result PollResponse → Text → Runner → Runner
do_task now response id r = do_found now response id r (lookup id r.tasks)

-- What the runner does: another component adds or deletes a task, a worker takes an id whose time has
-- come, or the ids to delete are taken up.
pub data Step : Runner → Runner → Type 0 where
  adds :
      (r : Runner) (now : ℕ) (id url resource_key : Text) (timeout interval : ℕ)
      → Step r (add now id url resource_key timeout interval r)
  deletes : (r : Runner) (id : Text) → Step r (delete_task id r)
  runs :
      (r : Runner) (now at : ℕ) (response : Result PollResponse) (id : Text)
      (before after : List (Text × ℕ))
      → r.pending ≡ before ++ ((id, at) ∷ after)
      → at ≤ now
      → Step r (do_task now response id (record r { pending = before ++ after }))
  takes :
      (r : Runner) (id : Text) (rest : List Text)
      → r.to_delete ≡ (id ∷ rest)
      → Step r (delete_task id (record r { to_delete = rest }))

pub data Reach (r : Runner) : Runner → Type 0 where
  here : Reach r r
  next : {s t : Runner} → Reach r s → Step s t → Reach r t

abbrev pub no_tasks : Runner
no_tasks = record { tasks = []; pending = []; to_delete = []; told = [] }
