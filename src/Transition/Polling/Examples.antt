-- ===== src/Transition/Polling/Examples.antt =====
-- A task that a webhook approves in its first poll.
use kuperator.Common.{
  suc, ◌≡◌, refl, true, false, not, ◌&&◌, ◌||◌, none, [], ◌∷◌, if◌then◌else◌, ltb, codes, Result,
  ok, arith,
}
use kuperator.Pod.{contains}
use kuperator.Transition.Polling.{
  PollResponse, Task, Runner, Reach, here, next, adds, runs, no_tasks, add, add_after, do_task,
  do_poll,
}
use kuperator.Transition.Polling.Poll.{do_poll-Monotone}
use kuperator.Transition.Polling.Guarded.{is_guarded_at, Reach-IsGuarded}

abbrev approval : Result PollResponse
approval =
    ok (record { success = true; finished = false; stop = false; finished_names = codes "a" ∷ [] })

abbrev task : Task
task = record {
  url = codes "http://hook";
  resource_key = codes "default/rule";
  timeout_time = 100;
  deadline_time = 200;
  interval = 10;
  result = record {
    count = 0;
    stopped = false;
    approve_all = false;
    approved = [];
    last_error = none;
    last_query_time = 0;
  };
}

do_poll-Monotone_example :
    let after = (do_poll 50 approval task).0.result in
    ((contains (codes "a") task.result.approved && not (contains (codes "a") after.approved))
      ≡ false)
    × ((task.result.stopped && not after.stopped) ≡ false)
    × (after.count ≡ (
        if task.result.stopped || ltb task.timeout_time 50
        then task.result.count
        else suc task.result.count))
    × ((ltb task.timeout_time 50 && not after.stopped) ≡ false)
do_poll-Monotone_example = do_poll-Monotone 50 approval task (codes "a")

abbrev added : Runner
added = add 5 (codes "t") (codes "http://hook") (codes "default/rule") 100 10 no_tasks

abbrev polled : Runner
polled = do_task 15 approval (codes "t") (record added { pending = (codes "t", 60000000105) ∷ [] })

polled-Reach : Reach no_tasks polled
unfolding add add_after
polled-Reach =
    next
      (next here (adds no_tasks 5 (codes "t") (codes "http://hook") (codes "default/rule") 100 10))
      (runs added 15 15 approval (codes "t") [] ((codes "t", 60000000105) ∷ []) refl (ground arith))

Reach-IsGuarded_example : is_guarded_at polled (codes "t") ≡ true
Reach-IsGuarded_example = Reach-IsGuarded polled (codes "t") polled-Reach
