-- ===== src/Transition/Polling/Poll.antt =====
-- pkg/controllers/podtransitionrule/processor/rules/polling.go: one poll of a task.
use kuperator.Common.{
  ℕ, suc, ◌≡◌, refl, Bool, true, false, not, ◌&&◌, ◌||◌, arith, if◌then◌else◌, ltb, Text, Result,
  ok, err,
}
use kuperator.Pod.{contains}
use kuperator.Transition.Rules.Interface.{contains-insert_all}
use kuperator.Transition.Polling.{PollResult, PollResponse, Task, answered, do_poll}

-- A task whose pods are all approved is stopped.
abbrev pub is_consistent : PollResult → Bool
is_consistent r = not r.approve_all || r.stopped

-- One poll leaves the times of the task.
pub do_poll-times :
    (now : ℕ) (response : Result PollResponse) (t : Task)
    → ((do_poll now response t).0.deadline_time ≡ t.deadline_time)
      × ((do_poll now response t).0.timeout_time ≡ t.timeout_time)
unfolding do_poll
do_poll-times now response t = (ground arith, ground arith)

answered-is_consistent :
    (now : ℕ) (response : Result PollResponse) (r : PollResult)
    → is_consistent r ≡ true
    → is_consistent (answered now response r) ≡ true
answered-is_consistent now (err e) r h = h
answered-is_consistent now (ok res) r h = ground (arith, h)

pub do_poll-is_consistent :
    (now : ℕ) (response : Result PollResponse) (t : Task)
    → is_consistent t.result ≡ true
    → is_consistent (do_poll now response t).0.result ≡ true
unfolding do_poll
do_poll-is_consistent now response t h =
    ground (arith, h, answered-is_consistent now response t.result h)

answered-grows :
    (now : ℕ) (response : Result PollResponse) (r : PollResult) (k : Text)
    → contains k r.approved ≡ true
    → contains k (answered now response r).approved ≡ true
answered-grows now (err e) r k m = m
answered-grows now (ok res) r k m =
    ground (arith, m, contains-insert_all res.finished_names r.approved k)

answered-stopped :
    (now : ℕ) (response : Result PollResponse) (r : PollResult)
    → r.stopped ≡ true
    → (answered now response r).stopped ≡ true
answered-stopped now (err e) r h = h
answered-stopped now (ok res) r h = ground (arith, h)

answered-count :
    (now : ℕ) (response : Result PollResponse) (r : PollResult)
    → (answered now response r).count ≡ suc r.count
answered-count now (err e) r = refl
answered-count now (ok res) r = refl

-- A poll takes back no approval and starts no stopped task again. It asks the webhook exactly if the
-- task is not stopped and its timeout has not passed, and after the timeout the task is stopped.
pub do_poll-Monotone :
    (now : ℕ) (response : Result PollResponse) (t : Task) (k : Text)
    → let after = (do_poll now response t).0.result in
      ((contains k t.result.approved && not (contains k after.approved)) ≡ false)
      × ((t.result.stopped && not after.stopped) ≡ false)
      × (after.count ≡ (
          if t.result.stopped || ltb t.timeout_time now
          then t.result.count
          else suc t.result.count))
      × ((ltb t.timeout_time now && not after.stopped) ≡ false)
unfolding do_poll
do_poll-Monotone now response t k = (
  ground (arith, answered-grows now response t.result k),
  ground arith,
  ground (arith, answered-count now response t.result),
  ground arith,
)
