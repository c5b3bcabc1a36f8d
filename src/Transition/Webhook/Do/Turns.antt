-- ===== src/Transition/Webhook/Do/Turns.antt =====
-- pkg/controllers/podtransitionrule/processor/rules/webhook.go: one turn of the loop over the tasks.
use kuperator.Common.{
  ◌≡◌, refl, sym, subst, Bool, true, not, ◌&&◌, ◌||◌, List, [], ◌∷◌, arith, Bool-cases, if-both,
  Option-cases, inl, inr, Text, lookup, has, Outcome, returns,
}
use kuperator.Pod.{contains}
use kuperator.Transition.Rules.{insert_all}
use kuperator.Transition.Rules.Interface.{contains-insert_all}
use kuperator.Transition.Polling.{PollResult, Runner, get_result}
use kuperator.Transition.Webhook.{TaskInfo, intersection, has_any, approve}
use kuperator.Transition.Webhook.Tasks.{
  Trace, decide_current, to_history, record_poll, approve_task, after_result, trace_current,
  trace_task, trace_tasks, is_nil,
}
use kuperator.Transition.Webhook.Do.Traced.{
  contains-intersection, is_decided, decide_current-is_decided, Keeps, StaysBut,
  delete_task-StaysBut, ArePolled, ArePolled-stays,
}

-- A turn decides some more subjects, and traces no others.
abbrev DecidesMore : (Text → Bool) → Trace → Trace → Type 0
DecidesMore more tr after =
    (k : Text)
    → (is_decided k after ≡ (is_decided k tr || more k))
      × (contains k after.tracing ≡ true → (contains k tr.tracing || more k) ≡ true)

Keeps-more :
    (approved subjects : List Text) (tr after : Trace) (more : Text → Bool)
    → DecidesMore more tr after
    → ((k : Text) → more k ≡ true → contains k subjects ≡ true)
    → Keeps approved subjects tr
    → Keeps approved subjects after
Keeps-more approved subjects tr after more decides within keeps k = (
  λ m. ground (arith, m, (decides k).0, (keeps k).0),
  λ m. ground (arith, m, (decides k).0, (decides k).1, (keeps k).1),
  λ m. ground (arith, m, (decides k).0, (keeps k).2, within k),
)

record_poll-same :
    (t : TaskInfo) (p : PollResult) (tr : Trace)
    → ((record_poll t p tr).checked ≡ tr.checked)
      × ((record_poll t p tr).rejected_pods ≡ tr.rejected_pods)
      × ((record_poll t p tr).tracing ≡ tr.tracing)
      × StaysBut t.task_id tr.runner (record_poll t p tr).runner
unfolding approve
record_poll-same t p tr = elim (Bool-cases p.stopped) [
  | inl on ↦ rw on (refl, refl, refl, delete_task-StaysBut t.task_id tr.runner)
  | inr off ↦ rw off (refl, refl, refl, λ j apart h. h)
]

-- The turn returns, keeps what the loop keeps, and leaves the other tasks.
abbrev Turned : List Text → List Text → TaskInfo → Trace → Outcome Trace → Type 0
Turned approved subjects t tr o =
    (after : Trace) × (o ≡ returns after)
    × Keeps approved subjects after
    × StaysBut t.task_id tr.runner after.runner

module _ (effective approved subjects : List Text)
    (within : (k : Text) → contains k effective ≡ true → contains k subjects ≡ true) where
  current_of : TaskInfo → List Text
  current_of t = insert_all (intersection effective t.processing) []

  contains-current_of :
      (t : TaskInfo) (k : Text)
      → contains k (current_of t) ≡ (contains k effective && contains k t.processing)
  unfolding current_of contains
  contains-current_of t k = ground (
    arith,
    contains-insert_all (intersection effective t.processing) [] k,
    contains-intersection effective t.processing k,
  )

  traced_of : TaskInfo → Trace → Trace
  traced_of t tr = record tr {
    checked = insert_all (intersection effective t.approved) tr.checked;
    tracing = insert_all (current_of t) tr.tracing;
  }

  -- What a task decides: the subjects that it processes or has approved.
  abbrev decides_of : TaskInfo → Text → Bool
  decides_of t k = contains k effective && (contains k t.approved || contains k t.processing)

  decide_current-Decides :
      (t : TaskInfo) (p : PollResult) (tr : Trace)
      → DecidesMore
          (decides_of t)
          tr
          (decide_current p (current_of t) (record_poll t p (traced_of t tr)))
  unfolding traced_of
  decide_current-Decides t p tr k =
      let (same_checked, same_rejected, same_tracing, stays) =
        record_poll-same t p (traced_of t tr) in
      let decided =
        decide_current-is_decided p (current_of t) (record_poll t p (traced_of t tr)) k in
      let before : is_decided k (record_poll t p (traced_of t tr)) ≡ is_decided k (traced_of t tr) =
        rw (same_checked, same_rejected) refl in
      let before_tracing : contains k (record_poll t p (traced_of t tr)).tracing
          ≡ contains k (traced_of t tr).tracing =
        rw same_tracing refl in
      (
        ground (
          arith,
          decided.0,
          before,
          contains-insert_all (intersection effective t.approved) tr.checked k,
          contains-intersection effective t.approved k,
          contains-current_of t k,
        ),
        λ m. ground (
          arith,
          decided.1 m,
          before_tracing,
          contains-insert_all (current_of t) tr.tracing k,
          contains-current_of t k,
        ),
      )

  approve_task-Decides :
      (t : TaskInfo) (p : PollResult) (tr : Trace)
      → DecidesMore (decides_of t) tr (approve_task t p (current_of t) (traced_of t tr))
  unfolding traced_of
  approve_task-Decides t p tr k = (
    ground (
      arith,
      contains-insert_all (current_of t) (insert_all (intersection effective t.approved) tr.checked)
          k,
      contains-insert_all (intersection effective t.approved) tr.checked k,
      contains-intersection effective t.approved k,
      contains-current_of t k,
    ),
    λ m.
        ground (arith, m, contains-insert_all (current_of t) tr.tracing k, contains-current_of t k),
  )

  decides_of-within : (t : TaskInfo) (k : Text) → decides_of t k ≡ true → contains k subjects ≡ true
  decides_of-within t k m = within k (ground (arith, m))

  after_result-Turned :
      (t : TaskInfo) (tr : Trace) (p : PollResult)
      → Keeps approved subjects tr
      → Turned approved subjects t tr (after_result t (current_of t) (traced_of t tr) (returns p))
  unfolding traced_of
  after_result-Turned t tr p keeps =
      let after = decide_current p (current_of t) (record_poll t p (traced_of t tr)) in
      if-both (λ x. Turned approved subjects t tr (returns x)) p.approve_all
        (
          approve_task t p (current_of t) (traced_of t tr),
          refl,
          Keeps-more approved subjects tr (approve_task t p (current_of t) (traced_of t tr))
              (decides_of t) (approve_task-Decides t p tr) (decides_of-within t) keeps,
          delete_task-StaysBut t.task_id tr.runner,
        )
        (
          after,
          refl,
          Keeps-more approved subjects tr after (decides_of t) (decide_current-Decides t p tr)
              (decides_of-within t) keeps,
          subst (λ r. StaysBut t.task_id tr.runner r)
              (sym
                (decide_current-is_decided p (current_of t) (record_poll t p (traced_of t tr))
                  []).2)
              (record_poll-same t p (traced_of t tr)).3,
        )

  has-get_result :
      (id : Text) (r : Runner)
      → has id r.tasks ≡ true
      → (p : PollResult) × (get_result id r ≡ returns p)
  unfolding get_result
  has-get_result id r h = elim (Option-cases (lookup id r.tasks)) [
    | inl missing ↦ absurd (ground (arith, missing, h))
    | inr (t, there) ↦ (t.result, rw there refl)
  ]

  trace_current-Turned :
      (t : TaskInfo) (tr : Trace)
      → has t.task_id tr.runner.tasks ≡ true
      → Keeps approved subjects tr
      → Turned approved subjects t tr (trace_current effective t tr)
  unfolding traced_of current_of
  trace_current-Turned t tr polled keeps =
      let (p, e) = has-get_result t.task_id tr.runner polled in
      rw e (after_result-Turned t tr p keeps)

  trace_task-Turned :
      (t : TaskInfo) (tr : Trace)
      → has t.task_id tr.runner.tasks ≡ true
      → Keeps approved subjects tr
      → Turned approved subjects t tr (trace_task effective t tr)
  unfolding trace_task
  trace_task-Turned t tr polled keeps =
      elim (Bool-cases (is_nil t.processing || not (has_any effective t.processing))) [
        | inl on ↦ rw on (to_history t tr, refl, keeps, delete_task-StaysBut t.task_id tr.runner)
        | inr off ↦ rw off (trace_current-Turned t tr polled keeps)
      ]

  -- With every task of the state polled, the loop returns and keeps what it keeps.
  pub trace_tasks-Keeps :
      (ts : List TaskInfo) (tr : Trace)
      → ArePolled tr.runner ts
      → Keeps approved subjects tr
      → (after : Trace) × (trace_tasks effective ts (returns tr) ≡ returns after)
        × Keeps approved subjects after
  unfolding trace_tasks
  trace_tasks-Keeps [] tr polled keeps = (tr, refl, keeps)
  trace_tasks-Keeps (t ∷ ts) tr polled keeps =
      let (one, e, keeps_one, stays) = trace_task-Turned t tr polled.0 keeps in
      let (after, f, keeps_after) =
        trace_tasks-Keeps ts one
          (ArePolled-stays t.task_id tr.runner one.runner ts stays polled.1 polled.2) keeps_one in
      (after, rw (e, trace_tasks) f, keeps_after)
