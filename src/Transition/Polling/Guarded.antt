-- ===== src/Transition/Polling/Guarded.antt =====
-- pkg/controllers/podtransitionrule/processor/rules/polling.go: what holds of the tasks at any time.
use kuperator.Common.{
  ℕ, ◌+◌, ◌*◌, ◌≡◌, ◌≤◌, refl, subst, Bool, true, false, ◌&&◌, ◌||◌, inl, inr, Option, none, some,
  List, [], ◌∷◌, ◌++◌, arith, ltb, Bool-cases, Text, text_eq, text_eq_iff, lookup, insert,
  lookup-insert, lookup-delete, Result,
}
use kuperator.Pod.{contains}
use kuperator.Pod.Sets.{contains-append}
use kuperator.Transition.Polling.{
  PollResponse, Task, Runner, Step, adds, deletes, runs, takes, Reach, here, next, no_tasks, second,
  add, new_task, delete_task, do_poll, after_poll, do_found, do_task, add_after,
}
use kuperator.Transition.Polling.Poll.{is_consistent, do_poll-times, do_poll-is_consistent}

-- Some turn of the task is due after a time.
abbrev pub is_due_after : Text → ℕ → List (Text × ℕ) → Bool
is_due_after id deadline [] = false
is_due_after id deadline ((j, at) ∷ pending) =
    (text_eq j id && ltb deadline at) || is_due_after id deadline pending

is_due_after-append :
    (id : Text) (deadline : ℕ) (xs ys : List (Text × ℕ))
    → is_due_after id deadline (xs ++ ys)
      ≡ (is_due_after id deadline xs || is_due_after id deadline ys)
is_due_after-append id deadline [] ys = refl
is_due_after-append id deadline ((j, at) ∷ xs) ys =
    ground (arith, is_due_after-append id deadline xs ys)

-- The task is consistent, and will be deleted: a turn is due after its deadline, or its id is among
-- those to delete.
abbrev pub is_guarded : Text → Runner → Task → Bool
is_guarded id r t =
    is_consistent t.result && (is_due_after id t.deadline_time r.pending || contains id r.to_delete)

abbrev guarded_in : Text → Runner → Option Task → Bool
guarded_in id r none = true
guarded_in id r (some t) = is_guarded id r t

-- The task of an id, if there is one, is guarded.
abbrev pub is_guarded_at : Runner → Text → Bool
is_guarded_at r id = guarded_in id r (lookup id r.tasks)

abbrev pub IsGuarded : Runner → Type 0
IsGuarded r = (id : Text) → is_guarded_at r id ≡ true

delete_task-IsGuarded :
    (id : Text) (r : Runner)
    → ((j : Text) → text_eq id j ≡ false → is_guarded_at r j ≡ true)
    → IsGuarded (delete_task id r)
unfolding delete_task
delete_task-IsGuarded id r h j = elim (Bool-cases (text_eq id j)) [
  | inl on ↦ rw (lookup-delete id j r.tasks, on) refl
  | inr off ↦ rw (lookup-delete id j r.tasks, off) (h j off)
]

-- More turns and more ids to delete keep a task guarded.
guarded_in-more :
    (id : Text) (r s : Runner) (o : Option Task)
    → ((deadline : ℕ)
        → (is_due_after id deadline r.pending || contains id r.to_delete) ≡ true
        → (is_due_after id deadline s.pending || contains id s.to_delete) ≡ true)
    → guarded_in id r o ≡ true
    → guarded_in id s o ≡ true
guarded_in-more id r s none more h = refl
guarded_in-more id r s (some t) more h = ground (arith, h, more t.deadline_time)

add-IsGuarded :
    (r : Runner) (now : ℕ) (id url resource_key : Text) (timeout interval : ℕ)
    → IsGuarded r
    → IsGuarded (add now id url resource_key timeout interval r)
unfolding add add_after contains
add-IsGuarded r now id url resource_key timeout interval h j =
    let t = new_task now url resource_key timeout interval in
    let first : List (Text × ℕ) = (id, now + interval) ∷ [] in
    let last : List (Text × ℕ) = (id, now + (timeout + 60 * second)) ∷ [] in
    elim (Bool-cases (text_eq id j)) [
      | inl on ↦
          rw (lookup-insert id j t r.tasks, on)
            (ground (arith, on, is_due_after-append j t.deadline_time (r.pending ++ first) last))
      | inr off ↦
          rw (lookup-insert id j t r.tasks, off)
            (guarded_in-more j r (add now id url resource_key timeout interval r) (lookup j r.tasks)
              (λ deadline m. ground (
                arith,
                m,
                is_due_after-append j deadline (r.pending ++ first) last,
                is_due_after-append j deadline r.pending first,
              ))
              (h j))
    ]

-- A turn of id that is due by a time is no turn after that time.
is_due_after-without :
    (id j : Text) (deadline at now : ℕ) (r : Runner) (before after : List (Text × ℕ))
    → r.pending ≡ before ++ ((id, at) ∷ after)
    → at ≤ now
    → (text_eq id j && ltb deadline now) ≡ false
    → is_due_after j deadline r.pending ≡ true
    → is_due_after j deadline (before ++ after) ≡ true
is_due_after-without id j deadline at now r before after e due early h =
    let was : is_due_after j deadline (before ++ ((id, at) ∷ after)) ≡ true =
      subst (λ p. is_due_after j deadline p ≡ true) e h in
    ground (
      arith,
      was,
      due,
      early,
      is_due_after-append j deadline before after,
      is_due_after-append j deadline before ((id, at) ∷ after),
    )

add_after-IsGuarded :
    (now : ℕ) (id : Text) (d : ℕ) (r : Runner) → IsGuarded r → IsGuarded (add_after now id d r)
unfolding add_after
add_after-IsGuarded now id d r h j =
    guarded_in-more j r (add_after now id d r) (lookup j r.tasks)
      (λ deadline m.
        ground (arith, m, is_due_after-append j deadline r.pending ((id, now + d) ∷ [])))
      (h j)

taken :
    (j : Text) (ids : List Text) (id : Text) (rest : List Text)
    → ids ≡ (id ∷ rest)
    → contains j ids ≡ (text_eq id j || contains j rest)
unfolding contains
taken j ids id rest e = rw e refl

module _ (now at : ℕ) (response : Result PollResponse) (id : Text) (r : Runner)
    (before after : List (Text × ℕ)) (e : r.pending ≡ before ++ ((id, at) ∷ after)) (due : at ≤ now)
    (guarded : IsGuarded r) where
  abbrev rest_of : Runner
  rest_of = record r { pending = before ++ after }

  -- The tasks of the other ids stay guarded.
  other-guarded : (j : Text) → text_eq id j ≡ false → guarded_in j rest_of (lookup j r.tasks) ≡ true
  other-guarded j off =
      guarded_in-more j r rest_of (lookup j r.tasks)
        (λ deadline m. ground (
          arith,
          m,
          is_due_after-without id j deadline at now r before after e due (ground (arith, off)),
        ))
        (guarded j)

  polled : Task → List Text → Runner
  polled t told = record rest_of { tasks = insert id t r.tasks; told = told }

  polled-IsGuarded :
      (t u : Task) (told : List Text)
      → lookup id r.tasks ≡ some t
      → ltb t.deadline_time now ≡ false
      → u.deadline_time ≡ t.deadline_time
      → (is_consistent t.result ≡ true → is_consistent u.result ≡ true)
      → IsGuarded (polled u told)
  unfolding polled
  polled-IsGuarded t u told there early same steady j =
      let was : is_guarded id r t ≡ true =
        subst (λ o. guarded_in id r o ≡ true) there (guarded id) in
      elim (Bool-cases (text_eq id j)) [
        | inr off ↦ rw (lookup-insert id j u r.tasks, off) (other-guarded j off)
        | inl on ↦
            let here : is_guarded id rest_of u ≡ true = rw same (
              ground (
                arith,
                was,
                steady,
                is_due_after-without id id t.deadline_time at now r before after e due
                    (ground (arith, early)),
              )) in
            rw (lookup-insert id j u r.tasks, on)
              (subst (λ x. is_guarded x rest_of u ≡ true) ((text_eq_iff id j).0 on) here)
      ]

  after_poll-IsGuarded :
      (t : Task) (p : Task × Bool)
      → lookup id r.tasks ≡ some t
      → ltb t.deadline_time now ≡ false
      → p.0.deadline_time ≡ t.deadline_time
      → (is_consistent t.result ≡ true → is_consistent p.0.result ≡ true)
      → IsGuarded (after_poll now id rest_of p)
  unfolding polled
  after_poll-IsGuarded t (u, finished) there early same steady =
      let told = r.told ++ (u.resource_key ∷ []) in
      elim (Bool-cases finished) [
        | inl on ↦ rw on (polled-IsGuarded t u told there early same steady)
        | inr off ↦ rw off (
            add_after-IsGuarded now id u.interval (polled u told)
              (polled-IsGuarded t u told there early same steady))
      ]

  late-IsGuarded : IsGuarded (record rest_of { to_delete = r.to_delete ++ (id ∷ []) })
  unfolding contains
  late-IsGuarded j = elim (Bool-cases (text_eq id j)) [
    | inr off ↦
        guarded_in-more j rest_of (record rest_of { to_delete = r.to_delete ++ (id ∷ []) })
          (lookup j r.tasks)
          (λ deadline m. ground (arith, m, contains-append j r.to_delete (id ∷ [])))
          (other-guarded j off)
    | inl on ↦
        guarded_in-more j r (record rest_of { to_delete = r.to_delete ++ (id ∷ []) })
          (lookup j r.tasks)
          (λ deadline m. ground (arith, on, contains-append j r.to_delete (id ∷ []))) (guarded j)
  ]

  do_found-IsGuarded :
      (o : Option Task) → lookup id r.tasks ≡ o → IsGuarded (do_found now response id rest_of o)
  do_found-IsGuarded none there = λ j. elim (Bool-cases (text_eq id j)) [
    | inr off ↦ other-guarded j off
    | inl on ↦
        subst (λ x. guarded_in x rest_of (lookup x r.tasks) ≡ true) ((text_eq_iff id j).0 on)
          (rw there refl)
  ]
  do_found-IsGuarded (some t) there = elim (Bool-cases (ltb t.deadline_time now)) [
    | inl late ↦ rw late late-IsGuarded
    | inr early ↦ rw early (
        after_poll-IsGuarded t (do_poll now response t) there early (do_poll-times now response t).0
          (do_poll-is_consistent now response t))
  ]

Step-IsGuarded : {r s : Runner} → Step r s → IsGuarded r → IsGuarded s
unfolding do_task
Step-IsGuarded (adds r now id url key timeout interval) h =
    add-IsGuarded r now id url key timeout interval h
Step-IsGuarded (deletes r id) h = delete_task-IsGuarded id r (λ j off. h j)
Step-IsGuarded (runs r now at response id before after e due) h =
    do_found-IsGuarded now at response id r before after e due h (lookup id r.tasks) refl
Step-IsGuarded (takes r id rest e) h =
    delete_task-IsGuarded id (record r { to_delete = rest })
      (λ j off.
        guarded_in-more j r (record r { to_delete = rest }) (lookup j r.tasks)
          (λ deadline m. ground (arith, m, off, taken j r.to_delete id rest e)) (h j))

-- At any time after the start, whatever components add and delete and in whatever order workers and
-- deletions run, no task is forgotten: for each one a turn is due after its deadline, or its id is
-- among those to delete. And a task whose pods are all approved is stopped.
pub Reach-IsGuarded : (r : Runner) (id : Text) → Reach no_tasks r → is_guarded_at r id ≡ true
unfolding lookup
Reach-IsGuarded r id here = refl
Reach-IsGuarded r id (next reached step) = Step-IsGuarded step (λ j. Reach-IsGuarded _ j reached) id
