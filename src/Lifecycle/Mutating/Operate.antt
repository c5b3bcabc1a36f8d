-- ===== src/Lifecycle/Mutating/Operate.antt =====
-- The steps of Mutating that may give an operation its operate label.
use kuperator.Common.{
  ℕ, ◌+◌, ◌≡◌, ◌≢◌, subst, inl, inr, Bool, true, false, not, ◌&&◌, ◌==◌, Option, none, some, [],
  ◌∷◌, arith, if◌then◌else◌, Text, text_eq, text_eq_iff, Dict, insert, delete, has, length, Result,
  ok, err, Bool-cases,
}
use kuperator.Pod.{
  Prefix, operating, operation_type, pre_check, pre_checked, preparing, operate, operated,
  post_check, post_checked, completing, done_operation_type, operation_permission, Names, IsNames,
  key, Labels, Pod, set_labels,
}
use kuperator.Pod.Labels.{key_ne_prefix}
use kuperator.Lifecycle.Ids.{IdMaps, id_to_labels_map}
use kuperator.Lifecycle.Ids.Snapshot.{IsSnapshot, AllSnapshots}
use kuperator.Lifecycle.Mutating.{
  OpsLifecycle, Progress, had, add_label_with_time, prepare, operating_step, post_checked_step,
  advance, visit, visit_all, reset_permissions, empty_progress, mark_operated, mark_done, old_type,
  finish_operate, finish_all, post_check_all, post_check_if, mutate_labels, after_old,
  newly_operated,
}
use kuperator.Lifecycle.Mutating.Frame.{
  Absent, insert-Absent, delete-Absent, wipe-Absent, reset_permissions-Absent, complete_all-Absent,
  start_operate-other,
}

module _ (N : Names) (names : IsNames N) (lc : OpsLifecycle) (id : Text) where
  abbrev pub mark : Text
  mark = key N operate id

  put :
      (q : Prefix) (j v : Text) (labels : Labels)
      → q ≢ operate
      → Absent mark labels
      → Absent mark (insert (key N q j) v labels)
  put q j v labels ne h =
      insert-Absent mark (key N q j) v labels (key_ne_prefix N names q operate j id ne) h

  prepare-Absent :
      (j : Text) (m labels : Labels) → Absent mark labels → Absent mark (prepare N lc j m labels)
  unfolding prepare
  prepare-Absent j m labels h =
      let a = delete-Absent mark (key N pre_check j) labels h in
      let b = delete-Absent mark N.service_available (delete (key N pre_check j) labels) a in
      ground (
        arith,
        a,
        put preparing j lc.now (delete N.service_available (delete (key N pre_check j) labels))
            (λ e. cc) b,
      )

  post_checked_step-Absent :
      (j : Text) (m labels : Labels)
      → Absent mark labels
      → Absent mark (post_checked_step N lc j m labels)
  unfolding post_checked_step
  post_checked_step-Absent j m labels h =
      let a = delete-Absent mark (key N post_check j) labels h in
      ground (arith, a, put completing j lc.now (delete (key N post_check j) labels) (λ e. cc) a)

  mark_operated-Absent :
      (j : Text) (m labels : Labels)
      → Absent mark labels
      → Absent mark (mark_operated N lc j m labels)
  unfolding mark_operated
  mark_operated-Absent j m labels h =
      let a = delete-Absent mark (key N pre_checked j) labels h in
      let b = delete-Absent mark (key N operate j) (delete (key N pre_checked j) labels) a in
      ground (
        arith,
        a,
        put operated j lc.now (delete (key N operate j) (delete (key N pre_checked j) labels))
            (λ e. cc) b,
      )

  mark_done-Absent :
      (j : Text) (t : Option Text) (labels : Labels)
      → Absent mark labels
      → Absent mark (mark_done N lc j t labels)
  unfolding mark_done
  mark_done-Absent j none labels h = h
  mark_done-Absent j (some t) labels h =
      let unpermitted = delete (key N operation_permission t) labels in
      put done_operation_type j t (delete (key N operation_type j) unpermitted) (λ e. cc)
        (delete-Absent mark (key N operation_type j) unpermitted
          (delete-Absent mark (key N operation_permission t) labels h))

  finish_all-Absent :
      (old ids : Dict Labels) (labels : Labels)
      → Absent mark labels
      → Absent mark (finish_all N lc old ids labels)
  unfolding finish_all finish_operate
  finish_all-Absent old [] labels h = h
  finish_all-Absent old ((j, m) ∷ rest) labels h =
      finish_all-Absent old rest
        (mark_done N lc j (old_type N lc j old) (mark_operated N lc j m labels))
        (mark_done-Absent j (old_type N lc j old) (mark_operated N lc j m labels)
          (mark_operated-Absent j m labels h))

  post_check_all-Absent :
      (ids : Dict Labels) (labels : Labels)
      → Absent mark labels
      → Absent mark (post_check_all N lc ids labels)
  unfolding post_check_all
  post_check_all-Absent [] labels h = h
  post_check_all-Absent ((j, m) ∷ rest) labels h =
      post_check_all-Absent rest
        (if not (had N m post_check) && not (had N m post_checked)
          then insert (key N post_check j) lc.now labels
          else labels)
        (ground (arith, h, put post_check j lc.now labels (λ e. cc) h))

  post_check_if-Absent :
      (b : Bool) (ids : Dict Labels) (labels : Labels)
      → Absent mark labels
      → Absent mark (post_check_if N lc b ids labels)
  post_check_if-Absent true ids labels h = post_check_all-Absent ids labels h
  post_check_if-Absent false ids labels h = h

  after_old-Absent :
      (r : Result IdMaps) (ids : Dict Labels) (s : Progress) (labels labels' : Labels)
      → Absent mark labels
      → after_old N lc r ids s labels ≡ ok labels'
      → Absent mark labels'
  after_old-Absent (err x) ids s labels labels' h e = absurd (ground arith)
  after_old-Absent (ok (old, nums)) ids s labels labels' h e =
      let finished = finish_all-Absent old ids labels h in
      ground (
        arith,
        post_check_if-Absent (s.operated_count + newly_operated N lc ids == length ids) ids
            (finish_all N lc old ids labels) finished,
      )

  module _ (pod : Pod) (ready : Bool)
      (steady : (labels : Labels) → lc.ready_to_operate (set_labels pod labels) ≡ ready) where
    -- The entry is another operation's, or one that may not operate yet.
    abbrev Held : Text → Labels → Type 0
    Held j m = text_eq j id ≡ true → (ready && had N m operating && had N m pre_checked) ≡ false

    operating_step-Absent :
        (j : Text) (m labels : Labels)
        → had N m operating ≡ true
        → Held j m
        → Absent mark labels
        → Absent mark (operating_step N lc pod j m labels)
    unfolding operating_step add_label_with_time
    operating_step-Absent j m labels on held h =
        let prepared = prepare N lc j m labels in
        let a = prepare-Absent j m labels h in
        elim (Bool-cases (text_eq j id)) [
          | inl same ↦
              ground
                (arith, h, a, steady prepared, held same, put pre_check j lc.now labels (λ e. cc) h)
          | inr other ↦ ground (
            arith,
            h,
            a,
            start_operate-other N names lc operate id j other m prepared a,
            put pre_check j lc.now labels (λ e. cc) h,
          )
        ]

    advance-Absent :
        (j : Text) (m labels : Labels)
        → Held j m
        → Absent mark labels
        → Absent mark (advance N lc pod j m labels)
    unfolding advance
    advance-Absent j m labels held h = ground (
      arith,
      h,
      operating_step-Absent j m labels,
      post_checked_step-Absent j m labels h,
      post_checked_step-Absent j m (operating_step N lc pod j m labels),
    )

    abbrev AllHeld : Dict Labels → Type 0
    AllHeld [] = Unit {0}
    AllHeld ((j, m) ∷ rest) = Held j m × AllHeld rest

    visit-Absent :
        (j : Text) (m : Labels) (s : Progress)
        → Held j m
        → Absent mark s.labels
        → Absent mark (visit N lc pod j m s).labels
    unfolding visit
    visit-Absent j m s held h =
        ground
          (arith, h, wipe-Absent N names lc mark j s.labels h, advance-Absent j m s.labels held h)

    visit_all-Absent :
        (ids : Dict Labels) (s : Progress)
        → AllHeld ids
        → Absent mark s.labels
        → Absent mark (visit_all N lc pod ids s).labels
    unfolding visit_all
    visit_all-Absent [] s held h = h
    visit_all-Absent ((j, m) ∷ rest) s held h =
        visit_all-Absent rest (visit N lc pod j m s) held.1 (visit-Absent j m s held.0 h)

    -- Not ready, not operating or not pre-checked, by the pod's labels.
    abbrev pub MayNotOperate : Type 0
    MayNotOperate =
        (ready && has (key N operating id) pod.labels && has (key N pre_checked id) pod.labels)
        ≡ false

    snapshot_had :
        (j : Text) (m : Labels)
        → IsSnapshot N pod.labels j m
        → j ≡ id
        → (p : Prefix) → had N m p ≡ true
        → has (key N p id) pod.labels ≡ true
    snapshot_had j m all same p h =
        let on : has (key N p j) pod.labels ≡ true = ground (arith, all p, h) in
        subst (λ k. has (key N p k) pod.labels ≡ true) same on

    AllSnapshots-AllHeld :
        (ids : Dict Labels) → AllSnapshots N pod.labels ids → MayNotOperate → AllHeld ids
    AllSnapshots-AllHeld [] all not_yet = tt
    AllSnapshots-AllHeld ((j, m) ∷ rest) all not_yet = (
      λ same.
          let had_of = snapshot_had j m all.0 ((text_eq_iff j id).0 same) in
          ground (arith, not_yet, had_of operating, had_of pre_checked),
      AllSnapshots-AllHeld rest all.1 not_yet,
    )

    pub mutate_labels-Absent :
        (old : Labels) (ids : Dict Labels) (nums : Dict ℕ) (labels : Labels)
        → MayNotOperate
        → AllSnapshots N pod.labels ids
        → Absent mark pod.labels
        → mutate_labels N lc old pod (ids, nums) ≡ ok labels
        → Absent mark labels
    unfolding mutate_labels
    mutate_labels-Absent old ids nums labels not_yet all h e =
        let s = visit_all N lc pod ids (empty_progress N lc pod.labels) in
        let visited =
          visit_all-Absent ids (empty_progress N lc pod.labels)
            (AllSnapshots-AllHeld ids all not_yet) h in
        let reset_labels = reset_permissions N lc s.undone nums s.labels in
        let reset = reset_permissions-Absent N names lc mark s.undone nums s.labels visited in
        ground (
          arith,
          reset,
          complete_all-Absent N names lc mark ids reset_labels reset,
          after_old-Absent (id_to_labels_map N old) ids s reset_labels labels reset,
          post_check_if-Absent (s.operated_count == length ids) ids reset_labels reset,
        )
