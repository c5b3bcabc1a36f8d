-- ===== src/Lifecycle/Mutating/Frame.antt =====
-- A label that a pod does not have, and which steps of the webhook keep it so: those for another
-- operation, and those that only delete.
use kuperator.Common.{
  ℕ, ◌≡◌, false, ◌==◌, Option, none, some, List, [], ◌∷◌, arith, if◌then◌else◌, Text, text_eq, Dict,
  lookup, insert, delete, lookup-insert, lookup-delete,
}
use kuperator.Pod.{
  Prefix, operation_type, pre_check, pre_checked, preparing, operate, operated, post_check,
  completing, undo_operation_type, done_operation_type, operation_permission, Names, IsNames, key,
  Labels, Pod,
}
use kuperator.Pod.Labels.{key_ne_id}
use kuperator.Lifecycle.Ids.{or_zero}
use kuperator.Lifecycle.Mutating.{
  OpsLifecycle, Progress, delete_all, add_label_with_time, prepare, start_operate, operating_step,
  post_checked_step, advance, wipe, visit, reset_permissions, complete_all, lifecycle_prefixes,
  old_type, finish_operate, mark_operated, mark_done,
}

abbrev pub Absent : Text → Labels → Type 0
Absent k labels = lookup k labels ≡ none

pub insert-Absent :
    (k j v : Text) (labels : Labels)
    → text_eq j k ≡ false
    → Absent k labels
    → Absent k (insert j v labels)
insert-Absent k j v labels ne h = ground (arith, lookup-insert j k v labels)

pub delete-Absent : (k j : Text) (labels : Labels) → Absent k labels → Absent k (delete j labels)
delete-Absent k j labels h = ground (arith, lookup-delete j k labels)

module _ (N : Names) where
  pub delete_all-Absent :
      (ps : List Prefix) (k id : Text) (labels : Labels)
      → Absent k labels
      → Absent k (delete_all N ps id labels)
  unfolding delete_all
  delete_all-Absent [] k id labels h = h
  delete_all-Absent (p ∷ ps) k id labels h =
      delete_all-Absent ps k id (delete (key N p id) labels) (delete-Absent k (key N p id) labels h)

module _ (N : Names) (names : IsNames N) (lc : OpsLifecycle) where
  pub wipe-Absent :
      (k id : Text) (labels : Labels) → Absent k labels → Absent k (wipe N lc id labels)
  unfolding wipe
  wipe-Absent k id labels h =
      delete-Absent k (key N undo_operation_type id) (delete_all N N.well_known id labels)
        (delete_all-Absent N N.well_known k id labels h)

  pub reset_permissions-Absent :
      (k : Text) (undone nums : Dict ℕ) (labels : Labels)
      → Absent k labels
      → Absent k (reset_permissions N lc undone nums labels)
  unfolding reset_permissions
  reset_permissions-Absent k [] nums labels h = h
  reset_permissions-Absent k ((t, n) ∷ rest) nums labels h =
      reset_permissions-Absent k rest nums
        (if n == or_zero N (lookup t nums)
          then delete (key N operation_permission t) labels
          else labels)
        (ground (arith, delete-Absent k (key N operation_permission t) labels h))

  pub complete_all-Absent :
      (k : Text) (ids : Dict Labels) (labels : Labels)
      → Absent k labels
      → Absent k (complete_all N lc ids labels)
  unfolding complete_all
  complete_all-Absent k [] labels h = h
  complete_all-Absent k ((id, m) ∷ rest) labels h =
      complete_all-Absent k rest (delete_all N (lifecycle_prefixes N lc) id labels)
        (delete_all-Absent N (lifecycle_prefixes N lc) k id labels h)

  -- The label is that of the operation `id`, and the step is that of another operation.
  module _ (p : Prefix) (id other : Text) (ne : text_eq other id ≡ false) where
    abbrev pub own : Text
    own = key N p id

    put-other :
        (q : Prefix) (v : Text) (labels : Labels)
        → Absent own labels
        → Absent own (insert (key N q other) v labels)
    put-other q v labels h =
        insert-Absent own (key N q other) v labels (key_ne_id N names q p other id ne) h

    pub prepare-other :
        (m labels : Labels) → Absent own labels → Absent own (prepare N lc other m labels)
    unfolding prepare
    prepare-other m labels h =
        let a = delete-Absent own (key N pre_check other) labels h in
        let b = delete-Absent own N.service_available (delete (key N pre_check other) labels) a in
        ground (
          arith,
          a,
          put-other preparing lc.now
              (delete N.service_available (delete (key N pre_check other) labels)) b,
        )

    pub start_operate-other :
        (m labels : Labels) → Absent own labels → Absent own (start_operate N lc other m labels)
    unfolding start_operate
    start_operate-other m labels h =
        put-other operate lc.now (delete (key N preparing other) labels)
          (delete-Absent own (key N preparing other) labels h)

    operating_step-other :
        (pod : Pod) (m labels : Labels)
        → Absent own labels
        → Absent own (operating_step N lc pod other m labels)
    unfolding operating_step add_label_with_time
    operating_step-other pod m labels h =
        let prepared = prepare-other m labels h in
        ground (
          arith,
          h,
          prepared,
          start_operate-other m (prepare N lc other m labels) prepared,
          put-other pre_check lc.now labels h,
        )

    post_checked_step-other :
        (m labels : Labels) → Absent own labels → Absent own (post_checked_step N lc other m labels)
    unfolding post_checked_step
    post_checked_step-other m labels h =
        let a = delete-Absent own (key N post_check other) labels h in
        ground (arith, a, put-other completing lc.now (delete (key N post_check other) labels) a)

    pub advance-other :
        (pod : Pod) (m labels : Labels)
        → Absent own labels
        → Absent own (advance N lc pod other m labels)
    unfolding advance
    advance-other pod m labels h =
        let a = operating_step-other pod m labels h in
        ground (
          arith,
          h,
          a,
          post_checked_step-other m labels h,
          post_checked_step-other m (operating_step N lc pod other m labels) a,
        )

    pub visit-other :
        (pod : Pod) (m : Labels) (s : Progress)
        → Absent own s.labels
        → Absent own (visit N lc pod other m s).labels
    unfolding visit
    visit-other pod m s h =
        ground (arith, h, wipe-Absent own other s.labels h, advance-other pod m s.labels h)

    mark_operated-other :
        (m labels : Labels) → Absent own labels → Absent own (mark_operated N lc other m labels)
    unfolding mark_operated
    mark_operated-other m labels h =
        let a = delete-Absent own (key N pre_checked other) labels h in
        let b =
          delete-Absent own (key N operate other) (delete (key N pre_checked other) labels) a in
        ground (
          arith,
          a,
          put-other operated lc.now
              (delete (key N operate other) (delete (key N pre_checked other) labels)) b,
        )

    mark_done-other :
        (t : Option Text) (labels : Labels)
        → Absent own labels
        → Absent own (mark_done N lc other t labels)
    unfolding mark_done
    mark_done-other none labels h = h
    mark_done-other (some t) labels h =
        let a = delete-Absent own (key N operation_permission t) labels h in
        put-other done_operation_type t
          (delete (key N operation_type other) (delete (key N operation_permission t) labels))
          (delete-Absent own (key N operation_type other)
            (delete (key N operation_permission t) labels) a)

    pub finish_operate-other :
        (old : Dict Labels) (m labels : Labels)
        → Absent own labels
        → Absent own (finish_operate N lc old other m labels)
    unfolding finish_operate
    finish_operate-other old m labels h =
        mark_done-other (old_type N lc other old) (mark_operated N lc other m labels)
          (mark_operated-other m labels h)
