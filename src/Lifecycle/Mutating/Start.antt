-- ===== src/Lifecycle/Mutating/Start.antt =====
-- The steps of Mutating that keep an operate label, or put it on.
use kuperator.Common.{
  ℕ, ◌≡◌, ◌≢◌, true, false, ◌==◌, List, [], ◌∷◌, arith, if◌then◌else◌, Text, text_eq, text_eq_iff,
  Dict, lookup, insert, delete, lookup-insert, lookup-delete, has,
}
use kuperator.Pod.{
  Prefix, operating, pre_check, pre_checked, preparing, operate, post_check, completing,
  undo_operation_type, operation_permission, Names, IsNames, key, Labels, Pod, set_labels,
}
use kuperator.Pod.Labels.{key_ne_prefix, key_ne_id}
use kuperator.Lifecycle.Ids.{or_zero}
use kuperator.Lifecycle.Mutating.{
  OpsLifecycle, Progress, had, delete_all, add_label_with_time, prepare, start_operate,
  operating_step, post_checked_step, advance, wipe, visit, visit_all, reset_permissions,
}

-- A label that the pod has, and which steps keep it.
abbrev pub Kept : Text → Labels → Type 0
Kept k labels = has k labels ≡ true

insert-Kept : (k j v : Text) (labels : Labels) → Kept k labels → Kept k (insert j v labels)
insert-Kept k j v labels h = ground (arith, lookup-insert j k v labels)

insert-Kept_same : (k v : Text) (labels : Labels) → Kept k (insert k v labels)
insert-Kept_same k v labels = ground (arith, lookup-insert k k v labels, text_eq_iff k k)

delete-Kept :
    (k j : Text) (labels : Labels) → text_eq j k ≡ false → Kept k labels → Kept k (delete j labels)
delete-Kept k j labels ne h = ground (arith, lookup-delete j k labels)

module _ (N : Names) (names : IsNames N) (lc : OpsLifecycle) (id : Text) where
  abbrev pub mark : Text
  mark = key N operate id

  drop :
      (q : Prefix) (j : Text) (labels : Labels)
      → q ≢ operate
      → Kept mark labels
      → Kept mark (delete (key N q j) labels)
  drop q j labels ne h =
      delete-Kept mark (key N q j) labels (key_ne_prefix N names q operate j id ne) h

  delete_all-Kept :
      (ps : List Prefix) (j : Text) (labels : Labels)
      → text_eq j id ≡ false
      → Kept mark labels
      → Kept mark (delete_all N ps j labels)
  unfolding delete_all
  delete_all-Kept [] j labels ne h = h
  delete_all-Kept (p ∷ ps) j labels ne h =
      delete_all-Kept ps j (delete (key N p j) labels) ne
        (delete-Kept mark (key N p j) labels (key_ne_id N names p operate j id ne) h)

  wipe-Kept :
      (j : Text) (labels : Labels)
      → text_eq j id ≡ false
      → Kept mark labels
      → Kept mark (wipe N lc j labels)
  unfolding wipe
  wipe-Kept j labels ne h =
      drop undo_operation_type j (delete_all N N.well_known j labels) (λ e. cc)
        (delete_all-Kept N.well_known j labels ne h)

  pub reset_permissions-Kept :
      (undone nums : Dict ℕ) (labels : Labels)
      → Kept mark labels
      → Kept mark (reset_permissions N lc undone nums labels)
  unfolding reset_permissions
  reset_permissions-Kept [] nums labels h = h
  reset_permissions-Kept ((t, n) ∷ rest) nums labels h =
      reset_permissions-Kept rest nums
        (if n == or_zero N (lookup t nums)
          then delete (key N operation_permission t) labels
          else labels)
        (ground (arith, h, drop operation_permission t labels (λ e. cc) h))

  module _ (available_ne : text_eq N.service_available mark ≡ false) where
    prepare-Kept :
        (j : Text) (m labels : Labels) → Kept mark labels → Kept mark (prepare N lc j m labels)
    unfolding prepare
    prepare-Kept j m labels h =
        let a = drop pre_check j labels (λ e. cc) h in
        let b =
          delete-Kept mark N.service_available (delete (key N pre_check j) labels) available_ne a in
        ground (
          arith,
          a,
          insert-Kept mark (key N preparing j) lc.now
              (delete N.service_available (delete (key N pre_check j) labels)) b,
        )

    start_operate-Kept :
        (j : Text) (m labels : Labels)
        → Kept mark labels
        → Kept mark (start_operate N lc j m labels)
    unfolding start_operate
    start_operate-Kept j m labels h =
        insert-Kept mark (key N operate j) lc.now (delete (key N preparing j) labels)
          (drop preparing j labels (λ e. cc) h)

    operating_step-Kept :
        (pod : Pod) (j : Text) (m labels : Labels)
        → Kept mark labels
        → Kept mark (operating_step N lc pod j m labels)
    unfolding operating_step add_label_with_time
    operating_step-Kept pod j m labels h =
        let a = prepare-Kept j m labels h in
        ground (
          arith,
          h,
          a,
          start_operate-Kept j m (prepare N lc j m labels) a,
          insert-Kept mark (key N pre_check j) lc.now labels h,
        )

    post_checked_step-Kept :
        (j : Text) (m labels : Labels)
        → Kept mark labels
        → Kept mark (post_checked_step N lc j m labels)
    unfolding post_checked_step add_label_with_time
    post_checked_step-Kept j m labels h =
        let a = drop post_check j labels (λ e. cc) h in
        ground (
          arith,
          a,
          insert-Kept mark (key N completing j) lc.now (delete (key N post_check j) labels) a,
        )

    advance-Kept :
        (pod : Pod) (j : Text) (m labels : Labels)
        → Kept mark labels
        → Kept mark (advance N lc pod j m labels)
    unfolding advance
    advance-Kept pod j m labels h =
        let a = operating_step-Kept pod j m labels h in
        ground (
          arith,
          h,
          a,
          post_checked_step-Kept j m labels h,
          post_checked_step-Kept j m (operating_step N lc pod j m labels) a,
        )

    visit-Kept :
        (pod : Pod) (j : Text) (m : Labels) (s : Progress)
        → (text_eq j id ≡ true → had N m undo_operation_type ≡ false)
        → Kept mark s.labels
        → Kept mark (visit N lc pod j m s).labels
    unfolding visit
    visit-Kept pod j m s alive h =
        ground (arith, h, alive, wipe-Kept j s.labels, advance-Kept pod j m s.labels h)

    module _ (pod : Pod)
        (ready : (labels : Labels) → lc.ready_to_operate (set_labels pod labels) ≡ true) where
      -- The entry of an operation that may start.
      abbrev pub Startable : Labels → Type 0
      Startable m =
          (had N m undo_operation_type ≡ false)
          × (had N m operating ≡ true)
          × (had N m pre_checked ≡ true)

      operating_step-Starts :
          (m labels : Labels)
          → Startable m
          → had N m operate ≡ false
          → Kept mark (operating_step N lc pod id m labels)
      unfolding operating_step start_operate add_label_with_time
      operating_step-Starts m labels (alive, on, checked) not_yet =
          let prepared = prepare N lc id m labels in
          ground (
            arith,
            on,
            checked,
            not_yet,
            ready prepared,
            insert-Kept_same mark lc.now (delete (key N preparing id) prepared),
          )

      advance-Starts :
          (m labels : Labels)
          → Startable m
          → had N m operate ≡ false
          → Kept mark (advance N lc pod id m labels)
      unfolding advance
      advance-Starts m labels (alive, on, checked) not_yet =
          let a = operating_step-Starts m labels (alive, on, checked) not_yet in
          ground (arith, on, a, post_checked_step-Kept id m (operating_step N lc pod id m labels) a)

      pub visit-Starts :
          (m : Labels) (s : Progress)
          → Startable m
          → had N m operate ≡ false
          → Kept mark (visit N lc pod id m s).labels
      unfolding visit
      visit-Starts m s startable not_yet =
          ground (arith, startable.0, advance-Starts m s.labels startable not_yet)

      -- Every entry of the operation may start.
      abbrev pub AllStartable : Dict Labels → Type 0
      AllStartable [] = Unit {0}
      AllStartable ((j, m) ∷ rest) = (text_eq j id ≡ true → Startable m) × AllStartable rest

      pub visit_all-Kept :
          (ids : Dict Labels) (s : Progress)
          → AllStartable ids
          → Kept mark s.labels
          → Kept mark (visit_all N lc pod ids s).labels
      unfolding visit_all
      visit_all-Kept [] s all h = h
      visit_all-Kept ((j, m) ∷ rest) s all h =
          visit_all-Kept rest (visit N lc pod j m s) all.1
            (visit-Kept pod j m s (λ same. (all.0 same).0) h)
