-- ===== src/Lifecycle/Controller/Stages.antt =====
-- preCheckStage and postCheckStage: the labels of a passed stage.
use kuperator.Common.{
  ◌≡◌, refl, true, ◌||◌, Option, none, some, [], ◌∷◌, arith, Text, text_eq_iff, Dict, lookup,
  insert, has, lookup-insert, Option-cases, inl, inr,
}
use kuperator.Pod.{
  Names, key, Labels, operation_type, operation_permission, pre_checked, post_checked,
}
use kuperator.Lifecycle.Controller.{
  add_missing, pre_checked_labels, pre_check_all, post_check_all, pre_check_stage, post_check_stage,
  put_all,
}

-- `k` is one of the labels, old or new.
abbrev Present : Text → Labels → Labels → Type 0
Present k have labels = (has k have || has k labels) ≡ true

insert-has :
    (k j v : Text) (labels : Labels) → has k labels ≡ true → has k (insert j v labels) ≡ true
insert-has k j v labels h = ground (arith, lookup-insert j k v labels)

insert-has_same : (k v : Text) (labels : Labels) → has k (insert k v labels) ≡ true
insert-has_same k v labels = ground (arith, lookup-insert k k v labels, text_eq_iff k k)

put_all-Present :
    (k : Text) (new have : Labels) → Present k have new → has k (put_all new have) ≡ true
unfolding put_all lookup
put_all-Present k [] have h = ground arith
put_all-Present k ((j, v) ∷ rest) have h =
    put_all-Present k rest (insert j v have)
      (ground (arith, insert-has k j v have, insert-has_same k v have, text_eq_iff j k))

module _ (have : Labels) (now : Text) where
  add_missing-Present :
      (k j : Text) (labels : Labels)
      → Present k have labels
      → Present k have (add_missing have j now labels)
  add_missing-Present k j labels h = ground (arith, insert-has k j now labels)

  add_missing-Present_same :
      (k : Text) (labels : Labels) → Present k have (add_missing have k now labels)
  add_missing-Present_same k labels = ground (arith, insert-has_same k now labels)

module _ (N : Names) where
  -- Every operation with a type has its labels for the stage.
  abbrev pub PreChecked : Dict Labels → Labels → Type 0
  PreChecked [] labels = Unit {0}
  PreChecked ((id, m) ∷ rest) labels =
      ((t : Text)
        → lookup (N.prefix operation_type) m ≡ some t
        → (has (key N operation_permission t) labels ≡ true)
          × (has (key N pre_checked id) labels ≡ true))
      × PreChecked rest labels

  abbrev pub PostChecked : Dict Labels → Labels → Type 0
  PostChecked [] labels = Unit {0}
  PostChecked ((id, m) ∷ rest) labels =
      (has (key N post_checked id) labels ≡ true) × PostChecked rest labels

  module _ (now : Text) (have : Labels) where
    pre_checked_labels-Present :
        (k id : Text) (o : Option Text) (labels : Labels)
        → Present k have labels
        → Present k have (pre_checked_labels N now have id o labels)
    pre_checked_labels-Present k id none labels h = h
    pre_checked_labels-Present k id (some t) labels h =
        add_missing-Present have now k (key N pre_checked id)
          (add_missing have (key N operation_permission t) now labels)
          (add_missing-Present have now k (key N operation_permission t) labels h)

    pre_check_all-Present :
        (k : Text) (ids : Dict Labels) (labels : Labels)
        → Present k have labels
        → Present k have (pre_check_all N now have ids labels)
    unfolding pre_check_all
    pre_check_all-Present k [] labels h = h
    pre_check_all-Present k ((id, m) ∷ rest) labels h =
        pre_check_all-Present k rest
          (pre_checked_labels N now have id (lookup (N.prefix operation_type) m) labels)
          (pre_checked_labels-Present k id (lookup (N.prefix operation_type) m) labels h)

    post_check_all-Present :
        (k : Text) (ids : Dict Labels) (labels : Labels)
        → Present k have labels
        → Present k have (post_check_all N now have ids labels)
    unfolding post_check_all
    post_check_all-Present k [] labels h = h
    post_check_all-Present k ((id, m) ∷ rest) labels h =
        post_check_all-Present k rest (add_missing have (key N post_checked id) now labels)
          (add_missing-Present have now k (key N post_checked id) labels h)

    put-PreChecked :
        (ids : Dict Labels) (labels : Labels)
        → PreChecked ids (put_all (pre_check_all N now have ids labels) have)
    unfolding pre_check_all
    put-PreChecked [] labels = tt
    put-PreChecked ((id, m) ∷ rest) labels = (
      λ t typed.
          let permitted = add_missing have (key N operation_permission t) now labels in
          let checked = add_missing have (key N pre_checked id) now permitted in
          rw typed (
            put_all-Present (key N operation_permission t) (pre_check_all N now have rest checked)
                have
                (pre_check_all-Present (key N operation_permission t) rest checked (
                  add_missing-Present have now (key N operation_permission t) (key N pre_checked id)
                    permitted
                    (add_missing-Present_same have now (key N operation_permission t) labels))),
            put_all-Present (key N pre_checked id) (pre_check_all N now have rest checked) have (
                pre_check_all-Present (key N pre_checked id) rest checked
                  (add_missing-Present_same have now (key N pre_checked id) permitted)),
          ),
      put-PreChecked rest
          (pre_checked_labels N now have id (lookup (N.prefix operation_type) m) labels),
    )

    put-PostChecked :
        (ids : Dict Labels) (labels : Labels)
        → PostChecked ids (put_all (post_check_all N now have ids labels) have)
    unfolding post_check_all
    put-PostChecked [] labels = tt
    put-PostChecked ((id, m) ∷ rest) labels =
        let checked = add_missing have (key N post_checked id) now labels in
        (
          put_all-Present (key N post_checked id) (post_check_all N now have rest checked) have (
              post_check_all-Present (key N post_checked id) rest checked
                (add_missing-Present_same have now (key N post_checked id) labels)),
          put-PostChecked rest checked,
        )

    -- Then the stage has nothing to add.
    settled_pre_check :
        (ids : Dict Labels) (labels : Labels)
        → PreChecked ids have
        → pre_check_all N now have ids labels ≡ labels
    unfolding pre_check_all
    settled_pre_check [] labels h = refl
    settled_pre_check ((id, m) ∷ rest) labels h =
        elim (Option-cases (lookup (N.prefix operation_type) m)) [
          | inl untyped ↦ rw untyped (settled_pre_check rest labels h.1)
          | inr (t, typed) ↦
              let (permitted, checked) = h.0 t typed in
              rw (typed, permitted, checked) (settled_pre_check rest labels h.1)
        ]

    settled_post_check :
        (ids : Dict Labels) (labels : Labels)
        → PostChecked ids have
        → post_check_all N now have ids labels ≡ labels
    unfolding post_check_all
    settled_post_check [] labels h = refl
    settled_post_check ((id, m) ∷ rest) labels h = rw h.0 (settled_post_check rest labels h.1)

  module _ (now later : Text) (have : Labels) (ids : Dict Labels) where
    put_all-pre_check_stage :
        let labels = put_all (pre_check_stage N now have ids) have in
        PreChecked ids labels × (pre_check_stage N later labels ids ≡ [])
    unfolding pre_check_stage
    put_all-pre_check_stage =
        let done = put-PreChecked now have ids [] in
        (done, settled_pre_check later (put_all (pre_check_all N now have ids []) have) ids [] done)

    put_all-post_check_stage :
        let labels = put_all (post_check_stage N now have ids) have in
        PostChecked ids labels × (post_check_stage N later labels ids ≡ [])
    unfolding post_check_stage
    put_all-post_check_stage =
        let done = put-PostChecked now have ids [] in
        (
          done,
          settled_post_check later (put_all (post_check_all N now have ids []) have) ids [] done,
        )

    -- When the labels of the pre-check stage are put on a pod, every operation with a type is
    -- permitted and pre-checked; with those of the post-check stage, every operation is
    -- post-checked. Either stage then has nothing more to add for the same operations.
    pub put_all-check_stages :
        let pre = put_all (pre_check_stage N now have ids) have in
        let post = put_all (post_check_stage N now have ids) have in
        (PreChecked ids pre × (pre_check_stage N later pre ids ≡ []))
        × (PostChecked ids post × (post_check_stage N later post ids ≡ []))
    put_all-check_stages = (put_all-pre_check_stage, put_all-post_check_stage)
