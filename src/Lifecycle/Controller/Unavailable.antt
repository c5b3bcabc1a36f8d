-- ===== src/Lifecycle/Controller/Unavailable.antt =====
-- The labels that the controller adds and removes, and the one for an available service.
use kuperator.Common.{
  ◌≡◌, inl, inr, false, Option, none, some, List, [], ◌∷◌, arith, Text, text_eq, Dict, lookup,
  insert, delete, lookup-insert, lookup-delete, has, Bool-cases,
}
use kuperator.Pod.{
  Prefix, operation_type, operation_permission, pre_checked, post_checked, Names, Labels, key,
}
use kuperator.Lifecycle.Controller.{
  add_missing, pre_checked_labels, pre_check_all, post_check_all, put_all,
}
use kuperator.Lifecycle.Controller.Reconcile.{delete_keys}

-- None of the keys is `k`.
abbrev pub Without : Text → Labels → Type 0
Without k [] = Unit {0}
Without k ((j, v) ∷ rest) = (text_eq j k ≡ false) × Without k rest

insert-Without :
    (k j v : Text) (labels : Labels)
    → text_eq j k ≡ false
    → Without k labels
    → Without k (insert j v labels)
unfolding insert
insert-Without k j v [] ne h = (ne, tt)
insert-Without k j v ((i, w) ∷ rest) ne h = elim (Bool-cases (text_eq i j)) [
  | inl same ↦ rw same (ne, h.1)
  | inr other ↦ rw other (h.0, insert-Without k j v rest ne h.1)
]

pub put_all-has :
    (k : Text) (new labels : Labels)
    → Without k new
    → has k labels ≡ false
    → has k (put_all new labels) ≡ false
unfolding put_all
put_all-has k [] labels ne h = h
put_all-has k ((j, v) ∷ rest) labels ne h =
    put_all-has k rest (insert j v labels) ne.1
      (ground (arith, ne.0, h, lookup-insert j k v labels))

pub delete_keys-has :
    (k : Text) (ks : List Text) (labels : Labels)
    → has k labels ≡ false
    → has k (delete_keys ks labels) ≡ false
unfolding delete_keys
delete_keys-has k [] labels h = h
delete_keys-has k (j ∷ ks) labels h =
    delete_keys-has k ks (delete j labels) (ground (arith, h, lookup-delete j k labels))

module _ (N : Names)
    (ne : (p : Prefix) (id : Text) → text_eq (key N p id) N.service_available ≡ false) (now : Text)
    (have : Labels) where
  abbrev available : Text
  available = N.service_available

  add_missing-Without :
      (p : Prefix) (id : Text) (labels : Labels)
      → Without available labels
      → Without available (add_missing have (key N p id) now labels)
  add_missing-Without p id labels h =
      ground (arith, h, insert-Without available (key N p id) now labels (ne p id) h)

  pub pre_check_all-Without :
      (ids : Dict Labels) (labels : Labels)
      → Without available labels
      → Without available (pre_check_all N now have ids labels)
  unfolding pre_check_all
  pre_check_all-Without [] labels h = h
  pre_check_all-Without ((id, m) ∷ rest) labels h =
      pre_check_all-Without rest
        (pre_checked_labels N now have id (lookup (N.prefix operation_type) m) labels)
        (typed (lookup (N.prefix operation_type) m))
    where
      typed : (o : Option Text) → Without available (pre_checked_labels N now have id o labels)
      typed none = h
      typed (some t) =
          add_missing-Without pre_checked id
            (add_missing have (key N operation_permission t) now labels)
            (add_missing-Without operation_permission t labels h)

  pub post_check_all-Without :
      (ids : Dict Labels) (labels : Labels)
      → Without available labels
      → Without available (post_check_all N now have ids labels)
  unfolding post_check_all
  post_check_all-Without [] labels h = h
  post_check_all-Without ((id, m) ∷ rest) labels h =
      post_check_all-Without rest (add_missing have (key N post_checked id) now labels)
        (add_missing-Without post_checked id labels h)
