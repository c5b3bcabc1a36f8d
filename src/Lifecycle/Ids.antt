-- ===== src/Lifecycle/Ids.antt =====
-- pkg/controllers/podopslifecycle/utils.go: the operations that a pod's labels speak of.
pub mod Snapshot
pub mod Examples
use kuperator.Common.{
  ℕ, ◌+◌, Bool, true, false, ◌||◌, Option, none, some, List, [], ◌∷◌, if◌then◌else◌, Text,
  has_prefix, split_slash, Dict, lookup, insert, has, length, Result, ok, err, Error, invalid_label,
}
use kuperator.Pod.{
  Prefix, operating, operate, operated, operation_type, done_operation_type, Names, key, Labels,
  Pod, contains,
}

-- The labels of each operation by prefix, and how many operations have each type.
abbrev pub IdMaps : Type 0
IdMaps = Dict Labels × Dict ℕ

module _ (N : Names) where
  abbrev names_id : Text → Bool
  names_id k =
      has_prefix k (N.prefix operating)
      || has_prefix k (N.prefix operate)
      || has_prefix k (N.prefix operated)

  abbrev add_id : Text → List Text → Text → List Text → Result (List Text)
  add_id k ids first [] = err (invalid_label k)
  add_id k ids first (id ∷ rest) = if contains id ids then ok ids else ok (id ∷ ids)

  -- The second parts of the labels that name an id; one without a slash is an error.
  pub collect_ids : Labels → List Text → Result (List Text)
  collect_ids [] ids = ok ids
  collect_ids ((k, v) ∷ rest) ids =
      let (first, parts) = split_slash k in
      let added = add_id k ids first parts in
      elim (names_id k) [
        | true ↦ elim added [ err e ↦ err e | ok ids' ↦ collect_ids rest ids' ]
        | false ↦ collect_ids rest ids
      ]

  abbrev with_label : Text → Option Text → Labels → Labels
  with_label p none m = m
  with_label p (some v) m = insert p v m

  -- The labels with one of the prefixes and this id, by prefix.
  pub id_labels : Labels → Text → List Prefix → Labels
  id_labels labels id [] = []
  id_labels labels id (p ∷ ps) =
      with_label (N.prefix p) (lookup (key N p id) labels) (id_labels labels id ps)

  abbrev first_of_both : Option Text → Option Text → Option Text
  first_of_both (some t) o = some t
  first_of_both none o = o

  abbrev pub or_zero : Option ℕ → ℕ
  or_zero none = 0
  or_zero (some n) = n

  unfoldable pub bump : Text → Dict ℕ → Dict ℕ
  bump t nums = insert t (or_zero (lookup t nums) + 1) nums

  abbrev bump_type : Option Text → Dict ℕ → Dict ℕ
  bump_type none nums = nums
  bump_type (some t) nums = bump t nums

  abbrev with_id : Text → Labels → Dict Labels → Dict Labels
  with_id id [] m = m
  with_id id (l ∷ ls) m = insert id (l ∷ ls) m

  -- An id with no well-known label has no entry.
  pub maps_of : Labels → List Text → IdMaps
  unfolding bump
  maps_of labels [] = ([], [])
  maps_of labels (id ∷ ids) =
      let (m, nums) = maps_of labels ids in
      (
        with_id id (id_labels labels id N.well_known) m,
        bump_type
            (first_of_both (lookup (key N operation_type id) labels)
              (lookup (key N done_operation_type id) labels))
            nums,
      )

  unfoldable pub id_to_labels_map : Labels → Result IdMaps
  unfolding collect_ids maps_of id_labels
  id_to_labels_map labels = elim (collect_ids labels []) [
    | err e ↦ err e
    | ok ids ↦ ok (maps_of labels ids)
  ]

  abbrev on_pod : Text → Result IdMaps → Result Bool
  on_pod id (err e) = err e
  on_pod id (ok (m, nums)) = ok (has id m)

  unfoldable pub is_lifecycle_on_pod : Text → Labels → Result Bool
  unfolding id_to_labels_map
  is_lifecycle_on_pod id labels = on_pod id (id_to_labels_map labels)

  abbrev how_many : Result IdMaps → Result ℕ
  how_many (err e) = err e
  how_many (ok (m, nums)) = ok (length m)

  unfoldable pub num_of_lifecycle_on_pod : Labels → Result ℕ
  unfolding id_to_labels_map
  num_of_lifecycle_on_pod labels = how_many (id_to_labels_map labels)
