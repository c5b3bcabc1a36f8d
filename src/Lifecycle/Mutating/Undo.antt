-- ===== src/Lifecycle/Mutating/Undo.antt =====
-- Mutating, for a pod with an operation that is undone.
use kuperator.Common.{
  ℕ, ◌+◌, ◌≤◌, ◌<◌, ◌≡◌, refl, subst, Bool, true, not, List, [], ◌∷◌, arith, Text, text_eq,
  text_eq_iff, Dict, lookup, delete, lookup-delete, has, length, Result, ok, err, Bool-cases, inl,
  inr,
}
use kuperator.Pod.{
  Prefix, undo_operation_type, Names, IsNames, key, Labels, Pod, set_labels,
  controlled_by_kusion_stack,
}
use kuperator.Lifecycle.Ids.{id_to_labels_map}
use kuperator.Lifecycle.Ids.Snapshot.{known_in, AllSnapshots, id_to_labels_map-AllSnapshots}
use kuperator.Lifecycle.Mutating.{
  OpsLifecycle, Progress, had, one_if, delete_all, wipe, visit, visit_all, reset_permissions,
  empty_progress, mutate_labels, with_maps, gated, mutating, Operation, is_create,
}
use kuperator.Lifecycle.Mutating.Frame.{
  Absent, delete-Absent, delete_all-Absent, reset_permissions-Absent, complete_all-Absent,
  visit-other,
}

module _ (N : Names) where
  -- Deleting all labels of some prefixes and an id deletes each of them.
  delete_all_known :
      (ps : List Prefix) (p : Prefix) (id : Text) (labels : Labels)
      → known_in N ps p ≡ true
      → Absent (key N p id) (delete_all N ps id labels)
  unfolding delete_all
  delete_all_known [] p id labels h = cc
  delete_all_known (q ∷ ps) p id labels h = elim (Bool-cases (text_eq (N.prefix q) (N.prefix p))) [
    | inl same ↦ delete_all-Absent N ps (key N p id) id (delete (key N q id) labels) (gone same)
    | inr other ↦ delete_all_known ps p id (delete (key N q id) labels) (ground arith)
  ]
    where
      gone :
          text_eq (N.prefix q) (N.prefix p) ≡ true
          → Absent (key N p id) (delete (key N q id) labels)
      gone same = rw ((text_eq_iff _ _).0 same) (
          ground (
            arith,
            lookup-delete (key N p id) (key N p id) labels,
            text_eq_iff (key N p id) (key N p id),
          ))

  abbrev is_undone : Labels → Bool
  is_undone m = had N m undo_operation_type

  -- The entries that are not undone.
  abbrev alive : Dict Labels → ℕ
  alive [] = 0
  alive ((id, m) ∷ rest) = one_if (not (is_undone m)) + alive rest

  -- Every entry of `id` is undone.
  abbrev Undone : Text → Dict Labels → Type 0
  Undone id [] = Unit {0}
  Undone id ((j, m) ∷ rest) = (text_eq j id ≡ true → is_undone m ≡ true) × Undone id rest

  AllSnapshots-Undone :
      (labels : Labels) (id : Text) (ids : Dict Labels)
      → AllSnapshots N labels ids
      → known_in N N.well_known undo_operation_type ≡ true
      → has (key N undo_operation_type id) labels ≡ true
      → Undone id ids
  AllSnapshots-Undone labels id [] all known undo = tt
  AllSnapshots-Undone labels id ((j, m) ∷ rest) all known undo = (
    λ same. let e = all.0 undo_operation_type in rw (e, known, (text_eq_iff j id).0 same) undo,
    AllSnapshots-Undone labels id rest all.1 known undo,
  )

  alive-le : (ids : Dict Labels) → alive ids ≤ length ids
  alive-le [] = omega arith
  alive-le ((j, m) ∷ rest) = ground (arith, alive-le rest)

  alive-lt :
      (id : Text) (ids : Dict Labels) → Undone id ids → has id ids ≡ true → alive ids < length ids
  unfolding lookup
  alive-lt id [] u h = cc
  alive-lt id ((j, m) ∷ rest) u h = elim (Bool-cases (text_eq j id)) [
    | inl same ↦ ground (arith, u.0 same, alive-le rest)
    | inr other ↦ ground (arith, other, alive-lt id rest u.1)
  ]

module _ (N : Names) (names : IsNames N) (lc : OpsLifecycle) (pod : Pod) where
  abbrev Counts : Progress → Progress → ℕ → Type 0
  Counts s t n = (t.operate_count ≤ s.operate_count + n) × (t.operated_count ≤ s.operated_count + n)

  visit-Counts :
      (id : Text) (m : Labels) (s : Progress)
      → Counts s (visit N lc pod id m s) (one_if (not (is_undone N m)))
  unfolding visit
  visit-Counts id m s = ground arith

  visit_all-Counts :
      (ids : Dict Labels) (s : Progress) → Counts s (visit_all N lc pod ids s) (alive N ids)
  unfolding visit_all
  visit_all-Counts [] s = omega arith
  visit_all-Counts ((id, m) ∷ rest) s =
      omega (arith, visit-Counts id m s, visit_all-Counts rest (visit N lc pod id m s))

  visit_undone :
      (p : Prefix) (id : Text) (m : Labels) (s : Progress)
      → known_in N N.well_known p ≡ true
      → is_undone N m ≡ true
      → Absent (key N p id) (visit N lc pod id m s).labels
  unfolding visit wipe
  visit_undone p id m s known undone = ground (
    arith,
    delete-Absent (key N p id) (key N undo_operation_type id)
        (delete_all N N.well_known id s.labels)
        (delete_all_known N N.well_known p id s.labels known),
  )

  visit_keeps :
      (p : Prefix) (id j : Text) (m : Labels) (s : Progress)
      → known_in N N.well_known p ≡ true
      → (text_eq j id ≡ true → is_undone N m ≡ true)
      → Absent (key N p id) s.labels
      → Absent (key N p id) (visit N lc pod j m s).labels
  visit_keeps p id j m s known u h = elim (Bool-cases (text_eq j id)) [
    | inl same ↦ rw ((text_eq_iff j id).0 same) (visit_undone p id m s known (u same))
    | inr other ↦ visit-other N names lc p id j other pod m s h
  ]

  visit_all_keeps :
      (p : Prefix) (id : Text) (ids : Dict Labels) (s : Progress)
      → known_in N N.well_known p ≡ true
      → Undone N id ids
      → Absent (key N p id) s.labels
      → Absent (key N p id) (visit_all N lc pod ids s).labels
  unfolding visit_all
  visit_all_keeps p id [] s known u h = h
  visit_all_keeps p id ((j, m) ∷ rest) s known u h =
      visit_all_keeps p id rest (visit N lc pod j m s) known u.1
        (visit_keeps p id j m s known u.0 h)

  visit_all_undone :
      (p : Prefix) (id : Text) (ids : Dict Labels) (s : Progress)
      → known_in N N.well_known p ≡ true
      → Undone N id ids
      → has id ids ≡ true
      → Absent (key N p id) (visit_all N lc pod ids s).labels
  unfolding visit_all lookup
  visit_all_undone p id [] s known u h = absurd (ground arith)
  visit_all_undone p id ((j, m) ∷ rest) s known u h = elim (Bool-cases (text_eq j id)) [
    | inl same ↦
        visit_all_keeps p id rest (visit N lc pod j m s) known u.1
          (rw ((text_eq_iff j id).0 same) (visit_undone p id m s known (u.0 same)))
    | inr other ↦
        visit_all_undone p id rest (visit N lc pod j m s) known u.1 (ground (arith, other))
  ]

  -- The same of the labels that the webhook computes.
  mutate_labels_undone :
      (p : Prefix) (id : Text) (old : Labels) (ids : Dict Labels) (nums : Dict ℕ) (labels : Labels)
      → known_in N N.well_known undo_operation_type ≡ true
      → known_in N N.well_known p ≡ true
      → AllSnapshots N pod.labels ids
      → has id ids ≡ true
      → has (key N undo_operation_type id) pod.labels ≡ true
      → mutate_labels N lc old pod (ids, nums) ≡ ok labels
      → Absent (key N p id) labels
  unfolding mutate_labels
  mutate_labels_undone p id old ids nums labels undo_known known all on undo e =
      let u = AllSnapshots-Undone N pod.labels id ids all undo_known undo in
      let s = visit_all N lc pod ids (empty_progress N lc pod.labels) in
      let reset =
        reset_permissions-Absent N names lc (key N p id) s.undone nums s.labels
          (visit_all_undone p id ids (empty_progress N lc pod.labels) known u on) in
      ground (
        arith,
        alive-lt N id ids u on,
        visit_all-Counts ids (empty_progress N lc pod.labels),
        reset,
        complete_all-Absent N names lc (key N p id) ids
            (reset_permissions N lc s.undone nums s.labels) reset,
      )

module _ (N : Names) (names : IsNames N) (lc : OpsLifecycle) where
  with_maps_undone :
      (p : Prefix) (id : Text) (old : Labels) (pod pod' : Pod) (ids : Dict Labels) (nums : Dict ℕ)
      → known_in N N.well_known undo_operation_type ≡ true
      → known_in N N.well_known p ≡ true
      → AllSnapshots N pod.labels ids
      → has id ids ≡ true
      → has (key N undo_operation_type id) pod.labels ≡ true
      → with_maps N lc old pod (ok (ids, nums)) ≡ ok pod'
      → Absent (key N p id) pod'.labels
  with_maps_undone p id old pod pod' ids nums undo_known known all on undo e =
      of_labels (mutate_labels N lc old pod (ids, nums)) refl e
    where
      of_labels :
          (r : Result Labels)
          → mutate_labels N lc old pod (ids, nums) ≡ r
          → (elim r [ err x ↦ err x | ok labels ↦ ok (set_labels pod labels) ]) ≡ ok pod'
          → Absent (key N p id) pod'.labels
      of_labels (err x) r h = absurd (ground arith)
      of_labels (ok labels) r h =
          let same : set_labels pod labels ≡ pod' = cc in
          subst (λ q. Absent (key N p id) q.labels) same
            (mutate_labels_undone N names lc pod p id old ids nums labels undo_known known all on
              undo r)

  -- When a pod that KusionStack controls is admitted and its labels say that an operation is
  -- undone, none of the operation's labels with a well-known prefix is left, whatever the other
  -- operations on the pod are. (The undo prefix has to be well known, and the operation one that
  -- IDToLabelsMap finds.)
  pub mutating_undone :
      (p : Prefix) (id : Text) (old : Labels) (pod pod' : Pod) (operation : Operation)
      (ids : Dict Labels) (nums : Dict ℕ)
      → known_in N N.well_known undo_operation_type ≡ true
      → known_in N N.well_known p ≡ true
      → controlled_by_kusion_stack N pod ≡ true
      → id_to_labels_map N pod.labels ≡ ok (ids, nums)
      → has id ids ≡ true
      → has (key N undo_operation_type id) pod.labels ≡ true
      → mutating N lc old pod operation ≡ ok pod'
      → Absent (key N p id) pod'.labels
  unfolding mutating
  mutating_undone p id old pod pod' is_create ids nums uk k c maps on undo e =
      let all = id_to_labels_map-AllSnapshots N pod.labels (ids, nums) maps in
      with_maps_undone p id old (gated N lc is_create pod) pod' ids nums uk k all on undo
        (rw (c, maps) at e)
  mutating_undone p id old pod pod' _ ids nums uk k c maps on undo e =
      let all = id_to_labels_map-AllSnapshots N pod.labels (ids, nums) maps in
      with_maps_undone p id old pod pod' ids nums uk k all on undo (rw (c, maps) at e)
