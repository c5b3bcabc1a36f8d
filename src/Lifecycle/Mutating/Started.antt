-- ===== src/Lifecycle/Mutating/Started.antt =====
-- Mutating, for a pod whose operation may start: its loop and what follows.
use kuperator.Common.{
  ℕ, ◌≤◌, ◌<◌, ◌≡◌, true, false, ◌&&◌, [], ◌∷◌, arith, Text, text_eq, text_eq_iff, Dict, lookup,
  has, ok, Bool-cases, inl, inr,
}
use kuperator.Pod.{
  Prefix, operating, pre_checked, operate, undo_operation_type, Names, IsNames, key, Labels, Pod,
  set_labels,
}
use kuperator.Lifecycle.Ids.Snapshot.{known_in, IsSnapshot, AllSnapshots}
use kuperator.Lifecycle.Mutating.{
  OpsLifecycle, Progress, had, visit, visit_all, reset_permissions, empty_progress, mutate_labels,
}
use kuperator.Lifecycle.Mutating.Start.{
  Kept, Startable, AllStartable, visit_all-Kept, visit-Starts, reset_permissions-Kept,
}

module _ (N : Names) (names : IsNames N) (lc : OpsLifecycle) (id : Text)
    (available_ne : text_eq N.service_available (key N operate id) ≡ false) (pod : Pod)
    (ready : (labels : Labels) → lc.ready_to_operate (set_labels pod labels) ≡ true) where
  abbrev May : Dict Labels → Type 0
  May ids = AllStartable N names lc id available_ne pod ready ids

  -- No entry of the operation has its operate label.
  abbrev Fresh : Dict Labels → Type 0
  Fresh [] = Unit {0}
  Fresh ((j, m) ∷ rest) = (text_eq j id ≡ true → had N m operate ≡ false) × Fresh rest

  visit_all-Starts :
      (ids : Dict Labels) (s : Progress)
      → May ids
      → Fresh ids
      → has id ids ≡ true
      → Kept (key N operate id) (visit_all N lc pod ids s).labels
  unfolding visit_all lookup
  visit_all-Starts [] s may fresh on = absurd (ground arith)
  visit_all-Starts ((j, m) ∷ rest) s may fresh on = elim (Bool-cases (text_eq j id)) [
    | inl same ↦
        visit_all-Kept N names lc id available_ne pod ready rest (visit N lc pod j m s) may.1 (
          rw ((text_eq_iff j id).0 same)
            (visit-Starts N names lc id available_ne pod ready m s (may.0 same) (fresh.0 same)))
    | inr other ↦
        visit_all-Starts rest (visit N lc pod j m s) may.1 fresh.1 (ground (arith, on, other))
  ]

  visit_operating :
      (j : Text) (m : Labels) (s : Progress)
      → s.operating_count ≤ (visit N lc pod j m s).operating_count
  unfolding visit
  visit_operating j m s = ground arith

  visit_all_operating :
      (ids : Dict Labels) (s : Progress)
      → s.operating_count ≤ (visit_all N lc pod ids s).operating_count
  unfolding visit_all
  visit_all_operating [] s = omega arith
  visit_all_operating ((j, m) ∷ rest) s =
      omega (arith, visit_operating j m s, visit_all_operating rest (visit N lc pod j m s))

  visit_counts_operating :
      (j : Text) (m : Labels) (s : Progress)
      → Startable N names lc id available_ne pod ready m
      → 0 < (visit N lc pod j m s).operating_count
  unfolding visit
  visit_counts_operating j m s (alive, on, checked) = ground (arith, alive, on)

  operating_count_positive :
      (ids : Dict Labels) (s : Progress)
      → May ids
      → has id ids ≡ true
      → 0 < (visit_all N lc pod ids s).operating_count
  unfolding visit_all lookup
  operating_count_positive [] s may on = absurd (ground arith)
  operating_count_positive ((j, m) ∷ rest) s may on = elim (Bool-cases (text_eq j id)) [
    | inl same ↦ omega (
      arith,
      visit_counts_operating j m s (may.0 same),
      visit_all_operating rest (visit N lc pod j m s),
    )
    | inr other ↦
        operating_count_positive rest (visit N lc pod j m s) may.1 (ground (arith, on, other))
  ]

  snapshot_has :
      (j : Text) (m : Labels) (p : Prefix)
      → IsSnapshot N pod.labels j m
      → text_eq j id ≡ true
      → had N m p ≡ (known_in N N.well_known p && has (key N p id) pod.labels)
  snapshot_has j m p all same = let e = all p in rw (e, (text_eq_iff j id).0 same) (ground arith)

  pub AllSnapshots-May :
      (ids : Dict Labels)
      → AllSnapshots N pod.labels ids
      → (known_in N N.well_known operating && known_in N N.well_known pre_checked) ≡ true
      → has (key N operating id) pod.labels ≡ true
      → has (key N pre_checked id) pod.labels ≡ true
      → has (key N undo_operation_type id) pod.labels ≡ false
      → May ids
  AllSnapshots-May [] all known on checked alive = tt
  AllSnapshots-May ((j, m) ∷ rest) all known on checked alive = (
    λ same. (
      ground (arith, alive, snapshot_has j m undo_operation_type all.0 same),
      ground (arith, known, on, snapshot_has j m operating all.0 same),
      ground (arith, known, checked, snapshot_has j m pre_checked all.0 same),
    ),
    AllSnapshots-May rest all.1 known on checked alive,
  )

  AllSnapshots-Fresh :
      (ids : Dict Labels)
      → AllSnapshots N pod.labels ids
      → has (key N operate id) pod.labels ≡ false
      → Fresh ids
  AllSnapshots-Fresh [] all off = tt
  AllSnapshots-Fresh ((j, m) ∷ rest) all off = (
    λ same. ground (arith, off, snapshot_has j m operate all.0 same),
    AllSnapshots-Fresh rest all.1 off,
  )

  visited :
      (ids : Dict Labels)
      → AllSnapshots N pod.labels ids
      → May ids
      → has id ids ≡ true
      → Kept (key N operate id) (visit_all N lc pod ids (empty_progress N lc pod.labels)).labels
  visited ids all may on = elim (Bool-cases (has (key N operate id) pod.labels)) [
    | inl before ↦
        visit_all-Kept N names lc id available_ne pod ready ids (empty_progress N lc pod.labels) may
          before
    | inr off ↦
        visit_all-Starts ids (empty_progress N lc pod.labels) may (AllSnapshots-Fresh ids all off)
          on
  ]

  pub mutate_labels-Starts :
      (old : Labels) (ids : Dict Labels) (nums : Dict ℕ)
      → AllSnapshots N pod.labels ids
      → May ids
      → has id ids ≡ true
      → (labels : Labels) × (mutate_labels N lc old pod (ids, nums) ≡ ok labels)
        × Kept (key N operate id) labels
  unfolding mutate_labels
  mutate_labels-Starts old ids nums all may on =
      let s = visit_all N lc pod ids (empty_progress N lc pod.labels) in
      (
        reset_permissions N lc s.undone nums s.labels,
        ground (arith, operating_count_positive ids (empty_progress N lc pod.labels) may on),
        reset_permissions-Kept N names lc id s.undone nums s.labels (visited ids all may on),
      )
