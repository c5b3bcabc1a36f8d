-- ===== src/Expectations/Version/Examples.antt =====
-- A pod that was updated to version 7 and then, by a slower call, to version 5.
use kuperator.Common.{ℕ, ◌≡◌, refl, ◌↔◌, true, ◌&&◌, [], ◌∷◌, codes, Text, ok, returns}
use kuperator.Expectations.InMemory.{in_memory, in_memory-IsStore, find}
use kuperator.Expectations.Version.{item_key, satisfied_version}
use kuperator.Expectations.Version.Updates.{
  expect_updates, all_newer, is_positive, expect_updates_satisfied,
}

abbrev pod : Text
pod = codes "default/web-0"

expect_updates_satisfied_example :
    let S = in_memory item_key in
    (s' : S.State) × (expect_updates S [] pod ((1, codes "7") ∷ (2, codes "5") ∷ []) ≡ ok s')
    × ((now : ℕ) (v : Text)
        → (satisfied_version S now s' pod v ≡ returns true)
          ↔ ((all_newer ((1, codes "7") ∷ (2, codes "5") ∷ []) v && is_positive v) ≡ true))
unfolding find
expect_updates_satisfied_example =
    expect_updates_satisfied (in_memory item_key) (in_memory-IsStore item_key) [] pod (codes "7") 1
      ((2, codes "5") ∷ []) refl
