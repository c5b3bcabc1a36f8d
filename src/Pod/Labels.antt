-- ===== src/Pod/Labels.antt =====
-- Keys of labels, by their prefix and their id.
use kuperator.Common.{
  ◌≡◌, ◌≢◌, false, arith, Text, text_eq, text_eq_iff, join_slash-injective, Bool-cases, inl, inr,
}
use kuperator.Pod.{Prefix, Names, IsNames, key}

module _ (N : Names) (names : IsNames N) where
  key-injective : (p q : Prefix) (i j : Text) → key N p i ≡ key N q j → (p ≡ q) × (i ≡ j)
  key-injective p q i j e =
      let (prefixes, ids) =
        join_slash-injective (N.prefix p) (N.prefix q) i j (names.no_slash p) (names.no_slash q)
          e in
      (names.distinct p q prefixes, ids)

  pub key_ne_prefix : (p q : Prefix) (i j : Text) → p ≢ q → text_eq (key N p i) (key N q j) ≡ false
  key_ne_prefix p q i j ne = elim (Bool-cases (text_eq (key N p i) (key N q j))) [
    | inl same ↦ absurd (ne (key-injective p q i j ((text_eq_iff _ _).0 same)).0)
    | inr other ↦ other
  ]

  pub key_ne_id :
      (p q : Prefix) (i j : Text) → text_eq i j ≡ false → text_eq (key N p i) (key N q j) ≡ false
  key_ne_id p q i j ne = elim (Bool-cases (text_eq (key N p i) (key N q j))) [
    | inl same ↦
        ground (arith, ne, text_eq_iff i j, (key-injective p q i j ((text_eq_iff _ _).0 same)).1)
    | inr other ↦ other
  ]
