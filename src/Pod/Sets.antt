-- ===== src/Pod/Sets.antt =====
-- The sets of names that the controllers keep (sets.String), as lists without an order.
use kuperator.Common.{
  ◌≡◌, refl, subst, true, ◌||◌, inl, inr, Bool-cases, List, [], ◌∷◌, ◌++◌, arith, Text, text_eq,
  text_eq_iff, Dict, has, insert, lookup-insert,
}
use kuperator.Pod.{contains, set_insert}

pub contains-set_insert :
    (j k : Text) (ks : List Text) → contains j (set_insert k ks) ≡ (text_eq k j || contains j ks)
unfolding set_insert contains
contains-set_insert j k ks = elim (Bool-cases (contains k ks)) [
  | inr off ↦ rw off refl
  | inl on ↦ elim (Bool-cases (text_eq k j)) [
    | inl same ↦ rw (on, same) (subst (λ x. contains x ks ≡ true) ((text_eq_iff k j).0 same) on)
    | inr other ↦ rw (on, other) refl
  ]
]

pub has-insert {ℓ} :
    {V : Type ℓ} (j k : Text) (v : V) (m : Dict V) → has j (insert k v m) ≡ (text_eq k j || has j m)
has-insert j k v m = ground (arith, lookup-insert k j v m)

pub contains-append :
    (r : Text) (xs ys : List Text) → contains r (xs ++ ys) ≡ (contains r xs || contains r ys)
unfolding contains
contains-append r [] ys = refl
contains-append r (x ∷ xs) ys = ground (arith, contains-append r xs ys)
