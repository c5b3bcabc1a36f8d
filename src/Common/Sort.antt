-- ===== src/Common/Sort.antt =====
-- sort.Sort by a Less. (It leaves the order of equals open: here they keep theirs.)
use Prim.Native.Nat.{ℕ, zero, suc}
use mathlib.Core.Path.{◌≡◌, refl, ap}
use mathlib.Core.Logic.{inl, inr}
use mathlib.Core.Bool.{Bool, true, false, not, ◌&&◌, ◌||◌}
use mathlib.Core.List.{List, [], ◌∷◌}
use mathlib.Core.List.Perm
use mathlib.Core.List.{Perm}
use native.Mathlib.Omega.{arith}
use kuperator.Common.Tests.{if◌then◌else◌, Bool-cases, if-both, if-cases}
use kuperator.Common.Lists.{length, drop, take}

module _ {ℓ} {A : Type ℓ} where
  abbrev pub any : (A → Bool) → List A → Bool
  any p [] = false
  any p (x ∷ xs) = p x || any p xs

  -- No entry that passes the test comes after one that does not.
  abbrev pub IsGrouped : (A → Bool) → List A → Type 0
  IsGrouped p [] = Unit {0}
  IsGrouped p (x ∷ xs) = ((not (p x) && any p xs) ≡ false) × IsGrouped p xs

  -- If an entry of the second list passes the test, all of the first do.
  abbrev pub Separates : (A → Bool) → List A → List A → Type 0
  Separates p [] ys = Unit {0}
  Separates p (x ∷ xs) ys = ((not (p x) && any p ys) ≡ false) × Separates p xs ys

  any-drop : (p : A → Bool) (n : ℕ) (xs : List A) → (any p (drop n xs) && not (any p xs)) ≡ false
  any-drop p zero xs = ground arith
  any-drop p (suc n) [] = refl
  any-drop p (suc n) (x ∷ xs) = ground (arith, any-drop p n xs)

  pub Separates-take :
      (p : A → Bool) (n : ℕ) (xs : List A) → IsGrouped p xs → Separates p (take n xs) (drop n xs)
  Separates-take p zero xs g = tt
  Separates-take p (suc n) [] g = tt
  Separates-take p (suc n) (x ∷ xs) g =
      (ground (arith, any-drop p n xs, g.0), Separates-take p n xs g.1)

  module _ (less : A → A → Bool) where
    unfoldable pub insert_by : A → List A → List A
    insert_by x [] = x ∷ []
    insert_by x (y ∷ ys) = let rest = insert_by x ys in if less y x then y ∷ rest else x ∷ y ∷ ys

    unfoldable pub sort_by : List A → List A
    sort_by [] = []
    sort_by (x ∷ xs) = insert_by x (sort_by xs)

    insert_by-perm : (x : A) (xs : List A) → Perm (insert_by x xs) (x ∷ xs)
    unfolding insert_by
    insert_by-perm x [] = Perm.refl (x ∷ [])
    insert_by-perm x (y ∷ ys) = elim (Bool-cases (less y x)) [
      | inl on ↦ rw on (Perm.trans (Perm.cons y (insert_by-perm x ys)) (Perm.swap x y ys))
      | inr off ↦ rw off (Perm.refl (x ∷ y ∷ ys))
    ]

    pub sort_by-perm : (xs : List A) → Perm (sort_by xs) xs
    unfolding sort_by
    sort_by-perm [] = Perm.refl []
    sort_by-perm (x ∷ xs) =
        Perm.trans (insert_by-perm x (sort_by xs)) (Perm.cons x (sort_by-perm xs))

    length-insert_by : (x : A) (xs : List A) → length (insert_by x xs) ≡ suc (length xs)
    unfolding insert_by
    length-insert_by x [] = refl
    length-insert_by x (y ∷ ys) = elim (Bool-cases (less y x)) [
      | inl on ↦ rw on (ap suc (length-insert_by x ys))
      | inr off ↦ rw off refl
    ]

    pub length-sort_by : (xs : List A) → length (sort_by xs) ≡ length xs
    unfolding sort_by
    length-sort_by [] = refl
    length-sort_by (x ∷ xs) = omega (arith, length-insert_by x (sort_by xs), length-sort_by xs)

    any-insert_by :
        (p : A → Bool) (x : A) (xs : List A) → any p (insert_by x xs) ≡ (p x || any p xs)
    unfolding insert_by
    any-insert_by p x [] = refl
    any-insert_by p x (y ∷ ys) = elim (Bool-cases (less y x)) [
      | inl on ↦ rw on (ground (arith, any-insert_by p x ys))
      | inr off ↦ rw off refl
    ]

    -- Where Less puts the entries that pass a test before the others.
    module _ (p : A → Bool) (first : (x y : A) → (p x && (not (p y) && not (less x y))) ≡ false)
        (last : (x y : A) → (p x && (not (p y) && less y x)) ≡ false) where
      insert_by-IsGrouped : (x : A) (xs : List A) → IsGrouped p xs → IsGrouped p (insert_by x xs)
      unfolding insert_by
      insert_by-IsGrouped x [] g = (ground arith, tt)
      insert_by-IsGrouped x (y ∷ ys) g = elim (Bool-cases (less y x)) [
        | inl on ↦
            rw on (
              ground (arith, any-insert_by p x ys, last x y, on, g.0),
              insert_by-IsGrouped x ys g.1,
            )
        | inr off ↦ rw off (ground (arith, first y x, off, g.0), g)
      ]

      pub sort_by-IsGrouped : (xs : List A) → IsGrouped p (sort_by xs)
      unfolding sort_by
      sort_by-IsGrouped [] = tt
      sort_by-IsGrouped (x ∷ xs) = insert_by-IsGrouped x (sort_by xs) (sort_by-IsGrouped xs)

    -- No entry of a list comes before `x`.
    abbrev pub NoneBefore : A → List A → Type 0
    NoneBefore x [] = Unit {0}
    NoneBefore x (y ∷ ys) = (less y x ≡ false) × NoneBefore x ys

    abbrev pub IsOrdered : List A → Type 0
    IsOrdered [] = Unit {0}
    IsOrdered (x ∷ xs) = NoneBefore x xs × IsOrdered xs

    -- Where Less is an order.
    module _ (asym : (x y : A) → less x y ≡ true → less y x ≡ false)
        (trans : (x y z : A) → less z y ≡ false → less y x ≡ false → less z x ≡ false) where
      NoneBefore-trans :
          (x y : A) (ys : List A) → less y x ≡ false → NoneBefore y ys → NoneBefore x ys
      NoneBefore-trans x y [] e n = tt
      NoneBefore-trans x y (z ∷ ys) e n = (trans x y z n.0 e, NoneBefore-trans x y ys e n.1)

      NoneBefore-insert_by :
          (x y : A) (ys : List A)
          → less y x ≡ false
          → NoneBefore x ys
          → NoneBefore x (insert_by y ys)
      unfolding insert_by
      NoneBefore-insert_by x y [] e n = (e, tt)
      NoneBefore-insert_by x y (z ∷ ys) e n =
          if-both (NoneBefore x) (less z y) (n.0, NoneBefore-insert_by x y ys e n.1) (e, n)

      insert_by-IsOrdered : (x : A) (xs : List A) → IsOrdered xs → IsOrdered (insert_by x xs)
      unfolding insert_by
      insert_by-IsOrdered x [] o = (tt, tt)
      insert_by-IsOrdered x (y ∷ ys) o =
          if-cases IsOrdered (less y x)
            (λ on. (NoneBefore-insert_by y x ys (asym y x on) o.0, insert_by-IsOrdered x ys o.1))
            (λ off. ((off, NoneBefore-trans x y ys off o.0), o))

      pub sort_by-IsOrdered : (xs : List A) → IsOrdered (sort_by xs)
      unfolding sort_by
      sort_by-IsOrdered [] = tt
      sort_by-IsOrdered (x ∷ xs) = insert_by-IsOrdered x (sort_by xs) (sort_by-IsOrdered xs)
