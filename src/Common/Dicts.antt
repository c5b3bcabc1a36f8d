-- ===== src/Common/Dicts.antt =====
-- Go maps with text keys, as association lists. The order of the entries is the order in which a
-- `range` loop meets them, which Go leaves open: statements range over every order.
use mathlib.Core.Path.{◌≡◌, refl}
use mathlib.Core.Bool.{Bool}
use mathlib.Core.Option.{Option, none, some}
use mathlib.Core.List.{List, [], ◌∷◌}
use native.Mathlib.Omega.{arith}
use kuperator.Common.Tests.{if◌then◌else◌, is_some, if-both}
use kuperator.Common.Texts.{Text, text_eq, text_eq_iff}

abbrev pub Dict {ℓ} : Type ℓ → Type ℓ
Dict V = List (Text × V)

module _ {ℓ} {V : Type ℓ} where
  unfoldable pub lookup : Text → Dict V → Option V
  lookup k [] = none
  lookup k ((j, v) ∷ m) = if text_eq j k then some v else lookup k m

  unfoldable pub insert : Text → V → Dict V → Dict V
  insert k v [] = (k, v) ∷ []
  insert k v ((j, w) ∷ m) = if text_eq j k then (k, v) ∷ m else (j, w) ∷ insert k v m

  unfoldable pub delete : Text → Dict V → Dict V
  delete k [] = []
  delete k ((j, w) ∷ m) = let rest = delete k m in if text_eq j k then rest else (j, w) ∷ rest

  abbrev pub has : Text → Dict V → Bool
  has k m = is_some (lookup k m)

  pub lookup-insert :
      (k j : Text) (v : V) (m : Dict V)
      → lookup j (insert k v m) ≡ (if text_eq k j then some v else lookup j m)
  unfolding lookup insert
  lookup-insert k j v [] = refl
  lookup-insert k j v ((i, w) ∷ m) =
      ground (arith, text_eq_iff k j, text_eq_iff i k, text_eq_iff i j, lookup-insert k j v m)

  pub lookup-delete :
      (k j : Text) (m : Dict V) → lookup j (delete k m) ≡ (if text_eq k j then none else lookup j m)
  unfolding lookup delete
  lookup-delete k j [] = ground arith
  lookup-delete k j ((i, w) ∷ m) =
      ground (arith, text_eq_iff k j, text_eq_iff i k, text_eq_iff i j, lookup-delete k j m)

-- What holds of each value.
module _ {ℓ} {V : Type ℓ} where
  abbrev pub All : (V → Type 0) → Dict V → Type 0
  All P [] = Unit {0}
  All P ((k, v) ∷ m) = P v × All P m

  pub All-insert :
      (P : V → Type 0) (k : Text) (v : V) (m : Dict V) → P v → All P m → All P (insert k v m)
  unfolding insert
  All-insert P k v [] p h = (p, tt)
  All-insert P k v ((j, w) ∷ m) p h =
      if-both (All P) (text_eq j k) (p, h.1) (h.0, All-insert P k v m p h.1)

  pub All-map : (P Q : V → Type 0) (m : Dict V) → ((v : V) → P v → Q v) → All P m → All Q m
  All-map P Q [] f h = tt
  All-map P Q ((k, v) ∷ m) f h = (f v h.0, All-map P Q m f h.1)
