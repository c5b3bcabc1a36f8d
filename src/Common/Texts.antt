-- ===== src/Common/Texts.antt =====
-- Go strings as lists of code points, with the operations of package strings that the code calls.
use Prim.Native.Nat.{ℕ}
use Prim.Native.Char.{code}
use Prim.Native.String.{String}
use mathlib.Core.Path.{◌≡◌, refl}
use mathlib.Core.Logic.{◌↔◌}
use mathlib.Core.Bool.{Bool, true, false, not, ◌&&◌}
use mathlib.Core.List.{List, [], ◌∷◌, ◌++◌}
use native.Mathlib.Omega.{arith}
use kuperator.Common.Tests.{◌==◌, if◌then◌else◌}

abbrev pub Text : Type 0
Text = List ℕ

-- The code points of a literal.
abbrev pub codes : String → Text
codes String.[] = []
codes (String.◌∷◌ c s) = code c ∷ codes s

unfoldable pub text_eq : Text → Text → Bool
text_eq [] [] = true
text_eq [] (y ∷ ys) = false
text_eq (x ∷ xs) [] = false
text_eq (x ∷ xs) (y ∷ ys) = (x == y) && text_eq xs ys

pub text_eq_refl : (s : Text) → text_eq s s ≡ true
unfolding text_eq
text_eq_refl [] = refl
text_eq_refl (x ∷ xs) = ground (arith, text_eq_refl xs)

pub text_eq→eq : (s t : Text) → text_eq s t ≡ true → s ≡ t
unfolding text_eq
text_eq→eq [] [] h = refl
text_eq→eq [] (y ∷ ys) h = cc
text_eq→eq (x ∷ xs) [] h = cc
text_eq→eq (x ∷ xs) (y ∷ ys) h = ground (arith, text_eq→eq xs ys)

pub text_eq_iff : (s t : Text) → (text_eq s t ≡ true) ↔ (s ≡ t)
text_eq_iff s t = (text_eq→eq s t, λ e. rw e (text_eq_refl t))

pub text_eq_sym : (s t : Text) → text_eq s t ≡ text_eq t s
unfolding text_eq
text_eq_sym [] [] = refl
text_eq_sym [] (y ∷ ys) = refl
text_eq_sym (x ∷ xs) [] = refl
text_eq_sym (x ∷ xs) (y ∷ ys) = ground (arith, text_eq_sym xs ys)

-- strings.HasPrefix(s, p).
unfoldable pub has_prefix : Text → Text → Bool
has_prefix s [] = true
has_prefix [] (y ∷ ys) = false
has_prefix (x ∷ xs) (y ∷ ys) = (x == y) && has_prefix xs ys

pub has_prefix-append : (p s : Text) → has_prefix (p ++ s) p ≡ true
unfolding has_prefix
has_prefix-append [] s = refl
has_prefix-append (x ∷ p) s = ground (arith, has_prefix-append p s)

-- The parts of strings.Split(s, "/"): the first, and the rest of them.
unfoldable pub split_slash : Text → Text × List Text
split_slash [] = ([], [])
split_slash (c ∷ s) =
    let (first, rest) = split_slash s in if c == b'/' then ([], first ∷ rest) else (c ∷ first, rest)

-- A text without a slash.
abbrev pub NoSlash : Text → Type 0
NoSlash [] = Unit {0}
NoSlash (c ∷ s) = ((c == b'/') ≡ false) × NoSlash s

unfoldable pub no_slash_test : Text → Bool
no_slash_test [] = true
no_slash_test (c ∷ s) = not (c == b'/') && no_slash_test s

pub no_slash_test-NoSlash : (s : Text) → no_slash_test s ≡ true → NoSlash s
unfolding no_slash_test
no_slash_test-NoSlash [] h = tt
no_slash_test-NoSlash (c ∷ s) h = (ground arith, no_slash_test-NoSlash s (ground arith))

pub split_slash-NoSlash : (s : Text) → NoSlash s → split_slash s ≡ (s, [])
unfolding split_slash
split_slash-NoSlash [] h = refl
split_slash-NoSlash (c ∷ s) h = rw (split_slash-NoSlash s h.1, h.0)

-- fmt.Sprintf("%s/%s", p, s).
unfoldable pub join_slash : Text → Text → Text
join_slash p s = p ++ (b'/' ∷ s)

pub split_slash-join :
    (p s : Text) → NoSlash p → NoSlash s → split_slash (join_slash p s) ≡ (p, s ∷ [])
unfolding split_slash join_slash
split_slash-join [] s h k = rw (split_slash-NoSlash s k)
split_slash-join (c ∷ p) s h k = rw (split_slash-join p s h.1 k, h.0)

-- A key determines its prefix and its id.
pub join_slash-injective :
    (p q s t : Text) → NoSlash p → NoSlash q → join_slash p s ≡ join_slash q t → (p ≡ q) × (s ≡ t)
unfolding join_slash
join_slash-injective [] [] s t h k e = (refl, ground arith)
join_slash-injective [] (d ∷ q) s t h k e = absurd (ground arith)
join_slash-injective (c ∷ p) [] s t h k e = absurd (ground arith)
join_slash-injective (c ∷ p) (d ∷ q) s t h k e =
    ground (arith, join_slash-injective p q s t h.1 k.1)
