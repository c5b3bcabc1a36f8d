-- ===== src/Common/Int64.antt =====
-- Go's int64 as a bit pattern below 2 ^ 64, and strconv.ParseInt(s, 10, 64).
use Prim.Native.Nat.{ℕ, ◌+◌, ◌-◌, ◌*◌, ◌%◌, ◌^◌, ◌<◌}
use mathlib.Core.Path.{◌≡◌, refl}
use mathlib.Core.Bool.{Bool, ◌&&◌, ◌||◌}
use mathlib.Core.Option.{Option, none, some}
use mathlib.Core.List.{[], ◌∷◌}
use native.Mathlib.Omega.{arith}
use kuperator.Common.Tests.{◌==◌, if◌then◌else◌, ltb, leb}
use kuperator.Common.Texts.{Text, codes}

abbrev pub word : ℕ
word = 2 ^ 64

abbrev pub half_word : ℕ
half_word = 2 ^ 63

-- a + b, and -a, with Go's wrap-around.
abbrev pub add64 : ℕ → ℕ → ℕ
add64 a b = (a + b) % word

abbrev pub neg64 : ℕ → ℕ
neg64 a = (word - a) % word

-- a <= 0, and a < b, of the signed values.
abbrev pub is_le_zero : ℕ → Bool
is_le_zero a = a == 0 || leb half_word a

abbrev pub signed_lt : ℕ → ℕ → Bool
signed_lt a b = ltb (add64 a half_word) (add64 b half_word)

digit : ℕ → Option ℕ
digit c = if leb b'0' c && leb c b'9' then some (c - b'0') else none

digits : ℕ → Text → Option ℕ
digits acc [] = some acc
digits acc (c ∷ s) = elim (digit c) [ none ↦ none | some d ↦ digits (acc * 10 + d) s ]

-- At least one digit.
unsigned : Text → Option ℕ
unfolding digits digit
unsigned [] = none
unsigned (c ∷ s) = digits 0 (c ∷ s)

in_range : Option ℕ → Option ℕ
in_range none = none
in_range (some n) = if ltb n half_word then some n else none

negated : Option ℕ → Option ℕ
negated none = none
negated (some n) = if leb n half_word then some (neg64 n) else none

unfoldable pub parse_int : Text → Option ℕ
unfolding unsigned in_range negated
parse_int [] = none
parse_int (c ∷ s) =
    if c == b'-'
    then negated (unsigned s)
    else if c == b'+'
    then in_range (unsigned s)
    else in_range (unsigned (c ∷ s))

in_range-lt : (o : Option ℕ) (n : ℕ) → in_range o ≡ some n → n < word
unfolding in_range
in_range-lt none n h = cc
in_range-lt (some m) n h = ground arith

negated-lt : (o : Option ℕ) (n : ℕ) → negated o ≡ some n → n < word
unfolding negated
negated-lt none n h = cc
negated-lt (some m) n h = ground arith

-- What is parsed is an int64.
pub parse_int-lt-word : (s : Text) (n : ℕ) → parse_int s ≡ some n → n < word
unfolding parse_int
parse_int-lt-word [] n h = cc
parse_int-lt-word (c ∷ s) n h =
    ground (
      arith,
      in_range-lt (unsigned s) n,
      in_range-lt (unsigned (c ∷ s)) n,
      negated-lt (unsigned s) n,
    )

parse_int_example : parse_int (codes "1042") ≡ some 1042
unfolding parse_int
parse_int_example = refl

parse_int_negative : parse_int (codes "-1") ≡ some (word - 1)
unfolding parse_int
parse_int_negative = refl

parse_int_overflow : parse_int (codes "9223372036854775808") ≡ none
unfolding parse_int
parse_int_overflow = refl
