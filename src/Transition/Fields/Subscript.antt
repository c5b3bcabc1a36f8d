-- ===== src/Transition/Fields/Subscript.antt =====
-- pkg/controllers/podtransitionrule/processor/rules/common.go: splitMaybeSubscriptedPath, and its
-- inverse.
use kuperator.Common.{
  ℕ, ◌≡◌, refl, sym, subst, ◌∙◌, ◌↔◌, true, false, ◌&&◌, Option, none, some, [], ◌∷◌, ◌++◌, arith,
  ◌==◌, Bool-cases, inl, inr, Text,
}
use kuperator.Transition.Fields.{
  is_close, with_first, trim_close, open_rest, found_or, split_open, unless_empty, split_trimmed,
  split_maybe_subscripted_path,
}

abbrev opening : Text
opening = 91 ∷ 39 ∷ []

abbrev closing : Text
closing = 39 ∷ 93 ∷ []

is_close-append : (c : ℕ) (s : Text) → is_close (c ∷ (s ++ closing)) ≡ false
is_close-append c [] = refl
is_close-append c (d ∷ []) = refl
is_close-append c (d ∷ e ∷ s) = refl

trim_close-append : (s : Text) → trim_close (s ++ closing) ≡ some s
unfolding trim_close
trim_close-append [] = refl
trim_close-append (c ∷ s) = rw (is_close-append c s, trim_close-append s) refl

-- A path in which no subscript opens.
abbrev pub IsPlain : Text → Type 0
IsPlain path = split_open path ≡ none

found_or-none :
    (c : ℕ) (rest : Option Text) (later : Option (Text × Text))
    → found_or c rest later ≡ none
    → (rest ≡ none) × (later ≡ none)
found_or-none c (some rest) later e = cc
found_or-none c none none e = (refl, refl)
found_or-none c none (some (p, r)) e = cc

-- The first part of a split, after a character that opens nothing.
split_open-append : (p key : Text) → IsPlain p → split_open (p ++ (opening ++ key)) ≡ some (p, key)
unfolding split_open
split_open-append [] key plain = refl
split_open-append (c ∷ []) key plain = elim (Bool-cases (c == 91)) [
  | inl on ↦ rw on refl
  | inr off ↦ rw off refl
]
split_open-append (c ∷ d ∷ p) key plain =
    let (closed, plain_rest) = found_or-none c (open_rest (c ∷ d ∷ p)) (split_open (d ∷ p)) plain in
    let rest = split_open-append (d ∷ p) key plain_rest in
    let shut : (c == 91 && d == 39) ≡ false = ground (arith, closed) in rw (shut, rest) refl

open_rest-some : (s rest : Text) → open_rest s ≡ some rest → s ≡ (opening ++ rest)
open_rest-some [] rest e = cc
open_rest-some (c ∷ []) rest e = cc
open_rest-some (c ∷ d ∷ s) rest e = ground (arith, e)

open_rest-shorter :
    (c : ℕ) (q rest : Text)
    → open_rest (c ∷ (q ++ (opening ++ rest))) ≡ none
    → open_rest (c ∷ q) ≡ none
open_rest-shorter c [] rest e = refl
open_rest-shorter c (d ∷ q) rest e = ground (arith, e)

-- A split gives the text back, and a first part in which no subscript opens.
abbrev IsSplit : Text → Text × Text → Type 0
IsSplit s (p, rest) = (s ≡ (p ++ (opening ++ rest))) × IsPlain p

found_or-IsSplit :
    (c : ℕ) (s : Text) (o : Option Text) (l : Option (Text × Text)) (parts : Text × Text)
    → open_rest (c ∷ s) ≡ o
    → ((q : Text × Text) → l ≡ some q → IsSplit s q)
    → found_or c o l ≡ some parts
    → IsSplit (c ∷ s) parts
unfolding split_open
found_or-IsSplit c s (some r) l parts shut splits e =
    let same : ◌≡◌ {A = Text × Text} ([], r) parts = cc in
    subst (IsSplit (c ∷ s)) same (open_rest-some (c ∷ s) r shut, refl)
found_or-IsSplit c s none none parts shut splits e = cc
found_or-IsSplit c s none (some (q, r)) parts shut splits e =
    let same : ◌≡◌ {A = Text × Text} (c ∷ q, r) parts = cc in
    let (back, plain) = splits (q, r) refl in
    let closed = open_rest-shorter c q r (subst (λ t. open_rest (c ∷ t) ≡ none) back shut) in
    subst (IsSplit (c ∷ s)) same (rw back refl, rw (closed, plain) refl)

split_open-IsSplit : (s : Text) (parts : Text × Text) → split_open s ≡ some parts → IsSplit s parts
unfolding split_open
split_open-IsSplit [] parts e = cc
split_open-IsSplit (c ∷ s) parts e =
    found_or-IsSplit c s (open_rest (c ∷ s)) (split_open s) parts refl (split_open-IsSplit s) e

is_close-some : (s : Text) → is_close s ≡ true → s ≡ closing
is_close-some [] e = cc
is_close-some (c ∷ []) e = cc
is_close-some (c ∷ d ∷ []) e = ground (arith, e)
is_close-some (c ∷ d ∷ f ∷ s) e = cc

with_first-some :
    (c : ℕ) (s : Text) (o : Option Text) (t : Text)
    → ((r : Text) → o ≡ some r → s ≡ (r ++ closing))
    → with_first c o ≡ some t
    → (c ∷ s) ≡ (t ++ closing)
with_first-some c s none t trims e = cc
with_first-some c s (some r) t trims e =
    let same : (c ∷ r) ≡ t = cc in
    let back = trims r refl in subst (λ x. (c ∷ s) ≡ (x ++ closing)) same (rw back refl)

trim_close-some : (s t : Text) → trim_close s ≡ some t → s ≡ (t ++ closing)
unfolding trim_close
trim_close-some [] t e = cc
trim_close-some (c ∷ s) t e = elim (Bool-cases (is_close (c ∷ s))) [
  | inl on ↦
      let same : some [] ≡ some t = rw on at e in
      let empty : [] ≡ t = cc in
      subst (λ x. (c ∷ s) ≡ (x ++ closing)) empty (is_close-some (c ∷ s) on)
  | inr off ↦ with_first-some c s (trim_close s) t (trim_close-some s) (rw off at e)
]

-- The text of a path with a subscript.
abbrev pub join_subscript : Text × Text → Text
join_subscript (path, key) = path ++ (opening ++ (key ++ closing))

append_assoc : (p q r : Text) → ((p ++ q) ++ r) ≡ (p ++ (q ++ r))
append_assoc [] q r = refl
append_assoc (c ∷ p) q r = rw (append_assoc p q r) refl

join-trim_close :
    (path key : Text) → trim_close (join_subscript (path, key)) ≡ some (path ++ (opening ++ key))
join-trim_close path key =
    subst (λ s. trim_close s ≡ some (path ++ (opening ++ key)))
      (append_assoc path (opening ++ key) closing) (trim_close-append (path ++ (opening ++ key)))

-- A path that is not empty and in which no subscript opens, written with any subscript, splits into
-- the path and the subscript.
pub split_maybe_subscripted_path-join :
    (c : ℕ) (path key : Text)
    → IsPlain (c ∷ path)
    → split_maybe_subscripted_path (join_subscript (c ∷ path, key)) ≡ some (c ∷ path, key)
unfolding split_maybe_subscripted_path
split_maybe_subscripted_path-join c path key plain =
    rw (join-trim_close (c ∷ path) key, split_open-append (c ∷ path) key plain) refl

unless_empty-some :
    (o : Option (Text × Text)) (parts : Text × Text) → unless_empty o ≡ some parts → o ≡ some parts
unless_empty-some none parts e = cc
unless_empty-some (some ([], rest)) parts e = cc
unless_empty-some (some (c ∷ path, rest)) parts e = e

split_trimmed-join :
    (s : Text) (o : Option Text) (parts : Text × Text)
    → ((t : Text) → o ≡ some t → s ≡ (t ++ closing))
    → split_trimmed o ≡ some parts
    → (s ≡ join_subscript parts) × IsPlain parts.0
split_trimmed-join s none parts trims e = cc
split_trimmed-join s (some t) parts trims e =
    let split : split_open t ≡ some parts = unless_empty-some (split_open t) parts e in
    let (back, plain) = split_open-IsSplit t parts split in
    (trims t refl ∙ (rw back (append_assoc parts.0 (opening ++ parts.1) closing)), plain)

-- What is split is the path written with the subscript, and no subscript opens in the path.
pub join-split_maybe_subscripted_path :
    (s : Text) (parts : Text × Text)
    → split_maybe_subscripted_path s ≡ some parts
    → (s ≡ join_subscript parts) × IsPlain parts.0
unfolding split_maybe_subscripted_path
join-split_maybe_subscripted_path s parts e =
    split_trimmed-join s (trim_close s) parts (trim_close-some s) e

-- A text splits into a path, which is not empty, and a subscript exactly if it is the path written with
-- the subscript and no subscript opens in the path.
pub split_maybe_subscripted_path_iff :
    (s : Text) (c : ℕ) (path key : Text)
    → (split_maybe_subscripted_path s ≡ some (c ∷ path, key))
      ↔ ((s ≡ join_subscript (c ∷ path, key)) × IsPlain (c ∷ path))
split_maybe_subscripted_path_iff s c path key = (
  join-split_maybe_subscripted_path s (c ∷ path, key),
  λ h.
      subst (λ t. split_maybe_subscripted_path t ≡ some (c ∷ path, key)) (sym h.0)
        (split_maybe_subscripted_path-join c path key h.1),
)
