-- ===== src/Decorations/Effective.antt =====
-- pkg/controllers/utils/poddecoration/getter.go, getEffectiveRevisions: the revisions of decorations
-- that are in effect for a pod, from those that the strategy names and those that the pod has.
use kuperator.Common.{
  ◌≡◌, refl, ap, ◌∙◌, Bool, false, not, ◌&&◌, ◌||◌, List, [], ◌∷◌, arith, if◌then◌else◌, Bool-cases,
  inl, inr, Text, text_eq, text_eq_sym, Dict, lookup, lookup-delete, delete, has, any, if-cases,
}
use kuperator.Pod.{contains, set_insert}
use kuperator.Pod.Sets.{contains-set_insert}

-- The loop over the updated revisions.
abbrev pub take_updated : Dict Text → List Text → Dict Text → List Text × Dict Text
take_updated [] updated old = (updated, old)
take_updated ((pd, rev) ∷ rest) updated old =
    take_updated rest (set_insert rev updated) (delete pd old)

abbrev pub prefer_old : Text → Text → List Text → Dict Text → List Text × Dict Text
prefer_old pd rev revisions stable =
    if has pd stable then (set_insert rev revisions, delete pd stable) else (revisions, stable)

-- The loop over the revisions that the pod has.
abbrev pub take_old : Dict Text → List Text × Dict Text → List Text × Dict Text
take_old [] r = r
take_old ((pd, rev) ∷ rest) r = take_old rest (prefer_old pd rev r.0 r.1)

-- The loop over the stable revisions that are left.
abbrev pub take_stable : Dict Text → List Text → List Text
take_stable [] revisions = revisions
take_stable ((pd, rev) ∷ rest) revisions = take_stable rest (set_insert rev revisions)

-- The updated and the stable revisions in effect.
unfoldable pub get_effective_revisions : Dict Text → Dict Text → Dict Text → List Text × List Text
get_effective_revisions updated stable old =
    let (updated_revisions, others) = take_updated updated [] old in
    let (revisions, left) = take_old others ([], stable) in
    (updated_revisions, take_stable left revisions)

-- A map has one entry for a key.
abbrev pub IsMap : Dict Text → Type 0
IsMap [] = Unit {0}
IsMap ((k, v) ∷ m) = (has k m ≡ false) × IsMap m

abbrev Test : Type 0
Test = Text × Text → Bool

abbrev is_revision : Text → Test
is_revision rev e = text_eq e.1 rev

any-ext : (p q : Test) (m : Dict Text) → ((e : Text × Text) → p e ≡ q e) → any p m ≡ any q m
any-ext p q [] h = refl
any-ext p q (e ∷ m) h = ground (arith, h e, any-ext p q m h)

any-delete :
    (p : Test) (k : Text) (m : Dict Text)
    → any p (delete k m) ≡ any (λ e. not (text_eq e.0 k) && p e) m
unfolding delete
any-delete p k [] = refl
any-delete p k ((j, v) ∷ m) = elim (Bool-cases (text_eq j k)) [
  | inl same ↦ rw same (any-delete p k m)
  | inr other ↦ rw other (ap (λ b. p (j, v) || b) (any-delete p k m))
]

has-delete : (k j : Text) (m : Dict Text) → has j (delete k m) ≡ (not (text_eq k j) && has j m)
has-delete k j m = ground (arith, lookup-delete k j m)

delete-IsMap : (k : Text) (m : Dict Text) → IsMap m → IsMap (delete k m)
unfolding delete
delete-IsMap k [] h = tt
delete-IsMap k ((j, v) ∷ m) h = elim (Bool-cases (text_eq j k)) [
  | inl same ↦ rw same (delete-IsMap k m h.1)
  | inr other ↦ rw other (ground (arith, has-delete k j m, h.0), delete-IsMap k m h.1)
]

contains-take_updated :
    (r : Text) (updated : Dict Text) (rs : List Text) (old : Dict Text)
    → contains r (take_updated updated rs old).0 ≡ (any (is_revision r) updated || contains r rs)
contains-take_updated r [] rs old = refl
contains-take_updated r ((pd, rev) ∷ rest) rs old = ground (
  arith,
  contains-take_updated r rest (set_insert rev rs) (delete pd old),
  contains-set_insert r rev rs,
)

any-take_updated :
    (p : Test) (updated : Dict Text) (rs : List Text) (old : Dict Text)
    → any p (take_updated updated rs old).1 ≡ any (λ e. not (has e.0 updated) && p e) old
unfolding lookup
any-take_updated p [] rs old = any-ext p (λ e. not false && p e) old (λ e. refl)
any-take_updated p ((pd, rev) ∷ rest) rs old =
    any-take_updated p rest (set_insert rev rs) (delete pd old)
    ∙ any-delete (λ e. not (has e.0 rest) && p e) pd old
    ∙ any-ext (λ e. not (text_eq e.0 pd) && (not (has e.0 rest) && p e))
        (λ e. not (has e.0 ((pd, rev) ∷ rest)) && p e) old (λ e. ground (arith, text_eq_sym e.0 pd))

has-take_updated :
    (k : Text) (updated : Dict Text) (rs : List Text) (old : Dict Text)
    → has k (take_updated updated rs old).1 ≡ (has k old && not (has k updated))
unfolding lookup
has-take_updated k [] rs old = ground arith
has-take_updated k ((pd, rev) ∷ rest) rs old =
    ground (arith, has-take_updated k rest (set_insert rev rs) (delete pd old), has-delete pd k old)

take_updated-IsMap :
    (updated : Dict Text) (rs : List Text) (old : Dict Text)
    → IsMap old
    → IsMap (take_updated updated rs old).1
take_updated-IsMap [] rs old h = h
take_updated-IsMap ((pd, rev) ∷ rest) rs old h =
    take_updated-IsMap rest (set_insert rev rs) (delete pd old) (delete-IsMap pd old h)

contains-take_stable :
    (r : Text) (m : Dict Text) (rs : List Text)
    → contains r (take_stable m rs) ≡ (any (is_revision r) m || contains r rs)
contains-take_stable r [] rs = refl
contains-take_stable r ((pd, rev) ∷ rest) rs =
    ground (arith, contains-take_stable r rest (set_insert rev rs), contains-set_insert r rev rs)

-- The entries of `m` are not those of the deleted name.
any-absent :
    (p : Test) (k : Text) (m stable : Dict Text)
    → has k m ≡ false
    → any (λ e. has e.0 (delete k stable) && p e) m ≡ any (λ e. has e.0 stable && p e) m
unfolding lookup
any-absent p k [] stable h = refl
any-absent p k ((j, v) ∷ m) stable h = elim (Bool-cases (text_eq j k)) [
  | inl same ↦ ground (arith, same, h)
  | inr other ↦
      ground (arith, other, text_eq_sym j k, has-delete k j stable, any-absent p k m stable, h)
]

contains-take_old :
    (r : Text) (old : Dict Text) (rs : List Text) (stable : Dict Text)
    → IsMap old
    → contains r (take_old old (rs, stable)).0
      ≡ (any (λ e. has e.0 stable && is_revision r e) old || contains r rs)
contains-take_old r [] rs stable h = refl
contains-take_old r ((pd, rev) ∷ rest) rs stable h =
    if-cases
      (λ (x : List Text × Dict Text). contains r (take_old rest x).0 ≡ (
        (has pd stable && text_eq rev r)
        || any (λ e. has e.0 stable && is_revision r e) rest
        || contains r rs))
      (has pd stable)
      (λ found. ground (
        arith,
        contains-take_old r rest (set_insert rev rs) (delete pd stable) h.1,
        found,
        contains-set_insert r rev rs,
        any-absent (is_revision r) pd rest stable h.0,
      ))
      (λ missing. ground (arith, contains-take_old r rest rs stable h.1, missing))

any-other :
    (p : Test) (k : Text) (m : Dict Text)
    → has k m ≡ false
    → any p m ≡ any (λ e. not (text_eq e.0 k) && p e) m
unfolding lookup
any-other p k [] h = refl
any-other p k ((j, v) ∷ m) h = elim (Bool-cases (text_eq j k)) [
  | inl same ↦ ground (arith, same, h)
  | inr other ↦ ground (arith, other, any-other p k m, h)
]

any-take_old :
    (p : Test) (old : Dict Text) (rs : List Text) (stable : Dict Text)
    → any p (take_old old (rs, stable)).1 ≡ any (λ e. not (has e.0 old) && p e) stable
unfolding lookup
any-take_old p [] rs stable = any-ext p (λ e. not false && p e) stable (λ e. refl)
any-take_old p ((pd, rev) ∷ rest) rs stable =
    let q : Test = λ e. not (has e.0 rest) && p e in
    let last =
      any-ext (λ e. not (text_eq e.0 pd) && q e) (λ e. not (has e.0 ((pd, rev) ∷ rest)) && p e)
        stable (λ e. ground (arith, text_eq_sym e.0 pd)) in
    if-cases
      (λ (x : List Text × Dict Text).
        any p (take_old rest x).1 ≡ any (λ e. not (has e.0 ((pd, rev) ∷ rest)) && p e) stable)
      (has pd stable)
      (λ found.
        any-take_old p rest (set_insert rev rs) (delete pd stable) ∙ any-delete q pd stable ∙ last)
      (λ missing. any-take_old p rest rs stable ∙ any-other q pd stable missing ∙ last)

-- The revision that the pod has is in effect for a decoration: it is stable and not updated.
abbrev pub keeps_old : Dict Text → Dict Text → Text → Bool
keeps_old updated stable pd = has pd stable && not (has pd updated)

-- For a pod with one revision of a decoration, the updated revisions in effect are those that the
-- strategy updates to. A revision is a stable one in effect exactly if a decoration has it that is
-- stable and not updated and is on the pod with it, or one has it as its stable revision that the
-- pod does not keep so.
pub get_effective_revisions_iff :
    (updated stable old : Dict Text) (r : Text)
    → IsMap old
    → let result = get_effective_revisions updated stable old in
      (contains r result.0 ≡ any (λ e. text_eq e.1 r) updated)
      × (contains r result.1 ≡ (
          any (λ e. keeps_old updated stable e.0 && text_eq e.1 r) old
          || any (λ e. not (has e.0 old && not (has e.0 updated)) && text_eq e.1 r) stable))
unfolding get_effective_revisions contains
get_effective_revisions_iff updated stable old r unique =
    let others = (take_updated updated [] old).1 in
    let taken = take_old others ([], stable) in
    let kept = contains-take_old r others [] stable (take_updated-IsMap updated [] old unique) in
    let from_pod =
      any-take_updated (λ e. has e.0 stable && is_revision r e) updated [] old
      ∙ any-ext (λ e. not (has e.0 updated) && (has e.0 stable && is_revision r e))
          (λ e. keeps_old updated stable e.0 && text_eq e.1 r) old (λ e. ground arith) in
    let from_strategy =
      any-take_old (is_revision r) others [] stable
      ∙ any-ext (λ e. not (has e.0 others) && is_revision r e)
          (λ e. not (has e.0 old && not (has e.0 updated)) && text_eq e.1 r) stable
          (λ e. ground (arith, has-take_updated e.0 updated [] old)) in
    (
      ground (arith, contains-take_updated r updated [] old),
      ground (arith, contains-take_stable r taken.1 taken.0, kept, from_pod, from_strategy),
    )
