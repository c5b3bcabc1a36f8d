-- ===== src/Expectations/Active/Fresh.antt =====
-- What ExpectCreate, ExpectDelete and ExpectUpdate leave in the store.
use kuperator.Common.{
  ℕ, ◌≡◌, refl, ◌∙◌, ap, ◌≢◌, ◌⊎◌, inl, inr, Option, Result, true, false, none, some, arith, Text,
  text_eq, text_eq_refl, text_eq_iff, ok, returns, Option-cases, parse_int,
}
use kuperator.Expectations.{Store, IsStore}
use kuperator.Expectations.Active.Item.{
  Action, create, delete, update, Kind, is_supported, ActiveExpectationItem, item_key,
}
use kuperator.Expectations.Active.Subject.{
  ActiveExpectation, subject_key, new_active_expectation, Changed, subject_expect,
  subject_expect_update,
}
use kuperator.Expectations.Active.Manager.{
  SubjectRef, ref_key, expect, expect_update, with_expectation, is_update,
}
use kuperator.Expectations.Active.Recorded.{KeepsVersion, IsNamed, Expects, record_item_lem}

is_update_ne : (a : Action) → a ≢ update → is_update a ≡ false
is_update_ne create ne = refl
is_update_ne delete ne = refl
is_update_ne update ne = absurd (ne refl)

module _ (I : Store ActiveExpectationItem) (laws : IsStore item_key I) where
  module _ (S : Store (ActiveExpectation I)) (subject_laws : IsStore (subject_key I) S) where
    -- What the subject's items were: those in the store, or none if it has none there.
    abbrev pub IsOld : S.State → SubjectRef → ActiveExpectation I → Type 0
    IsOld s r old =
        (S.get_by_key s (ref_key r) ≡ ok (some old))
        ⊎ (S.get_by_key s (ref_key r) ≡ ok none)
          × (old.namespace ≡ r.namespace)
          × (old.key ≡ ref_key r)
          × ((k : Text) → I.get_by_key old.items k ≡ ok none)

    -- The subject's expectation in the store is `Q` of what it was, and nothing changed under another
    -- key.
    abbrev pub StoredFor :
        S.State
        → SubjectRef
        → S.State
        → (ActiveExpectation I → ActiveExpectation I → Type 0)
        → Type 0
    StoredFor s r s' Q =
        (e : ActiveExpectation I) × (e' : ActiveExpectation I) × IsOld s r e
        × (S.get_by_key s' (ref_key r) ≡ ok (some e'))
        × Q e e'
        × ((k : Text) → text_eq (ref_key r) k ≡ false → S.get_by_key s' k ≡ S.get_by_key s k)

    -- The items of the subject are `IsNamed`.
    abbrev pub AreNamed : S.State → SubjectRef → Type 0
    AreNamed s r =
        (e : ActiveExpectation I)
        → S.get_by_key s (ref_key r) ≡ ok (some e)
        → IsNamed I laws e.items

    write_StoredFor :
        (s t : S.State) (r : SubjectRef) (e e' : ActiveExpectation I)
        (Q : ActiveExpectation I → ActiveExpectation I → Type 0)
        → IsOld s r e
        → S.get_by_key t (ref_key r) ≡ ok (some e)
        → e'.key ≡ e.key
        → Q e e'
        → ((k : Text) → text_eq (ref_key r) k ≡ false → S.get_by_key t k ≡ S.get_by_key s k)
        → StoredFor s r (S.write t e') Q
    write_StoredFor s t r e e' Q old there key q rest =
        let same = key ∙ subject_laws.keyed t (ref_key r) e there in
        let at = λ (k : Text). subject_laws.write_lem t e' e k (ap (S.get_by_key t) same ∙ there) in
        (
          e,
          e',
          old,
          at (ref_key r) ∙ ground (arith, (text_eq_iff e'.key (ref_key r)).1 same),
          q,
          λ k ne. at k ∙ (ground (arith, rest k ne, ne, same)),
        )

    with_expectation_lem :
        (now : ℕ) (s : S.State) (r : SubjectRef) (change : ActiveExpectation I → Changed I)
        (kind : Kind) (name : Text) (action : Action)
        (P : Result (Option ActiveExpectationItem) → ActiveExpectationItem → Type 0)
        → AreNamed s r
        → ((e : ActiveExpectation I)
            → IsNamed I laws e.items
            → (e' : ActiveExpectation I) × (change e ≡ (e', none))
              × Expects I laws now kind name action P e e')
        → (s' : S.State) × (with_expectation I S now s r change ≡ (s', none))
          × StoredFor s r s' (Expects I laws now kind name action P)
    unfolding with_expectation new_active_expectation
    with_expectation_lem now s r change kind name action P named changes =
        let Q = Expects I laws now kind name action P in
        let (o, h) = subject_laws.total s (ref_key r) in
        elim (Option-cases o) [
          | inl new ↦
              let e = new_active_expectation I now r.namespace (ref_key r) in
              let (t, added, got) = subject_laws.add_lem s e in
              let empty : IsNamed I laws I.empty =
                λ k i f. absurd (ground (arith, f, laws.get-empty k)) in
              let (e', eq, q) = changes e empty in
              let there = got (ref_key r) ∙ rw (text_eq_refl (ref_key r)) refl in
              let old = inr (h ∙ ap ok new, refl, refl, laws.get-empty) in
              (
                S.write t e',
                ground (arith, h, new, added, eq),
                write_StoredFor s t r e e' Q old there q.2 q (λ k ne. got k ∙ rw ne refl),
              )
          | inr (e, present) ↦
              let there = h ∙ ap ok present in
              let (e', eq, q) = changes e (named e there) in
              (
                S.write s e',
                ground (arith, there, eq),
                write_StoredFor s s r e e' Q (inl there) there q.2 q (λ k ne. refl),
              )
        ]

    expect_StoredFor :
        (now : ℕ) (s : S.State) (r : SubjectRef) (kind : Kind) (name : Text) (action : Action)
        → AreNamed s r
        → is_supported kind ≡ true
        → action ≢ update
        → (s' : S.State) × (expect I S now s r kind name action ≡ returns (s', none))
          × StoredFor s r s' (Expects I laws now kind name action KeepsVersion)
    unfolding expect subject_expect
    expect_StoredFor now s r kind name action named known ne =
        let (s', eq, q) =
          with_expectation_lem now s r (λ e. subject_expect I now e kind name action) kind name
            action KeepsVersion named
            (λ e own.
              record_item_lem I laws now e kind name action 0 (λ i. i.resource_version) KeepsVersion
                own known (λ i h. h) (λ i j h. h)) in
        (s', rw (known, is_update_ne action ne) (ap returns eq), q)

    expect_update_StoredFor :
        (now : ℕ) (s : S.State) (r : SubjectRef) (kind : Kind) (name version : Text) (rv : ℕ)
        → AreNamed s r
        → is_supported kind ≡ true
        → parse_int version ≡ some rv
        → (s' : S.State) × (expect_update I S now s r kind name version ≡ returns (s', none))
          × StoredFor s r s' (Expects I laws now kind name update (λ _ i. i.resource_version ≡ rv))
    unfolding expect_update subject_expect_update
    expect_update_StoredFor now s r kind name version rv named known parsed =
        let (s', eq, q) =
          with_expectation_lem now s r (λ e. subject_expect_update I now e kind name rv) kind name
            update (λ _ i. i.resource_version ≡ rv) named
            (λ e own.
              record_item_lem I laws now e kind name update rv (λ i. rv)
                (λ _ i. i.resource_version ≡ rv) own known (λ i h. h) (λ i j h. h)) in
        (s', ground (arith, parsed, known, eq), q)

    -- If the items of a subject stand under their own kinds and names, then a creation or deletion
    -- that is expected of an object of a known kind is stored as an item of the object's kind and
    -- name, as of now, with the version that was there (0 for a new item), and an update with the
    -- version that its text stands for. The subject's other items and the other subjects are left
    -- alone, and the items still stand under their own kinds and names.
    pub expectations-StoredFor :
        (now : ℕ) (s : S.State) (r : SubjectRef) (kind : Kind) (name : Text) (action : Action)
        (version : Text) (rv : ℕ)
        → AreNamed s r
        → is_supported kind ≡ true
        → action ≢ update
        → parse_int version ≡ some rv
        → ((s' : S.State) × (expect I S now s r kind name action ≡ returns (s', none))
            × StoredFor s r s' (Expects I laws now kind name action KeepsVersion))
          × ((s' : S.State) × (expect_update I S now s r kind name version ≡ returns (s', none))
              × StoredFor s r s'
                  (Expects I laws now kind name update (λ _ i. i.resource_version ≡ rv)))
    expectations-StoredFor now s r kind name action version rv named known ne parsed = (
      expect_StoredFor now s r kind name action named known ne,
      expect_update_StoredFor now s r kind name version rv named known parsed,
    )
