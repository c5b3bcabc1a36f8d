-- ===== src/Expectations/Active/Satisfied.antt =====
-- ActiveExpectations.IsSatisfied against what the cluster shows.
use kuperator.Common.{
  ℕ, ◌+◌, ◌≤◌, ◌≡◌, refl, ◌∙◌, ap, ◌↔◌, inl, inr, Bool, true, false, ◌&&◌, ◌||◌, Option, none, some,
  List, [], ◌∷◌, arith, if◌then◌else◌, Text, text_eq, text_eq_refl, text_eq_iff, Result, ok,
  returns, Bool-cases,
}
use kuperator.Expectations.{Store, IsStore, In, Get-cases}
use kuperator.Expectations.Counter.{expectations_timeout}
use kuperator.Expectations.Active.Item.{ActiveExpectationItem, item_key, Api, item_is_satisfied}
use kuperator.Expectations.Active.Shown.{
  IsShown, item_is_satisfied_iff, Left, pending, pending-Left,
}
use kuperator.Expectations.Active.Subject.{
  ActiveExpectation, subject_key, check_items, subject_is_satisfied,
}
use kuperator.Expectations.Active.Manager.{SubjectRef, ref_key, is_satisfied}

module _ (api : Api) (now : ℕ) (namespace : Text) where
  abbrev sat : ActiveExpectationItem → Bool
  sat i = item_is_satisfied api now namespace i

  abbrev all_sat : List ActiveExpectationItem → Bool
  all_sat [] = true
  all_sat (i ∷ is) = sat i && all_sat is

  -- An item of the list under `k` is satisfied.
  abbrev gone : Text → List ActiveExpectationItem → Bool
  gone k [] = false
  gone k (i ∷ is) = (text_eq (item_key i) k && sat i) || gone k is

  all_sat-In :
      (is : List ActiveExpectationItem)
      → all_sat is ≡ true
      → (i : ActiveExpectationItem) → In i is
      → sat i ≡ true
  all_sat-In [] h i m = absurd m
  all_sat-In (j ∷ is) h i (inl e) = rw e (ground arith)
  all_sat-In (j ∷ is) h i (inr m) = all_sat-In is (ground arith) i m

  all_sat_of :
      (is : List ActiveExpectationItem)
      → ((i : ActiveExpectationItem) → In i is → sat i ≡ true)
      → all_sat is ≡ true
  all_sat_of [] h = refl
  all_sat_of (j ∷ is) h = rw (h j (inl refl)) (all_sat_of is (λ i m. h i (inr m)))

  gone-In :
      (k : Text) (is : List ActiveExpectationItem)
      → gone k is ≡ true
      → (i : ActiveExpectationItem) × In i is × (item_key i ≡ k) × (sat i ≡ true)
  gone-In k [] h = cc
  gone-In k (j ∷ is) h = elim (Bool-cases (text_eq (item_key j) k && sat j)) [
    | inl here ↦ (j, inl refl, ground (arith, text_eq_iff (item_key j) k), ground arith)
    | inr there ↦ let (i, m, e, s) = gone-In k is (ground arith) in (i, inr m, e, s)
  ]

  gone_of :
      (is : List ActiveExpectationItem) (i : ActiveExpectationItem)
      → In i is
      → sat i ≡ true
      → gone (item_key i) is ≡ true
  gone_of [] i m s = absurd m
  gone_of (j ∷ is) i (inl e) s = rw (← e) (rw (text_eq_refl (item_key i), s))
  gone_of (j ∷ is) i (inr m) s = ground (arith, gone_of is i m s)

module _ (I : Store ActiveExpectationItem) (laws : IsStore item_key I) (api : Api) (now : ℕ) where
  -- Without a timeout the loop returns, deletes what is satisfied, and changes nothing else.
  check_items_lem :
      (e : ActiveExpectation I) (is : List ActiveExpectationItem) (b : Bool)
      → now ≤ e.record_timestamp + expectations_timeout
      → (e' : ActiveExpectation I) × (check_items I api now e is b
          ≡ returns (e', b && all_sat api now e.namespace is))
        × (e'.key ≡ e.key)
        × ((k : Text)
            → I.get_by_key e'.items k
              ≡ (if gone api now e.namespace k is then ok none else I.get_by_key e.items k))
  unfolding check_items
  check_items_lem e [] b h = (e, ground arith, refl, λ k. refl)
  check_items_lem e (i ∷ is) b h = elim (Bool-cases (sat api now e.namespace i)) [
    | inl done ↦
        let (items, eq, got) = laws.delete_lem e.items i in
        let (e', r, key, rest) = check_items_lem (record e { items = items }) is b h in
        (e', rw (done, eq) r, key, λ k. ground (arith, done, rest k, got k))
    | inr waits ↦
        let (e', r, key, rest) = check_items_lem e is false h in
        (e', ground (arith, waits, r), key, λ k. ground (arith, waits, rest k))
  ]

  gone-pending :
      (e : ActiveExpectation I) (k : Text)
      → (if gone api now e.namespace k (I.list e.items) then ok none else I.get_by_key e.items k)
        ≡ pending api now e.namespace (I.get_by_key e.items k)
  gone-pending e k = elim (Bool-cases (gone api now e.namespace k (I.list e.items))) [
    | inl there ↦
        let (i, m, key, done) = gone-In api now e.namespace k (I.list e.items) there in
        ground (arith, there, (laws.list_iff e.items i).0 m, key, done)
    | inr absent ↦ rw absent (elim (Get-cases (I.get_by_key e.items k)) [
      | inl (v, h) ↦
          let m =
            (laws.list_iff e.items v).1
              (ap (I.get_by_key e.items) (laws.keyed e.items k v h) ∙ h) in
          ground (
            arith,
            h,
            absent,
            laws.keyed e.items k v h,
            gone_of api now e.namespace (I.list e.items) v m,
          )
      | inr (inl h) ↦ rw h
      | inr (inr (x, h)) ↦ rw h
    ])
  ]

  -- The cluster shows every item.
  abbrev pub AllSatisfied : ActiveExpectation I → Type 0
  AllSatisfied e =
      (i : ActiveExpectationItem)
      → I.get_by_key e.items (item_key i) ≡ ok (some i)
      → IsShown api now e.namespace i

  all_sat_iff :
      (e : ActiveExpectation I)
      → (all_sat api now e.namespace (I.list e.items) ≡ true) ↔ AllSatisfied e
  all_sat_iff e = (
    λ h i got.
        (item_is_satisfied_iff api now e.namespace i).0
          (all_sat-In api now e.namespace (I.list e.items) h i ((laws.list_iff e.items i).1 got)),
    λ h. all_sat_of api now e.namespace (I.list e.items) (λ i m.
        (item_is_satisfied_iff api now e.namespace i).1 (h i ((laws.list_iff e.items i).0 m))),
  )

  subject_is_satisfied_lem :
      (e : ActiveExpectation I)
      → now ≤ e.record_timestamp + expectations_timeout
      → (e' : ActiveExpectation I) × (b : Bool) × (subject_is_satisfied I api now e
          ≡ returns (e', b))
        × ((b ≡ true) ↔ AllSatisfied e)
        × (e'.key ≡ e.key)
        × ((k : Text)
            → I.get_by_key e'.items k ≡ pending api now e.namespace (I.get_by_key e.items k))
  unfolding subject_is_satisfied
  subject_is_satisfied_lem e h =
      let (e', r, key, rest) = check_items_lem e (I.list e.items) true h in
      (
        e',
        all_sat api now e.namespace (I.list e.items),
        r,
        all_sat_iff e,
        key,
        λ k. rest k ∙ gone-pending e k,
      )

  module _ (S : Store (ActiveExpectation I)) (subject_laws : IsStore (subject_key I) S) where
    -- What the store holds for the subject afterwards.
    abbrev pub Kept : ActiveExpectation I → Bool → Result (Option (ActiveExpectation I)) → Type 0
    Kept e true r = r ≡ ok none
    Kept e false r =
        (e' : ActiveExpectation I) × (r ≡ ok (some e'))
        × ((k : Text) → Left api now e.namespace (I.get_by_key e.items k) (I.get_by_key e'.items k))

    finish :
        (s : S.State) (r : SubjectRef) (e e' : ActiveExpectation I) (b : Bool)
        → S.get_by_key s (ref_key r) ≡ ok (some e)
        → subject_is_satisfied I api now e ≡ returns (e', b)
        → ((b ≡ true) ↔ AllSatisfied e)
        → e'.key ≡ ref_key r
        → ((k : Text)
            → I.get_by_key e'.items k ≡ pending api now e.namespace (I.get_by_key e.items k))
        → (s' : S.State) × (b' : Bool) × (is_satisfied I S api now s r ≡ returns (s', ok b'))
          × ((b' ≡ true) ↔ AllSatisfied e)
          × Kept e b' (S.get_by_key s' (ref_key r))
    unfolding is_satisfied
    finish s r e e' true got eq exact key rest =
        let (u, eq₂, got₂) = subject_laws.delete_lem (S.write s e') e' in
        (
          u,
          true,
          ground (arith, got, eq, eq₂),
          exact,
          got₂ (ref_key r) ∙ ground (arith, (text_eq_iff e'.key (ref_key r)).1 key),
        )
    finish s r e e' false got eq exact key rest =
        let written = subject_laws.write_lem s e' e (ref_key r) (ap (S.get_by_key s) key ∙ got) in
        (
          S.write s e',
          false,
          ground (arith, got, eq),
          exact,
          (
            e',
            written ∙ ground (arith, (text_eq_iff e'.key (ref_key r)).1 key),
            λ k.
                pending-Left api now e.namespace (I.get_by_key e.items k) (I.get_by_key e'.items k)
                  (rest k),
          ),
        )

    -- When an expectation is stored for the subject, and at most ten minutes have passed since its
    -- last record, IsSatisfied returns true exactly if the cluster shows every item that is expected.
    -- Then the subject is forgotten; otherwise exactly the items that the cluster does not show are
    -- kept.
    pub is_satisfied_exact :
        (s : S.State) (r : SubjectRef) (e : ActiveExpectation I)
        → S.get_by_key s (ref_key r) ≡ ok (some e)
        → now ≤ e.record_timestamp + expectations_timeout
        → (s' : S.State) × (b : Bool) × (is_satisfied I S api now s r ≡ returns (s', ok b))
          × ((b ≡ true) ↔ AllSatisfied e)
          × Kept e b (S.get_by_key s' (ref_key r))
    unfolding is_satisfied
    is_satisfied_exact s r e got h =
        let (e', b, eq, exact, key, rest) = subject_is_satisfied_lem e h in
        finish s r e e' b got eq exact (key ∙ subject_laws.keyed s (ref_key r) e got) rest
