-- ===== src/Expectations/Active/Examples.antt =====
-- A set that has created one pod and waits for its PVC to go.
use kuperator.Common.{
  ◌≡◌, refl, sym, subst, ◌↔◌, inl, inr, Bool-cases, some, text_eq_iff, Text, Bool, true, false,
  none, [], ◌∷◌, arith, codes, text_eq, join_slash, ok, returns, parse_int,
}
use kuperator.Expectations.{Store}
use kuperator.Expectations.InMemory.{in_memory, in_memory-IsStore, find}
use kuperator.Expectations.Active.Item.{
  create, delete, update, ActiveExpectationItem, item_key, Api, fetched, is_supported,
}
use kuperator.Expectations.Active.Subject.{ActiveExpectation, subject_key}
use kuperator.Expectations.Active.Manager.{SubjectRef, ref_key, is_satisfied, expect, expect_update}
use kuperator.Expectations.Active.Satisfied.{AllSatisfied, Kept, is_satisfied_exact}
use kuperator.Expectations.Active.Recorded.{KeepsVersion, Expects}
use kuperator.Expectations.Active.Fresh.{AreNamed, StoredFor, expectations-StoredFor}

abbrev I : Store ActiveExpectationItem
I = in_memory item_key

abbrev S : Store (ActiveExpectation I)
S = in_memory (subject_key I)

abbrev web : SubjectRef
web = record { namespace = codes "default"; name = codes "web" }

abbrev new_pod : ActiveExpectationItem
new_pod = record {
  key = codes "pod/web-0";
  name = codes "web-0";
  kind = codes "pod";
  action = create;
  resource_version = 0;
  record_timestamp = 1;
}

abbrev old_pvc : ActiveExpectationItem
old_pvc = record {
  key = codes "pvc/data-0";
  name = codes "data-0";
  kind = codes "pvc";
  action = delete;
  resource_version = 0;
  record_timestamp = 1;
}

abbrev expected : ActiveExpectation I
expected = record {
  namespace = codes "default";
  key = codes "default/web";
  items = new_pod ∷ old_pvc ∷ [];
  record_timestamp = 1;
}

-- The pod is there, and so is the PVC.
abbrev api : Api
api kind namespace name = fetched (record { resource_version = codes "3"; is_deleting = false })

is_satisfied_exact_example :
    (s' : S.State) × (b : Bool) × (is_satisfied I S api 9 (expected ∷ []) web ≡ returns (s', ok b))
    × ((b ≡ true) ↔ AllSatisfied I (in_memory-IsStore item_key) api 9 expected)
    × Kept I
        (in_memory-IsStore item_key)
        api
        9
        S
        (in_memory-IsStore (subject_key I))
        expected
        b
        (S.get_by_key s' (ref_key web))
unfolding find text_eq join_slash
is_satisfied_exact_example =
    is_satisfied_exact I (in_memory-IsStore item_key) api 9 S (in_memory-IsStore (subject_key I))
      (expected ∷ []) web expected refl (omega arith)

kinds_known : (is_supported (codes "pod") ≡ true) × (is_supported (codes "pvc") ≡ true)
unfolding is_supported
kinds_known = (refl, refl)

expected_items :
    (k : Text) (i : ActiveExpectationItem)
    → find item_key k expected.items ≡ some i
    → (k ≡ join_slash i.kind i.name) × (is_supported i.kind ≡ true)
unfolding find join_slash
expected_items k i there = elim (Bool-cases (text_eq (codes "pod/web-0") k)) [
  | inl pod ↦
      let at : some new_pod ≡ some i = rw pod at there in
      let it : new_pod ≡ i = cc in
      subst (λ x. (k ≡ join_slash x.kind x.name) × (is_supported x.kind ≡ true)) it
        (sym ((text_eq_iff (codes "pod/web-0") k).0 pod), kinds_known.0)
  | inr other ↦ elim (Bool-cases (text_eq (codes "pvc/data-0") k)) [
    | inl pvc ↦
        let at : some old_pvc ≡ some i = rw (other, pvc) at there in
        let it : old_pvc ≡ i = cc in
        subst (λ x. (k ≡ join_slash x.kind x.name) × (is_supported x.kind ≡ true)) it
          (sym ((text_eq_iff (codes "pvc/data-0") k).0 pvc), kinds_known.1)
    | inr neither ↦ absurd (ground (arith, there, other, neither))
  ]
]

expected-AreNamed :
    AreNamed I
      (in_memory-IsStore item_key)
      S
      (in_memory-IsStore (subject_key I))
      (expected ∷ [])
      web
unfolding find text_eq join_slash
expected-AreNamed e f k i there =
    let it : expected ≡ e = cc in
    let here : I.get_by_key expected.items k ≡ ok (some i) =
      subst (λ x. I.get_by_key x.items k ≡ ok (some i)) (sym it) there in
    expected_items k i cc

expectations-StoredFor_example :
    ((s' : S.State) × (expect I S 5 (expected ∷ []) web (codes "pod") (codes "web-0") create
        ≡ returns (s', none))
      × StoredFor I
          (in_memory-IsStore item_key)
          S
          (in_memory-IsStore (subject_key I))
          (expected ∷ [])
          web
          s'
          (Expects I
            (in_memory-IsStore item_key)
            5
            (codes "pod")
            (codes "web-0")
            create
            KeepsVersion))
    × ((s' : S.State) × (expect_update I S 5
            (expected ∷ [])
            web
            (codes "pod")
            (codes "web-0")
            (codes "12")
          ≡ returns (s', none))
        × StoredFor I
            (in_memory-IsStore item_key)
            S
            (in_memory-IsStore (subject_key I))
            (expected ∷ [])
            web
            s'
            (Expects I
              (in_memory-IsStore item_key)
              5
              (codes "pod")
              (codes "web-0")
              update
              (λ _ i. i.resource_version ≡ 12)))
unfolding is_supported parse_int
expectations-StoredFor_example =
    expectations-StoredFor I (in_memory-IsStore item_key) S (in_memory-IsStore (subject_key I)) 5
      (expected ∷ []) web (codes "pod") (codes "web-0") create (codes "12") 12 expected-AreNamed
      refl (λ e. cc) refl
