-- ===== src/Expectations/Active/Recorded.antt =====
-- What `expect` and `expectUpdate` do with the items of one subject.
use kuperator.Common.{
  ℕ, ◌≡◌, refl, sym, subst, ◌∙◌, ap, inl, inr, codes, NoSlash, no_slash_test, no_slash_test-NoSlash,
  join_slash-injective, Option, Bool-cases, Result, err, if◌then◌else◌, true, false, none, some,
  arith, Text, text_eq, text_eq_refl, text_eq_iff, join_slash, ok, Option-cases,
}
use kuperator.Expectations.{Store, IsStore}
use kuperator.Expectations.Active.Item.{Action, Kind, is_supported, ActiveExpectationItem, item_key}
use kuperator.Expectations.Active.Subject.{ActiveExpectation, record_item}

-- The kinds have no slash, so that a key has one kind and one name.
same_kind :
    (kind known : Kind) → no_slash_test known ≡ true → text_eq kind known ≡ true → NoSlash kind
same_kind kind known h e =
    subst NoSlash (sym ((text_eq_iff kind known).0 e)) (no_slash_test-NoSlash known h)

is_supported-NoSlash : (kind : Kind) → is_supported kind ≡ true → NoSlash kind
unfolding is_supported no_slash_test
is_supported-NoSlash kind known = elim (Bool-cases (text_eq kind (codes "pod"))) [
  | inl pod ↦ same_kind kind (codes "pod") refl pod
  | inr a ↦ elim (Bool-cases (text_eq kind (codes "pvc"))) [
    | inl pvc ↦ same_kind kind (codes "pvc") refl pvc
    | inr b ↦ elim (Bool-cases (text_eq kind (codes "CollaSet"))) [
      | inl set ↦ same_kind kind (codes "CollaSet") refl set
      | inr c ↦ same_kind kind (codes "ResourceContext") refl (ground (arith, known, a, b, c))
    ]
  ]
]

-- The version of an item that `expect` leaves as it is.
abbrev pub KeepsVersion : Result (Option ActiveExpectationItem) → ActiveExpectationItem → Type 0
KeepsVersion (ok none) i = i.resource_version ≡ 0
KeepsVersion (ok (some j)) i = i.resource_version ≡ j.resource_version
KeepsVersion (err x) i = Unit {0}

module _ (I : Store ActiveExpectationItem) (laws : IsStore item_key I) where
  -- Each item stands under its own kind, which is a known one, and its own name.
  abbrev pub IsNamed : I.State → Type 0
  IsNamed items =
      (k : Text) (i : ActiveExpectationItem)
      → I.get_by_key items k ≡ ok (some i)
      → (k ≡ join_slash i.kind i.name) × (is_supported i.kind ≡ true)

  -- `e'` is `e` with the object's item, which has the object's kind and name and the action, as of
  -- `now`, at the version that `P` allows for what was there; the other items are the same.
  abbrev pub Expects :
      ℕ
      → Kind
      → Text
      → Action
      → (Result (Option ActiveExpectationItem) → ActiveExpectationItem → Type 0)
      → ActiveExpectation I
      → ActiveExpectation I
      → Type 0
  Expects now kind name action P e e' =
      (e'.record_timestamp ≡ now)
      × (e'.namespace ≡ e.namespace)
      × (e'.key ≡ e.key)
      × ((i : ActiveExpectationItem) × (I.get_by_key e'.items (join_slash kind name) ≡ ok (some i))
          × (i.kind ≡ kind)
          × (i.name ≡ name)
          × (i.action ≡ action)
          × (i.record_timestamp ≡ now)
          × P (I.get_by_key e.items (join_slash kind name)) i)
      × ((k : Text)
          → text_eq (join_slash kind name) k ≡ false
          → I.get_by_key e'.items k ≡ I.get_by_key e.items k)
      × IsNamed e'.items

  recorded-IsNamed :
      (items new : I.State) (i : ActiveExpectationItem)
      → IsNamed items
      → is_supported i.kind ≡ true
      → ((k : Text)
          → I.get_by_key new k
            ≡ (if text_eq (join_slash i.kind i.name) k then ok (some i) else I.get_by_key items k))
      → IsNamed new
  recorded-IsNamed items new i named known got k j there =
      elim (Bool-cases (text_eq (join_slash i.kind i.name) k)) [
        | inl same ↦
            let here : I.get_by_key new k ≡ ok (some i) = rw (got k, same) refl in
            let it : i ≡ j = cc in
            subst (λ x. (k ≡ join_slash x.kind x.name) × (is_supported x.kind ≡ true)) it
              (sym ((text_eq_iff (join_slash i.kind i.name) k).0 same), known)
        | inr other ↦
            let old : I.get_by_key new k ≡ I.get_by_key items k = rw (got k, other) refl in
            named k j (sym old ∙ there)
      ]

  recorded-Expects :
      (now : ℕ) (e : ActiveExpectation I) (items : I.State) (i : ActiveExpectationItem)
      (P : Result (Option ActiveExpectationItem) → ActiveExpectationItem → Type 0)
      → IsNamed e.items
      → is_supported i.kind ≡ true
      → i.record_timestamp ≡ now
      → P (I.get_by_key e.items (join_slash i.kind i.name)) i
      → ((k : Text)
          → I.get_by_key items k ≡ (
              if text_eq (join_slash i.kind i.name) k then ok (some i) else I.get_by_key e.items k))
      → Expects now i.kind i.name i.action P e (record e { items = items; record_timestamp = now })
  recorded-Expects now e items i P named known at_now p got =
      let k = join_slash i.kind i.name in
      (
        refl,
        refl,
        refl,
        (i, got k ∙ rw (text_eq_refl k) refl, refl, refl, refl, at_now, p),
        λ j other. got j ∙ rw other refl,
        recorded-IsNamed e.items items i named known got,
      )

  pub record_item_lem :
      (now : ℕ) (e : ActiveExpectation I) (kind : Kind) (name : Text) (action : Action) (rv : ℕ)
      (old_rv : ActiveExpectationItem → ℕ)
      (P : Result (Option ActiveExpectationItem) → ActiveExpectationItem → Type 0)
      → IsNamed e.items
      → is_supported kind ≡ true
      → ((i : ActiveExpectationItem) → (i.resource_version ≡ rv) → P (ok none) i)
      → ((i j : ActiveExpectationItem) → (i.resource_version ≡ old_rv j) → P (ok (some j)) i)
      → (e' : ActiveExpectation I) × (record_item I now e kind name action rv old_rv ≡ (e', none))
        × Expects now kind name action P e e'
  unfolding record_item
  record_item_lem now e kind name action rv old_rv P named known fresh old =
      let k = join_slash kind name in
      let (o, h) = laws.total e.items k in
      elim (Option-cases o) [
        | inl new ↦
            let absent = h ∙ ap ok new in
            let i : ActiveExpectationItem = record {
              key = k;
              name = name;
              kind = kind;
              action = action;
              resource_version = rv;
              record_timestamp = now;
            } in
            let (items, added, got) = laws.add_lem e.items i in
            (
              record e { items = items; record_timestamp = now },
              ground (arith, h, new, added),
              recorded-Expects now e items i P named known refl
                  (subst (λ x. P x i) (sym absent) (fresh i refl)) got,
            )
        | inr (j, present) ↦
            let there = h ∙ ap ok present in
            let (own, is_known) = named k j there in
            let (kinds, names) =
              join_slash-injective kind j.kind name j.name (is_supported-NoSlash kind known)
                (is_supported-NoSlash j.kind is_known) own in
            let i = record j {
              action = action;
              resource_version = old_rv j;
              record_timestamp = now;
            } in
            let items = I.write e.items i in
            let same = laws.keyed e.items k j there in
            let got : (l : Text)
                → I.get_by_key items l ≡ (
                    if text_eq (join_slash j.kind j.name) l
                    then ok (some i)
                    else I.get_by_key e.items l) =
              λ l.
                laws.write_lem e.items i j l (ap (I.get_by_key e.items) same ∙ there)
                ∙ ap (λ x. if text_eq x l then ok (some i) else I.get_by_key e.items l)
                    (same ∙ own) in
            (
              record e { items = items; record_timestamp = now },
              ground (arith, there),
              subst
                  (λ x.
                    Expects now x name action P e
                      (record e { items = items; record_timestamp = now }))
                  (sym kinds)
                  (subst
                    (λ x.
                      Expects now j.kind x action P e
                        (record e { items = items; record_timestamp = now }))
                    (sym names)
                    (recorded-Expects now e items i P named is_known refl
                      (subst (λ x. P x i) (sym (ap (I.get_by_key e.items) (sym own) ∙ there))
                        (old i j refl))
                      got)),
            )
      ]
