-- ===== src/Expectations/InMemory.antt =====
-- A store as the list of its items, which shows that the laws of `IsStore` can hold.
use kuperator.Common.{
  ◌≡◌, refl, sym, Bool-cases, ◌↔◌, inl, inr, true, false, Option, none, some, List, [], ◌∷◌, arith,
  if◌then◌else◌, Text, text_eq, text_eq_iff, ok, ap,
}
use kuperator.Expectations.{Store, IsStore, In}

text_ne_swap : (a b : Text) → text_eq a b ≡ false → text_eq b a ≡ false
text_ne_swap a b h = ground (arith, text_eq_iff a b, text_eq_iff b a)

module _ {V : Type 0} (key_of : V → Text) where
  unfoldable pub find : Text → List V → Option V
  find k [] = none
  find k (v ∷ m) = if text_eq (key_of v) k then some v else find k m

  unfoldable pub put : V → List V → List V
  put v [] = v ∷ []
  put v (w ∷ m) = if text_eq (key_of w) (key_of v) then v ∷ m else w ∷ put v m

  unfoldable pub remove : Text → List V → List V
  remove k [] = []
  remove k (v ∷ m) = let rest = remove k m in if text_eq (key_of v) k then rest else v ∷ rest

  find-put :
      (v : V) (k : Text) (m : List V)
      → find k (put v m) ≡ (if text_eq (key_of v) k then some v else find k m)
  unfolding find put
  find-put v k [] = refl
  find-put v k (w ∷ m) = ground (
    arith,
    text_eq_iff (key_of w) (key_of v),
    text_eq_iff (key_of w) k,
    text_eq_iff (key_of v) k,
    find-put v k m,
  )

  find-remove :
      (j k : Text) (m : List V) → find k (remove j m) ≡ (if text_eq j k then none else find k m)
  unfolding find remove
  find-remove j k [] = ground arith
  find-remove j k (w ∷ m) = ground (
    arith,
    text_eq_iff (key_of w) j,
    text_eq_iff (key_of w) k,
    text_eq_iff j k,
    find-remove j k m,
  )

  find-keyed : (k : Text) (m : List V) (v : V) → find k m ≡ some v → key_of v ≡ k
  unfolding find
  find-keyed k [] v h = absurd (ground arith)
  find-keyed k (w ∷ m) v h = ground (arith, text_eq_iff (key_of w) k, find-keyed k m v)

  -- The items, each key once.
  unfoldable pub items : List V → List V
  items [] = []
  items (v ∷ m) = v ∷ remove (key_of v) (items m)

  clash :
      (v w : V) (k : Text) → text_eq (key_of w) k ≡ true → text_eq (key_of v) k ≡ false → v ≡ w → ⊥
  clash v w k same other e = ground (arith, ap key_of e)

  In-remove :
      (k : Text) (v : V) (m : List V)
      → In v (remove k m) ↔ (In v m × (text_eq (key_of v) k ≡ false))
  unfolding remove
  In-remove k v [] = ((λ h. absurd h), (λ h. absurd h.0))
  In-remove k v (w ∷ m) =
      let ih = In-remove k v m in
      elim (Bool-cases (text_eq (key_of w) k)) [
        | inl same ↦ rw same (
          (λ h. (inr (ih.0 h).0, (ih.0 h).1)),
          (λ p. elim p.0 [ inl e ↦ absurd (clash v w k same p.1 e) | inr q ↦ ih.1 (q, p.1) ]),
        )
        | inr other ↦ rw other (
          (λ h. elim h [ inl e ↦ (inl e, rw e other) | inr q ↦ (inr (ih.0 q).0, (ih.0 q).1) ]),
          (λ p. elim p.0 [ inl e ↦ inl e | inr q ↦ inr (ih.1 (q, p.1)) ]),
        )
      ]

  In-items : (m : List V) (v : V) → In v (items m) ↔ (find (key_of v) m ≡ some v)
  unfolding items find
  In-items [] v = ((λ h. absurd h), (λ h. cc))
  In-items (w ∷ m) v =
      let ih = In-items m v in
      let rest = In-remove (key_of w) v (items m) in
      elim (Bool-cases (text_eq (key_of w) (key_of v))) [
        | inl same ↦ rw same (
          (λ h. elim h [
            | inl e ↦ ap some (sym e)
            | inr q ↦ absurd (
                ground (
                  arith,
                  rest.0 q,
                  text_eq_iff (key_of w) (key_of v),
                  text_eq_iff (key_of v) (key_of w),
                ))
          ]),
          (λ e. inl (ground arith)),
        )
        | inr other ↦ rw other (
          (λ h. elim h [
            | inl e ↦ absurd (ground (arith, ap key_of e, text_eq_iff (key_of w) (key_of v)))
            | inr q ↦ ih.0 (rest.0 q).0
          ]),
          (λ e. inr (rest.1 (ih.1 e, text_ne_swap (key_of w) (key_of v) other))),
        )
      ]

  abbrev pub in_memory : Store V
  in_memory = record {
    State = List V;
    empty = [];
    get_by_key = λ s k. ok (find k s);
    add = λ s v. ok (put v s);
    delete = λ s v. ok (remove (key_of v) s);
    write = λ s v. put v s;
    list = items;
  }

  pub in_memory-IsStore : IsStore key_of in_memory
  unfolding find
  in_memory-IsStore = record {
    get-empty = λ k. refl;
    total = λ s k. (find k s, refl);
    add_lem = λ s v. (put v s, refl, λ k. ground (arith, find-put v k s));
    delete_lem =
        λ s v. (remove (key_of v) s, refl, λ k. ground (arith, find-remove (key_of v) k s));
    keyed = λ s k v h. find-keyed k s v (ground arith);
    list_iff = λ s v. (λ h. ap ok ((In-items s v).0 h), λ e. (In-items s v).1 (ground arith));
    write_lem = λ s v w k h. ground (arith, find-put v k s);
  }
