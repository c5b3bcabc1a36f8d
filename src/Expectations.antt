-- ===== src/Expectations.antt =====
-- The local store of client-go (cache.Store), which the expectations of
-- pkg/controllers/utils/expectations keep their items in. It is not code of the repository: its
-- operations are the fields of `Store`, and what its documentation says of them those of `IsStore`.
pub mod InMemory
pub mod Counter
pub mod Version
pub mod Active
use kuperator.Common.{
  ◌≡◌, Option, none, some, if◌then◌else◌, Text, text_eq, Result, ok, err, Error, refl, ◌⊎◌, inl,
  inr, List, [], ◌∷◌, ◌↔◌,
}

pub record Store (V : Type 0) : Type 1 where
  pub State : Type 0
  pub empty : State
  -- GetByKey: no item, an item, or an error.
  pub get_by_key : State → Text → Result (Option V)
  pub add : State → V → Result State
  pub delete : State → V → Result State
  -- The store holds pointers. This is a write through the pointer of the item with the same key.
  pub write : State → V → State
  pub list : State → List V

-- `v` is an entry of the list.
abbrev pub In : {V : Type 0} → V → List V → Type 0
In v [] = ⊥
In v (w ∷ ws) = (v ≡ w) ⊎ In v ws

-- An in-memory store never fails, and is a map by the key that the key function finds.
pub record IsStore {V : Type 0} (key_of : V → Text) (S : Store V) : Type 0 where
  pub get-empty : (k : Text) → S.get_by_key S.empty k ≡ ok none
  pub total : (s : S.State) (k : Text) → (o : Option V) × (S.get_by_key s k ≡ ok o)
  pub add_lem :
      (s : S.State) (v : V)
      → (t : S.State) × (S.add s v ≡ ok t)
        × ((k : Text)
            → S.get_by_key t k ≡ (if text_eq (key_of v) k then ok (some v) else S.get_by_key s k))
  pub delete_lem :
      (s : S.State) (v : V)
      → (t : S.State) × (S.delete s v ≡ ok t)
        × ((k : Text)
            → S.get_by_key t k ≡ (if text_eq (key_of v) k then ok none else S.get_by_key s k))
  -- An item stands under its own key.
  pub keyed : (s : S.State) (k : Text) (v : V) → S.get_by_key s k ≡ ok (some v) → key_of v ≡ k
  pub write_lem :
      (s : S.State) (v w : V) (k : Text)
      → S.get_by_key s (key_of v) ≡ ok (some w)
      → S.get_by_key (S.write s v) k
        ≡ (if text_eq (key_of v) k then ok (some v) else S.get_by_key s k)
  -- The list holds the items, in any order.
  pub list_iff : (s : S.State) (v : V) → In v (S.list s) ↔ (S.get_by_key s (key_of v) ≡ ok (some v))

pub Get-cases :
    {V : Type 0} (r : Result (Option V))
    → ((v : V) × (r ≡ ok (some v))) ⊎ ((r ≡ ok none) ⊎ ((e : Error) × (r ≡ err e)))
Get-cases (ok (some v)) = inl (v, refl)
Get-cases (ok none) = inr (inl refl)
Get-cases (err e) = inr (inr (e, refl))
