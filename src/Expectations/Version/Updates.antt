-- ===== src/Expectations/Version/Updates.antt =====
-- ResourceVersionExpectation after a number of updates.
use kuperator.Common.{
  ℕ, ◌≡◌, refl, ◌↔◌, Bool, true, false, ◌&&◌, none, some, List, [], ◌∷◌, arith, Text, text_eq_refl,
  Result, ok, ◌>>=◌, returns, signed_lt,
}
use kuperator.Expectations.{Store, IsStore}
use kuperator.Expectations.Version.{
  ResourceVersionExpectationItem, item_key, version_of, item_set, item_fulfilled, satisfied_version,
  set_version, expect_update,
}

-- `v` is a version after `u`, or `u` is none.
abbrev pub is_newer : Text → Text → Bool
is_newer u v = elim (version_of u) [
  | none ↦ true
  | some a ↦ elim (version_of v) [ none ↦ false | some b ↦ signed_lt a b ]
]

abbrev pub is_positive : Text → Bool
is_positive v = elim (version_of v) [ none ↦ false | some b ↦ signed_lt 0 b ]

abbrev pub all_newer : List (ℕ × Text) → Text → Bool
all_newer [] v = true
all_newer ((t, u) ∷ us) v = is_newer u v && all_newer us v

item_fulfilled-set :
    (now : ℕ) (i : ResourceVersionExpectationItem) (u v : Text)
    → item_fulfilled (item_set now i u) v ≡ (is_newer u v && item_fulfilled i v)
unfolding item_fulfilled item_set
item_fulfilled-set now i u v = ground arith

item_set-key :
    (now : ℕ) (i : ResourceVersionExpectationItem) (u : Text)
    → item_key (item_set now i u) ≡ item_key i
unfolding item_set
item_set-key now i u = ground arith

item_fulfilled_fresh :
    (i : ResourceVersionExpectationItem) (v : Text)
    → i.resource_version ≡ 0
    → item_fulfilled i v ≡ is_positive v
unfolding item_fulfilled
item_fulfilled_fresh i v h = ground arith

module _ (S : Store ResourceVersionExpectationItem) where
  open S use {State, get_by_key}

  -- Updates of `k`, each with its time.
  pub expect_updates : State → Text → List (ℕ × Text) → Result State
  expect_updates s k [] = ok s
  expect_updates s k ((t, u) ∷ us) = do s' ← expect_update S t s k u; expect_updates s' k us

module _ (S : Store ResourceVersionExpectationItem) (laws : IsStore item_key S) where
  open S use {State, get_by_key}

  expect_update_known :
      (t : ℕ) (s : State) (k u : Text) (i : ResourceVersionExpectationItem)
      → get_by_key s k ≡ ok (some i)
      → (s' : State) × (expect_update S t s k u ≡ ok s')
        × (get_by_key s' k ≡ ok (some (item_set t i u)))
  unfolding expect_update
  expect_update_known t s k u i h = (
    S.write s (item_set t i u),
    ground (arith, h),
    ground (
      arith,
      h,
      laws.keyed s k i h,
      item_set-key t i u,
      laws.write_lem s (item_set t i u) i k,
      text_eq_refl k,
    ),
  )

  expect_update_new :
      (t : ℕ) (s : State) (k u : Text)
      → get_by_key s k ≡ ok none
      → (s' : State) × (expect_update S t s k u ≡ ok s')
        × (get_by_key s' k
            ≡ ok (some (item_set t (record { resource_version = 0; key = k; timestamp = t }) u)))
  unfolding expect_update set_version
  expect_update_new t s k u h =
      let fresh : ResourceVersionExpectationItem = record {
        resource_version = 0;
        key = k;
        timestamp = t;
      } in
      let (s', e, got) = laws.add_lem s (item_set t fresh u) in
      (s', ground (arith, h, e), ground (arith, got k, item_set-key t fresh u, text_eq_refl k))

  expect_updates_known :
      (s : State) (k : Text) (us : List (ℕ × Text)) (i : ResourceVersionExpectationItem)
      → get_by_key s k ≡ ok (some i)
      → (s' : State) × (j : ResourceVersionExpectationItem) × (expect_updates S s k us ≡ ok s')
        × (get_by_key s' k ≡ ok (some j))
        × ((v : Text) → item_fulfilled j v ≡ (all_newer us v && item_fulfilled i v))
  unfolding expect_updates
  expect_updates_known s k [] i h = (s, i, refl, h, λ v. refl)
  expect_updates_known s k ((t, u) ∷ us) i h =
      let (s₁, e₁, g₁) = expect_update_known t s k u i h in
      let (s₂, j, e₂, g₂, f) = expect_updates_known s₁ k us (item_set t i u) g₁ in
      (s₂, j, rw e₁ e₂, g₂, λ v. ground (arith, f v, item_fulfilled-set t i u v))

  satisfied_version_lem :
      (now : ℕ) (s : State) (k v : Text) (i : ResourceVersionExpectationItem)
      → get_by_key s k ≡ ok (some i)
      → (satisfied_version S now s k v ≡ returns true) ↔ (item_fulfilled i v ≡ true)
  unfolding satisfied_version
  satisfied_version_lem now s k v i h = (λ e. ground (arith, h), λ e. ground (arith, h))

  -- After updates of an object of which nothing was expected, the controller is synced exactly at
  -- a positive version that is newer than every update whose version parses. The updates never fail.
  pub expect_updates_satisfied :
      (s : State) (k u : Text) (t : ℕ) (us : List (ℕ × Text))
      → get_by_key s k ≡ ok none
      → (s' : State) × (expect_updates S s k ((t, u) ∷ us) ≡ ok s')
        × ((now : ℕ) (v : Text)
            → (satisfied_version S now s' k v ≡ returns true)
              ↔ ((all_newer ((t, u) ∷ us) v && is_positive v) ≡ true))
  unfolding expect_updates
  expect_updates_satisfied s k u t us h =
      let fresh : ResourceVersionExpectationItem = record {
        resource_version = 0;
        key = k;
        timestamp = t;
      } in
      let (s₁, e₁, g₁) = expect_update_new t s k u h in
      let (s₂, j, e₂, g₂, f) = expect_updates_known s₁ k us (item_set t fresh u) g₁ in
      let exact : (v : Text) → item_fulfilled j v ≡ (all_newer ((t, u) ∷ us) v && is_positive v) =
        λ v.
          ground (arith, f v, item_fulfilled-set t fresh u v, item_fulfilled_fresh fresh v refl) in
      (s₂, rw e₁ e₂, λ now v. rw (← exact v) (satisfied_version_lem now s₂ k v j g₂))
