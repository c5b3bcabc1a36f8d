-- ===== src/Expectations/Active/Subject.antt =====
-- The expected actions of one controller.
use kuperator.Common.{
  ℕ, ◌+◌, Bool, true, false, Option, none, some, List, [], ◌∷◌, ltb, if◌then◌else◌, Text,
  join_slash, Result, ok, err, Error, Outcome, returns, panics,
}
use kuperator.Expectations.{Store}
use kuperator.Expectations.Counter.{expectations_timeout}
use kuperator.Expectations.Active.Item.{
  Action, update, Kind, ActiveExpectationItem, Api, item_is_satisfied,
}

module _ (I : Store ActiveExpectationItem) where
  pub record ActiveExpectation : Type 0 where
    pub namespace : Text
    pub key : Text
    pub items : I.State
    pub record_timestamp : ℕ

  abbrev pub subject_key : ActiveExpectation → Text
  subject_key e = e.key

  unfoldable pub new_active_expectation : ℕ → Text → Text → ActiveExpectation
  new_active_expectation now namespace key = record {
    namespace = namespace;
    key = key;
    items = I.empty;
    record_timestamp = now;
  }

  -- The expectation as the call leaves it, and the error that the call returns.
  abbrev pub Changed : Type 0
  Changed = ActiveExpectation × Option Error

  abbrev after_add : ActiveExpectation → Result I.State → Changed
  after_add e (ok items) = (record e { items = items }, none)
  after_add e (err x) = (e, some x)

  -- What `expect` and `expectUpdate` have in common: a new item with the action and the version,
  -- or the item that is there with these two set. (`expect` keeps the version of an old item.)
  unfoldable pub record_item :
      ℕ → ActiveExpectation → Kind → Text → Action → ℕ → (ActiveExpectationItem → ℕ) → Changed
  record_item now e kind name action rv old_rv =
      let k = join_slash kind name in
      let e' = record e { record_timestamp = now } in
      elim (I.get_by_key e.items k) [
        | err x ↦ (e, some x)
        | ok none ↦ after_add e' (
            I.add e.items (record {
              key = k;
              name = name;
              kind = kind;
              action = action;
              resource_version = rv;
              record_timestamp = now;
            }))
        | ok (some i) ↦ (
          record e' {
            items =
                I.write e.items (record i {
                  action = action;
                  resource_version = old_rv i;
                  record_timestamp = now;
                });
          },
          none,
        )
      ]

  -- The panic on `update` is the caller's, which makes the same test first.
  unfoldable pub subject_expect : ℕ → ActiveExpectation → Kind → Text → Action → Changed
  unfolding record_item
  subject_expect now e kind name action =
      record_item now e kind name action 0 (λ i. i.resource_version)

  unfoldable pub subject_expect_update : ℕ → ActiveExpectation → Kind → Text → ℕ → Changed
  unfolding record_item
  subject_expect_update now e kind name rv = record_item now e kind name update rv (λ i. rv)

  abbrev deleted_from : Result I.State → I.State → I.State
  deleted_from (ok t) s = t
  deleted_from (err x) s = s

  -- The loop of `isSatisfied`: a satisfied item is deleted, and one that is not panics if nothing
  -- was recorded for ten minutes. An error of the store's Delete is dropped.
  unfoldable pub check_items :
      Api
      → ℕ
      → ActiveExpectation
      → List ActiveExpectationItem
      → Bool
      → Outcome (ActiveExpectation × Bool)
  check_items api now e [] satisfied = returns (e, satisfied)
  check_items api now e (i ∷ is) satisfied =
      let rest =
        check_items api now (record e { items = deleted_from (I.delete e.items i) e.items }) is
          satisfied in
      let waiting = check_items api now e is false in
      if item_is_satisfied api now e.namespace i
      then rest
      else if ltb (e.record_timestamp + expectations_timeout) now
      then panics
      else waiting

  unfoldable pub subject_is_satisfied :
      Api → ℕ → ActiveExpectation → Outcome (ActiveExpectation × Bool)
  unfolding check_items
  subject_is_satisfied api now e = check_items api now e (I.list e.items) true

  unfoldable pub subject_delete : ActiveExpectation → Kind → Text → Changed
  subject_delete e kind name = elim (I.get_by_key e.items (join_slash kind name)) [
    | err x ↦ (e, some x)
    | ok none ↦ (e, none)
    | ok (some i) ↦ after_add e (I.delete e.items i)
  ]
