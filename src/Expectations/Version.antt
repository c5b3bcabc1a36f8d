-- ===== src/Expectations/Version.antt =====
-- pkg/controllers/utils/expectations/resourceversion_expectation.go: which version of an object a
-- controller has to see in its cache before its next sync.
pub mod Updates
pub mod Examples
use kuperator.Common.{
  ℕ, ◌-◌, Bool, true, false, Option, none, some, [], ◌∷◌, ltb, if◌then◌else◌, Text, Result, ok, err,
  Outcome, returns, panics, signed_lt, parse_int,
}
use kuperator.Expectations.{Store}
use kuperator.Expectations.Counter.{expectations_timeout}

-- `resource_version` is int64.
pub record ResourceVersionExpectationItem : Type 0 where
  pub resource_version : ℕ
  pub key : Text
  pub timestamp : ℕ

abbrev pub item_key : ResourceVersionExpectationItem → Text
item_key i = i.key

-- The empty version counts as 0.
unfoldable pub version_of : Text → Option ℕ
version_of [] = some 0
version_of (c ∷ s) = parse_int (c ∷ s)

-- A version that does not parse is ignored, and so is one that is not newer.
unfoldable pub item_set : ℕ → ResourceVersionExpectationItem → Text → ResourceVersionExpectationItem
item_set now i resource_version = elim (version_of resource_version) [
  | none ↦ i
  | some rv ↦
      if signed_lt i.resource_version rv
      then record i { resource_version = rv; timestamp = now }
      else i
]

unfoldable pub item_fulfilled : ResourceVersionExpectationItem → Text → Bool
item_fulfilled i resource_version = elim (version_of resource_version) [
  | none ↦ false
  | some rv ↦ signed_lt i.resource_version rv
]

unfoldable pub item_is_expired : ℕ → ResourceVersionExpectationItem → Bool
item_is_expired now i = ltb expectations_timeout (now - i.timestamp)

module _ (S : Store ResourceVersionExpectationItem) where
  open S use {State, get_by_key}

  unfoldable pub get_item : State → Text → Result (Option ResourceVersionExpectationItem)
  get_item s k = elim (get_by_key s k) [
    | ok (some i) ↦ ok (some i)
    | ok none ↦ ok none
    | err e ↦ err e
  ]

  unfoldable pub delete_item : State → Text → State
  delete_item s k = elim (get_by_key s k) [
    | ok (some i) ↦ elim (S.delete s i) [ ok t ↦ t | err x ↦ s ]
    | ok none ↦ s
    | err e ↦ s
  ]

  unfoldable pub satisfied_version : ℕ → State → Text → Text → Outcome Bool
  unfolding get_item
  satisfied_version now s k resource_version = elim (get_item s k) [
    | ok (some i) ↦
        if item_fulfilled i resource_version
        then returns true
        else if item_is_expired now i
        then panics
        else returns false
    | ok none ↦ returns true
    | err e ↦ returns true
  ]

  unfoldable pub set_version : ℕ → State → Text → Text → Result State
  set_version now s k resource_version =
      S.add s
        (item_set now (record { resource_version = 0; key = k; timestamp = now }) resource_version)

  unfoldable pub expect_update : ℕ → State → Text → Text → Result State
  unfolding get_item
  expect_update now s k resource_version = elim (get_item s k) [
    | err e ↦ err e
    | ok (some i) ↦ ok (S.write s (item_set now i resource_version))
    | ok none ↦ set_version now s k resource_version
  ]
