-- ===== src/Expectations/Counter.antt =====
-- pkg/controllers/utils/expectations/expectation.go: what a controller waits to observe before its
-- next sync, as two counters for each controller key. The time is an argument, in nanoseconds.
pub mod Observed
pub mod Examples
use kuperator.Common.{
  ℕ, ◌-◌, ◌*◌, Bool, true, false, ◌&&◌, Option, none, some, ltb, if◌then◌else◌, Text, Result, ok,
  err, ◌>>=◌, Outcome, returns, panics, add64, neg64, is_le_zero,
}
use kuperator.Expectations.{Store}

-- `add` and `del` are int64.
pub record ControlleeExpectations : Type 0 where
  pub add : ℕ
  pub del : ℕ
  pub key : Text
  pub timestamp : ℕ

-- Ten minutes.
abbrev pub expectations_timeout : ℕ
expectations_timeout = 600 * 1_000_000_000

unfoldable pub is_expired : ℕ → ControlleeExpectations → Bool
is_expired now e = ltb expectations_timeout (now - e.timestamp)

unfoldable pub controllee_add : ControlleeExpectations → ℕ → ℕ → ControlleeExpectations
controllee_add e add del = record e { add = add64 e.add add; del = add64 e.del del }

unfoldable pub fulfilled : ControlleeExpectations → Bool
fulfilled e = is_le_zero e.add && is_le_zero e.del

-- The key function of the store, ExpKeyFunc, at this type of item.
abbrev pub key_of : ControlleeExpectations → Text
key_of e = e.key

module _ (S : Store ControlleeExpectations) where
  open S use {State, get_by_key}

  unfoldable pub get_expectations : State → Text → Result (Option ControlleeExpectations)
  get_expectations s k = elim (get_by_key s k) [
    | ok (some e) ↦ ok (some e)
    | ok none ↦ ok none
    | err e ↦ err e
  ]

  -- An error of the store's Delete is only logged.
  unfoldable pub delete_expectations : State → Text → State
  delete_expectations s k = elim (get_by_key s k) [
    | ok (some e) ↦ elim (S.delete s e) [ ok t ↦ t | err x ↦ s ]
    | ok none ↦ s
    | err e ↦ s
  ]

  unfoldable pub satisfied_expectations : ℕ → State → Text → Outcome Bool
  unfolding get_expectations
  satisfied_expectations now s k = elim (get_expectations s k) [
    | ok (some e) ↦
        if fulfilled e then returns true else if is_expired now e then panics else returns false
    | ok none ↦ returns true
    | err e ↦ returns true
  ]

  unfoldable pub init_expectations : ℕ → State → Text → Result State
  init_expectations now s k = elim (get_by_key s k) [
    | err e ↦ err e
    | ok (some e) ↦ ok s
    | ok none ↦ S.add s (record { add = 0; del = 0; key = k; timestamp = now })
  ]

  unfoldable pub set_expectations : ℕ → State → Text → ℕ → ℕ → Result State
  set_expectations now s k add del =
      S.add s (record { add = add; del = del; key = k; timestamp = now })

  unfoldable pub expect_creations : ℕ → State → Text → ℕ → Result State
  expect_creations now s k adds = set_expectations now s k adds 0

  unfoldable pub expect_deletions : ℕ → State → Text → ℕ → Result State
  expect_deletions now s k dels = set_expectations now s k 0 dels

  unfoldable pub lower_expectations : State → Text → ℕ → ℕ → State
  unfolding get_expectations
  lower_expectations s k add del = elim (get_expectations s k) [
    | ok (some e) ↦ S.write s (controllee_add e (neg64 add) (neg64 del))
    | ok none ↦ s
    | err e ↦ s
  ]

  unfoldable pub raise_expectations : State → Text → ℕ → ℕ → State
  unfolding get_expectations
  raise_expectations s k add del = elim (get_expectations s k) [
    | ok (some e) ↦ S.write s (controllee_add e add del)
    | ok none ↦ s
    | err e ↦ s
  ]

  unfoldable pub creation_observed : State → Text → State
  creation_observed s k = lower_expectations s k 1 0

  unfoldable pub deletion_observed : State → Text → State
  deletion_observed s k = lower_expectations s k 0 1
