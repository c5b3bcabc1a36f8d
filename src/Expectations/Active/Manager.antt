-- ===== src/Expectations/Active/Manager.antt =====
-- ActiveExpectations: the expectations of all subjects, by "namespace/name".
use kuperator.Common.{
  ℕ, Bool, true, false, Option, none, some, List, [], ◌∷◌, if◌then◌else◌, Text, join_slash,
  parse_int, Result, ok, err, Error, Outcome, returns, panics,
}
use kuperator.Expectations.{Store}
use kuperator.Expectations.Active.Item.{
  Action, create, delete, update, Kind, is_supported, ActiveExpectationItem, Api,
}
use kuperator.Expectations.Active.Subject.{
  ActiveExpectation, new_active_expectation, Changed, subject_expect, subject_expect_update,
  subject_is_satisfied, subject_delete,
}

-- The controller's object that the expectations are kept for.
pub record SubjectRef : Type 0 where
  pub namespace : Text
  pub name : Text

abbrev pub ref_key : SubjectRef → Text
ref_key r = join_slash r.namespace r.name

abbrev pub is_update : Action → Bool
is_update update = true
is_update _ = false

abbrev is_nil : List ActiveExpectationItem → Bool
is_nil [] = true
is_nil (i ∷ is) = false

module _ (I : Store ActiveExpectationItem) (S : Store (ActiveExpectation I)) where
  -- The store as a call leaves it, and the error that it returns.
  abbrev pub Stored : Type 0
  Stored = S.State × Option Error

  abbrev write_back : S.State → Changed I → Stored
  write_back s (e, x) = (S.write s e, x)

  -- The expectation of the subject, or a new one that is added, is changed in place.
  unfoldable pub with_expectation :
      ℕ → S.State → SubjectRef → (ActiveExpectation I → Changed I) → Stored
  with_expectation now s r change = elim (S.get_by_key s (ref_key r)) [
    | err x ↦ (s, some x)
    | ok (some e) ↦ write_back s (change e)
    | ok none ↦
        let e = new_active_expectation I now r.namespace (ref_key r) in
        elim (S.add s e) [ err x ↦ (s, some x) | ok t ↦ write_back t (change e) ]
  ]

  unfoldable pub expect : ℕ → S.State → SubjectRef → Kind → Text → Action → Outcome Stored
  unfolding with_expectation
  expect now s r kind name action =
      if is_supported kind
      then (if is_update action
          then panics
          else returns (with_expectation now s r (λ e. subject_expect I now e kind name action)))
      else panics

  unfoldable pub expect_create : ℕ → S.State → SubjectRef → Kind → Text → Outcome Stored
  unfolding expect
  expect_create now s r kind name = expect now s r kind name create

  unfoldable pub expect_delete : ℕ → S.State → SubjectRef → Kind → Text → Outcome Stored
  unfolding expect
  expect_delete now s r kind name = expect now s r kind name delete

  unfoldable pub expect_update : ℕ → S.State → SubjectRef → Kind → Text → Text → Outcome Stored
  unfolding with_expectation
  expect_update now s r kind name version = elim (parse_int version) [
    | none ↦ panics
    | some rv ↦
        if is_supported kind
        then returns (with_expectation now s r (λ e. subject_expect_update I now e kind name rv))
        else panics
  ]

  abbrev dropped : Result S.State → S.State → S.State
  dropped (ok t) s = t
  dropped (err x) s = s

  abbrev keep_or_drop :
      S.State → Outcome (ActiveExpectation I × Bool) → Outcome (S.State × Result Bool)
  keep_or_drop s panics = panics
  keep_or_drop s (returns (e, true)) =
      let t = S.write s e in returns (dropped (S.delete t e) t, ok true)
  keep_or_drop s (returns (e, false)) = returns (S.write s e, ok false)

  unfoldable pub is_satisfied : Api → ℕ → S.State → SubjectRef → Outcome (S.State × Result Bool)
  unfolding subject_is_satisfied
  is_satisfied api now s r = elim (S.get_by_key s (ref_key r)) [
    | err x ↦ returns (s, err x)
    | ok none ↦ returns (s, ok true)
    | ok (some e) ↦ keep_or_drop s (subject_is_satisfied I api now e)
  ]

  abbrev drop_if_empty : S.State → Changed I → Stored
  drop_if_empty s (e, some x) = (S.write s e, some x)
  drop_if_empty s (e, none) =
      let t = S.write s e in (if is_nil (I.list e.items) then dropped (S.delete t e) t else t, none)

  unfoldable pub delete_item : S.State → SubjectRef → Kind → Text → Outcome Stored
  unfolding subject_delete
  delete_item s r kind name =
      if is_supported kind
      then returns (elim (S.get_by_key s (ref_key r)) [
        | err x ↦ (s, some x)
        | ok none ↦ (s, none)
        | ok (some e) ↦ drop_if_empty s (subject_delete I e kind name)
      ])
      else panics

  unfoldable pub delete_by_key : S.State → Text → Stored
  delete_by_key s key = elim (S.get_by_key s key) [
    | err x ↦ (s, some x)
    | ok none ↦ (s, none)
    | ok (some e) ↦ elim (S.delete s e) [ err x ↦ (s, some x) | ok t ↦ (t, none) ]
  ]

  unfoldable pub delete_subject : S.State → Text → Text → Stored
  unfolding delete_by_key
  delete_subject s namespace name = delete_by_key s (join_slash namespace name)

  unfoldable pub get_expectation : S.State → Text → Text → Result (Option (ActiveExpectation I))
  get_expectation s namespace name = S.get_by_key s (join_slash namespace name)
