-- ===== src/Lifecycle/Validating.antt =====
-- pkg/webhook/server/generic/pod/opslifecycle/validating.go: which labels of operations a pod may
-- be admitted with.
pub mod Accepted
pub mod Examples
use kuperator.Common.{
  ℕ, ◌+◌, ◌==◌, Bool, true, false, not, ◌&&◌, ◌||◌, Option, none, some, List, [], ◌∷◌,
  if◌then◌else◌, length, Text, text_eq, has_prefix, split_slash, Dict, has, Result, ok, err, Error,
  invalid_label, missing_label, Outcome, returns, panics,
}
use kuperator.Pod.{
  set_insert, Prefix, pre_checked, operated, done_operation_type, operation_permission, Names, key,
  Labels, Pod, controlled_by_kusion_stack, contains,
}
use kuperator.Lifecycle.Mutating.{Operation, is_delete}

-- A label of a pair, with the prefix of the other. (`pair` is pairLabelPrefixesMap, `coexisting`
-- coexistingLabelPrefixesMap; each maps two prefixes to each other.)
abbrev pub pair_prefixes : List Prefix
pair_prefixes = done_operation_type ∷ operated ∷ []

abbrev pub pair : Prefix → Prefix
pair operated = done_operation_type
pair _ = operated

abbrev pub coexisting_prefixes : List Prefix
coexisting_prefixes = operation_permission ∷ pre_checked ∷ []

abbrev pub coexisting : Prefix → Prefix
coexisting pre_checked = operation_permission
coexisting _ = pre_checked

-- expectedLabels and foundLabels.
pub record Coexistence : Type 0 where
  pub expected : List Text
  pub found : List Text

abbrev pub two_parts : Text × List Text → Bool
two_parts (first, second ∷ []) = true
two_parts _ = false

abbrev pub is_empty_text : Text → Bool
is_empty_text [] = true
is_empty_text (c ∷ s) = false

module _ (N : Names) (labels : Labels) where
  -- Whether the label has two parts if one of the prefixes is well known.
  unfoldable pub format_error : List Prefix → Text → Option Error
  format_error [] k = none
  format_error (p ∷ ps) k =
      let others = format_error ps k in
      if has_prefix k (N.prefix p) && not (two_parts (split_slash k))
      then some (invalid_label k)
      else others

  abbrev pub pair_of : Prefix → Text × List Text → Outcome (Option Error)
  pair_of p (first, []) = panics
  pair_of p (first, id ∷ rest) =
      if not (is_empty_text id) && not (has (key N (pair p) id) labels)
      then returns (some (missing_label (key N (pair p) id)))
      else returns none

  abbrev pub or_else : Outcome (Option Error) → Outcome (Option Error) → Outcome (Option Error)
  or_else panics next = panics
  or_else (returns (some e)) next = returns (some e)
  or_else (returns none) next = next

  -- Whether the other label of a pair is there.
  unfoldable pub pair_error : List Prefix → Text → Outcome (Option Error)
  pair_error [] k = returns none
  pair_error (p ∷ ps) k =
      let others = pair_error ps k in
      if has_prefix k (N.prefix p) then or_else (pair_of p (split_slash k)) others else others

  -- The first expected prefix that the label has.
  unfoldable pub find_expected : List Text → Text → Option Text
  find_expected [] k = none
  find_expected (v ∷ vs) k = if has_prefix k v then some v else find_expected vs k

  unfoldable pub expect_all : List Prefix → Text → List Text → List Text
  expect_all [] k expected = expected
  expect_all (p ∷ ps) k expected = expect_all ps k (
      if has_prefix k (N.prefix p) then set_insert (N.prefix (coexisting p)) expected else expected)

  abbrev pub after_find : Text → Coexistence → Option Text → Coexistence
  after_find k s (some v) = record s { found = set_insert v s.found }
  after_find k s none = record s { expected = expect_all coexisting_prefixes k s.expected }

  unfoldable pub coexist : Text → Coexistence → Coexistence
  coexist k s = after_find k s (find_expected s.expected k)

  abbrev or_format : Option Error → Outcome (Option Error) → Outcome (Option Error)
  or_format (some e) next = returns (some e)
  or_format none next = next

  unfoldable pub label_error : Text → Outcome (Option Error)
  label_error k = or_format (format_error N.well_known k) (pair_error pair_prefixes k)

  abbrev missing_expected : Coexistence → Outcome (Option Error)
  missing_expected s =
      if length s.expected == length s.found
      then returns none
      else returns (some (missing_label []))

  -- The loop over the labels, and the count after it.
  unfoldable pub validate_labels : Labels → Coexistence → Outcome (Option Error)
  validate_labels [] s = missing_expected s
  validate_labels ((k, v) ∷ rest) s =
      let next = validate_labels rest (coexist k s) in or_else (label_error k) next

abbrev pub no_coexistence : Coexistence
no_coexistence = record { expected = []; found = [] }

abbrev pub is_deletion : Operation → Bool
is_deletion is_delete = true
is_deletion _ = false

abbrev pub validate_parsed : Names → Pod → Result (Option (Dict Text)) → Outcome (Option Error)
validate_parsed N pod (err e) = returns (some e)
validate_parsed N pod (ok expected) = validate_labels N pod.labels pod.labels no_coexistence

-- The error that rejects the request, if any. (The error for missing prefixes does not list them.)
unfoldable pub validating : Names → Pod → Operation → Outcome (Option Error)
validating N pod operation =
    if is_deletion operation || not (controlled_by_kusion_stack N pod)
    then returns none
    else validate_parsed N pod pod.expected_finalizers
