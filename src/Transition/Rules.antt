-- ===== src/Transition/Rules.antt =====
-- pkg/controllers/podtransitionrule/processor/rules/types.go, labelcheck.go and manual.go, and
-- pkg/controllers/podtransitionrule/utils: the rules, and the rulers that decide by them. (The API
-- types are those of kusionstack.io/kube-api.)
pub mod Order
pub mod Interface
pub mod Available
pub mod Examples
use kuperator.Common.{
  ℕ, ◌+◌, Bool, true, false, not, ◌&&◌, ◌||◌, Option, none, some, List, [], ◌∷◌, ◌++◌,
  if◌then◌else◌, ltb, leb, is_some, ℤ, Text, text_eq, Dict, lookup, insert, has, Error, Result, ok,
  err, Outcome, returns, panics,
}
use kuperator.Pod.{Labels, Pod, contains, set_insert}
use kuperator.Transition.Detail.{Reason, manual_rejected, label_mismatch, filter_error, Detail}

-- What metav1.LabelSelectorAsSelector makes of a label selector: a test of labels, or an error.
abbrev pub Selector : Type 0
Selector = Result (Labels → Bool)

-- What intstr.GetScaledValueFromIntOrPercent makes of a value, a total and whether to round up.
abbrev pub IntOrString : Type 0
IntOrString = ℕ → Bool → Result ℤ

pub record AvailablePolicy : Type 0 where
  pub min_available_value : Option IntOrString
  pub max_unavailable_value : Option IntOrString

-- The configuration of polls, and a parameter of a request: a value, or the path of a field.
pub record Poll : Type 0 where
  pub poll_url : Text
  pub raw_query_key : Text
  pub timeout_seconds : ℕ
  pub interval_seconds : ℕ

pub record Parameter : Type 0 where
  pub parameter_key : Text
  pub value : Text
  pub field_path : Option Text

pub record WebhookConfig : Type 0 where
  pub poll : Option Poll
  pub parameters : List Parameter

-- `definition_fields` are the names of the fields of the definition that are not nil, in the order
-- of its type; `filter` is the label selector of the filter, if there is one.
pub record TransitionRule : Type 0 where
  pub name : Text
  pub disabled : Bool
  pub stage : Option Text
  pub conditions : List Text
  pub filter : Option Selector
  pub definition_fields : List Text
  pub available_policy : Option AvailablePolicy
  pub label_check : Option Selector
  pub webhook : Option WebhookConfig

pub data Ruler : Type 0 where
  available_ruler : Text → AvailablePolicy → Ruler
  label_check_ruler : Text → Selector → Ruler
  webhook_ruler : Text → Ruler

abbrev webhook_or_none : TransitionRule → Option Ruler
webhook_or_none rule = if is_some rule.webhook then some (webhook_ruler rule.name) else none

abbrev check_or_webhook : TransitionRule → Option Selector → Option Ruler
check_or_webhook rule (some selector) = some (label_check_ruler rule.name selector)
check_or_webhook rule none = webhook_or_none rule

abbrev available_or_other : TransitionRule → Option AvailablePolicy → Option Ruler
available_or_other rule (some policy) = some (available_ruler rule.name policy)
available_or_other rule none = check_or_webhook rule rule.label_check

unfoldable pub get_ruler : TransitionRule → Option Ruler
get_ruler rule = available_or_other rule rule.available_policy

-- A time is in nanoseconds. `rule_state` is whether the ruler reports a state of the rule.
pub record FilterResult : Type 0 where
  pub passed : List Text
  pub rejected : Dict Reason
  pub interval : Option ℕ
  pub failure : Option Error
  pub rule_state : Bool

unfoldable pub reject : List Text → List Text → Dict Reason → Reason → Dict Reason
reject [] passed rejects reason = rejects
reject (item ∷ items) passed rejects reason =
    let marked =
      if contains item passed || has item rejects then rejects else insert item reason rejects in
    reject items passed marked reason

unfoldable pub reject_all_with_err : List Text → List Text → Dict Reason → Error → FilterResult
unfolding reject
reject_all_with_err subjects passed rejects e = record {
  passed = passed;
  rejected = reject subjects passed rejects (filter_error e);
  interval = none;
  failure = some e;
  rule_state = false;
}

-- The pods of some names, or none if a name is not a key: the code reads a nil pod then, and
-- panics.
abbrev pub and_pod : Text → Option Pod → Option (List (Text × Pod)) → Option (List (Text × Pod))
and_pod k (some pod) (some rest) = some ((k, pod) ∷ rest)
and_pod k (some pod) none = none
and_pod k none rest = none

unfoldable pub resolve : Dict Pod → List Text → Option (List (Text × Pod))
resolve targets [] = some []
resolve targets (k ∷ ks) = and_pod k (lookup k targets) (resolve targets ks)

abbrev pub result_of : List Text → Dict Reason → FilterResult
result_of passed rejected = record {
  passed = passed;
  rejected = rejected;
  interval = none;
  failure = none;
  rule_state = false;
}

unfoldable pub check_labels :
    (Labels → Bool) → List (Text × Pod) → List Text → Dict Reason → FilterResult
check_labels matches [] passed rejected = result_of passed rejected
check_labels matches ((k, pod) ∷ subjects) passed rejected =
    let matched = matches pod.labels in
    check_labels matches subjects (if matched then set_insert k passed else passed)
      (if matched then rejected else insert k label_mismatch rejected)

abbrev pub check_or_panic : (Labels → Bool) → Option (List (Text × Pod)) → Outcome FilterResult
check_or_panic matches none = panics
check_or_panic matches (some subjects) = returns (check_labels matches subjects [] [])

unfoldable pub label_check_filter : Selector → Dict Pod → List Text → Outcome FilterResult
unfolding reject_all_with_err resolve
label_check_filter (err e) targets subjects = returns (reject_all_with_err subjects [] [] e)
label_check_filter (ok matches) targets subjects = check_or_panic matches (resolve targets subjects)

unfoldable pub reject_each : List Text → Reason → Dict Reason → Dict Reason
reject_each [] reason rejects = rejects
reject_each (k ∷ ks) reason rejects = reject_each ks reason (insert k reason rejects)

-- (The code passes the list of a set on to a new set.)
unfoldable pub manual_filter : Bool → List Text → FilterResult
unfolding reject_each
manual_filter true subjects = result_of subjects []
manual_filter false subjects = result_of [] (reject_each subjects manual_rejected [])

unfoldable pub insert_all : List Text → List Text → List Text
insert_all [] s = s
insert_all (k ∷ ks) s = insert_all ks (set_insert k s)

unfoldable pub get_pod_passed_rules : Text → List Detail → List Text
unfolding insert_all
get_pod_passed_rules pod [] = []
get_pod_passed_rules pod (d ∷ ds) =
    let rest = get_pod_passed_rules pod ds in
    if text_eq d.name pod then insert_all d.passed_rules rest else rest

unfoldable pub is_pod_pass_rule : Text → List Detail → Text → Bool
is_pod_pass_rule pod details rule = contains rule (get_pod_passed_rules pod details)

-- HasSkipRule, and the error of an annotation that cannot be parsed.
unfoldable pub has_skip_rule : Pod → Text → Result Bool
has_skip_rule pod rule = elim pod.skip_rules [ err e ↦ err e | ok rules ↦ ok (contains rule rules) ]
