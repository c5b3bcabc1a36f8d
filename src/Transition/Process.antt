-- ===== src/Transition/Process.antt =====
-- pkg/controllers/podtransitionrule/processor/processor.go, and the stage of a rule
-- (register/rule_stage.go): the rules of one stage, used one after another. (Logging is left out.)
pub mod Split
pub mod Step
pub mod Sound
pub mod Cleared
use kuperator.Common.{
  ℕ, zero, suc, ◌+◌, ◌*◌, ◌%◌, Bool, true, false, not, ◌&&◌, ◌||◌, Option, none, some, List, [],
  ◌∷◌, ◌++◌, if◌then◌else◌, ◌==◌, ltb, leb, is_some, signed_lt, Text, text_eq, Dict, lookup, insert,
  Error, Result, ok, err, Outcome, returns, panics,
}
use kuperator.Pod.{Labels, Pod, contains, set_insert}
use kuperator.Transition.Register.{Cache, in_stage, match_conditions}
use kuperator.Transition.Detail.{Reason, RejectInfo}
use kuperator.Transition.Rules.{
  Selector, TransitionRule, Ruler, FilterResult, get_ruler, resolve, insert_all, has_skip_rule,
}
use kuperator.Transition.Rules.Interface.{names_of}
use kuperator.Transition.Rules.Order.{sort_rules}

-- The registered stages and conditions, ruleStage, and SkipTransitionRules.
pub record Setting : Type 0 where
  pub policy : Cache Pod
  pub rule_stage : Dict Text
  pub skip_transition_rules : List Text

abbrev first_or_empty : List Text → Text
first_or_empty [] = []
first_or_empty (t ∷ ts) = t

-- GetRuleType
abbrev pub get_rule_type : TransitionRule → Text
get_rule_type rule = first_or_empty rule.definition_fields

abbrev or_empty : Option Text → Text
or_empty none = []
or_empty (some t) = t

abbrev or_first_stage : List Text → Text → Text
or_first_stage stages [] = first_or_empty stages
or_first_stage stages (c ∷ t) = c ∷ t

unfoldable pub get_rule_stage : Setting → TransitionRule → Text
get_rule_stage S rule =
    or_first_stage S.policy.stages (or_empty (lookup (get_rule_type rule) S.rule_stage))

-- The name of a field with its first letter in lower case.
abbrev lower_first : Text → Text
lower_first [] = []
lower_first (c ∷ t) = (if leb 65 c && leb c 90 then c + 32 else c) ∷ t

abbrev is_skipped_field : List Text → List Text → Bool
is_skipped_field skip [] = false
is_skipped_field skip (f ∷ fs) = contains (lower_first f) skip || is_skipped_field skip fs

unfoldable pub need_skip : Setting → TransitionRule → Bool
need_skip S rule = is_skipped_field S.skip_transition_rules rule.definition_fields

-- A rule's stage, or that of its type, is the stage.
abbrev pub is_rule_stage : Setting → Text → TransitionRule → Option Text → Bool
is_rule_stage S stage rule none = text_eq (get_rule_stage S rule) stage
is_rule_stage S stage rule (some s) = text_eq s stage

unfoldable pub effective_rules : Setting → Text → List TransitionRule → List TransitionRule
effective_rules S stage [] = []
effective_rules S stage (rule ∷ rules) =
    let rest = effective_rules S stage rules in
    if rule.disabled || need_skip S rule
    then rest
    else if is_rule_stage S stage rule rule.stage
    then rule ∷ rest
    else rest

-- The names of the targets in the stage.
unfoldable pub in_stage_names : Setting → Text → Dict Pod → List Text
in_stage_names S stage [] = []
in_stage_names S stage ((k, pod) ∷ targets) =
    let rest = in_stage_names S stage targets in
    if in_stage Pod S.policy pod stage then set_insert k rest else rest

-- The loop's variables.
pub record Progress : Type 0 where
  pub processing : List Text
  pub skip : List Text
  pub pass_info : Dict (List Text)
  pub rejected : Dict RejectInfo
  pub rule_states : List Text
  pub min_interval : ℕ
  pub retry : Bool

-- math.MaxInt32 seconds.
abbrev pub max_interval : ℕ
max_interval = 2147483647000000000

unfoldable pub empty_passes : List Text → Dict (List Text)
empty_passes [] = []
empty_passes (k ∷ ks) = insert k [] (empty_passes ks)

-- The pods that a test sends from the processing pods to the skipped ones.
abbrev pub Parts : Type 0
Parts = List (Text × Pod) × List Text

abbrev with_kept : Text × Pod → Parts → Parts
with_kept p (kept, skip) = (p ∷ kept, skip)

unfoldable pub drop : (Pod → Bool) → List (Text × Pod) → List Text → Parts
drop test [] skip = ([], skip)
drop test ((k, pod) ∷ pods) skip =
    let rest = drop test pods (if test pod then set_insert k skip else skip) in
    if test pod then rest else with_kept (k, pod) rest

-- An annotation that cannot be parsed skips no rule.
abbrev pub is_true_result : Result Bool → Bool
is_true_result (ok b) = b
is_true_result (err e) = false

abbrev pub skips_rule : TransitionRule → Pod → Bool
skips_rule rule pod = is_true_result (has_skip_rule pod rule.name)

abbrev pub is_nil : List Text → Bool
is_nil [] = true
is_nil (t ∷ ts) = false

abbrev pub matches_no_condition : Setting → TransitionRule → Pod → Bool
matches_no_condition S rule pod = is_nil (match_conditions Pod S.policy pod rule.conditions)

abbrev pub drop_unless_nil : List Text → (Pod → Bool) → Parts → Parts
drop_unless_nil [] test (pods, skip) = (pods, skip)
drop_unless_nil (c ∷ cs) test (pods, skip) = drop test pods skip

-- A selector that cannot be parsed is nil, and panics when it is asked for a pod.
abbrev pub drop_by_filter : Option Selector → Parts → Outcome Parts
drop_by_filter none (pods, skip) = returns (pods, skip)
drop_by_filter (some (ok matches)) (pods, skip) =
    returns (drop (λ pod. not (matches pod.labels)) pods skip)
drop_by_filter (some (err e)) ([], skip) = returns ([], skip)
drop_by_filter (some (err e)) (p ∷ pods, skip) = panics

abbrev pub drops : Setting → TransitionRule → List (Text × Pod) → List Text → Outcome Parts
drops S rule pods skip = drop_by_filter rule.filter (
    drop_unless_nil rule.conditions (matches_no_condition S rule)
      (drop (skips_rule rule) pods skip))

-- passInfo[pod].Insert(rule): an insertion into a nil set panics.
unfoldable pub record_passes : Text → List Text → Dict (List Text) → Option (Dict (List Text))
record_passes rule [] passes = some passes
record_passes rule (k ∷ ks) passes = elim (lookup k passes) [
  | none ↦ none
  | some rules ↦ record_passes rule ks (insert k (set_insert rule rules) passes)
]

unfoldable pub record_rejects : Text → Dict Reason → Dict RejectInfo → Dict RejectInfo
record_rejects rule [] infos = infos
record_rejects rule ((k, reason) ∷ rejects) infos =
    record_rejects rule rejects (insert k (record { rule_name = rule; reason = reason }) infos)

abbrev is_shorter : Option ℕ → ℕ → Bool
is_shorter none least = false
is_shorter (some t) least = signed_lt t least

abbrev shorter : Option ℕ → ℕ → ℕ
shorter none least = least
shorter (some t) least = if signed_lt t least then t else least

abbrev pub update_progress :
    Text → List Text → FilterResult → Progress → Option (Dict (List Text)) → Outcome Progress
update_progress rule skip r st none = panics
update_progress rule skip r st (some passes) = returns (record {
  processing = insert_all skip r.passed;
  skip = skip;
  pass_info = passes;
  rejected = record_rejects rule r.rejected st.rejected;
  rule_states = if r.rule_state then st.rule_states ++ (rule ∷ []) else st.rule_states;
  min_interval = shorter r.interval st.min_interval;
  retry = st.retry || is_some r.failure || is_shorter r.interval st.min_interval;
})

abbrev pub after_filter : Text → List Text → Progress → Outcome FilterResult → Outcome Progress
after_filter rule skip st panics = panics
after_filter rule skip st (returns r) =
    update_progress rule skip r st (record_passes rule r.passed st.pass_info)

pub record ProcessResult : Type 0 where
  pub result_rejected : Dict RejectInfo
  pub pass_rules : Dict (List Text)
  pub should_retry : Bool
  pub result_interval : Option ℕ
  pub states : List Text

abbrev pub result_from : Progress → ProcessResult
result_from st = record {
  result_rejected = st.rejected;
  pass_rules = st.pass_info;
  should_retry = st.retry;
  result_interval = if st.min_interval == max_interval then none else some st.min_interval;
  states = st.rule_states;
}

abbrev pub result_of_progress : Outcome Progress → Outcome ProcessResult
result_of_progress panics = panics
result_of_progress (returns st) = returns (result_from st)

abbrev pub empty_result : ProcessResult
empty_result = record {
  result_rejected = [];
  pass_rules = [];
  should_retry = false;
  result_interval = none;
  states = [];
}

abbrev pub start_progress : List Text → Progress
start_progress names = record {
  processing = names;
  skip = [];
  pass_info = empty_passes names;
  rejected = [];
  rule_states = [];
  min_interval = max_interval;
  retry = false;
}

module _ (S : Setting) (filter : Ruler → Dict Pod → List Text → Outcome FilterResult) where
  abbrev pub after_drops :
      TransitionRule → Ruler → Dict Pod → Progress → Outcome Parts → Outcome Progress
  after_drops rule ruler targets st panics = panics
  after_drops rule ruler targets st (returns (pods, skip)) =
      after_filter rule.name skip st (filter ruler targets (names_of pods))

  abbrev pub after_resolve :
      TransitionRule → Ruler → Dict Pod → Progress → Option (List (Text × Pod)) → Outcome Progress
  after_resolve rule ruler targets st none = panics
  after_resolve rule ruler targets st (some pods) =
      after_drops rule ruler targets st (drops S rule pods st.skip)

  abbrev pub after_ruler : TransitionRule → Dict Pod → Progress → Option Ruler → Outcome Progress
  after_ruler rule targets st none = returns st
  after_ruler rule targets st (some ruler) =
      after_resolve rule ruler targets st (resolve targets st.processing)

  -- One turn of the loop over the rules.
  unfoldable pub process_rule : TransitionRule → Dict Pod → Progress → Outcome Progress
  process_rule rule targets st = after_ruler rule targets st (get_ruler rule)

  unfoldable pub process_rules :
      List TransitionRule → Dict Pod → Outcome Progress → Outcome Progress
  process_rules rules targets panics = panics
  process_rules [] targets (returns st) = returns st
  process_rules (rule ∷ rules) targets (returns st) =
      process_rules rules targets (process_rule rule targets st)

  abbrev pub process_names : List TransitionRule → Dict Pod → List Text → Outcome ProcessResult
  process_names rules targets [] = returns empty_result
  process_names rules targets (k ∷ ks) =
      result_of_progress (process_rules rules targets (returns (start_progress (k ∷ ks))))

  -- Process
  unfoldable pub process : Text → List TransitionRule → Dict Pod → Outcome ProcessResult
  process stage rules targets =
      process_names (sort_rules (effective_rules S stage rules)) targets
        (in_stage_names S stage targets)
