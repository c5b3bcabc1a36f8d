-- ===== src/Transition/Details.antt =====
-- pkg/controllers/podtransitionrule/podtransitionrule_controller.go: the verdicts of the stages put
-- together (process, updateDetail). The stages run at once, and each adds its result under a lock: a
-- list gives the order in which they do. (The list of a set of rules is in no particular order.)
pub mod Merge
pub mod Verdict
pub mod Examples
use kuperator.Common.{
  ℕ, Bool, true, false, ◌||◌, Option, none, some, List, [], ◌∷◌, ◌++◌, if◌then◌else◌, signed_lt,
  Text, Dict, lookup, insert, Outcome, returns, panics,
}
use kuperator.Pod.{Pod}
use kuperator.Transition.Detail.{RejectInfo, Detail}
use kuperator.Transition.Rules.{TransitionRule, Ruler, FilterResult}
use kuperator.Transition.Process.{Setting, ProcessResult, process}

abbrev pub detail_or_new : Text → Text → Option Detail → Detail
detail_or_new pod stage (some d) = d
detail_or_new pod stage none = record {
  name = pod;
  stage = stage;
  passed = false;
  passed_rules = [];
  reject_info = [];
}

abbrev pub no_infos : List RejectInfo → Bool
no_infos [] = true
no_infos (i ∷ is) = false

abbrev pub with_info : List RejectInfo → Option RejectInfo → List RejectInfo
with_info infos none = infos
with_info infos (some i) = infos ++ (i ∷ [])

abbrev pub merged_infos : Text → Text → Option Detail → Option RejectInfo → List RejectInfo
merged_infos pod stage o rejected = with_info (detail_or_new pod stage o).reject_info rejected

abbrev pub merged_detail : Text → Text → List Text → Option RejectInfo → Option Detail → Detail
merged_detail pod stage rules rejected o = record (detail_or_new pod stage o) {
  passed_rules = (detail_or_new pod stage o).passed_rules ++ rules;
  reject_info = merged_infos pod stage o rejected;
  passed = no_infos (merged_infos pod stage o rejected);
}

-- One turn of the loop over the passed rules.
unfoldable pub add_entry : Dict RejectInfo → Text → Text → List Text → Dict Detail → Dict Detail
add_entry rejected stage pod rules details =
    insert pod (merged_detail pod stage rules (lookup pod rejected) (lookup pod details)) details

unfoldable pub add_entries : Dict RejectInfo → Text → Dict (List Text) → Dict Detail → Dict Detail
add_entries rejected stage [] details = details
add_entries rejected stage ((pod, rules) ∷ entries) details =
    add_entries rejected stage entries (add_entry rejected stage pod rules details)

unfoldable pub update_detail : Dict Detail → ProcessResult → Text → Dict Detail
update_detail details r stage = add_entries r.result_rejected stage r.pass_rules details

-- The variables that process returns.
pub record Merged : Type 0 where
  pub should_retry : Bool
  pub interval : Option ℕ
  pub details : Dict Detail
  pub rule_states : List Text

abbrev shorter_interval : Option ℕ → Option ℕ → Option ℕ
shorter_interval interval none = interval
shorter_interval none (some t) = some t
shorter_interval (some u) (some t) = if signed_lt t u then some t else some u

abbrev pub add_result : Text → ProcessResult → Merged → Merged
add_result stage r m = record {
  should_retry = m.should_retry || r.should_retry;
  interval = shorter_interval m.interval r.result_interval;
  details = update_detail m.details r stage;
  rule_states = m.rule_states ++ r.states;
}

abbrev pub no_result : Merged
no_result = record { should_retry = false; interval = none; details = []; rule_states = [] }

abbrev pub add_outcome : Text → Outcome ProcessResult → Outcome Merged → Outcome Merged
add_outcome stage panics m = panics
add_outcome stage (returns r) panics = panics
add_outcome stage (returns r) (returns m) = returns (add_result stage r m)

module _ (S : Setting) (filter : Ruler → Dict Pod → List Text → Outcome FilterResult) where
  -- process, with the last stage of the list the first to finish.
  unfoldable pub process_stages : List Text → List TransitionRule → Dict Pod → Outcome Merged
  process_stages [] rules targets = returns no_result
  process_stages (stage ∷ stages) rules targets =
      add_outcome stage (process S filter stage rules targets) (process_stages stages rules targets)
