-- ===== src/Transition/Details/Examples.antt =====
-- Two rules of the stage PreCheck, by an available policy and by a label check, and two pods in the
-- stage.
use kuperator.Common.{
  sort_by, insert_by, ◌≡◌, refl, sym, subst, ◌∙◌, true, false, none, some, List, [], ◌∷◌, Text,
  codes, text_eq, Dict, lookup, insert, has, ok, err, not_found, Outcome, returns,
}
use kuperator.Pod.{Pod, contains, set_insert, is_pod_terminal}
use kuperator.Pod.Sample.{sample_pod}
use kuperator.Transition.Register.{in_stage, match_func, get}
use kuperator.Transition.Detail.{Detail}
use kuperator.Transition.Rules.{
  TransitionRule, Ruler, FilterResult, get_ruler, has_skip_rule, insert_all, resolve,
  is_pod_pass_rule, get_pod_passed_rules, reject_each, check_labels, label_check_filter,
}
use kuperator.Transition.Rules.Order.{sort_rules, less, weight}
use kuperator.Transition.Rules.Interface.{IsKeyed, IsRuler}
use kuperator.Transition.Rules.Available.{
  available_filter, quota, consider_owner_replicas, count_owners, count_owner, uncreated,
  effective_targets, survey, survey_pod, approve_each, approve_pod, process_unavailable_func,
}
use kuperator.Transition.Rules.Examples.{available_rule, label_rule}
use kuperator.Transition.Polling.{no_tasks}
use kuperator.Transition.Webhook.Request.{responds}
use kuperator.Transition.Filter
use kuperator.Transition.Filter.{Surroundings, asks_webhook, filter-IsRuler}
use kuperator.Transition.Process.{
  need_skip, Setting, ProcessResult, process, process_rules, process_rule, effective_rules,
  in_stage_names, drop, empty_passes, record_passes, record_rejects, get_rule_stage,
}
use kuperator.Transition.Process.Cleared.{AreValid, process-pass_rules}
use kuperator.Transition.Details.{Merged, process_stages, add_entries, add_entry, update_detail}
use kuperator.Transition.Checker.{CheckState, get_state, states_of, in_stage_and_passed}
use kuperator.Transition.Status.{new_details, detail_list, sort_strings, text_less, keys_of}
use kuperator.Transition.Status.Checked.{checked-AllMet}
use kuperator.Transition.Details.Verdict.{AllMet, process_stages-AllMet}

abbrev targets : Dict Pod
targets =
    (codes "a", record sample_pod { name = codes "a" })
    ∷ (codes "b", record sample_pod { name = codes "b" })
    ∷ []

abbrev stage : Text
stage = codes "PreCheck"

abbrev rules : List TransitionRule
rules = label_rule ∷ available_rule ∷ []

abbrev setting : Setting
setting = record {
  policy = record {
    stage_key = stage ∷ [];
    in_stage_func = (stage, (λ pod. true) ∷ []) ∷ [];
    stages = stage ∷ [];
    condition_key = [];
    condition = [];
  };
  rule_stage = [];
  skip_transition_rules = [];
}

abbrev surroundings : Surroundings
surroundings = record {
  pt_key = codes "default/pt";
  rules = rules;
  details = [];
  states = [];
  cluster = record {
    unavailable_funcs = (λ pod. (is_pod_terminal pod, none)) ∷ [];
    collaset_version = codes "apps.kusionstack.io/v1alpha1";
    get_collaset = λ namespace name. err not_found;
  };
  now = 9;
  outside = record {
    extract = λ pod key path. ok [];
    send = λ resources. responds (record {
      success = true;
      async = false;
      poll_wanted = false;
      response_task_id = [];
      trace_id = [];
      finished_names = [];
    });
  };
  runner = no_tasks;
}

abbrev filter : Ruler → Dict Pod → List Text → Outcome FilterResult
filter = Filter.filter surroundings

keyed : IsKeyed targets
keyed = (refl, (refl, tt))

law :
    (rule : TransitionRule) (ruler other : Ruler)
    → get_ruler rule ≡ some ruler
    → asks_webhook ruler ≡ false
    → get_ruler rule ≡ some other
    → IsRuler (filter other)
law rule ruler other e quiet f =
    let both : some ruler ≡ some other = sym e ∙ f in
    let same : ruler ≡ other = cc in
    subst (λ r. IsRuler (filter r)) same (filter-IsRuler surroundings ruler quiet)

valid : AreValid filter (sort_rules (effective_rules setting stage rules))
unfolding effective_rules need_skip sort_rules sort_by insert_by less weight get_ruler text_eq
    contains
valid = (
  refl,
  λ ruler e. law available_rule _ ruler refl refl e,
  (refl, λ ruler e. law label_rule _ ruler refl refl e, tt),
)

process-pass_rules_example :
    (r : ProcessResult) × (process setting filter stage rules targets ≡ returns r)
    × ((k : Text) → has k r.pass_rules ≡ contains k (in_stage_names setting stage targets))
process-pass_rules_example = process-pass_rules setting filter targets keyed stage rules valid

-- Both pods pass both rules.
abbrev detail_of : Text → Detail
detail_of name = record {
  name = name;
  stage = stage;
  passed = true;
  passed_rules = codes "label" ∷ codes "available" ∷ [];
  reject_info = [];
}

abbrev merged : Merged
merged = record {
  should_retry = false;
  interval = none;
  details = (codes "b", detail_of (codes "b")) ∷ (codes "a", detail_of (codes "a")) ∷ [];
  rule_states = [];
}

merges : process_stages setting filter (stage ∷ []) rules targets ≡ returns merged
unfolding process_stages process in_stage_names in_stage match_func get lookup text_eq set_insert
    contains process_rules process_rule sort_rules effective_rules need_skip sort_by insert_by less
    weight get_ruler has_skip_rule resolve drop empty_passes record_passes record_rejects
    get_rule_stage insert insert_all add_entries add_entry update_detail available_filter quota
    consider_owner_replicas count_owners count_owner uncreated effective_targets survey survey_pod
    approve_each approve_pod process_unavailable_func is_pod_terminal is_pod_pass_rule
    get_pod_passed_rules reject_each check_labels label_check_filter Filter.filter
merges = refl

process_stages-AllMet_example :
    AllMet setting targets
      (detail_of (codes "a")).passed_rules
      (codes "a")
      (sort_rules (effective_rules setting stage rules))
unfolding lookup text_eq contains in_stage_names in_stage match_func get set_insert
process_stages-AllMet_example =
    process_stages-AllMet setting filter targets keyed rules (stage ∷ []) merged (codes "a") stage
      (detail_of (codes "a")) (valid, tt) merges refl refl refl refl

abbrev verdict : CheckState
verdict = record { stage = stage; states = (stage, true) ∷ [] }

checked-AllMet_example :
    (d : Detail) × (lookup (codes "a") merged.details ≡ some d)
    × AllMet setting targets d.passed_rules
        (codes "a")
        (sort_rules (effective_rules setting stage rules))
unfolding lookup text_eq contains in_stage_names in_stage match_func get set_insert get_state
    states_of in_stage_and_passed new_details detail_list sort_strings sort_by insert_by text_less
    keys_of
checked-AllMet_example =
    checked-AllMet setting filter targets rules (stage ∷ []) merged (codes "pt") (codes "a") stage
      [] verdict keyed (valid, tt) merges refl refl refl refl refl
