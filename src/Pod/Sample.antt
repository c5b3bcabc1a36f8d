-- ===== src/Pod/Sample.antt =====
-- Names in the form that the repository's tests and charts show, which meet `IsNames`.
use kuperator.Common.{
  ◌≡◌, refl, sym, ap, ◌∙◌, false, [], ◌∷◌, none, ok, if◌then◌else◌, Text, codes, text_eq, NoSlash,
  no_slash_test, no_slash_test-NoSlash,
}
use kuperator.Pod.{
  Prefix, operating, operation_type, pre_check, pre_checked, preparing, operate, operated,
  post_check, post_checked, completing, undo_operation_type, done_operation_type,
  operation_permission, Names, IsNames, Pod, running,
}

abbrev prefixes : Prefix → Text
prefixes operating = codes "operating.podopslifecycle.kusionstack.io"
prefixes operation_type = codes "operation-type.podopslifecycle.kusionstack.io"
prefixes pre_check = codes "pre-check.podopslifecycle.kusionstack.io"
prefixes pre_checked = codes "pre-checked.podopslifecycle.kusionstack.io"
prefixes preparing = codes "preparing.podopslifecycle.kusionstack.io"
prefixes operate = codes "operate.podopslifecycle.kusionstack.io"
prefixes operated = codes "operated.podopslifecycle.kusionstack.io"
prefixes post_check = codes "post-check.podopslifecycle.kusionstack.io"
prefixes post_checked = codes "post-checked.podopslifecycle.kusionstack.io"
prefixes completing = codes "completing.podopslifecycle.kusionstack.io"
prefixes undo_operation_type = codes "undo-operation-type.podopslifecycle.kusionstack.io"
prefixes done_operation_type = codes "done-operation-type.podopslifecycle.kusionstack.io"
prefixes operation_permission = codes "operation-permission.podopslifecycle.kusionstack.io"

abbrev pub sample_names : Names
sample_names = record {
  prefix = prefixes;
  well_known =
      operating ∷ operation_type ∷ pre_check ∷ pre_checked ∷ preparing ∷ operate ∷ operated
      ∷ post_check ∷ post_checked ∷ completing ∷ undo_operation_type ∷ done_operation_type ∷ [];
  service_available = codes "podopslifecycle.kusionstack.io/service-available";
  stay_offline = codes "podopslifecycle.kusionstack.io/stay-offline";
  creating = codes "podopslifecycle.kusionstack.io/creating";
  completing_label = codes "podopslifecycle.kusionstack.io/completing";
  controlled_by = codes "kusionstack.io/control";
  service_ready_gate = codes "pod.kusionstack.io/service-ready";
  pod_ready = codes "Ready";
  protection_prefix = codes "prot.podopslifecycle.kusionstack.io";
  pre_check_stage = codes "PreCheck";
  post_check_stage = codes "PostCheck";
}

prefixes-NoSlash : (p : Prefix) → NoSlash (prefixes p)
unfolding no_slash_test
prefixes-NoSlash operating = no_slash_test-NoSlash (prefixes operating) refl
prefixes-NoSlash operation_type = no_slash_test-NoSlash (prefixes operation_type) refl
prefixes-NoSlash pre_check = no_slash_test-NoSlash (prefixes pre_check) refl
prefixes-NoSlash pre_checked = no_slash_test-NoSlash (prefixes pre_checked) refl
prefixes-NoSlash preparing = no_slash_test-NoSlash (prefixes preparing) refl
prefixes-NoSlash operate = no_slash_test-NoSlash (prefixes operate) refl
prefixes-NoSlash operated = no_slash_test-NoSlash (prefixes operated) refl
prefixes-NoSlash post_check = no_slash_test-NoSlash (prefixes post_check) refl
prefixes-NoSlash post_checked = no_slash_test-NoSlash (prefixes post_checked) refl
prefixes-NoSlash completing = no_slash_test-NoSlash (prefixes completing) refl
prefixes-NoSlash undo_operation_type = no_slash_test-NoSlash (prefixes undo_operation_type) refl
prefixes-NoSlash done_operation_type = no_slash_test-NoSlash (prefixes done_operation_type) refl
prefixes-NoSlash operation_permission = no_slash_test-NoSlash (prefixes operation_permission) refl

-- Which prefix a text is.
parse_prefix : Text → Prefix
unfolding text_eq
parse_prefix s =
    if text_eq s (prefixes operating)
    then operating
    else if text_eq s (prefixes operation_type)
    then operation_type
    else if text_eq s (prefixes pre_check)
    then pre_check
    else if text_eq s (prefixes pre_checked)
    then pre_checked
    else if text_eq s (prefixes preparing)
    then preparing
    else if text_eq s (prefixes operate)
    then operate
    else if text_eq s (prefixes operated)
    then operated
    else if text_eq s (prefixes post_check)
    then post_check
    else if text_eq s (prefixes post_checked)
    then post_checked
    else if text_eq s (prefixes completing)
    then completing
    else if text_eq s (prefixes undo_operation_type)
    then undo_operation_type
    else if text_eq s (prefixes done_operation_type)
    then done_operation_type
    else operation_permission

parse_prefix_lem : (p : Prefix) → parse_prefix (prefixes p) ≡ p
unfolding parse_prefix
parse_prefix_lem operating = refl
parse_prefix_lem operation_type = refl
parse_prefix_lem pre_check = refl
parse_prefix_lem pre_checked = refl
parse_prefix_lem preparing = refl
parse_prefix_lem operate = refl
parse_prefix_lem operated = refl
parse_prefix_lem post_check = refl
parse_prefix_lem post_checked = refl
parse_prefix_lem completing = refl
parse_prefix_lem undo_operation_type = refl
parse_prefix_lem done_operation_type = refl
parse_prefix_lem operation_permission = refl

pub sample_names-IsNames : IsNames sample_names
sample_names-IsNames = record {
  no_slash = prefixes-NoSlash;
  distinct = λ p q e. sym (parse_prefix_lem p) ∙ ap parse_prefix e ∙ parse_prefix_lem q;
}

abbrev pub sample_pod : Pod
sample_pod = record {
  namespace = codes "default";
  name = codes "web-0";
  resource_version = codes "7";
  is_deleting = false;
  labels = [];
  expected_finalizers = ok none;
  finalizers = [];
  readiness_gates = [];
  conditions = [];
  phase = running;
  controller = none;
  skip_rules = ok [];
}
