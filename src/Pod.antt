-- ===== src/Pod.antt =====
-- Pods, as far as the controllers and webhooks read them, and pkg/controllers/utils/pod_utils.go.
-- The names of labels, conditions and finalizers are constants of kusionstack.io/kube-api, which is
-- not in the repository: they are a parameter, `Names`, with what the code relies on in `IsNames`.
-- An absent label map is the empty one.
pub mod Labels
pub mod Sets
pub mod Sample
use kuperator.Common.{
  ℕ, zero, suc, ◌+◌, ◌≡◌, Bool, true, false, not, ◌&&◌, ◌||◌, Option, none, some, List, [], ◌∷◌,
  if◌then◌else◌, is_some, Text, codes, text_eq, has_prefix, join_slash, NoSlash, Dict, lookup,
  insert, delete, has, Result, ok, err,
}

-- The label prefixes that are followed by the id, or the type, of an operation.
pub data Prefix : Type 0 where
  operating operation_type pre_check pre_checked preparing operate operated : Prefix
  post_check post_checked completing undo_operation_type done_operation_type : Prefix
  operation_permission : Prefix

pub record Names : Type 0 where
  pub prefix : Prefix → Text
  -- WellKnownLabelPrefixesWithID
  pub well_known : List Prefix
  -- Labels with no id.
  pub service_available : Text
  pub stay_offline : Text
  pub creating : Text
  pub completing_label : Text
  pub controlled_by : Text
  -- ReadinessGatePodServiceReady and PodReady, types of conditions.
  pub service_ready_gate : Text
  pub pod_ready : Text
  -- PodOperationProtectionFinalizerPrefix
  pub protection_prefix : Text
  -- PodOpsLifecyclePreCheckStage and PodOpsLifecyclePostCheckStage
  pub pre_check_stage : Text
  pub post_check_stage : Text

abbrev pub key : Names → Prefix → Text → Text
key N p id = join_slash (N.prefix p) id

-- Prefixes are distinct host names, with no slash.
pub record IsNames (N : Names) : Type 0 where
  pub no_slash : (p : Prefix) → NoSlash (N.prefix p)
  pub distinct : (p q : Prefix) → N.prefix p ≡ N.prefix q → p ≡ q

pub data Status : Type 0 where
  condition_true condition_false condition_unknown : Status

pub record Condition : Type 0 where
  pub kind : Text
  pub status : Status
  pub last_transition : ℕ
  pub message : Text

abbrev pub Labels : Type 0
Labels = Dict Text

-- PodPhase
pub data Phase : Type 0 where
  pending running succeeded failed phase_unknown : Phase

-- The owner reference that metav1.GetControllerOf finds.
pub record OwnerRef : Type 0 where
  pub owner_kind : Text
  pub api_version : Text
  pub uid : Text
  pub owner_name : Text

-- `skip_rules` is what the annotation of skipped rules parses to: no rules if it is absent, or an
-- error of encoding/json. `expected_finalizers` is what the annotation of available conditions parses to: nothing if it
-- is absent, or an error of encoding/json.
pub record Pod : Type 0 where
  pub namespace : Text
  pub name : Text
  pub resource_version : Text
  pub is_deleting : Bool
  pub labels : Labels
  pub expected_finalizers : Result (Option (Dict Text))
  pub finalizers : List Text
  pub readiness_gates : List Text
  pub conditions : List Condition
  pub phase : Phase
  pub controller : Option OwnerRef
  pub skip_rules : Result (List Text)

abbrev pub is_true : Status → Bool
is_true condition_true = true
is_true _ = false

abbrev pub is_false : Status → Bool
is_false condition_false = true
is_false _ = false

-- The first condition of a type. (The code also returns its index, or -1.)
unfoldable pub get_pod_condition : List Condition → Text → Option Condition
get_pod_condition [] kind = none
get_pod_condition (c ∷ cs) kind = if text_eq c.kind kind then some c else get_pod_condition cs kind

abbrev has_status_true : Option Condition → Bool
has_status_true none = false
has_status_true (some c) = is_true c.status

unfoldable pub is_pod_ready : Names → Pod → Bool
is_pod_ready N pod = has_status_true (get_pod_condition pod.conditions N.pod_ready)

unfoldable pub is_pod_service_available : Names → Pod → Bool
is_pod_service_available N pod = has N.service_available pod.labels

abbrev is_phase_terminal : Phase → Bool
is_phase_terminal failed = true
is_phase_terminal succeeded = true
is_phase_terminal _ = false

unfoldable pub is_pod_terminal : Pod → Bool
is_pod_terminal pod = is_phase_terminal pod.phase

protection_of : Names → List Text → List Text
protection_of N [] = []
protection_of N (f ∷ fs) =
    let rest = protection_of N fs in if has_prefix f N.protection_prefix then f ∷ rest else rest

unfoldable pub get_protection_finalizers : Names → Pod → List Text
unfolding protection_of
get_protection_finalizers N pod = protection_of N pod.finalizers

unfoldable pub contains : Text → List Text → Bool
contains f [] = false
contains f (g ∷ gs) = text_eq g f || contains f gs

-- Sets of texts, as lists.
unfoldable pub set_insert : Text → List Text → List Text
set_insert k s = if contains k s then s else k ∷ s

-- The expected finalizers that the pod does not have.
unfoldable pub not_satisfied : List Text → Dict Text → Dict Text
not_satisfied have [] = []
not_satisfied have ((k, f) ∷ rest) =
    let others = not_satisfied have rest in if contains f have then others else (k, f) ∷ others

abbrev missing_finalizers : Pod → Option (Dict Text) → Dict Text
missing_finalizers pod none = []
missing_finalizers pod (some expected) = not_satisfied pod.finalizers expected

abbrev is_empty : Dict Text → Bool
is_empty [] = true
is_empty (e ∷ es) = false

-- Whether the pod has all expected finalizers, and those that it has not.
unfoldable pub is_expected_finalizer_satisfied : Pod → Result (Bool × Dict Text)
is_expected_finalizer_satisfied pod = elim pod.expected_finalizers [
  | err e ↦ err e
  | ok expected ↦ let unmet = missing_finalizers pod expected in ok (is_empty unmet, unmet)
]

unfoldable pub controlled_by_kusion_stack : Names → Pod → Bool
controlled_by_kusion_stack N pod = elim (lookup N.controlled_by pod.labels) [
  | none ↦ false
  | some v ↦ text_eq v (codes "true")
]

abbrev pub set_labels : Pod → Labels → Pod
set_labels pod labels = record pod { labels = labels }
