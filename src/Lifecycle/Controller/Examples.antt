-- ===== src/Lifecycle/Controller/Examples.antt =====
-- A cluster of one pod, where the controller makes the pod available, and a pod in two stages.
use kuperator.Common.{
  ◌≡◌, refl, true, false, none, some, [], ◌∷◌, codes, Text, text_eq, Dict, lookup, has, ok, subst,
  join_slash, insert, delete, has_prefix, split_slash, parse_int,
}
use kuperator.Pod.{
  Pod, Labels, condition_true, operating, operation_type, contains, is_expected_finalizer_satisfied,
  is_pod_ready, get_pod_condition, Prefix, set_labels, pre_check, pre_checked, preparing, operate,
  operated, post_check, post_checked, completing, undo_operation_type, done_operation_type,
  operation_permission, key,
}
use kuperator.Pod.Sample.{sample_names, sample_pod}
use kuperator.Expectations.InMemory.{in_memory, find, put}
use kuperator.Expectations.Version.{
  item_key, satisfied_version, expect_update, set_version, item_set, version_of,
}
use kuperator.Lifecycle.Controller.{
  set_conditions, pre_check_stage, post_check_stage, put_all, set_service_readiness, status_of,
}
use kuperator.Lifecycle.Controller.World.{Api, World, change, in_stage_and_passed}
use kuperator.Lifecycle.Controller.Available.{
  add_service_available, add_service_available-Available,
}
use kuperator.Lifecycle.Controller.Readiness.{service_readiness, set_service_readiness-Settled}
use kuperator.Lifecycle.Ids.{id_to_labels_map}
use kuperator.Lifecycle.Controller.Guarded.{IsGuard}
use kuperator.Lifecycle.Controller.Reconcile.{
  reconcile, reconcile_stages, phase_loop, phase_operations, remove_labels, stage_labels,
  delete_keys,
}
use kuperator.Lifecycle.Controller.Safety.{reconcile-Safe}
use kuperator.Lifecycle.Controller.Stages.{PreChecked, PostChecked, put_all-check_stages}

-- The cluster is its pod. No service exists, and no rule.
abbrev one_pod : Api
one_pod = record {
  Cluster = Pod;
  get_pod = λ pod namespace name. ok pod;
  update = λ cluster pod. (pod, pod, none);
  update_status = λ cluster pod. (pod, none);
  get_selector = λ cluster namespace name. ok [];
  selects = λ selector labels. true;
  retry_on_conflict = λ f cluster. f cluster;
  get_state = λ cluster pod. ok (record { stage = []; states = [] });
}

abbrev ready_pod : Pod
ready_pod = set_conditions sample_pod (
    record { kind = codes "Ready"; status = condition_true; last_transition = 3; message = [] }
    ∷ [])

abbrev world : World one_pod (in_memory item_key)
world = record { cluster = ready_pod; expectation = [] }

add_service_available-Available_example :
    (has sample_names.service_available ready_pod.labels ≡ false)
    × (is_pod_ready sample_names ready_pod ≡ true)
    × ((unmet : Dict Text) × (is_expected_finalizer_satisfied ready_pod ≡ ok (true, unmet)))
unfolding add_service_available change is_pod_ready get_pod_condition text_eq
    is_expected_finalizer_satisfied lookup
add_service_available-Available_example =
    add_service_available-Available sample_names one_pod (in_memory item_key) (codes "9") 9 world
      ready_pod refl

abbrev gated_pod : Pod
gated_pod = record ready_pod { readiness_gates = sample_names.service_ready_gate ∷ [] }

set_service_readiness-Settled_example :
    let pod' = (set_service_readiness sample_names 7 gated_pod false).0 in
    (service_readiness sample_names pod' ≡ some (status_of false))
    × ((set_service_readiness sample_names 8 pod' false).1 ≡ false)
unfolding contains text_eq
set_service_readiness-Settled_example =
    set_service_readiness-Settled sample_names 8 false 7 gated_pod refl

abbrev two_operations : Dict Labels
two_operations =
    (codes "web", (sample_names.prefix operation_type, codes "update") ∷ [])
    ∷ (codes "job", (sample_names.prefix operating, codes "1") ∷ [])
    ∷ []

put_all-check_stages_example :
    let pre = put_all (pre_check_stage sample_names (codes "9") [] two_operations) [] in
    let post = put_all (post_check_stage sample_names (codes "9") [] two_operations) [] in
    (PreChecked sample_names two_operations pre
      × (pre_check_stage sample_names (codes "10") pre two_operations ≡ []))
    × (PostChecked sample_names two_operations post
        × (post_check_stage sample_names (codes "10") post two_operations ≡ []))
put_all-check_stages_example =
    put_all-check_stages sample_names (codes "9") (codes "10") [] two_operations

-- A pod with an operation in the cluster of one pod, in no stage: it is not ready, so the controller
-- takes the label for an available service off it.
abbrev busy_pod : Pod
busy_pod = set_labels sample_pod ((key sample_names operating (codes "web"), codes "1") ∷ [])

abbrev Off : Pod → Type 0
Off pod = has sample_names.service_available pod.labels ≡ false

one_pod-IsGuard : IsGuard sample_names one_pod Off
one_pod-IsGuard = record {
  read = λ c namespace name pod safe e. let same : c ≡ pod = cc in subst Off same safe;
  write = λ c pod safe off. off;
  write_status = λ c pod safe off. off;
  retry = λ f c keeps safe. keeps c safe;
}

no_operation_label :
    (p : Prefix) (id : Text)
    → text_eq (key sample_names p id) sample_names.service_available ≡ false
unfolding text_eq join_slash
no_operation_label operating id = refl
no_operation_label operation_type id = refl
no_operation_label pre_check id = refl
no_operation_label pre_checked id = refl
no_operation_label preparing id = refl
no_operation_label operate id = refl
no_operation_label operated id = refl
no_operation_label post_check id = refl
no_operation_label post_checked id = refl
no_operation_label completing id = refl
no_operation_label undo_operation_type id = refl
no_operation_label done_operation_type id = refl
no_operation_label operation_permission id = refl

abbrev busy_world : World one_pod (in_memory item_key)
busy_world = record { cluster = busy_pod; expectation = [] }

reconcile-Safe_example : Off busy_pod
unfolding reconcile reconcile_stages phase_loop phase_operations remove_labels change
    id_to_labels_map lookup insert delete text_eq has_prefix split_slash join_slash contains
    satisfied_version find stage_labels in_stage_and_passed is_pod_ready get_pod_condition
    delete_keys expect_update set_version put item_set version_of parse_int
reconcile-Safe_example =
    reconcile-Safe sample_names one_pod (in_memory item_key) Off one_pod-IsGuard no_operation_label
      (codes "9") 9 (codes "default") (codes "web-0") busy_world
      (record {
        cluster = busy_pod;
        expectation =
            record { resource_version = 7; key = codes "default/web-0"; timestamp = 9 } ∷ [];
      })
      busy_pod ((codes "web", (sample_names.prefix operating, codes "1") ∷ []) ∷ []) [] none refl
      refl refl refl refl
