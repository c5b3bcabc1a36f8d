-- ===== src/Lifecycle/Controller.antt =====
-- pkg/controllers/podopslifecycle/podopslifecycle_controller.go: the controller that opens and
-- closes the readiness gate of a pod and records the passed stages in its labels.
pub mod Readiness
pub mod Stages
pub mod World
pub mod Available
pub mod Reconcile
pub mod Unavailable
pub mod Guarded
pub mod Safety
pub mod Examples
use kuperator.Common.{
  ℕ, zero, suc, ◌+◌, Bool, true, false, not, ◌&&◌, Option, none, some, List, [], ◌∷◌, ◌++◌,
  if◌then◌else◌, Text, codes, text_eq, Dict, insert, has, lookup, Result,
}
use kuperator.Pod.{
  Names, Pod, Condition, Status, condition_true, condition_false, condition_unknown, Labels,
  contains, key, pre_checked, post_checked, operation_type, operation_permission,
}

-- The index of the last condition of a type.
unfoldable pub last_index : Text → ℕ → Option ℕ → List Condition → Option ℕ
last_index kind idx index [] = index
last_index kind idx index (c ∷ cs) =
    last_index kind (suc idx) (if text_eq c.kind kind then some idx else index) cs

unfoldable pub condition_at : ℕ → List Condition → Option Condition
condition_at i [] = none
condition_at zero (c ∷ cs) = some c
condition_at (suc i) (c ∷ cs) = condition_at i cs

unfoldable pub set_condition_at : ℕ → Condition → List Condition → List Condition
set_condition_at i d [] = []
set_condition_at zero d (c ∷ cs) = d ∷ cs
set_condition_at (suc i) d (c ∷ cs) = c ∷ set_condition_at i d cs

abbrev pub status_of : Bool → Status
status_of true = condition_true
status_of false = condition_false

abbrev pub same_status : Status → Status → Bool
same_status condition_true condition_true = true
same_status condition_false condition_false = true
same_status condition_unknown condition_unknown = true
same_status _ _ = false

abbrev pub set_conditions : Pod → List Condition → Pod
set_conditions pod conditions = record pod { conditions = conditions }

abbrev pub with_status : ℕ → Bool → Condition → Condition
with_status time is_ready c = record c {
  status = status_of is_ready;
  last_transition = time;
  message = codes "updated by PodOpsLifecycle";
}

abbrev pub new_condition : Names → ℕ → Bool → Condition
new_condition N time is_ready = record {
  kind = N.service_ready_gate;
  status = status_of is_ready;
  last_transition = time;
  message = codes "updated by PodOpsLifecycle";
}

abbrev pub update_condition : ℕ → Pod → Bool → ℕ → Option Condition → Pod × Bool
update_condition time pod is_ready i none = (pod, false)
update_condition time pod is_ready i (some c) =
    if same_status c.status (status_of is_ready) then (pod, false) else (
      set_conditions pod (set_condition_at i (with_status time is_ready c) pod.conditions),
      true,
    )

abbrev pub set_gate : Names → ℕ → Pod → Bool → Option ℕ → Pod × Bool
set_gate N time pod is_ready none =
    (set_conditions pod (pod.conditions ++ (new_condition N time is_ready ∷ [])), true)
set_gate N time pod is_ready (some i) =
    update_condition time pod is_ready i (condition_at i pod.conditions)

-- The pod, and whether its status has to be written. (The message for the event is left out.)
unfoldable pub set_service_readiness : Names → ℕ → Pod → Bool → Pod × Bool
set_service_readiness N time pod is_ready =
    if contains N.service_ready_gate pod.readiness_gates
    then set_gate N time pod is_ready (last_index N.service_ready_gate 0 none pod.conditions)
    else (pod, false)

-- A label for the map of new labels, unless the pod has it.
abbrev pub add_missing : Labels → Text → Text → Labels → Labels
add_missing have k now labels = if has k have then labels else insert k now labels

module _ (N : Names) (now : Text) (have : Labels) where
  abbrev pub pre_checked_labels : Text → Option Text → Labels → Labels
  pre_checked_labels id none labels = labels
  pre_checked_labels id (some t) labels =
      add_missing have (key N pre_checked id) now
        (add_missing have (key N operation_permission t) now labels)

  unfoldable pub pre_check_all : Dict Labels → Labels → Labels
  pre_check_all [] labels = labels
  pre_check_all ((id, m) ∷ rest) labels =
      pre_check_all rest (pre_checked_labels id (lookup (N.prefix operation_type) m) labels)

  unfoldable pub post_check_all : Dict Labels → Labels → Labels
  post_check_all [] labels = labels
  post_check_all ((id, m) ∷ rest) labels =
      post_check_all rest (add_missing have (key N post_checked id) now labels)

  -- The labels that an operation gets when a stage is passed.
  unfoldable pub pre_check_stage : Dict Labels → Labels
  unfolding pre_check_all
  pre_check_stage ids = pre_check_all ids []

  unfoldable pub post_check_stage : Dict Labels → Labels
  unfolding post_check_all
  post_check_stage ids = post_check_all ids []

-- The labels of a pod with others put over them.
unfoldable pub put_all : Labels → Labels → Labels
put_all [] labels = labels
put_all ((k, v) ∷ rest) labels = put_all rest (insert k v labels)
