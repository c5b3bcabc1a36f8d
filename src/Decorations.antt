-- ===== src/Decorations.antt =====
-- Pod decorations: pkg/controllers/utils/poddecoration/strategy/types.go and utils.go. What the
-- strategy knows of the pods that a decoration selects, and which of them are updated first.
pub mod Related
pub mod Strategy
pub mod Partition
pub mod Held
pub mod Manager
pub mod Effective
pub mod Examples
use kuperator.Common.{
  ℕ, Bool, true, false, not, ◌&&◌, ◌||◌, ◌==◌, Option, none, some, List, [], ◌∷◌, if◌then◌else◌,
  ltb, ℤ, Text, codes, text_eq, ◌++◌, Dict, lookup, Result, ok, err, Outcome, returns, panics,
}
use kuperator.Pod.{
  Names, Phase, pending, running, succeeded, failed, phase_unknown, OwnerRef, Labels, Pod, Status,
  Condition, is_pod_ready, is_pod_service_available, get_pod_condition,
}
use kuperator.Transition.Status.{text_less}

-- What LabelSelectorAsSelector makes of a selector. (One that it refuses makes the code panic when
-- it is asked, and is left out.)
abbrev pub Selector : Type 0
Selector = Labels → Bool

-- A pod with what only the strategy reads of it. A time of 0 is the zero time.
pub record Placed : Type 0 where
  pub pod : Pod
  pub node_name : Text
  pub creation_timestamp : ℕ
  pub restart_counts : List ℕ

pub record PodState : Type 0 where
  pub is_deleted : Bool
  pub is_collaset_updated_revision : Bool
  pub is_ready : Bool
  pub is_pod_sa : Bool
  pub node_name : Text
  pub phase : Phase
  pub ready_time : ℕ
  pub max_container_restarts : ℕ
  pub creation_timestamp : ℕ

pub record PodInfo : Type 0 where
  pub name : Text
  pub namespace : Text
  pub labels : Labels
  pub collaset : Text
  pub resource_context : Text
  pub instance_id : Text
  pub revision : Text
  pub state : PodState

pub record RollingUpdate : Type 0 where
  pub rolling_selector : Option Selector
  pub partition : Option ℤ

-- Of its metadata, spec and status what the strategy reads.
pub record PodDecoration : Type 0 where
  pub name : Text
  pub namespace : Text
  pub selector : Option Selector
  pub rolling_update : Option RollingUpdate
  pub updated_revision : Text
  pub current_revision : Text

abbrev pub instance_key : PodInfo → Text
instance_key info = info.resource_context ++ b'/' ∷ info.instance_id

unfoldable pub after_or_zero : ℕ → ℕ → Bool
after_or_zero t u = if (t == 0) || (u == 0) then t == 0 else ltb u t

abbrev same : Bool → Bool → Bool
same p q = if p then q else not q

abbrev is_empty : Text → Bool
is_empty [] = true
is_empty (c ∷ s) = false

-- The order of phases in Compare; a phase that its map does not have counts as 0.
unfoldable pub phase_order : Phase → ℕ
phase_order running = 2
phase_order phase_unknown = 1
phase_order _ = 0

unfoldable pub compare : PodInfo → PodInfo → Bool
compare l r =
    let s = l.state in
    let t = r.state in
    if not (same s.is_collaset_updated_revision t.is_collaset_updated_revision)
    then s.is_collaset_updated_revision
    else if not (text_eq l.revision r.revision)
    then text_less r.revision l.revision
    else if not (same s.is_pod_sa t.is_pod_sa)
    then t.is_pod_sa
    else if not (text_eq s.node_name t.node_name) && (is_empty s.node_name || is_empty t.node_name)
    then is_empty s.node_name
    else if not (phase_order s.phase == phase_order t.phase)
    then ltb (phase_order s.phase) (phase_order t.phase)
    else if not (same s.is_ready t.is_ready)
    then not s.is_ready
    else if s.is_ready && (t.is_ready && not (s.ready_time == t.ready_time))
    then after_or_zero s.ready_time t.ready_time
    else if not (s.max_container_restarts == t.max_container_restarts)
    then ltb t.max_container_restarts s.max_container_restarts
    else if not (s.creation_timestamp == t.creation_timestamp)
    then after_or_zero s.creation_timestamp t.creation_timestamp
    else text_less l.instance_id r.instance_id

-- The Less of sortedPodInfo, for a revision.
unfoldable pub is_before : Text → PodInfo → PodInfo → Bool
is_before revision l r =
    let l_matches = text_eq l.revision revision in
    let r_matches = text_eq r.revision revision in
    if not (same l_matches r_matches) then l_matches else compare l r

abbrev time_if_true : Option Condition → ℕ
time_if_true none = 0
time_if_true (some c) = c.last_transition

-- The condition that IsPodReady finds, which is then the first one that is true.
unfoldable pub pod_ready_time : Names → Pod → ℕ
pod_ready_time N pod =
    if is_pod_ready N pod then time_if_true (get_pod_condition pod.conditions N.pod_ready) else 0

unfoldable pub max_container_restarts_of : ℕ → List ℕ → ℕ
max_container_restarts_of max [] = max
max_container_restarts_of max (n ∷ ns) = max_container_restarts_of (if ltb max n then n else max) ns

unfoldable pub set_pod_state : Names → Placed → PodState
set_pod_state N p = record {
  is_deleted = false;
  is_collaset_updated_revision = false;
  is_ready = is_pod_ready N p.pod;
  is_pod_sa = is_pod_service_available N p.pod;
  node_name = p.node_name;
  phase = p.pod.phase;
  ready_time = pod_ready_time N p.pod;
  max_container_restarts = max_container_restarts_of 0 p.restart_counts;
  creation_timestamp = p.creation_timestamp;
}
