-- ===== src/Lifecycle/Mutating.antt =====
-- pkg/webhook/server/generic/pod/opslifecycle/mutating.go and webhook.go: how the admission of a
-- pod moves its operations from phase to phase.
pub mod Frame
pub mod Undo
pub mod Operate
pub mod Admit
pub mod Start
pub mod Started
pub mod Liveness
pub mod Examples
use kuperator.Common.{
  ℕ, suc, ◌+◌, Bool, true, false, not, ◌&&◌, ◌||◌, Option, none, some, List, [], ◌∷◌, ◌++◌, ◌==◌,
  if◌then◌else◌, is_some, Text, text_eq, Dict, lookup, insert, delete, has, length, Result, ok, err,
  Error,
}
use kuperator.Pod.{
  Prefix, operating, operation_type, pre_check, pre_checked, preparing, operate, operated,
  post_check, post_checked, completing, undo_operation_type, done_operation_type,
  operation_permission, Names, key, Labels, Pod, set_labels, controlled_by_kusion_stack,
  is_expected_finalizer_satisfied, get_pod_condition, get_protection_finalizers, is_false,
  Condition, contains,
}
use kuperator.Lifecycle.Ids.{IdMaps, id_to_labels_map, bump, or_zero}

-- OpsLifecycle: the two functions that the webhook is made with. `now` is the text of the time.
pub record OpsLifecycle : Type 0 where
  pub ready_to_operate : Pod → Bool
  pub now : Text

pub data Operation : Type 0 where
  is_create is_update is_delete is_connect : Operation

unfoldable pub add_readiness_gates : Text → List Text → List Text
add_readiness_gates gate gates = if contains gate gates then gates else gates ++ (gate ∷ [])

abbrev is_nil : List Text → Bool
is_nil [] = true
is_nil (f ∷ fs) = false

abbrev gate_closed : List Text → Option Condition → Bool
gate_closed finalizers none = true
gate_closed finalizers (some c) = is_nil finalizers && is_false c.status

-- readyToOperate: traffic is off, and nothing protects the pod.
unfoldable pub default_ready_to_operate : Names → Pod → Bool
default_ready_to_operate N pod =
    gate_closed (get_protection_finalizers N pod)
      (get_pod_condition pod.conditions N.service_ready_gate)

-- New()
abbrev pub new_ops_lifecycle : Names → Text → OpsLifecycle
new_ops_lifecycle N now = record { ready_to_operate = default_ready_to_operate N; now = now }

-- The variables of the first loop.
pub record Progress : Type 0 where
  pub labels : Labels
  pub undone : Dict ℕ
  pub operating_count : ℕ
  pub operate_count : ℕ
  pub operated_count : ℕ
  pub complete_count : ℕ

abbrev pub one_if : Bool → ℕ
one_if true = 1
one_if false = 0

module _ (N : Names) where
  -- Whether an operation's own map, as it was when the webhook began, has the prefix.
  abbrev pub had : Labels → Prefix → Bool
  had m p = has (N.prefix p) m

  unfoldable pub delete_all : List Prefix → Text → Labels → Labels
  delete_all [] id labels = labels
  delete_all (p ∷ ps) id labels = delete_all ps id (delete (key N p id) labels)

module _ (N : Names) (lc : OpsLifecycle) where
  unfoldable pub add_label_with_time : Text → Labels → Labels
  add_label_with_time k labels = insert k lc.now labels

  -- An operation that is pre-checked: it prepares, and operates once the pod is ready for it.
  unfoldable pub prepare : Text → Labels → Labels → Labels
  unfolding add_label_with_time
  prepare id m labels =
      if not (had N m preparing) && not (had N m operate)
      then add_label_with_time (key N preparing id)
          (delete N.service_available (delete (key N pre_check id) labels))
      else delete (key N pre_check id) labels

  unfoldable pub start_operate : Text → Labels → Labels → Labels
  unfolding add_label_with_time
  start_operate id m labels =
      add_label_with_time (key N operate id) (delete (key N preparing id) labels)

  unfoldable pub operating_step : Pod → Text → Labels → Labels → Labels
  operating_step pod id m labels =
      if had N m pre_checked
      then (let prepared = prepare id m labels in
          if not (had N m operate) && lc.ready_to_operate (set_labels pod prepared)
          then start_operate id m prepared
          else prepared)
      else if had N m pre_check
      then labels
      else add_label_with_time (key N pre_check id) labels

  unfoldable pub post_checked_step : Text → Labels → Labels → Labels
  unfolding add_label_with_time
  post_checked_step id m labels =
      let labels' = delete (key N post_check id) labels in
      if had N m completing then labels' else add_label_with_time (key N completing id) labels'

  -- The labels after an operation that is not undone.
  unfoldable pub advance : Pod → Text → Labels → Labels → Labels
  advance pod id m labels =
      let labels' = if had N m operating then operating_step pod id m labels else labels in
      if had N m post_checked then post_checked_step id m labels' else labels'

  -- The labels after an operation that is undone.
  unfoldable pub wipe : Text → Labels → Labels
  unfolding delete_all
  wipe id labels = delete (key N undo_operation_type id) (delete_all N N.well_known id labels)

  -- One round of the first loop.
  unfoldable pub visit : Pod → Text → Labels → Progress → Progress
  visit pod id m s = elim (lookup (N.prefix undo_operation_type) m) [
    | some t ↦ record s { undone = bump N t s.undone; labels = wipe id s.labels }
    | none ↦ record s {
      labels = advance pod id m s.labels;
      operating_count = s.operating_count + one_if (had N m operating);
      operate_count = s.operate_count + one_if (had N m operate);
      operated_count = s.operated_count + one_if (had N m operated);
      complete_count = s.complete_count + one_if (had N m completing);
    }
  ]

  unfoldable pub visit_all : Pod → Dict Labels → Progress → Progress
  visit_all pod [] s = s
  visit_all pod ((id, m) ∷ rest) s = visit_all pod rest (visit pod id m s)

  -- The permission of a type is withdrawn if all operations of the type are undone.
  unfoldable pub reset_permissions : Dict ℕ → Dict ℕ → Labels → Labels
  reset_permissions [] nums labels = labels
  reset_permissions ((t, n) ∷ rest) nums labels = reset_permissions rest nums (
      if n == or_zero N (lookup t nums)
      then delete (key N operation_permission t) labels
      else labels)

  abbrev pub lifecycle_prefixes : List Prefix
  lifecycle_prefixes =
      operate ∷ operated ∷ done_operation_type ∷ post_check ∷ post_checked ∷ completing ∷ []

  -- All operations are completed.
  unfoldable pub complete_all : Dict Labels → Labels → Labels
  unfolding delete_all
  complete_all [] labels = labels
  complete_all ((id, m) ∷ rest) labels =
      complete_all rest (delete_all N lifecycle_prefixes id labels)

  abbrev pub old_type : Text → Dict Labels → Option Text
  old_type id old = elim (lookup id old) [
    | none ↦ none
    | some m ↦ lookup (N.prefix operation_type) m
  ]

  unfoldable pub mark_operated : Text → Labels → Labels → Labels
  unfolding add_label_with_time
  mark_operated id m labels =
      let labels' = delete (key N pre_checked id) labels in
      if had N m operated
      then labels'
      else add_label_with_time (key N operated id) (delete (key N operate id) labels')

  unfoldable pub mark_done : Text → Option Text → Labels → Labels
  mark_done id none labels = labels
  mark_done id (some t) labels =
      insert (key N done_operation_type id) t
        (delete (key N operation_type id) (delete (key N operation_permission t) labels))

  -- One round of the loop when all operations are going to be done: the labels after it.
  unfoldable pub finish_operate : Dict Labels → Text → Labels → Labels → Labels
  finish_operate old id m labels = mark_done id (old_type id old) (mark_operated id m labels)

  unfoldable pub finish_all : Dict Labels → Dict Labels → Labels → Labels
  finish_all old [] labels = labels
  finish_all old ((id, m) ∷ rest) labels = finish_all old rest (finish_operate old id m labels)

  -- How many operations get the operated label in that loop.
  unfoldable pub newly_operated : Dict Labels → ℕ
  newly_operated [] = 0
  newly_operated ((id, m) ∷ rest) = one_if (not (had N m operated)) + newly_operated rest

  unfoldable pub post_check_all : Dict Labels → Labels → Labels
  unfolding add_label_with_time
  post_check_all [] labels = labels
  post_check_all ((id, m) ∷ rest) labels = post_check_all rest (
      if not (had N m post_check) && not (had N m post_checked)
      then add_label_with_time (key N post_check id) labels
      else labels)

  abbrev post_check_if : Bool → Dict Labels → Labels → Labels
  post_check_if true ids labels = post_check_all ids labels
  post_check_if false ids labels = labels

  abbrev pub after_old : Result IdMaps → Dict Labels → Progress → Labels → Result Labels
  after_old (err e) ids s labels = err e
  after_old (ok (old, nums)) ids s labels = ok (
      post_check_if (s.operated_count + newly_operated ids == length ids) ids
        (finish_all old ids labels))

  abbrev after_finalizers : Result (Bool × Dict Text) → Dict Labels → Labels → Result Labels
  after_finalizers (err e) ids labels = err e
  after_finalizers (ok (satisfied, unmet)) ids labels =
      ok (if satisfied then complete_all ids labels else labels)

  abbrev pub empty_progress : Labels → Progress
  empty_progress labels = record {
    labels = labels;
    undone = [];
    operating_count = 0;
    operate_count = 0;
    operated_count = 0;
    complete_count = 0;
  }

  -- The labels that the webhook leaves, from those of the old pod and of the new one.
  unfoldable pub mutate_labels : Labels → Pod → IdMaps → Result Labels
  mutate_labels old_labels pod (ids, nums) =
      let s = visit_all pod ids (empty_progress pod.labels) in
      let labels = reset_permissions s.undone nums s.labels in
      if not (s.operating_count == 0)
      then ok labels
      else if s.complete_count == length ids
      then after_finalizers (is_expected_finalizer_satisfied (set_labels pod labels)) ids labels
      else if s.operate_count == length ids
      then after_old (id_to_labels_map N old_labels) ids s labels
      else ok (post_check_if (s.operated_count == length ids) ids labels)

  abbrev pub gated : Operation → Pod → Pod
  gated is_create pod = record pod {
    readiness_gates = add_readiness_gates N.service_ready_gate pod.readiness_gates;
  }
  gated _ pod = pod

  abbrev pub with_maps : Labels → Pod → Result IdMaps → Result Pod
  with_maps old_labels pod (err e) = err e
  with_maps old_labels pod (ok maps) = elim (mutate_labels old_labels pod maps) [
    | err e ↦ err e
    | ok labels ↦ ok (set_labels pod labels)
  ]

  -- An error rejects the request, so the pod as it is then is not kept.
  unfoldable pub mutating : Labels → Pod → Operation → Result Pod
  mutating old_labels pod operation =
      if controlled_by_kusion_stack N pod
      then with_maps old_labels (gated operation pod) (id_to_labels_map N pod.labels)
      else ok pod
