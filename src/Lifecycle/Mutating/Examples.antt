-- ===== src/Lifecycle/Mutating/Examples.antt =====
-- An undone operation, and one that its operator has begun but nobody has checked.
use kuperator.Common.{
  ok, has, true, ◌≡◌, ◌≡◌, refl, none, [], ◌∷◌, codes, text_eq, lookup, insert, delete, has_prefix,
  split_slash, join_slash,
}
use kuperator.Pod.{
  pre_checked, get_protection_finalizers, contains, operating, operation_type, operate, pre_check,
  undo_operation_type, key, Pod, Labels, set_labels, controlled_by_kusion_stack, get_pod_condition,
}
use kuperator.Pod.Sample.{sample_names, sample_names-IsNames, sample_pod}
use kuperator.Lifecycle.Ids.{id_to_labels_map, bump}
use kuperator.Lifecycle.Mutating.{
  is_update, OpsLifecycle, new_ops_lifecycle, default_ready_to_operate, mutating, mutate_labels,
  visit, visit_all, advance, operating_step, wipe, delete_all, reset_permissions,
  add_label_with_time,
}
use kuperator.Lifecycle.Mutating.Undo.{mutating_undone}
use kuperator.Lifecycle.Mutating.Admit.{mutating_operate}
use kuperator.Lifecycle.Mutating.Liveness.{mutating_starts}

abbrev lc : OpsLifecycle
lc = new_ops_lifecycle sample_names (codes "9")

abbrev control : Labels
control = (codes "kusionstack.io/control", codes "true") ∷ []

abbrev undone : Pod
undone = set_labels sample_pod (
    (key sample_names operating (codes "web"), codes "1")
    ∷ (key sample_names undo_operation_type (codes "web"), codes "update")
    ∷ control)

abbrev unchecked : Pod
unchecked = set_labels sample_pod (
    (key sample_names operating (codes "web"), codes "1")
    ∷ (key sample_names operation_type (codes "web"), codes "update")
    ∷ control)

mutating_undone_example : lookup (key sample_names operating (codes "web")) control ≡ none
unfolding mutating mutate_labels visit_all visit wipe delete_all reset_permissions bump
    id_to_labels_map text_eq lookup insert delete contains has_prefix split_slash join_slash
    controlled_by_kusion_stack
mutating_undone_example =
    mutating_undone sample_names sample_names-IsNames lc operating (codes "web") [] undone
      (set_labels sample_pod control) is_update
      ((
        codes "web",
        (codes "undo-operation-type.podopslifecycle.kusionstack.io", codes "update")
            ∷ (codes "operating.podopslifecycle.kusionstack.io", codes "1")
            ∷ [],
      )
        ∷ [])
      [] refl refl refl refl refl refl refl

abbrev checking : Pod
checking = set_labels sample_pod (
    (key sample_names operating (codes "web"), codes "1")
    ∷ (key sample_names operation_type (codes "web"), codes "update")
    ∷ (codes "kusionstack.io/control", codes "true")
    ∷ (key sample_names pre_check (codes "web"), codes "9")
    ∷ [])

mutating_operate_example : lookup (key sample_names operate (codes "web")) checking.labels ≡ none
unfolding mutating mutate_labels visit_all visit advance operating_step add_label_with_time
    reset_permissions bump id_to_labels_map text_eq lookup insert delete contains has_prefix
    split_slash join_slash controlled_by_kusion_stack default_ready_to_operate get_pod_condition
mutating_operate_example =
    mutating_operate sample_names sample_names-IsNames (codes "9") (codes "web") [] unchecked
      checking is_update refl refl refl

abbrev checked : Pod
checked = set_labels sample_pod (
    (key sample_names operating (codes "web"), codes "1")
    ∷ (key sample_names pre_checked (codes "web"), codes "7")
    ∷ control)

mutating_starts_example :
    (pod' : Pod) × (mutating sample_names lc [] checked is_update ≡ ok pod')
    × (has (key sample_names operate (codes "web")) pod'.labels ≡ true)
unfolding id_to_labels_map bump text_eq lookup insert contains has_prefix split_slash join_slash
    controlled_by_kusion_stack default_ready_to_operate get_pod_condition get_protection_finalizers
mutating_starts_example =
    mutating_starts sample_names sample_names-IsNames (codes "9") (codes "web") refl refl [] checked
      is_update
      ((
        codes "web",
        (codes "pre-checked.podopslifecycle.kusionstack.io", codes "7")
            ∷ (codes "operating.podopslifecycle.kusionstack.io", codes "1")
            ∷ [],
      )
        ∷ [])
      [] refl refl refl refl refl refl refl
