-- ===== src/Lifecycle/Validating/Examples.antt =====
-- A pod with the labels of an operation that is pre-checked.
use kuperator.Common.{
  ◌≡◌, refl, ◌↔◌, none, [], ◌∷◌, codes, text_eq, lookup, has_prefix, join_slash, returns,
}
use kuperator.Pod.{
  operating, operation_permission, pre_checked, key, Labels, set_labels, controlled_by_kusion_stack,
}
use kuperator.Pod.Sample.{sample_names, sample_pod}
use kuperator.Lifecycle.Mutating.{is_update}
use kuperator.Lifecycle.Validating.{validating}
use kuperator.Lifecycle.Validating.Accepted.{AllValid, some_has, validating_iff}

abbrev permitted : Labels
permitted =
    (key sample_names pre_checked (codes "web"), codes "2")
    ∷ (codes "kusionstack.io/control", codes "true")
    ∷ (key sample_names operating (codes "web"), codes "1")
    ∷ (key sample_names operation_permission (codes "update"), codes "2")
    ∷ []

validating_iff_example :
    (validating sample_names (set_labels sample_pod permitted) is_update ≡ returns none) ↔ (
      AllValid sample_names permitted permitted
      × (some_has sample_names pre_checked permitted
          ≡ some_has sample_names operation_permission permitted))
unfolding controlled_by_kusion_stack lookup text_eq has_prefix join_slash
validating_iff_example =
    validating_iff sample_names (set_labels sample_pod permitted) is_update none refl refl refl
      (refl, (refl, (refl, (refl, tt))))
