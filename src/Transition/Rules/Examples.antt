-- ===== src/Transition/Rules/Examples.antt =====
-- Three pods of a CollaSet with four replicas, one of them not available, under a policy of at most
-- three unavailable pods.
use kuperator.Common.{
  sort_by, insert_by, ◌+◌, ◌-◌, ◌≡◌, ◌≤◌, ◌⊎◌, refl, true, false, none, some, List, [], ◌∷◌, length,
  pos, to_nat, Text, codes, text_eq, Dict, lookup, insert, ok, returns, arith,
}
use kuperator.Pod.{OwnerRef, Pod, Phase, running, failed, is_pod_terminal, contains, set_insert}
use kuperator.Pod.Sample.{sample_pod}
use kuperator.Transition.Rules.{AvailablePolicy, TransitionRule, FilterResult, resolve}
use kuperator.Transition.Rules.Order.{weight, less, sort_rules}
use kuperator.Transition.Rules.Interface.{IsKeyed, AreTargets, Decides}
use kuperator.Transition.Rules.Available.{
  Cluster, available_filter, quota, consider_owner_replicas, effective_targets, is_collaset,
  count_owner, count_owners, desired_replicas, uncreated,
}
use kuperator.Transition.Rules.Available.Budget.{
  IsReadable, disturbed_subjects, disturbed_targets, available_targets, available_filter-Budget,
}
use kuperator.Transition.Rules.Available.Decisive.{available_filter-Decides}

abbrev owner : OwnerRef
owner = record {
  owner_kind = codes "CollaSet";
  api_version = codes "apps.kusionstack.io/v1alpha1";
  uid = codes "uid-1";
  owner_name = codes "web";
}

abbrev pod_of : Text → Phase → Text × Pod
pod_of name phase =
    (name, record sample_pod { name = name; phase = phase; controller = some owner })

abbrev targets : Dict Pod
targets = pod_of (codes "a") running ∷ pod_of (codes "b") failed ∷ pod_of (codes "c") running ∷ []

abbrev subjects : List Text
subjects = codes "a" ∷ codes "b" ∷ codes "c" ∷ []

abbrev cluster : Cluster
cluster = record {
  unavailable_funcs = (λ pod. (is_pod_terminal pod, none)) ∷ [];
  collaset_version = codes "apps.kusionstack.io/v1alpha1";
  get_collaset = λ namespace name. ok (codes "uid-1", some (pos 4));
}

abbrev policy : AvailablePolicy
policy = record {
  min_available_value = none;
  max_unavailable_value = some (λ total round_up. ok (pos 3));
}

abbrev rule : Text
rule = codes "available"

readable : IsReadable cluster rule [] policy targets subjects
unfolding resolve lookup text_eq set_insert contains insert quota consider_owner_replicas
    effective_targets is_collaset count_owner count_owners desired_replicas uncreated
readable = record {
  max_quota = pos 3;
  min_quota = 0;
  missing = 1;
  pods = pod_of (codes "c") running ∷ pod_of (codes "b") failed ∷ pod_of (codes "a") running ∷ [];
  subject_pods = targets;
  reads_max = refl;
  reads_min = refl;
  reads_missing = refl;
  reads_pods = refl;
  reads_subjects = refl;
}

available_filter-Budget_example :
    (r : FilterResult) × (available_filter cluster rule [] targets policy subjects ≡ returns r)
    × (length r.passed ≤ (
        disturbed_subjects cluster rule [] policy targets subjects readable
        + ((to_nat readable.max_quota - readable.missing)
            - disturbed_targets cluster rule [] policy targets subjects readable)))
    × ((length r.passed ≤ disturbed_subjects cluster rule [] policy targets subjects readable)
        ⊎ ((readable.min_quota + length r.passed) ≤ (
            disturbed_subjects cluster rule [] policy targets subjects readable
            + available_targets cluster rule [] policy targets subjects readable)))
available_filter-Budget_example =
    available_filter-Budget cluster rule [] policy targets subjects readable

keyed : IsKeyed targets
keyed = (refl, (refl, (refl, tt)))

are_targets : AreTargets targets subjects
unfolding contains lookup
are_targets k m = ground (arith, m)

available_filter-Decides_example :
    (r : FilterResult) × (available_filter cluster rule [] targets policy subjects ≡ returns r)
    × Decides subjects r
available_filter-Decides_example =
    available_filter-Decides cluster rule [] policy targets subjects keyed are_targets

-- A rule by an available policy, and one by a label check.
abbrev pub available_rule : TransitionRule
available_rule = record {
  name = rule;
  disabled = false;
  stage = some (codes "PreCheck");
  conditions = [];
  filter = none;
  definition_fields = codes "AvailablePolicy" ∷ [];
  available_policy = some policy;
  label_check = none;
  webhook = none;
}

abbrev pub label_rule : TransitionRule
label_rule = record available_rule {
  name = codes "label";
  definition_fields = codes "LabelCheck" ∷ [];
  available_policy = none;
  label_check = some (ok (λ labels. true));
}

-- The available rule is used first.
sorted : sort_rules (label_rule ∷ available_rule ∷ []) ≡ (available_rule ∷ label_rule ∷ [])
unfolding sort_rules sort_by insert_by less weight
sorted = refl
