-- ===== src/Lifecycle/Mutating/Liveness.antt =====
-- Mutating, for a pod whose operation may start: the whole webhook.
use kuperator.Common.{ℕ, ◌≡◌, true, false, ◌&&◌, Text, text_eq, Dict, has, Result, ok, arith}
use kuperator.Pod.{
  operating, pre_checked, operate, undo_operation_type, Names, IsNames, key, Labels, Pod,
  set_labels, controlled_by_kusion_stack, get_protection_finalizers,
}
use kuperator.Lifecycle.Ids.{IdMaps, id_to_labels_map}
use kuperator.Lifecycle.Ids.Snapshot.{known_in, AllSnapshots, id_to_labels_map-AllSnapshots}
use kuperator.Lifecycle.Mutating.{
  OpsLifecycle, Operation, is_create, mutate_labels, with_maps, gated, mutating,
  default_ready_to_operate, new_ops_lifecycle,
}
use kuperator.Lifecycle.Mutating.Started.{AllSnapshots-May, mutate_labels-Starts}

module _ (N : Names) (names : IsNames N) (now id : Text) where
  abbrev lc : OpsLifecycle
  lc = new_ops_lifecycle N now

  abbrev Started : Labels → Pod → Result IdMaps → Type 0
  Started old pod maps =
      (pod' : Pod) × (with_maps N lc old pod maps ≡ ok pod')
      × (has (key N operate id) pod'.labels ≡ true)

  steady_true :
      (pod : Pod) (labels : Labels)
      → default_ready_to_operate N pod ≡ true
      → default_ready_to_operate N (set_labels pod labels) ≡ true
  unfolding default_ready_to_operate get_protection_finalizers
  steady_true pod labels h = h

  steady_gated :
      (pod : Pod) (operation : Operation)
      → default_ready_to_operate N pod ≡ true
      → default_ready_to_operate N (gated N lc operation pod) ≡ true
  unfolding default_ready_to_operate get_protection_finalizers
  steady_gated pod is_create h = h
  steady_gated pod _ h = h

  with_maps_ok :
      (old : Labels) (pod : Pod) (ids : Dict Labels) (nums : Dict ℕ) (labels : Labels)
      → mutate_labels N lc old pod (ids, nums) ≡ ok labels
      → with_maps N lc old pod (ok (ids, nums)) ≡ ok (set_labels pod labels)
  with_maps_ok old pod ids nums labels e = ground (arith, e)

  module _ (available_ne : text_eq N.service_available (key N operate id) ≡ false)
      (known : (known_in N N.well_known operating && known_in N N.well_known pre_checked)
        ≡ true) where
    with_maps_starts :
        (old : Labels) (pod : Pod) (ids : Dict Labels) (nums : Dict ℕ)
        → default_ready_to_operate N pod ≡ true
        → AllSnapshots N pod.labels ids
        → has id ids ≡ true
        → has (key N operating id) pod.labels ≡ true
        → has (key N pre_checked id) pod.labels ≡ true
        → has (key N undo_operation_type id) pod.labels ≡ false
        → Started old pod (ok (ids, nums))
    with_maps_starts old pod ids nums ready all on operating_on checked alive =
        let steady : (labels : Labels) → default_ready_to_operate N (set_labels pod labels) ≡ true =
          λ labels. steady_true pod labels ready in
        let may =
          AllSnapshots-May N names lc id available_ne pod steady ids all known operating_on checked
            alive in
        let (labels, e, marked) =
          mutate_labels-Starts N names lc id available_ne pod steady old ids nums all may on in
        (set_labels pod labels, with_maps_ok old pod ids nums labels e, marked)

    -- When a pod that KusionStack controls is admitted, IDToLabelsMap can read its labels, an
    -- operation on it is operating, pre-checked and not undone, and the pod is ready to operate, the
    -- admission succeeds and leaves the operation with its operate label, whatever the request and
    -- the other operations are. (The two prefixes have to be well known, and the label for an
    -- available service no operate label.)
    pub mutating_starts :
        (old : Labels) (pod : Pod) (operation : Operation) (ids : Dict Labels) (nums : Dict ℕ)
        → controlled_by_kusion_stack N pod ≡ true
        → id_to_labels_map N pod.labels ≡ ok (ids, nums)
        → has id ids ≡ true
        → default_ready_to_operate N pod ≡ true
        → has (key N operating id) pod.labels ≡ true
        → has (key N pre_checked id) pod.labels ≡ true
        → has (key N undo_operation_type id) pod.labels ≡ false
        → (pod' : Pod) × (mutating N lc old pod operation ≡ ok pod')
          × (has (key N operate id) pod'.labels ≡ true)
    unfolding mutating
    mutating_starts old pod is_create ids nums c maps on ready operating_on checked alive =
        let all = id_to_labels_map-AllSnapshots N pod.labels (ids, nums) maps in
        rw (c, maps)
          (with_maps_starts old (gated N lc is_create pod) ids nums
            (steady_gated pod is_create ready) all on operating_on checked alive)
    mutating_starts old pod _ ids nums c maps on ready operating_on checked alive =
        let all = id_to_labels_map-AllSnapshots N pod.labels (ids, nums) maps in
        rw (c, maps) (with_maps_starts old pod ids nums ready all on operating_on checked alive)
