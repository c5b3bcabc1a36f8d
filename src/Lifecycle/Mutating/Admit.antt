-- ===== src/Lifecycle/Mutating/Admit.antt =====
-- Mutating, for a pod whose operation may not get the operate label.
use kuperator.Common.{
  arith, none, Bool-cases, inl, inr, ◌≡◌, refl, subst, false, ◌&&◌, Text, lookup, has, Result, ok,
  err,
}
use kuperator.Pod.{
  operating, pre_checked, operate, Names, IsNames, key, Labels, Pod, set_labels,
  controlled_by_kusion_stack, get_protection_finalizers,
}
use kuperator.Lifecycle.Ids.{IdMaps, id_to_labels_map}
use kuperator.Lifecycle.Ids.Snapshot.{id_to_labels_map-AllSnapshots}
use kuperator.Lifecycle.Mutating.{
  OpsLifecycle, Operation, is_create, default_ready_to_operate, new_ops_lifecycle, mutate_labels,
  with_maps, gated, mutating,
}
use kuperator.Lifecycle.Mutating.Frame.{Absent}
use kuperator.Lifecycle.Mutating.Operate.{mutate_labels-Absent}

module _ (N : Names) (names : IsNames N) (now id : Text) where
  abbrev lc : OpsLifecycle
  lc = new_ops_lifecycle N now

  steady :
      (pod : Pod) (labels : Labels)
      → default_ready_to_operate N (set_labels pod labels) ≡ default_ready_to_operate N pod
  unfolding default_ready_to_operate get_protection_finalizers
  steady pod labels = refl

  abbrev Waiting : Pod → Type 0
  Waiting pod =
      (default_ready_to_operate N pod
        && has (key N operating id) pod.labels
        && has (key N pre_checked id) pod.labels)
      ≡ false

  of_labels :
      (pod pod' : Pod) (r : Result Labels)
      → ((labels : Labels) → r ≡ ok labels → Absent (key N operate id) labels)
      → (elim r [ err x ↦ err x | ok labels ↦ ok (set_labels pod labels) ]) ≡ ok pod'
      → Absent (key N operate id) pod'.labels
  of_labels pod pod' (err x) h e = absurd (ground arith)
  of_labels pod pod' (ok labels) h e =
      let same : set_labels pod labels ≡ pod' = cc in
      subst (λ q. Absent (key N operate id) q.labels) same (h labels refl)

  with_maps-Absent :
      (old : Labels) (pod pod' : Pod) (maps : Result IdMaps)
      → id_to_labels_map N pod.labels ≡ maps
      → Waiting pod
      → Absent (key N operate id) pod.labels
      → with_maps N lc old pod maps ≡ ok pod'
      → Absent (key N operate id) pod'.labels
  with_maps-Absent old pod pod' (err x) maps w h e = absurd (ground arith)
  with_maps-Absent old pod pod' (ok (ids, nums)) maps w h e =
      of_labels pod pod' (mutate_labels N lc old pod (ids, nums))
        (λ labels r.
          mutate_labels-Absent N names lc id pod (default_ready_to_operate N pod) (steady pod) old
            ids nums labels w (id_to_labels_map-AllSnapshots N pod.labels (ids, nums) maps) h r)
        e

  steady_gated :
      (pod : Pod) (operation : Operation) → Waiting pod → Waiting (gated N lc operation pod)
  unfolding default_ready_to_operate get_protection_finalizers
  steady_gated pod is_create w = w
  steady_gated pod _ w = w

  admitted :
      (old : Labels) (pod pod' : Pod) (operation : Operation)
      → Waiting pod
      → Absent (key N operate id) pod.labels
      → with_maps N lc old (gated N lc operation pod) (id_to_labels_map N pod.labels) ≡ ok pod'
      → Absent (key N operate id) pod'.labels
  admitted old pod pod' is_create w h e =
      with_maps-Absent old (gated N lc is_create pod) pod' (id_to_labels_map N pod.labels) refl
        (steady_gated pod is_create w) h e
  admitted old pod pod' _ w h e =
      with_maps-Absent old pod pod' (id_to_labels_map N pod.labels) refl w h e

  -- The webhook does not let an operation start unless its labels say that it is operating and
  -- pre-checked and the pod is ready to operate: without one of the three, a pod that had no
  -- operate label for the operation has none after its admission, whatever the request and the
  -- other operations on the pod are.
  pub mutating_operate :
      (old : Labels) (pod pod' : Pod) (operation : Operation)
      → (default_ready_to_operate N pod
          && has (key N operating id) pod.labels
          && has (key N pre_checked id) pod.labels)
        ≡ false
      → lookup (key N operate id) pod.labels ≡ none
      → mutating N lc old pod operation ≡ ok pod'
      → lookup (key N operate id) pod'.labels ≡ none
  unfolding mutating
  mutating_operate old pod pod' operation w h e =
      elim (Bool-cases (controlled_by_kusion_stack N pod)) [
        | inl on ↦ admitted old pod pod' operation w h (rw on at e)
        | inr off ↦
            let same : pod ≡ pod' = cc (rw off at e) in
            subst (λ q. lookup (key N operate id) q.labels ≡ none) same h
      ]
