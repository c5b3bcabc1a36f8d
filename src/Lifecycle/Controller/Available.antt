-- ===== src/Lifecycle/Controller/Available.antt =====
-- addServiceAvailable and removeDirtyExpectedFinalizer: when a pod is made available for service.
use kuperator.Common.{
  ℕ, ◌≡◌, refl, inl, inr, Bool, true, false, not, Option, none, some, List, [], ◌∷◌, arith,
  if◌then◌else◌, Text, codes, text_eq, split_slash, Dict, insert, delete, has, Result, ok, err,
  Error, Bool-cases,
}
use kuperator.Pod.{Names, Pod, Labels, set_labels, is_expected_finalizer_satisfied, is_pod_ready}
use kuperator.Expectations.{Store}
use kuperator.Expectations.Version.{ResourceVersionExpectationItem}
use kuperator.Lifecycle.Controller.World.{Api, World, change, read_and_update, is_not_found}

abbrev pub set_expected : Pod → Dict Text → Pod
set_expected pod expected = record pod { expected_finalizers = ok (some expected) }

unfoldable pub delete_keys : Dict Text → Dict Text → Dict Text
delete_keys [] expected = expected
delete_keys ((k, f) ∷ rest) expected = delete_keys rest (delete k expected)

module _ (A : Api) where
  abbrev stale : Pod → Result Labels → Result Bool
  stale pod (err e) = if is_not_found e then ok true else err e
  stale pod (ok selector) = ok (not (A.selects selector pod.labels))

  -- A key is `Kind/namespace/name`, and only services are looked up.
  abbrev dirty_key : A.Cluster → Pod → Text × List Text → Result Bool
  dirty_key cluster pod (kind, namespace ∷ name ∷ []) =
      if text_eq kind (codes "Service")
      then stale pod (A.get_selector cluster namespace name)
      else ok false
  dirty_key cluster pod _ = ok false

  unfoldable pub is_available_condition_dirty : A.Cluster → Pod → Text → Result Bool
  is_available_condition_dirty cluster pod k = dirty_key cluster pod (split_slash k)

  -- A finalizer that is not dirty ends the loop.
  abbrev pub on_key :
      Dict Text → Result (Bool × Dict Text) → Result Bool → Result (Bool × Dict Text)
  on_key dirty rest (err e) = err e
  on_key dirty rest (ok false) = ok (false, dirty)
  on_key dirty rest (ok true) = rest

  -- The loop over the unsatisfied finalizers: allDirty, and those that are dirty.
  unfoldable pub dirty_loop :
      A.Cluster → Pod → Dict Text → Bool → Dict Text → Result (Bool × Dict Text)
  dirty_loop cluster pod [] all_dirty dirty = ok (all_dirty, dirty)
  dirty_loop cluster pod ((k, f) ∷ rest) all_dirty dirty =
      let rest_loop = dirty_loop cluster pod rest all_dirty (insert k f dirty) in
      on_key dirty rest_loop (is_available_condition_dirty cluster pod k)

  -- The cluster and the pod, allDirty and an error.
  abbrev pub Removal : Type 0
  Removal = A.Cluster × Pod × Bool × Option Error

  abbrev flagged : Bool → A.Cluster × Pod × Option Error → Removal
  flagged all_dirty (cluster, pod, none) = (cluster, pod, all_dirty, none)
  flagged all_dirty (cluster, pod, some e) = (cluster, pod, all_dirty, some e)

  unfoldable pub update_available_conditions :
      A.Cluster → Pod → Dict Text → A.Cluster × Pod × Option Error
  update_available_conditions cluster pod expected = A.update cluster (set_expected pod expected)

  -- The unsatisfied finalizers come from the annotation, so it is there.
  abbrev remove_from : A.Cluster → Pod → Bool → Dict Text → Result (Option (Dict Text)) → Removal
  remove_from cluster pod all_dirty dirty (err e) = (cluster, pod, all_dirty, some e)
  remove_from cluster pod all_dirty dirty (ok none) = (cluster, pod, all_dirty, none)
  remove_from cluster pod all_dirty dirty (ok (some expected)) =
      flagged all_dirty (update_available_conditions cluster pod (delete_keys dirty expected))

  abbrev pub remove_dirty : A.Cluster → Pod → Result (Bool × Dict Text) → Removal
  remove_dirty cluster pod (err e) = (cluster, pod, false, some e)
  remove_dirty cluster pod (ok (all_dirty, [])) = (cluster, pod, all_dirty, none)
  remove_dirty cluster pod (ok (all_dirty, d ∷ ds)) =
      remove_from cluster pod all_dirty (d ∷ ds) pod.expected_finalizers

  unfoldable pub remove_dirty_expected_finalizer : A.Cluster → Pod → Dict Text → Removal
  remove_dirty_expected_finalizer cluster pod unmet =
      remove_dirty cluster pod (dirty_loop cluster pod unmet false [])

module _ (N : Names) (A : Api) (S : Store ResourceVersionExpectationItem) (now : Text)
    (time : ℕ) where
  abbrev pub available_labels : Pod → Pod
  available_labels pod =
      set_labels pod
        (delete N.completing_label (delete N.creating (insert N.service_available now pod.labels)))

  -- The world and the pod, whether the pod was updated, and an error.
  abbrev pub Update : Type 0
  Update = World A S × Pod × Bool × Option Error

  abbrev updated : Pod → World A S × Option Error → Update
  updated pod (w, e) = (w, pod, true, e)

  abbrev pub mark_available : World A S → Pod → Update
  mark_available w pod =
      if is_pod_ready N pod
      then updated pod (change A S time pod (read_and_update A S pod available_labels) w)
      else (w, pod, false, none)

  abbrev pub after_removal : World A S → Removal A → Update
  after_removal w (cluster, pod, all_dirty, some e) =
      (record w { cluster = cluster }, pod, false, some e)
  after_removal w (cluster, pod, all_dirty, none) =
      if all_dirty
      then mark_available (record w { cluster = cluster }) pod
      else (record w { cluster = cluster }, pod, false, none)

  abbrev pub check_finalizers : World A S → Pod → Result (Bool × Dict Text) → Update
  check_finalizers w pod (err e) = (w, pod, false, some e)
  check_finalizers w pod (ok (true, unmet)) = mark_available w pod
  check_finalizers w pod (ok (false, unmet)) =
      after_removal w (remove_dirty_expected_finalizer A w.cluster pod unmet)

  unfoldable pub add_service_available : World A S → Pod → Update
  add_service_available w pod =
      if has N.service_available pod.labels
      then (w, pod, false, none)
      else check_finalizers w pod (is_expected_finalizer_satisfied pod)

  all_dirty_False :
      (cluster : A.Cluster) (pod : Pod) (unmet dirty found : Dict Text) (all_dirty : Bool)
      → dirty_loop A cluster pod unmet false dirty ≡ ok (all_dirty, found)
      → all_dirty ≡ false
  unfolding dirty_loop
  all_dirty_False cluster pod [] dirty found all_dirty e = ground (arith, e)
  all_dirty_False cluster pod ((k, f) ∷ rest) dirty found all_dirty e =
      of_key (is_available_condition_dirty A cluster pod k)
        (all_dirty_False cluster pod rest (insert k f dirty) found all_dirty) e
    where
      of_key :
          (r : Result Bool)
          → (dirty_loop A cluster pod rest false (insert k f dirty) ≡ ok (all_dirty, found)
              → all_dirty ≡ false)
          → on_key A dirty (dirty_loop A cluster pod rest false (insert k f dirty)) r
            ≡ ok (all_dirty, found)
          → all_dirty ≡ false
      of_key (err x) ih h = absurd (ground arith)
      of_key (ok false) ih h = ground (arith, h)
      of_key (ok true) ih h = ih h

  remove_dirty-False :
      (cluster : A.Cluster) (pod : Pod) (r : Result (Bool × Dict Text))
      → ((all_dirty : Bool) (found : Dict Text) → r ≡ ok (all_dirty, found) → all_dirty ≡ false)
      → (remove_dirty A cluster pod r).2 ≡ false
  unfolding update_available_conditions
  remove_dirty-False cluster pod (err e) h = refl
  remove_dirty-False cluster pod (ok (all_dirty, [])) h = h all_dirty [] refl
  remove_dirty-False cluster pod (ok (all_dirty, d ∷ ds)) h =
      ground (arith, h all_dirty (d ∷ ds) refl)

  after_removal-False :
      (w : World A S) (r : Removal A) → r.2 ≡ false → (after_removal w r).2 ≡ false
  after_removal-False w (cluster, pod, all_dirty, some e) h = refl
  after_removal-False w (cluster, pod, all_dirty, none) h = rw h refl

  mark_available-Ready :
      (w : World A S) (pod : Pod) → (mark_available w pod).2 ≡ true → is_pod_ready N pod ≡ true
  mark_available-Ready w pod h = elim (Bool-cases (is_pod_ready N pod)) [
    | inl ready ↦ ready
    | inr not_ready ↦ absurd (ground (arith, rw not_ready at h))
  ]

  check_finalizers-Available :
      (w : World A S) (pod : Pod) (r : Result (Bool × Dict Text))
      → (check_finalizers w pod r).2 ≡ true
      → (is_pod_ready N pod ≡ true) × ((unmet : Dict Text) × (r ≡ ok (true, unmet)))
  unfolding remove_dirty_expected_finalizer
  check_finalizers-Available w pod (err e) h = absurd (ground arith)
  check_finalizers-Available w pod (ok (true, unmet)) h =
      (mark_available-Ready w pod h, (unmet, refl))
  check_finalizers-Available w pod (ok (false, unmet)) h =
      let loop = dirty_loop A w.cluster pod unmet false [] in
      let never = after_removal-False w (remove_dirty A w.cluster pod loop) (
        remove_dirty-False w.cluster pod loop
          (λ all_dirty found e. all_dirty_False w.cluster pod unmet [] found all_dirty e)) in
      absurd (ground (arith, h, never))

  -- addServiceAvailable makes a pod available for service only if it is not, it is ready, and it
  -- has every expected finalizer: whatever the cluster answers, dirty finalizers included.
  pub add_service_available-Available :
      (w : World A S) (pod : Pod)
      → (add_service_available w pod).2 ≡ true
      → (has N.service_available pod.labels ≡ false)
        × (is_pod_ready N pod ≡ true)
        × ((unmet : Dict Text) × (is_expected_finalizer_satisfied pod ≡ ok (true, unmet)))
  unfolding add_service_available
  add_service_available-Available w pod h = elim (Bool-cases (has N.service_available pod.labels)) [
    | inl on ↦ absurd (ground (arith, rw on at h))
    | inr off ↦
        let (ready, met) =
          check_finalizers-Available w pod (is_expected_finalizer_satisfied pod) (rw off at h) in
        (off, ready, met)
  ]
