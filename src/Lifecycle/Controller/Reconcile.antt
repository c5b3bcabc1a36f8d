-- ===== src/Lifecycle/Controller/Reconcile.antt =====
-- ReconcilePodOpsLifecycle.Reconcile: one pass over a pod.
use kuperator.Common.{
  ℕ, Bool, true, false, not, ◌&&◌, Option, none, some, List, [], ◌∷◌, if◌then◌else◌, Text, text_eq,
  join_slash, Dict, delete, has, Result, ok, err, Error, Outcome, returns, panics,
}
use kuperator.Pod.{Prefix, preparing, completing, Names, Pod, Labels, set_labels, is_pod_ready}
use kuperator.Expectations.{Store}
use kuperator.Expectations.Version.{ResourceVersionExpectationItem, satisfied_version, delete_item}
use kuperator.Lifecycle.Ids.{IdMaps, id_to_labels_map}
use kuperator.Lifecycle.Controller.{
  set_service_readiness, pre_check_stage, post_check_stage, put_all,
}
use kuperator.Lifecycle.Controller.World.{
  Api, World, CheckState, in_stage_and_passed, change, read_and_update, is_not_found,
}
use kuperator.Lifecycle.Controller.Available.{add_service_available}

unfoldable pub delete_keys : List Text → Labels → Labels
delete_keys [] labels = labels
delete_keys (k ∷ ks) labels = delete_keys ks (delete k labels)

module _ (N : Names) (A : Api) (S : Store ResourceVersionExpectationItem) (now : Text)
    (time : ℕ) where
  abbrev pub write_readiness : A.Cluster → Pod × Bool → A.Cluster × Option Error
  write_readiness cluster (pod, false) = (cluster, none)
  write_readiness cluster (pod, true) = A.update_status cluster pod

  abbrev pub readiness_attempt : Bool → A.Cluster → Result Pod → A.Cluster × Option Error
  readiness_attempt is_ready cluster (err e) = (cluster, some e)
  readiness_attempt is_ready cluster (ok pod) =
      write_readiness cluster (set_service_readiness N time pod is_ready)

  abbrev pub readiness_done : Pod → World A S × Option Error → World A S × Pod × Bool × Option Error
  readiness_done pod (w, some e) = (w, pod, false, some e)
  readiness_done pod (w, none) = (w, pod, true, none)

  abbrev pub write_if_needed : World A S → Bool → Pod × Bool → World A S × Pod × Bool × Option Error
  write_if_needed w is_ready (pod, false) = (w, pod, false, none)
  write_if_needed w is_ready (pod, true) = readiness_done pod (
      change A S time pod
        (λ cluster. readiness_attempt is_ready cluster (A.get_pod cluster pod.namespace pod.name))
        w)

  -- The pod that is given changes in place.
  unfoldable pub update_service_readiness :
      World A S → Pod → Bool → World A S × Pod × Bool × Option Error
  update_service_readiness w pod is_ready =
      write_if_needed w is_ready (set_service_readiness N time pod is_ready)

  unfoldable pub add_labels : World A S → Pod → Labels → World A S × Option Error
  add_labels w pod [] = (w, none)
  add_labels w pod (l ∷ ls) =
      change A S time pod (read_and_update A S pod (λ p. set_labels p (put_all (l ∷ ls) p.labels)))
        w

  unfoldable pub remove_labels : World A S → Pod → List Text → World A S × Option Error
  remove_labels w pod [] = (w, none)
  remove_labels w pod (k ∷ ks) =
      change A S time pod
        (read_and_update A S pod (λ p. set_labels p (delete_keys (k ∷ ks) p.labels))) w

  -- The loop over the operations in a phase. The flag says whether one was in it.
  unfoldable pub phase_operations :
      Prefix → Bool → Dict Labels → World A S → Pod → Bool → World A S × Pod × Bool × Option Error
  phase_operations p is_ready [] w pod kept = (w, pod, kept, none)
  phase_operations p is_ready ((id, m) ∷ rest) w pod kept =
      let (w', pod', updated, e) = update_service_readiness w pod is_ready in
      let rest_here = phase_operations p is_ready rest w pod kept in
      let rest_after = phase_operations p is_ready rest w' pod' true in
      if has (N.prefix p) m
      then elim e [ some x ↦ (w', pod', kept, some x) | none ↦ rest_after ]
      else rest_here

  -- Preparing goes before completing.
  unfoldable pub phase_loop :
      List (Prefix × Bool) → Dict Labels → World A S → Pod → World A S × Pod × Option Error
  phase_loop [] ids w pod = (w, pod, none)
  phase_loop ((p, is_ready) ∷ ps) ids w pod =
      let (w', pod', kept, e) = phase_operations p is_ready ids w pod false in
      let next = phase_loop ps ids w' pod' in
      elim e [ some x ↦ (w', pod', some x) | none ↦ if kept then (w', pod', none) else next ]

  abbrev pub ordered_phases : List (Prefix × Bool)
  ordered_phases = (preparing, false) ∷ (completing, true) ∷ []

  abbrev pub remove_if_unready : World A S × Pod × Option Error → World A S × Option Error
  remove_if_unready (w, pod, some e) = (w, some e)
  remove_if_unready (w, pod, none) =
      if is_pod_ready N pod then (w, none) else remove_labels w pod (N.service_available ∷ [])

  -- The labels of the stage that the pod is in and has passed.
  unfoldable pub stage_labels : Pod → Dict Labels → CheckState → Labels
  stage_labels pod ids state =
      if in_stage_and_passed state
      then (if text_eq state.stage N.pre_check_stage
          then pre_check_stage N now pod.labels ids
          else if text_eq state.stage N.post_check_stage
          then post_check_stage N now pod.labels ids
          else [])
      else []

  abbrev pub after_labels : World A S → Pod → Dict Labels → Labels → World A S × Option Error
  after_labels w pod ids [] = remove_if_unready (phase_loop ordered_phases ids w pod)
  after_labels w pod ids (l ∷ ls) = add_labels w pod (l ∷ ls)

  abbrev pub after_state :
      World A S → Pod → Dict Labels → Result CheckState → World A S × Option Error
  after_state w pod ids (err e) = (w, some e)
  after_state w pod ids (ok state) = after_labels w pod ids (stage_labels pod ids state)

  -- From the stages on.
  unfoldable pub reconcile_stages : World A S → Pod → Dict Labels → World A S × Option Error
  reconcile_stages w pod ids = after_state w pod ids (A.get_state w.cluster pod)

  abbrev or_stages : Dict Labels → World A S × Pod × Bool × Option Error → World A S × Option Error
  or_stages ids (w, pod, updated, some e) = (w, some e)
  or_stages ids (w, pod, true, none) = (w, none)
  or_stages ids (w, pod, false, none) = reconcile_stages w pod ids

  abbrev or_readiness :
      Dict Labels → World A S × Pod × Bool × Option Error → World A S × Option Error
  or_readiness ids (w, pod, updated, some e) = (w, some e)
  or_readiness ids (w, pod, true, none) = (w, none)
  or_readiness ids (w, pod, false, none) = or_stages ids (update_service_readiness w pod true)

  abbrev pub no_operations : Dict Labels → Bool
  no_operations [] = true
  no_operations (e ∷ es) = false

  abbrev pub with_operations : World A S → Pod → Result IdMaps → World A S × Option Error
  with_operations w pod (err e) = (w, some e)
  with_operations w pod (ok (ids, nums)) =
      if no_operations ids && not (has N.stay_offline pod.labels)
      then or_readiness ids (add_service_available N A S now time w pod)
      else reconcile_stages w pod ids

  abbrev pub if_satisfied : World A S → Pod → Outcome Bool → Outcome (World A S × Option Error)
  if_satisfied w pod panics = panics
  if_satisfied w pod (returns false) = returns (w, none)
  if_satisfied w pod (returns true) =
      if pod.is_deleting
      then returns (w, none)
      else returns (with_operations w pod (id_to_labels_map N pod.labels))

  abbrev pub if_found : Text → World A S → Result Pod → Outcome (World A S × Option Error)
  if_found k w (err e) =
      if is_not_found e
      then returns (record w { expectation = delete_item S w.expectation k }, none)
      else returns (w, some e)
  if_found k w (ok pod) =
      if_satisfied w pod (satisfied_version S time w.expectation k pod.resource_version)

  unfoldable pub reconcile : Text → Text → World A S → Outcome (World A S × Option Error)
  reconcile namespace name w =
      if_found (join_slash namespace name) w (A.get_pod w.cluster namespace name)
