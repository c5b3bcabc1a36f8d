-- ===== src/Lifecycle/Controller/Safety.antt =====
-- Reconcile on a pod that has operations or has to stay offline.
use kuperator.Common.{
  ℕ, ◌≡◌, subst, Bool, true, false, not, ◌&&◌, Option, none, some, List, [], ◌∷◌, if◌then◌else◌,
  Text, text_eq, join_slash, Dict, has, Result, ok, err, Error, Outcome, returns, panics,
  Bool-cases, inl, inr,
}
use kuperator.Pod.{Prefix, Names, Pod, Labels, key, is_pod_ready}
use kuperator.Expectations.{Store}
use kuperator.Expectations.Version.{ResourceVersionExpectationItem, satisfied_version}
use kuperator.Lifecycle.Ids.{id_to_labels_map}
use kuperator.Lifecycle.Controller.{pre_check_stage, post_check_stage, set_service_readiness}
use kuperator.Lifecycle.Controller.World.{Api, World, CheckState, in_stage_and_passed}
use kuperator.Lifecycle.Controller.Reconcile.{
  update_service_readiness, phase_operations, phase_loop, ordered_phases, remove_if_unready,
  stage_labels, after_labels, after_state, reconcile_stages, with_operations, no_operations,
  if_satisfied, reconcile,
}
use kuperator.Lifecycle.Controller.Unavailable.{
  Without, pre_check_all-Without, post_check_all-Without,
}
use kuperator.Lifecycle.Controller.Guarded.{
  IsGuard, write_if_needed-Safe, add_labels-Safe, remove_labels-Safe,
}

module _ (N : Names) (A : Api) (S : Store ResourceVersionExpectationItem)
    (Safe : A.Cluster → Type 0) (guard : IsGuard N A Safe)
    (ne : (p : Prefix) (id : Text) → text_eq (key N p id) N.service_available ≡ false) (now : Text)
    (time : ℕ) where
  update_service_readiness-Safe :
      (w : World A S) (pod : Pod) (is_ready : Bool)
      → Safe w.cluster
      → Safe (update_service_readiness N A S now time w pod is_ready).0.cluster
  unfolding update_service_readiness
  update_service_readiness-Safe w pod is_ready h =
      write_if_needed-Safe N A S Safe guard now time w is_ready
        (set_service_readiness N time pod is_ready) h

  phase_operations-Safe :
      (p : Prefix) (is_ready : Bool) (ids : Dict Labels) (w : World A S) (pod : Pod)
      (was_kept : Bool)
      → Safe w.cluster
      → Safe (phase_operations N A S now time p is_ready ids w pod was_kept).0.cluster
  unfolding phase_operations
  phase_operations-Safe p is_ready [] w pod was_kept h = h
  phase_operations-Safe p is_ready ((id, m) ∷ rest) w pod was_kept h =
      let r = update_service_readiness N A S now time w pod is_ready in
      let safe = update_service_readiness-Safe w pod is_ready h in
      let next = phase_operations-Safe p is_ready rest r.0 r.1 true safe in
      elim (Bool-cases (has (N.prefix p) m)) [
        | inl on ↦ rw on (of_error r.3 safe next)
        | inr off ↦ rw off (phase_operations-Safe p is_ready rest w pod was_kept h)
      ]
    where
      of_error :
          (o : Option Error)
          → Safe (update_service_readiness N A S now time w pod is_ready).0.cluster
          → Safe
              (phase_operations N A S now time p is_ready rest
                (update_service_readiness N A S now time w pod is_ready).0
                (update_service_readiness N A S now time w pod is_ready).1
                true).0.cluster
          → let r = update_service_readiness N A S now time w pod is_ready in
            Safe
              (elim o as (λ _. World A S × Pod × Bool × Option Error) [
                | some x ↦ (r.0, r.1, was_kept, some x)
                | none ↦ phase_operations N A S now time p is_ready rest r.0 r.1 true
              ]).0.cluster
      of_error none safe next = next
      of_error (some x) safe next = safe

  phase_loop-Safe :
      (ps : List (Prefix × Bool)) (ids : Dict Labels) (w : World A S) (pod : Pod)
      → Safe w.cluster
      → Safe (phase_loop N A S now time ps ids w pod).0.cluster
  unfolding phase_loop
  phase_loop-Safe [] ids w pod h = h
  phase_loop-Safe ((p, is_ready) ∷ ps) ids w pod h =
      let r = phase_operations N A S now time p is_ready ids w pod false in
      let safe = phase_operations-Safe p is_ready ids w pod false h in
      of_kept r.3 safe (phase_loop-Safe ps ids r.0 r.1 safe)
    where
      of_kept :
          (o : Option Error)
          → Safe (phase_operations N A S now time p is_ready ids w pod false).0.cluster
          → let r = phase_operations N A S now time p is_ready ids w pod false in
            Safe (phase_loop N A S now time ps ids r.0 r.1).0.cluster
            → Safe
                (elim o as (λ _. World A S × Pod × Option Error) [
                  | some x ↦ (r.0, r.1, some x)
                  | none ↦
                      if r.2 then (r.0, r.1, none) else phase_loop N A S now time ps ids r.0 r.1
                ]).0.cluster
      of_kept none safe next =
          elim (Bool-cases (phase_operations N A S now time p is_ready ids w pod false).2) [
            | inl on ↦ rw on safe
            | inr off ↦ rw off next
          ]
      of_kept (some x) safe next = safe

  stage_labels-Without :
      (pod : Pod) (ids : Dict Labels) (state : CheckState)
      → Without N.service_available (stage_labels N A S now time pod ids state)
  unfolding stage_labels pre_check_stage post_check_stage
  stage_labels-Without pod ids state =
      let pre = pre_check_all-Without N ne now pod.labels ids [] tt in
      let post = post_check_all-Without N ne now pod.labels ids [] tt in
      elim (Bool-cases (in_stage_and_passed state)) [
        | inr off ↦ rw off tt
        | inl on ↦ elim (Bool-cases (text_eq state.stage N.pre_check_stage)) [
          | inl before ↦ rw (on, before) pre
          | inr other ↦ elim (Bool-cases (text_eq state.stage N.post_check_stage)) [
            | inl after ↦ rw (on, other, after) post
            | inr neither ↦ rw (on, other, neither) tt
          ]
        ]
      ]

  remove_if_unready-Safe :
      (r : World A S × Pod × Option Error)
      → Safe r.0.cluster
      → Safe (remove_if_unready N A S now time r).0.cluster
  remove_if_unready-Safe (w, pod, some e) h = h
  remove_if_unready-Safe (w, pod, none) h = elim (Bool-cases (is_pod_ready N pod)) [
    | inl ready ↦ rw ready h
    | inr unready ↦
        rw unready (remove_labels-Safe N A S Safe guard now time w pod (N.service_available ∷ []) h)
  ]

  after_labels-Safe :
      (w : World A S) (pod : Pod) (ids : Dict Labels) (labels : Labels)
      → Without N.service_available labels
      → Safe w.cluster
      → Safe (after_labels N A S now time w pod ids labels).0.cluster
  after_labels-Safe w pod ids [] without h =
      remove_if_unready-Safe (phase_loop N A S now time (ordered_phases N A S now time) ids w pod)
        (phase_loop-Safe (ordered_phases N A S now time) ids w pod h)
  after_labels-Safe w pod ids (l ∷ ls) without h =
      add_labels-Safe N A S Safe guard now time w pod (l ∷ ls) without h

  after_state-Safe :
      (w : World A S) (pod : Pod) (ids : Dict Labels) (r : Result CheckState)
      → Safe w.cluster
      → Safe (after_state N A S now time w pod ids r).0.cluster
  after_state-Safe w pod ids (err e) h = h
  after_state-Safe w pod ids (ok state) h =
      after_labels-Safe w pod ids (stage_labels N A S now time pod ids state)
        (stage_labels-Without pod ids state) h

  with_operations-Safe :
      (w : World A S) (pod : Pod) (ids : Dict Labels) (nums : Dict ℕ)
      → (no_operations N A S now time ids && not (has N.stay_offline pod.labels)) ≡ false
      → Safe w.cluster
      → Safe (with_operations N A S now time w pod (ok (ids, nums))).0.cluster
  unfolding reconcile_stages
  with_operations-Safe w pod ids nums busy h =
      rw busy (after_state-Safe w pod ids (A.get_state w.cluster pod) h)

  -- The world after a pass that does not panic.
  abbrev Holds : Outcome (World A S × Option Error) → Type 0
  Holds panics = Unit {0}
  Holds (returns r) = Safe r.0.cluster

  choose-Holds :
      (b : Bool) (x y : World A S × Option Error)
      → Safe x.0.cluster
      → Safe y.0.cluster
      → Holds (if b then returns x else returns y)
  choose-Holds true x y h k = h
  choose-Holds false x y h k = k

  if_satisfied-Holds :
      (w : World A S) (pod : Pod) (r : Outcome Bool)
      → Safe (with_operations N A S now time w pod (id_to_labels_map N pod.labels)).0.cluster
      → Safe w.cluster
      → Holds (if_satisfied N A S now time w pod r)
  if_satisfied-Holds w pod panics busy h = tt
  if_satisfied-Holds w pod (returns false) busy h = h
  if_satisfied-Holds w pod (returns true) busy h =
      choose-Holds pod.is_deleting (w, none)
        (with_operations N A S now time w pod (id_to_labels_map N pod.labels)) h busy

  -- If no pod of the cluster is available for service, none is after a pass over a pod that has
  -- operations or has to stay offline: neither the labels of a passed stage, nor the readiness gate,
  -- nor an error or a retry makes one available. (No label of an operation is the one for an
  -- available service.)
  pub reconcile-Safe :
      (namespace name : Text) (w w' : World A S) (pod : Pod) (ids : Dict Labels) (nums : Dict ℕ)
      (error : Option Error)
      → A.get_pod w.cluster namespace name ≡ ok pod
      → id_to_labels_map N pod.labels ≡ ok (ids, nums)
      → (no_operations N A S now time ids && not (has N.stay_offline pod.labels)) ≡ false
      → Safe w.cluster
      → reconcile N A S now time namespace name w ≡ returns (w', error)
      → Safe w'.cluster
  unfolding reconcile
  reconcile-Safe namespace name w w' pod ids nums error found maps busy h e =
      let verdict =
        satisfied_version S time w.expectation (join_slash namespace name) pod.resource_version in
      let safe : Safe
          (with_operations N A S now time w pod (id_to_labels_map N pod.labels)).0.cluster =
        rw maps (with_operations-Safe w pod ids nums busy h) in
      subst Holds (rw found at e) (if_satisfied-Holds w pod verdict safe h)
