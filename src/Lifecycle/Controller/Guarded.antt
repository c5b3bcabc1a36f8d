-- ===== src/Lifecycle/Controller/Guarded.antt =====
-- A pass of the controller over a cluster in which no pod is available for service.
use kuperator.Common.{
  ℕ, ◌≡◌, refl, Bool, true, false, Option, none, some, List, [], ◌∷◌, arith, Text, has, Result, ok,
  err, Error,
}
use kuperator.Pod.{Names, Pod, Labels, Condition, set_labels}
use kuperator.Expectations.{Store}
use kuperator.Expectations.Version.{ResourceVersionExpectationItem}
use kuperator.Lifecycle.Controller.{
  last_index, condition_at, set_gate, update_condition, set_service_readiness, put_all,
}
use kuperator.Lifecycle.Controller.World.{Api, World, change, settle, read_and_update, update_read}
use kuperator.Lifecycle.Controller.Reconcile.{
  delete_keys, readiness_attempt, write_readiness, write_if_needed, readiness_done, add_labels,
  remove_labels,
}
use kuperator.Lifecycle.Controller.Unavailable.{Without, put_all-has, delete_keys-has}

-- `Safe` says that no pod of the cluster is available: what is read is not, and writing a pod that
-- is not keeps it so. A retried function is applied to the cluster some number of times.
pub record IsGuard (N : Names) (A : Api) (Safe : A.Cluster → Type 0) : Type 0 where
  pub read :
      (c : A.Cluster) (namespace name : Text) (pod : Pod)
      → Safe c
      → A.get_pod c namespace name ≡ ok pod
      → has N.service_available pod.labels ≡ false
  pub write :
      (c : A.Cluster) (pod : Pod)
      → Safe c
      → has N.service_available pod.labels ≡ false
      → Safe (A.update c pod).0
  pub write_status :
      (c : A.Cluster) (pod : Pod)
      → Safe c
      → has N.service_available pod.labels ≡ false
      → Safe (A.update_status c pod).0
  pub retry :
      (f : A.Cluster → A.Cluster × Option Error) (c : A.Cluster)
      → ((d : A.Cluster) → Safe d → Safe (f d).0)
      → Safe c
      → Safe (A.retry_on_conflict f c).0

update_condition-labels :
    (time : ℕ) (pod : Pod) (b : Bool) (i : ℕ) (o : Option Condition)
    → (update_condition time pod b i o).0.labels ≡ pod.labels
update_condition-labels time pod b i none = refl
update_condition-labels time pod b i (some c) = ground arith

set_gate-labels :
    (N : Names) (time : ℕ) (pod : Pod) (b : Bool) (o : Option ℕ)
    → (set_gate N time pod b o).0.labels ≡ pod.labels
set_gate-labels N time pod b none = refl
set_gate-labels N time pod b (some i) =
    update_condition-labels time pod b i (condition_at i pod.conditions)

set_service_readiness-labels :
    (N : Names) (time : ℕ) (pod : Pod) (b : Bool)
    → (set_service_readiness N time pod b).0.labels ≡ pod.labels
unfolding set_service_readiness
set_service_readiness-labels N time pod b =
    ground
      (arith, set_gate-labels N time pod b (last_index N.service_ready_gate 0 none pod.conditions))

module _ (N : Names) (A : Api) (S : Store ResourceVersionExpectationItem)
    (Safe : A.Cluster → Type 0) (guard : IsGuard N A Safe) (now : Text) (time : ℕ) where
  settle-Safe :
      (k : Text) (s : S.State) (r : A.Cluster × Option Error)
      → Safe r.0
      → Safe (settle A S k s r).0.cluster
  settle-Safe k s (c, none) h = h
  settle-Safe k s (c, some e) h = h

  change-Safe :
      (pod : Pod) (f : A.Cluster → A.Cluster × Option Error) (w : World A S)
      → ((d : A.Cluster) → Safe d → Safe (f d).0)
      → Safe w.cluster
      → Safe (change A S time pod f w).0.cluster
  unfolding change
  change-Safe pod f w keeps h =
      settle-Safe _ _ (A.retry_on_conflict f w.cluster) (guard.retry f w.cluster keeps h)

  -- A change of the labels that does not make a pod available.
  abbrev Discreet : (Pod → Pod) → Type 0
  Discreet f =
      (pod : Pod)
      → has N.service_available pod.labels ≡ false
      → has N.service_available (f pod).labels ≡ false

  update_read-Safe :
      (f : Pod → Pod) (c : A.Cluster) (r : Result Pod)
      → Discreet f
      → ((pod : Pod) → r ≡ ok pod → has N.service_available pod.labels ≡ false)
      → Safe c
      → Safe (update_read A S f c r).0
  update_read-Safe f c (err e) discreet reads h = h
  update_read-Safe f c (ok pod) discreet reads h =
      guard.write c (f pod) h (discreet pod (reads pod refl))

  read_and_update-Safe :
      (pod : Pod) (f : Pod → Pod) (w : World A S)
      → Discreet f
      → Safe w.cluster
      → Safe (change A S time pod (read_and_update A S pod f) w).0.cluster
  read_and_update-Safe pod f w discreet h =
      change-Safe pod (read_and_update A S pod f) w
        (λ c safe.
          update_read-Safe f c (A.get_pod c pod.namespace pod.name) discreet
            (λ p e. guard.read c pod.namespace pod.name p safe e) safe)
        h

  pub add_labels-Safe :
      (w : World A S) (pod : Pod) (labels : Labels)
      → Without N.service_available labels
      → Safe w.cluster
      → Safe (add_labels N A S now time w pod labels).0.cluster
  unfolding add_labels
  add_labels-Safe w pod [] without h = h
  add_labels-Safe w pod (l ∷ ls) without h =
      read_and_update-Safe pod (λ p. set_labels p (put_all (l ∷ ls) p.labels)) w
        (λ p off. put_all-has N.service_available (l ∷ ls) p.labels without off) h

  pub remove_labels-Safe :
      (w : World A S) (pod : Pod) (ks : List Text)
      → Safe w.cluster
      → Safe (remove_labels N A S now time w pod ks).0.cluster
  unfolding remove_labels
  remove_labels-Safe w pod [] h = h
  remove_labels-Safe w pod (k ∷ ks) h =
      read_and_update-Safe pod (λ p. set_labels p (delete_keys (k ∷ ks) p.labels)) w
        (λ p off. delete_keys-has N.service_available (k ∷ ks) p.labels off) h

  write_readiness-Safe :
      (c : A.Cluster) (r : Pod × Bool)
      → has N.service_available r.0.labels ≡ false
      → Safe c
      → Safe (write_readiness N A S now time c r).0
  write_readiness-Safe c (pod, false) off h = h
  write_readiness-Safe c (pod, true) off h = guard.write_status c pod h off

  readiness_attempt-Safe :
      (is_ready : Bool) (c : A.Cluster) (r : Result Pod)
      → ((pod : Pod) → r ≡ ok pod → has N.service_available pod.labels ≡ false)
      → Safe c
      → Safe (readiness_attempt N A S now time is_ready c r).0
  readiness_attempt-Safe is_ready c (err e) reads h = h
  readiness_attempt-Safe is_ready c (ok pod) reads h =
      write_readiness-Safe c (set_service_readiness N time pod is_ready)
        (rw (set_service_readiness-labels N time pod is_ready) (reads pod refl)) h

  readiness_done-Safe :
      (pod : Pod) (r : World A S × Option Error)
      → Safe r.0.cluster
      → Safe (readiness_done N A S now time pod r).0.cluster
  readiness_done-Safe pod (w, some e) h = h
  readiness_done-Safe pod (w, none) h = h

  pub write_if_needed-Safe :
      (w : World A S) (is_ready : Bool) (r : Pod × Bool)
      → Safe w.cluster
      → Safe (write_if_needed N A S now time w is_ready r).0.cluster
  write_if_needed-Safe w is_ready (pod, false) h = h
  write_if_needed-Safe w is_ready (pod, true) h = readiness_done-Safe pod _ (
      change-Safe pod
        (λ c. readiness_attempt N A S now time is_ready c (A.get_pod c pod.namespace pod.name)) w
        (λ c safe.
          readiness_attempt-Safe is_ready c (A.get_pod c pod.namespace pod.name)
            (λ p e. guard.read c pod.namespace pod.name p safe e) safe)
        h)
