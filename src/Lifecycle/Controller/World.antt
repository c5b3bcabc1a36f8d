-- ===== src/Lifecycle/Controller/World.antt =====
-- What the lifecycle controller works on: the API of the cluster, which is not code of the
-- repository, and its store of expected versions. The verdict of the transition rules comes
-- through the interface that the controller calls.
use kuperator.Common.{
  ℕ, Bool, true, false, Option, none, some, Text, join_slash, Result, ok, err, Error, not_found,
}
pub use kuperator.Transition.Checker.{CheckState}
unfoldable pub use kuperator.Transition.Checker.{in_stage_and_passed}
use kuperator.Pod.{Pod, Labels}
use kuperator.Expectations.{Store}
use kuperator.Expectations.Version.{ResourceVersionExpectationItem, expect_update, delete_item}

pub record Api : Type 1 where
  pub Cluster : Type 0
  -- Get by namespace and name.
  pub get_pod : Cluster → Text → Text → Result Pod
  -- Update also refreshes the pod that it is given.
  pub update : Cluster → Pod → Cluster × Pod × Option Error
  pub update_status : Cluster → Pod → Cluster × Option Error
  -- The selector of a service, and whether it matches labels.
  pub get_selector : Cluster → Text → Text → Result Labels
  pub selects : Labels → Labels → Bool
  pub retry_on_conflict : (Cluster → Cluster × Option Error) → Cluster → Cluster × Option Error
  -- ManagerInterface.GetState
  pub get_state : Cluster → Pod → Result CheckState

abbrev pub is_not_found : Error → Bool
is_not_found not_found = true
is_not_found _ = false

module _ (A : Api) (S : Store ResourceVersionExpectationItem) where
  pub record World : Type 0 where
    pub cluster : A.Cluster
    pub expectation : S.State

  abbrev pub controller_key : Pod → Text
  controller_key pod = join_slash pod.namespace pod.name

  abbrev pub kept : S.State → Result S.State → S.State
  kept s (ok t) = t
  kept s (err e) = s

  abbrev pub settle : Text → S.State → A.Cluster × Option Error → World × Option Error
  settle k s (cluster, none) = (record { cluster = cluster; expectation = s }, none)
  settle k s (cluster, some e) =
      (record { cluster = cluster; expectation = delete_item S s k }, some e)

  -- A change of the cluster that the controller expects to see: the expectation is withdrawn if
  -- the change fails.
  unfoldable pub change :
      ℕ → Pod → (A.Cluster → A.Cluster × Option Error) → World → World × Option Error
  change time pod f w =
      let k = controller_key pod in
      settle k (kept w.expectation (expect_update S time w.expectation k pod.resource_version))
        (A.retry_on_conflict f w.cluster)

  abbrev pub written : A.Cluster × Pod × Option Error → A.Cluster × Option Error
  written (cluster, pod, e) = (cluster, e)

  abbrev pub update_read : (Pod → Pod) → A.Cluster → Result Pod → A.Cluster × Option Error
  update_read f cluster (err e) = (cluster, some e)
  update_read f cluster (ok pod) = written (A.update cluster (f pod))

  -- One attempt to read a pod, change it and write it.
  abbrev pub read_and_update : Pod → (Pod → Pod) → A.Cluster → A.Cluster × Option Error
  read_and_update pod f cluster = update_read f cluster (A.get_pod cluster pod.namespace pod.name)
