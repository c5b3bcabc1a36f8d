-- ===== src/Lib.antt =====
-- A model of the core of KusionStack Kuperator: the protocol of labels by which operators get to
-- operate on a pod without loss of traffic, and the bookkeeping that its controllers share.
--
-- The program's parts and how they interact. An operator (CollaSet, OperationJob, pod deletion)
-- calls Begin on a pod, which labels it with an operation: an id and a type. From then on each write
-- of the pod passes through the admission webhook, and each event on it through the lifecycle
-- controller; these two move the operation from phase to phase by labels `<prefix>/<id>`:
-- pre-check, pre-checked (the controller, once the transition rules let the pod pass), preparing
-- (the controller turns traffic off by the readiness gate), operate (the operator may act: AllowOps),
-- operated (after Finish), post-check, post-checked, completing, and off. Undo wipes an operation.
-- Controllers act on caches that may lag behind their own writes, so they record what they expect
-- to see and skip a sync until they have seen it. They make calls to the cluster in slow-start
-- batches.
--
-- Which file models what:
--   Pod: a pod as far as the code reads it, its conditions and finalizers,
--     pkg/controllers/utils/pod_utils.go and pkg/utils/common.go. `Names` stands for the label,
--     condition and finalizer names of kusionstack.io/kube-api, `IsNames` for what is relied on.
--   Lifecycle/Operation: pkg/controllers/utils/podopslifecycle/utils.go and adapter.go. `begin`,
--     `allow_ops`, `finish` and `undo` are Begin, AllowOps, Finish and Undo; the update functions of
--     an operator and the client's Update are functions that return the pod they leave.
--   Lifecycle/Ids: pkg/controllers/podopslifecycle/utils.go, IDToLabelsMap and what uses it.
--   Lifecycle/Mutating: pkg/webhook/server/generic/pod/opslifecycle/mutating.go and webhook.go.
--     `mutating` is Mutating; `visit` is a round of its first loop, `mutate_labels` the rest.
--   Lifecycle/Validating: pkg/webhook/server/generic/pod/opslifecycle/validating.go; `validating` is
--     Validating.
--   Lifecycle/Controller: pkg/controllers/podopslifecycle/podopslifecycle_controller.go. `reconcile`
--     is Reconcile. Its world is the cluster, an abstract state with the operations of `Api`, and the
--     store of expected versions.
--   Transition: pkg/controllers/podtransitionrule, the rules that a pod has to pass in a stage.
--     Register is register (cache.go, function.go: the stages that controllers register). Rules are
--     the rules and rulers (processor/rules/types.go, labelcheck.go, manual.go, utils), with
--     Rules/Interface for what the processor may rely on of a ruler; Rules/Available is available.go;
--     Webhook is webhook.go, whose `do_webhook` is Do; Polling is polling.go, the tasks that it
--     starts; Fields is common.go; Filter puts the rulers together. Process is
--     processor/processor.go: `process` is Process. Details and Status are process, updateDetail and
--     the status of podtransitionrule_controller.go. Checker is checker/checker.go (GetState, the
--     verdict of the rules on a pod), which the lifecycle controller reads.
--   Expectations: pkg/controllers/utils/expectations. Counter is expectation.go
--     (ControllerExpectations), Version is resourceversion_expectation.go, Active is
--     active_expectation.go with its two levels of stores. The store of client-go is the interface
--     `Store` with the laws `IsStore`; InMemory is a store that is a list.
--   Jobs: the targets of an operation job, pkg/controllers/operationjob/opscore/candidate.go, whose
--     DecideCandidateByPartition is in Partition. Status is calculateStatus of
--     operationjob_controller.go. Of operationjob_manager.go, Operate is what one call of the
--     batches does with a target (utils/lifecycle.go with it; the handler of an action is the
--     parameter `get_ops_progress`), Careful and Turn have what that may do, and Release is
--     releaseTargets.
--   Decorations: pkg/controllers/utils/poddecoration/strategy, which revision of a decoration a pod
--     gets. Decorations itself has the order in which pods are updated (types.go), Related what is
--     read of the cluster for a pod, Strategy the podDecorationManager of manager.go, Manager the
--     managers of all decorations, Effective getEffectiveRevisions of getter.go. Partition and Held
--     are about an update.
--   References: pkg/controllers/utils/refmanager/ref_manager.go; `claim_owned` is ClaimOwned, and
--     `IsFaithful` is what is relied on of SetControllerReference and of the client's Update.
--   SlowStart: pkg/controllers/utils/slow_start.go.
--   Common: tests on numbers, lists and their sorting, texts, maps, 64-bit integers, errors and panics.
--
-- Conventions. A Go map is an association list, and an absent map the empty one; the order in which
-- `range` meets the entries is the order of the list, and statements hold for every list. A string
-- is a list of code points. Time is an argument: nanoseconds, or the text of them that a label gets.
-- A number of Go's int64 is a number below 2^64 with the wrap-around written out. Errors are values
-- of `Error`; a Go panic is `panics` of `Outcome`. The only fuel is that of SlowStartBatch, one more
-- than the number of calls: each batch makes one call at least.
--
-- Not modelled: locks and goroutines (a method is one step; the calls of a batch differ only in whose
-- error arrives first and, in releaseTargets, in whose error each reads of the variable that they
-- share), logs, events and messages of conditions for people, the manager's
-- set-up, the encoding of annotations (a pod carries what its annotation parses to), the clients of
-- the cluster, JSON, the label selectors and the scaling of quotas of Kubernetes, the controllers of
-- collasets, decorations and pod deletion, the first load of the decorations and the patches that
-- they make, the watches and finalizers of transition rules, and of operation jobs the handlers of
-- actions, the deadlines and the list of targets.
pub mod Common
pub mod SlowStart
pub mod Expectations
pub mod Pod
pub mod Transition
pub mod Lifecycle
pub mod Jobs
pub mod Decorations
pub mod References
