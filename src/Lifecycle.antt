-- ===== src/Lifecycle.antt =====
-- The PodOpsLifecycle: operations on a pod as a protocol of labels.
pub mod Operation
pub mod Ids
pub mod Mutating
pub mod Validating
pub mod Controller
