-- ===== src/Transition.antt =====
-- The rules that a pod has to pass before it goes on, as far as the lifecycle controller sees them.
pub mod Register
pub mod Detail
pub mod Checker
pub mod Rules
pub mod Process
pub mod Details
pub mod Status
pub mod Fields
pub mod Polling
pub mod Webhook
pub mod Filter
pub mod Examples
