-- ===== src/Expectations/Active.antt =====
-- pkg/controllers/utils/expectations/active_expectation.go: objects that a controller has created,
-- deleted or updated, and looks up itself before its next sync.
mod Item
mod Subject
mod Manager
pub mod Shown
pub mod Satisfied
pub mod Recorded
pub mod Fresh
pub mod Examples
