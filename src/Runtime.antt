-- ===== src/Runtime.antt =====
-- The durable runtime: coroutine.go and coroutine_durable.go.
pub mod Panic
pub mod Stack
pub mod Context
pub mod Run
pub mod Next
pub mod Process
pub mod Volatile
pub mod Modes
mod Examples
