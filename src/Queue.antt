-- ===== src/Queue.antt =====
-- internal/queue/manager.go: the queue of pull requests and its pool of workers.
pub mod Types
pub mod Cells
pub mod Manager
pub mod Process
pub mod Recheck
pub mod System
mod Examples
