-- ===== src/Merge.antt =====
-- internal/merge: what drives one pull request to a merged state.
pub mod Errors
pub mod Github
pub mod Gate
pub mod Blocked
pub mod Unstable
pub mod Runner
pub mod Signals
pub mod Delegate
pub mod Status
mod Examples
