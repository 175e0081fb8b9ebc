-- ===== src/Retry.antt =====
-- webtor/src/retry.rs: retries with exponential backoff, timeouts and cancellation.
pub mod Policy
pub mod Backoff
pub mod Attempts
pub mod Race
mod Runs
