-- ===== src/Relay.antt =====
-- webtor/src/relay.rs: relays and their selection.
pub mod Criteria
pub mod Manager
pub mod Sorting
pub mod Fit
pub mod Selection
pub mod Target
mod Runs
