-- ===== src/Circuit.antt =====
-- webtor/src/circuit.rs: the circuits of a client, their isolation by key, and their cleanup.
pub mod Table
pub mod Create
pub mod Serve
pub mod Cleanup
pub mod Status
pub mod Path
pub mod Isolation
pub mod Kept
pub mod Stable
pub mod Separation
pub mod Toy
mod Runs
