-- ===== src/Smux.antt =====
-- webtor/src/smux.rs: the stream multiplexing layer of the Snowflake transport.
pub mod Command
pub mod Segment
pub mod RoundTrip
pub mod State
pub mod Stream
pub mod Polling
pub mod Carried
pub mod Delivery
pub mod Flow
pub mod Acknowledge
pub mod Faults
mod Runs
