-- ===== src/Turbo.antt =====
-- webtor/src/turbo.rs: the framing layer of the Snowflake transport.
pub mod Frame
pub mod Wire
pub mod Header
pub mod RoundTrip
pub mod Limits
pub mod Stream
pub mod Frames
pub mod Delivery
pub mod Receive
pub mod Sending
mod Runs
