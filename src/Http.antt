-- ===== src/Http.antt =====
-- webtor/src/http.rs: requests, responses and the client.
pub mod Utf8
pub mod Chunked
pub mod Total
pub mod Overflow
pub mod Execute
pub mod Ended
pub mod Response
pub mod Lines
pub mod Framing
pub mod Request
pub mod Injection
pub mod Client
pub mod Bound
mod Runs
