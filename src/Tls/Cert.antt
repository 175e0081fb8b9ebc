-- ===== src/Tls/Cert.antt =====
-- subtle-tls/src/cert.rs and trust_store.rs: the checks of a server's certificates.
pub mod Hostname
pub mod Ecdsa
pub mod TrustStore
pub mod Verify
pub mod Signed
pub mod Chain
pub mod Named
pub mod Verified
pub mod Faults
pub mod Served
mod Runs
