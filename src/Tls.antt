-- ===== src/Tls.antt =====
-- subtle-tls/src: the TLS client.
pub mod Error
pub mod Toy
mod Runs
pub mod Cipher
pub mod Nonce
pub mod Nonces
pub mod Layer
pub mod Record
pub mod Hkdf
pub mod Exporter
pub mod Handshake
pub mod Alert
pub mod Encrypted
pub mod Stream
pub mod Cert
