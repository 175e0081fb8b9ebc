-- ===== src/Tls/Handshake.antt =====
-- `HandshakeState` of subtle-tls/src/handshake.rs: the transcript, the key schedule and the
-- Finished messages. The primitives are the parameter `Primitives`; the private keys stay in them.
pub mod ClientHello
pub mod Vectors
pub mod Offer
pub mod Offered
pub mod Parse
pub mod Total
pub mod ServerHello
pub mod Keys
pub mod Fit
mod Runs
use webtor_rs.Base.{
  ℕ, zero, suc, ◌+◌, ◌/◌, ◌%◌, Bool, true, false, String, List, [], ◌∷◌, ◌++◌, Option, none, some,
  length, ◌==◌, if◌then◌else◌, ◌≡◌,
}
use webtor_rs.Base.Outcome.{Result, ok, err, panics, stuck, ◌>>=◌}
use webtor_rs.Tls.Error.{TlsError}

-- What crypto.rs takes from the Web Crypto API and the crate x25519-dalek, for one client's keys.
pub record Primitives : Type 0 where
  pub hmac : List ℕ → List ℕ → Result TlsError (List ℕ)
  -- The copy of `hmac_sha256` in handshake.rs, which takes the Web Crypto API of a window only.
  pub finished_hmac : List ℕ → List ℕ → Result TlsError (List ℕ)
  pub sha256 : List ℕ → Result TlsError (List ℕ)
  pub p256_shared : List ℕ → Result TlsError (List ℕ)
  pub x25519_shared : List ℕ → Result TlsError (List ℕ)

abbrev pub group_secp256r1 : ℕ
group_secp256r1 = 0x17

abbrev pub group_x25519 : ℕ
group_x25519 = 0x1d

pub record HandshakeState : Type 0 where
  -- The public keys; `x25519_key` is gone once it has been used.
  pub ecdh_key : List ℕ
  pub x25519_key : Option (List ℕ)
  pub selected_group : ℕ
  pub client_random : List ℕ
  pub server_random : List ℕ
  pub cipher_suite : ℕ
  -- `server_name.as_bytes()`
  pub server_name : List ℕ
  pub transcript : List ℕ
  pub handshake_secret : Option (List ℕ)
  pub client_handshake_secret : Option (List ℕ)
  pub server_handshake_secret : Option (List ℕ)
  pub client_app_secret : Option (List ℕ)
  pub server_app_secret : Option (List ℕ)
  pub exporter_master_secret : Option (List ℕ)

-- The state that `new` makes of the generated keys and the random bytes.
abbrev pub new_state : List ℕ → List ℕ → List ℕ → List ℕ → HandshakeState
new_state server_name ecdh_key x25519_key client_random = record {
  ecdh_key = ecdh_key;
  x25519_key = some x25519_key;
  selected_group = group_secp256r1;
  client_random = client_random;
  server_random = [];
  cipher_suite = 0x1301;
  server_name = server_name;
  transcript = [];
  handshake_secret = none;
  client_handshake_secret = none;
  server_handshake_secret = none;
  client_app_secret = none;
  server_app_secret = none;
  exporter_master_secret = none;
}

abbrev pub update_transcript : List ℕ → HandshakeState → HandshakeState
update_transcript bytes hs = record hs { transcript = hs.transcript ++ bytes }

abbrev pub get_key_size : HandshakeState → ℕ
get_key_size hs =
    if hs.cipher_suite == 0x1301
    then 16
    else if hs.cipher_suite == 0x1302
    then 32
    else if hs.cipher_suite == 0x1303
    then 32
    else 16

-- `.ok_or_else(|| TlsError::handshake(message))`
abbrev pub or_missing : Option (List ℕ) → String → Result TlsError (List ℕ)
or_missing none message = err (TlsError.handshake message)
or_missing (some secret) message = ok secret
