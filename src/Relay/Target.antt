-- ===== src/Relay/Target.antt =====
-- webtor/src/relay.rs: `Relay::as_circ_target`. The parsers and key types of the standard library,
-- the hex crate and the Tor crates are a parameter.
use webtor_rs.Base.{ℕ, List, Option, none, some, String, length, ◌==◌, if◌then◌else◌}
use webtor_rs.Base.Outcome.{Result, ok, err, ◌>>=◌}
use webtor_rs.Error.{TorError}
use webtor_rs.Relay.Criteria.{Relay}

-- What the builder of a target is given.
pub record TargetParts (Ip RsaId EdId NtorKey : Type 0) : Type 0 where
  pub addr : Ip
  pub port : ℕ
  pub rsa_identity : RsaId
  pub ed_identity : Option EdId
  pub ntor_onion_key : NtorKey

pub record TargetApi : Type 1 where
  pub Ip : Type 0
  pub RsaId : Type 0
  pub EdId : Type 0
  pub NtorKey : Type 0
  pub CircTarget : Type 0
  pub parse_ip : String → Option Ip
  pub hex_decode : String → Option (List ℕ)
  pub rsa_from_bytes : List ℕ → Option RsaId
  pub ed_from_bytes : List ℕ → Option EdId
  pub ntor_from_bytes : List ℕ → NtorKey
  pub build : TargetParts Ip RsaId EdId NtorKey → Option CircTarget

abbrev pub or_configuration : {A : Type 0} → Option A → String → Result TorError A
or_configuration (some a) m = ok a
or_configuration none m = err (TorError.configuration m)

-- The bytes, if there are as many as asked for.
abbrev pub of_length : ℕ → List ℕ → String → Result TorError (List ℕ)
of_length n bytes m = if length bytes == n then ok bytes else err (TorError.configuration m)

module _ (api : TargetApi) where
  open api use {
    Ip, RsaId, EdId, NtorKey, CircTarget, parse_ip, hex_decode, rsa_from_bytes, ed_from_bytes,
    ntor_from_bytes, build,
  }

  abbrev ed_part : Option String → Result TorError (Option EdId)
  ed_part none = ok none
  ed_part (some ed_hex) = do
    bytes ← or_configuration (hex_decode ed_hex) "Invalid Ed25519 identity hex"
    ed_id ← or_configuration (ed_from_bytes bytes) "Invalid Ed25519 identity"
    ok (some ed_id)

  abbrev rsa_part : String → Result TorError RsaId
  rsa_part fingerprint = do
    bytes ← or_configuration (hex_decode fingerprint) "Invalid RSA identity hex"
    full ← of_length 20 bytes "Invalid RSA identity length"
    or_configuration (rsa_from_bytes full) "Invalid RSA identity"

  abbrev ntor_part : Option String → Result TorError NtorKey
  ntor_part key = do
    ntor_hex ← or_configuration key "Missing ntor onion key"
    bytes ← or_configuration (hex_decode ntor_hex) "Invalid ntor key hex"
    full ← of_length 32 bytes "Invalid ntor key length"
    ok (ntor_from_bytes full)

  abbrev built : Option CircTarget → Result TorError CircTarget
  built (some target) = ok target
  built none = err (TorError.internal "Failed to build circ target")

  unfoldable pub as_circ_target : Relay → Result TorError CircTarget
  as_circ_target r = do
    addr ← or_configuration (parse_ip r.address) "Invalid relay address"
    rsa_id ← rsa_part r.fingerprint
    ed_id ← ed_part r.ed25519_identity
    key ← ntor_part r.ntor_onion_key
    built (
        build (record {
          addr = addr;
          port = r.or_port;
          rsa_identity = rsa_id;
          ed_identity = ed_id;
          ntor_onion_key = key;
        }))
