-- ===== src/Tls/Handshake/Keys.antt =====
-- The key schedule and the Finished messages of subtle-tls/src/handshake.rs.
use webtor_rs.Base.{
  ℕ, ◌/◌, ◌%◌, Bool, true, false, String, List, [], ◌∷◌, Option, none, some, length, ◌==◌,
  if◌then◌else◌, eq_bytes,
}
use webtor_rs.Base.Outcome.{Result, ok, err, panics, stuck, ◌>>=◌}
use webtor_rs.Tls.Error.{TlsError}
use webtor_rs.Tls.Hkdf.{zeros, extract, expand_label, derive_secret}
use webtor_rs.Tls.Handshake.{
  Primitives, HandshakeState, group_secp256r1, group_x25519, get_key_size, or_missing,
}

-- The labels of the key schedule: "derived", "key", "iv", "finished", "c hs traffic",
-- "s hs traffic", "c ap traffic", "s ap traffic", "exp master".
abbrev derived : List ℕ
derived = 100 ∷ 101 ∷ 114 ∷ 105 ∷ 118 ∷ 101 ∷ 100 ∷ []

abbrev pub key_label : List ℕ
key_label = 107 ∷ 101 ∷ 121 ∷ []

abbrev pub iv_label : List ℕ
iv_label = 105 ∷ 118 ∷ []

abbrev finished : List ℕ
finished = 102 ∷ 105 ∷ 110 ∷ 105 ∷ 115 ∷ 104 ∷ 101 ∷ 100 ∷ []

abbrev traffic : List ℕ
traffic = 32 ∷ 116 ∷ 114 ∷ 97 ∷ 102 ∷ 102 ∷ 105 ∷ 99 ∷ []

abbrev c_hs_traffic : List ℕ
c_hs_traffic = 99 ∷ 32 ∷ 104 ∷ 115 ∷ traffic

abbrev s_hs_traffic : List ℕ
s_hs_traffic = 115 ∷ 32 ∷ 104 ∷ 115 ∷ traffic

abbrev c_ap_traffic : List ℕ
c_ap_traffic = 99 ∷ 32 ∷ 97 ∷ 112 ∷ traffic

abbrev s_ap_traffic : List ℕ
s_ap_traffic = 115 ∷ 32 ∷ 97 ∷ 112 ∷ traffic

abbrev exp_master : List ℕ
exp_master = 101 ∷ 120 ∷ 112 ∷ 32 ∷ 109 ∷ 97 ∷ 115 ∷ 116 ∷ 101 ∷ 114 ∷ []

-- `if is_client { client.as_ref() } else { server.as_ref() }.ok_or_else(..)`
abbrev pub side : Bool → Option (List ℕ) → Option (List ℕ) → String → Result TlsError (List ℕ)
side is_client client server message =
    if is_client then or_missing client message else or_missing server message

module _ (p : Primitives) where
  -- The shared secret of the selected group, and the state after it: `x25519_key` is taken.
  unfoldable pub shared_secret : List ℕ → HandshakeState → Result TlsError (List ℕ) × HandshakeState
  shared_secret share hs =
      if hs.selected_group == group_secp256r1
      then (p.p256_shared share, hs)
      else if hs.selected_group == group_x25519
      then elim hs.x25519_key [
        | none ↦ (err (TlsError.handshake "X25519 key not available"), hs)
        | some public ↦ (p.x25519_shared share, record hs { x25519_key = none })
      ]
      else (err (TlsError.handshake "Unsupported key exchange group"), hs)

  unfoldable pub handshake_secrets : List ℕ → List ℕ → Result TlsError (List ℕ × List ℕ × List ℕ)
  handshake_secrets shared transcript = p.sha256 transcript >>= λ transcript_hash.
      extract p.hmac [] (zeros 32) >>= λ early_secret. p.sha256 [] >>= λ empty_hash.
      derive_secret p.hmac early_secret derived empty_hash >>= λ derived_secret.
      extract p.hmac derived_secret shared >>= λ handshake_secret.
      derive_secret p.hmac handshake_secret c_hs_traffic transcript_hash >>= λ client.
      derive_secret p.hmac handshake_secret s_hs_traffic transcript_hash >>= λ server.
      ok (handshake_secret, client, server)

  unfoldable pub derive_handshake_keys :
      List ℕ → HandshakeState → Result TlsError (Unit {0}) × HandshakeState
  derive_handshake_keys share hs =
      let (shared, hs') = shared_secret share hs in
      elim (shared >>= λ s. handshake_secrets s hs'.transcript) [
        | ok (first, second, third) ↦ (
          ok tt,
          record hs' {
            handshake_secret = some first;
            client_handshake_secret = some second;
            server_handshake_secret = some third;
          },
        )
        | err e ↦ (err e, hs')
        | panics ↦ (panics, hs')
        | stuck ↦ (stuck, hs')
      ]

  unfoldable pub application_secrets : List ℕ → List ℕ → Result TlsError (List ℕ × List ℕ × List ℕ)
  application_secrets handshake_secret transcript = p.sha256 transcript >>= λ transcript_hash.
      p.sha256 [] >>= λ empty_hash.
      derive_secret p.hmac handshake_secret derived empty_hash >>= λ derived_secret.
      extract p.hmac derived_secret (zeros 32) >>= λ master_secret.
      derive_secret p.hmac master_secret c_ap_traffic transcript_hash >>= λ client.
      derive_secret p.hmac master_secret s_ap_traffic transcript_hash >>= λ server.
      derive_secret p.hmac master_secret exp_master transcript_hash >>= λ exporter.
      ok (client, server, exporter)

  unfoldable pub derive_application_keys :
      HandshakeState → Result TlsError (Unit {0}) × HandshakeState
  derive_application_keys hs =
      elim (or_missing hs.handshake_secret "Missing handshake secret" >>= λ secret.
      application_secrets secret hs.transcript) [
        | ok (first, second, third) ↦ (
          ok tt,
          record hs {
            client_app_secret = some first;
            server_app_secret = some second;
            exporter_master_secret = some third;
          },
        )
        | err e ↦ (err e, hs)
        | panics ↦ (panics, hs)
        | stuck ↦ (stuck, hs)
      ]

  unfoldable pub compute_finished : Bool → HandshakeState → Result TlsError (List ℕ)
  compute_finished is_client hs =
      side is_client hs.client_handshake_secret hs.server_handshake_secret
        "Missing handshake secret"
      >>= λ base_key. expand_label p.hmac base_key finished [] 32 >>= λ finished_key.
          p.sha256 hs.transcript >>= λ transcript_hash. p.finished_hmac finished_key transcript_hash

  unfoldable pub build_client_finished : HandshakeState → Result TlsError (List ℕ)
  build_client_finished hs = compute_finished true hs >>= λ verify_data.
      let n = length verify_data in
      ok (20 ∷ n / 65536 % 256 ∷ n / 256 % 256 ∷ n % 256 ∷ verify_data)

  unfoldable pub verify_server_finished : List ℕ → HandshakeState → Result TlsError (Unit {0})
  verify_server_finished received hs = compute_finished false hs >>= λ expected.
      if eq_bytes received expected
      then ok tt
      else err (TlsError.handshake "Server Finished verification failed")

  unfoldable pub traffic_keys : List ℕ → HandshakeState → Result TlsError (List ℕ × List ℕ)
  traffic_keys secret hs = expand_label p.hmac secret key_label [] (get_key_size hs) >>= λ key.
      expand_label p.hmac secret iv_label [] 12 >>= λ iv. ok (key, iv)

  unfoldable pub get_handshake_keys : Bool → HandshakeState → Result TlsError (List ℕ × List ℕ)
  get_handshake_keys is_client hs =
      side is_client hs.client_handshake_secret hs.server_handshake_secret
        "Missing handshake secret"
      >>= λ secret. traffic_keys secret hs

  unfoldable pub get_application_keys : Bool → HandshakeState → Result TlsError (List ℕ × List ℕ)
  get_application_keys is_client hs =
      side is_client hs.client_app_secret hs.server_app_secret "Missing application secret"
      >>= λ secret. traffic_keys secret hs
