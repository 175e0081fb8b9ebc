-- ===== src/Tls/Encrypted.antt =====
-- `process_encrypted_handshake` of subtle-tls/src/stream.rs: the server's encrypted messages up to
-- its Finished message. The checks of cert.rs and x509-parser are the parameter `Verifier`. The
-- loop over records waits for the network and runs on fuel.
pub mod Sound
pub mod Authentic
use webtor_rs.Base.{
  ℕ, zero, suc, ◌+◌, Bool, true, false, not, String, List, [], ◌∷◌, ◌++◌, Option, none, some,
  length, take, drop, get_or, ltb, ◌==◌, ◌&&◌, if◌then◌else◌,
}
use webtor_rs.Base.BigEndian.{be24}
use webtor_rs.Base.Outcome.{Result, ok, err, panics, stuck, ◌>>=◌}
use webtor_rs.Base.Action.{Action, given}
use webtor_rs.Transport.{Transport}
use webtor_rs.Tls.Error.{TlsError}
use webtor_rs.Tls.Cipher.{Crypto}
use webtor_rs.Tls.Layer.{RecordLayer}
use webtor_rs.Tls.Record.{read_record}
use webtor_rs.Tls.Alert.{parse_alert}
use webtor_rs.Tls.Handshake.{Primitives, HandshakeState, update_transcript}
use webtor_rs.Tls.Handshake.Parse.{parse_certificate, parse_certificate_verify, parse_finished}
use webtor_rs.Tls.Handshake.Keys.{verify_server_finished}

-- `CertificateVerifier::verify_chain`, whose first argument is the server's name,
-- `extract_public_key_spki`, and `verify_certificate_verify` with the algorithm, the signature, the
-- transcript hash and the key.
pub record Verifier : Type 0 where
  pub verify_chain : List ℕ → List (List ℕ) → Result TlsError (Unit {0})
  pub extract_public_key_spki : List ℕ → Result TlsError (List ℕ)
  pub verify_certificate_verify : ℕ → List ℕ → List ℕ → List ℕ → Result TlsError (Unit {0})

-- The variables of the call.
pub record Progress : Type 0 where
  pub handshake : HandshakeState
  pub got_encrypted_extensions : Bool
  pub got_certificate : Bool
  pub got_certificate_verify : Bool
  pub got_finished : Bool
  pub cert_chain : List (List ℕ)
  pub cert_verify_algorithm : ℕ
  pub cert_verify_signature : List ℕ
  pub transcript_before_cert_verify : List ℕ
  pub handshake_buffer : List ℕ

abbrev pub start : HandshakeState → Progress
start handshake = record {
  handshake = handshake;
  got_encrypted_extensions = false;
  got_certificate = false;
  got_certificate_verify = false;
  got_finished = false;
  cert_chain = [];
  cert_verify_algorithm = 0;
  cert_verify_signature = [];
  transcript_before_cert_verify = [];
  handshake_buffer = [];
}

abbrev pub heard : List ℕ → Progress → Progress
heard msg s = record s { handshake = update_transcript msg s.handshake }

module _ (p : Primitives) where
  -- A complete message: its type, its bytes with the header, and the state.
  unfoldable pub on_certificate : List ℕ → Action Progress TlsError (Unit {0})
  on_certificate msg s =
      given (parse_certificate (drop 4 msg)) (heard msg s)
        (λ certs. (ok tt, record (heard msg s) { cert_chain = certs; got_certificate = true }))

  unfoldable pub on_certificate_verify : List ℕ → Action Progress TlsError (Unit {0})
  on_certificate_verify msg s = given (p.sha256 s.handshake.transcript) s (λ hash.
      let s' = record (heard msg s) { transcript_before_cert_verify = hash } in
      given (parse_certificate_verify (drop 4 msg)) s' (λ verify. (
        ok tt,
        record s' {
          cert_verify_algorithm = verify.0;
          cert_verify_signature = verify.1;
          got_certificate_verify = true;
        },
      )))

  unfoldable pub on_finished : List ℕ → Action Progress TlsError (Unit {0})
  on_finished msg s = given (parse_finished (drop 4 msg)) s (λ verify_data.
      given (verify_server_finished p verify_data s.handshake) s
        (λ verified. (ok tt, record (heard msg s) { got_finished = true })))

  unfoldable pub on_message : ℕ → List ℕ → Action Progress TlsError (Unit {0})
  on_message msg_type msg s =
      if msg_type == 8
      then (ok tt, record (heard msg s) { got_encrypted_extensions = true })
      else if msg_type == 11
      then on_certificate msg s
      else if msg_type == 15
      then on_certificate_verify msg s
      else if msg_type == 20
      then on_finished msg s
      else (ok tt, heard msg s)

  -- The messages that are complete in the buffer; each takes four bytes of it at least.
  unfoldable pub drain_messages : ℕ → Action Progress TlsError (Unit {0})
  drain_messages zero s = (stuck, s)
  drain_messages (suc fuel) s =
      let buffer = s.handshake_buffer in
      let total_len = 4 + be24 (get_or buffer 1 0) (get_or buffer 2 0) (get_or buffer 3 0) in
      let taken = record s { handshake_buffer = drop total_len buffer } in
      if ltb (length buffer) 4
      then (ok tt, s)
      else if ltb (length buffer) total_len
      then (ok tt, s)
      else (let (r, s') = on_message (get_or buffer 0 0) (take total_len buffer) taken in
          given r s' (λ done. drain_messages fuel s'))

  unfoldable pub on_record : ℕ → List ℕ → Action Progress TlsError (Unit {0})
  on_record content_type bytes s =
      let buffer = s.handshake_buffer ++ bytes in
      if content_type == 20
      then (ok tt, s)
      else if content_type == 21
      then (err (parse_alert bytes), s)
      else if content_type == 22
      then drain_messages (suc (length buffer)) (record s { handshake_buffer = buffer })
      else (err (TlsError.unexpected_message "Handshake" "ContentType"), s)

-- `if let Some(leaf_der) = cert_chain.first()` and the answer, the first certificate.
unfoldable pub check_signature :
    Verifier → Progress → List (List ℕ) → Result TlsError (Option (List ℕ))
check_signature v s [] = ok none
check_signature v s (leaf ∷ rest) = v.extract_public_key_spki leaf >>= λ key.
    v.verify_certificate_verify s.cert_verify_algorithm s.cert_verify_signature
      s.transcript_before_cert_verify key
    >>= λ done. ok (some leaf)

-- What is checked once the server has finished.
unfoldable pub check_certificates : Verifier → Bool → Progress → Result TlsError (Option (List ℕ))
check_certificates v skip_verification s =
    if not s.got_encrypted_extensions
    then err (TlsError.handshake "Missing EncryptedExtensions")
    else if skip_verification
    then ok (elim s.cert_chain [ [] ↦ none | leaf ∷ rest ↦ some leaf ])
    else if not s.got_certificate
    then err (TlsError.handshake "Missing Certificate message")
    else if not s.got_certificate_verify
    then err (TlsError.handshake "Missing CertificateVerify message")
    else (v.verify_chain s.handshake.server_name s.cert_chain >>= λ done.
        check_signature v s s.cert_chain)

module _ {K C S : Type 0} (p : Primitives) (crypto : Crypto K C) (t : Transport S) where
  -- The loop `while !got_finished`.
  unfoldable pub await_finished : ℕ → Action ((RecordLayer K C × S) × Progress) TlsError (Unit {0})
  await_finished zero s = (stuck, s)
  await_finished (suc fuel) s =
      let (r, conn) = read_record crypto t s.0 in
      let onward : Result TlsError (Unit {0}) × ((RecordLayer K C × S) × Progress) =
        given r (conn, s.1)
          (λ record_.
            let (q, progress) = on_record p record_.0 record_.1 s.1 in
            given q (conn, progress) (λ done. await_finished fuel (conn, progress))) in
      if s.1.got_finished then (ok tt, s) else onward

  unfoldable pub process_encrypted_handshake :
      ℕ
      → Verifier
      → Bool
      → Action ((RecordLayer K C × S) × HandshakeState) TlsError (Option (List ℕ))
  process_encrypted_handshake fuel v skip_verification s =
      let (r, (conn, progress)) = await_finished fuel (s.0, start s.1) in
      (r >>= λ done. check_certificates v skip_verification progress, (conn, progress.handshake))
