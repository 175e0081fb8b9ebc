-- ===== src/Tls/Record.antt =====
-- subtle-tls/src/record.rs: the calls of the record layer on the stream below, which is the
-- parameter `t`. A call changes the layer and the stream.
pub mod Trip
pub mod ReadBack
pub mod Messages
pub mod Sync
use webtor_rs.Base.{
  ℕ, zero, suc, List, [], ◌∷◌, ◌++◌, Option, none, some, length, get_or, ltb, ◌==◌, if◌then◌else◌,
}
use webtor_rs.Base.BigEndian.{be16}
use webtor_rs.Base.Outcome.{Result, ok, err, panics, stuck, map_ok}
use webtor_rs.Base.Action.{Action, ◌>>=◌, ◌>>◌, pure, fail}
use webtor_rs.Error.{IoError}
use webtor_rs.Transport.{Transport}
use webtor_rs.Tls.Error.{TlsError}
use webtor_rs.Tls.Cipher.{Crypto, encrypt, decrypt}
use webtor_rs.Tls.Layer.{
  RecordLayer, max_record_size, max_plaintext_size, content_type_handshake,
  content_type_application_data, record_header, chunks, open_record, seal_record,
  handshake_messages, with_read_cipher, with_write_cipher,
}

module _ {K C S : Type 0} (crypto : Crypto K C) (t : Transport S) where
  -- `.await.map_err(TlsError::Io)?`
  abbrev pub on_stream : {A : Type 0} → Action S IoError A → Action (RecordLayer K C × S) TlsError A
  on_stream call s =
      let (r, stream) = call s.1 in
      elim r [
        | ok a ↦ (ok a, (s.0, stream))
        | err e ↦ (err (TlsError.io e), (s.0, stream))
        | panics ↦ (panics, (s.0, stream))
        | stuck ↦ (stuck, (s.0, stream))
      ]

  unfoldable pub unprotect : List ℕ → List ℕ → Action (RecordLayer K C × S) TlsError (ℕ × List ℕ)
  unprotect header body s = elim s.0.read_cipher [
    | none ↦ (ok (get_or header 0 0, body), s)
    | some c ↦
        let (r, c') = open_record (decrypt crypto) header body c in
        if get_or header 0 0 == content_type_application_data
        then (r, (with_read_cipher c' s.0, s.1))
        else (ok (get_or header 0 0, body), s)
  ]

  abbrev pub read_body : List ℕ → Action (RecordLayer K C × S) TlsError (ℕ × List ℕ)
  read_body header =
      let n = be16 (get_or header 3 0) (get_or header 4 0) in
      if ltb max_record_size n
      then fail (TlsError.record_layer "Record too large")
      else on_stream (t.read_exact n) >>= λ body. unprotect header body

  unfoldable pub read_record : Action (RecordLayer K C × S) TlsError (ℕ × List ℕ)
  read_record = on_stream (t.read_exact 5) >>= read_body

  unfoldable pub protect : ℕ → List ℕ → Action (RecordLayer K C × S) TlsError (ℕ × List ℕ)
  protect content_type bytes s = elim s.0.write_cipher [
    | none ↦ (ok (content_type, bytes), s)
    | some c ↦
        let (r, c') = seal_record (encrypt crypto) content_type bytes c in
        (
          map_ok (λ ciphertext. (content_type_application_data, ciphertext)) r,
          (with_write_cipher c' s.0, s.1),
        )
  ]

  abbrev pub write_body : ℕ × List ℕ → Action (RecordLayer K C × S) TlsError (Unit {0})
  write_body (record_type, body) =
      on_stream (t.write_all (record_header record_type (length body) ++ body)) >>= λ _.
      on_stream t.flush

  unfoldable pub write_single_record : ℕ → List ℕ → Action (RecordLayer K C × S) TlsError (Unit {0})
  write_single_record content_type bytes = protect content_type bytes >>= write_body

  abbrev pub write_chunks : ℕ → List (List ℕ) → Action (RecordLayer K C × S) TlsError (Unit {0})
  write_chunks content_type [] = pure tt
  write_chunks content_type (c ∷ cs) =
      write_single_record content_type c >>= λ done. write_chunks content_type cs

  unfoldable pub write_record : ℕ → List ℕ → Action (RecordLayer K C × S) TlsError (Unit {0})
  write_record content_type bytes = write_chunks content_type (chunks max_plaintext_size bytes)

  abbrev pub parse_messages : ℕ × List ℕ → Result TlsError (List (ℕ × List ℕ))
  parse_messages (content_type, bytes) =
      let messages = handshake_messages (suc (length bytes)) bytes in
      if content_type == content_type_handshake
      then messages
      else err (TlsError.unexpected_message "Handshake" "ContentType")

  unfoldable pub read_handshake_messages : Action (RecordLayer K C × S) TlsError (List (ℕ × List ℕ))
  read_handshake_messages = read_record >>= λ r s. (parse_messages r, s)
