-- ===== src/Tls/Record/Sync.antt =====
-- The synchronous calls of subtle-tls/src/record.rs next to the others, and records that the
-- reader does not take as they were meant.
use webtor_rs.Base.{
  ℕ, ◌+◌, ◌<◌, ◌≤◌, ◌≡◌, refl, sym, ap, ◌∙◌, arith, List, [], ◌∷◌, ◌++◌, append_assoc, some, length,
  lt→ltb, length-append, true, ltb,
}
use webtor_rs.Base.BigEndian.{be16-be16_bytes}
use webtor_rs.Base.Outcome.{Result, ok, err}
use webtor_rs.Base.Action.{>>=-step}
use webtor_rs.Transport.{Transport}
use webtor_rs.Transport.Recorder.{Recorder, Arrivals}
use webtor_rs.Tls.Error.{TlsError}
use webtor_rs.Tls.Cipher.{Crypto, Cipher, Works, chacha20, encrypt, encrypt_sync}
use webtor_rs.Tls.Nonce.{RecordCipher, compute_nonce, increment_sequence}
use webtor_rs.Tls.Layer.{
  RecordLayer, record_header, seal_record, open_record, with_write_cipher, encrypt_record_sync,
}
use webtor_rs.Tls.Record.{on_stream, read_body, read_record, write_single_record}
use webtor_rs.Tls.Record.Trip.{
  inner_plaintext-append, seal_record-Sealed, write_single_record-sent, on_stream-ok,
}

module _ {K C : Type 0} where
  -- A record whose plaintext is padded the way RFC 8446 allows, with zeros after the content type,
  -- is taken for one of content type 0, and the true content type for its data. The call of the
  -- cipher returned.
  pub open_record-padded :
      (decrypt_with : Cipher K C → List ℕ → List ℕ → List ℕ → Result TlsError (List ℕ))
      (header body nonce bytes zeros : List ℕ) (ct : ℕ) (c : RecordCipher K C)
      → compute_nonce c ≡ ok nonce
      → decrypt_with c.aead nonce header body ≡ ok ((bytes ++ ct ∷ zeros) ++ 0 ∷ [])
      → open_record decrypt_with header body c ≡ (ok (0, bytes ++ ct ∷ zeros), increment_sequence c)
  unfolding open_record
  open_record-padded decrypt_with header body nonce bytes zeros ct c e d =
      rw (e, d, inner_plaintext-append (bytes ++ ct ∷ zeros) 0, open_record) refl

module _ {K C : Type 0} (crypto : Crypto K C) (w : Works crypto) where
  seal_sync :
      (k : C) (ct : ℕ) (bytes : List ℕ) (c : RecordCipher K C)
      → c.aead ≡ chacha20 k
      → seal_record (encrypt_sync crypto) ct bytes c ≡ seal_record (encrypt crypto) ct bytes c
  unfolding seal_record encrypt encrypt_sync
  seal_sync k ct bytes c e = rw (e, seal_record) refl

  pub encrypt_record_sync-wire :
      (k : C) (ct : ℕ) (bytes : List ℕ) (c : RecordCipher K C) (layer : RecordLayer K C)
      → layer.write_cipher ≡ some c
      → c.aead ≡ chacha20 k
      → length c.iv ≡ 12
      → (body : List ℕ) × (length body ≡ length bytes + 17)
        × (seal_record (encrypt crypto) ct bytes c ≡ (ok body, increment_sequence c))
        × (encrypt_record_sync crypto ct bytes layer ≡ (
          ok (record_header 23 (length body) ++ body),
          with_write_cipher (increment_sequence c) layer,
        ))
  unfolding encrypt_record_sync
  encrypt_record_sync-wire k ct bytes c layer e a h =
      let (body, (seal, n, open_)) = seal_record-Sealed crypto w ct bytes c h in
      let m : length (bytes ++ ct ∷ []) + 16 ≡ length body =
        omega (arith, length-append bytes (ct ∷ [])) in
      (body, n, seal, rw (e, seal_sync k ct bytes c a ∙ seal, m, encrypt_record_sync) refl)

  module _ {S : Type 0} (t : Transport S) (rec : Recorder t) where
    -- With ChaCha20-Poly1305 and an initialisation vector of 12 bytes, the record that
    -- `encrypt_record_sync` returns is the one that `write_single_record` sends, and both leave the
    -- layer in the same state. The cipher works as an AEAD does, and writing below succeeds.
    pub encrypt_record_sync-write_single_record :
        (k : C) (ct : ℕ) (bytes : List ℕ) (c : RecordCipher K C) (layer : RecordLayer K C) (s : S)
        → layer.write_cipher ≡ some c
        → c.aead ≡ chacha20 k
        → length c.iv ≡ 12
        → (wire : List ℕ) × (after : RecordLayer K C) × (s' : S) × (encrypt_record_sync crypto ct
              bytes layer
            ≡ (ok wire, after))
          × (write_single_record crypto t ct bytes (layer, s) ≡ (ok tt, (after, s')))
          × (rec.sent s' ≡ rec.sent s ++ wire)
    encrypt_record_sync-write_single_record k ct bytes c layer s e a h =
        let (body, n, seal, sync) = encrypt_record_sync-wire k ct bytes c layer e a h in
        let (s', written, sent) =
          write_single_record-sent crypto w t rec ct bytes body c (increment_sequence c) layer s e
            seal in
        (_, _, s', sync, written, sent)

  module _ {S : Type 0} (u : Transport S) (arr : Arrivals u) where
    -- `encrypt_record_sync` does not cut what it is given: the record of more than 16,623 and at
    -- most 65,518 bytes, which it makes with ChaCha20-Poly1305 and an initialisation vector of 12
    -- bytes, is refused by the `read_record` that it reaches.
    pub encrypt_record_sync-too_large :
        (k : C) (ct : ℕ) (bytes wire rest : List ℕ) (c : RecordCipher K C)
        (layer after reader : RecordLayer K C) (s : S)
        → layer.write_cipher ≡ some c
        → c.aead ≡ chacha20 k
        → length c.iv ≡ 12
        → 16623 < length bytes
        → length bytes ≤ 65518
        → encrypt_record_sync crypto ct bytes layer ≡ (ok wire, after)
        → arr.arriving s ≡ wire ++ rest
        → (read_record crypto u (reader, s)).0 ≡ err (TlsError.record_layer "Record too large")
    unfolding read_record
    encrypt_record_sync-too_large k ct bytes wire rest c layer after reader s e a h lo hi sync f =
        let (body, n, seal, made) = encrypt_record_sync-wire k ct bytes c layer e a h in
        let header = record_header 23 (length body) in
        let same : header ++ body ≡ wire = cc in
        let (r1, a1) =
          arr.read_exact-ok header (body ++ rest) s
            (f ∙ ap (λ x. x ++ rest) (sym same) ∙ append_assoc header body rest) in
        let s1 = (u.read_exact 5 s).1 in
        let size : ltb 16640 (length body) ≡ true = lt→ltb 16640 (length body) (omega arith) in
        let refused : read_record crypto u (reader, s)
            ≡ (err (TlsError.record_layer "Record too large"), (reader, s1)) =
          >>=-step (on_stream crypto u (u.read_exact 5)) (read_body crypto u) (reader, s) header
            (reader, s1) (on_stream-ok crypto w u (u.read_exact 5) reader s header r1)
          ∙ rw (be16-be16_bytes (length body) (omega arith), size) refl in
        ap (λ r. r.0) refused
