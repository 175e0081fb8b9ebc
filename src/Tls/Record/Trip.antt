-- ===== src/Tls/Record/Trip.antt =====
-- subtle-tls/src/record.rs: what one record layer writes, the layer at the other end reads back.
use webtor_rs.Base.{
  ℕ, suc, ◌+◌, ◌-◌, ◌≤◌, ◌≡◌, refl, ◌∙◌, arith, List, [], ◌∷◌, ◌++◌, append_assoc, some, length,
  get_or, length-append, take-length-append, le→ltb_false,
}
use webtor_rs.Base.BigEndian.{be16-be16_bytes}
use webtor_rs.Base.Outcome.{ok}
use webtor_rs.Base.Action.{Action, >>=-step}
use webtor_rs.Error.{IoError}
use webtor_rs.Transport.{Transport}
use webtor_rs.Transport.Recorder.{Recorder, Arrivals}
use webtor_rs.Tls.Cipher.{Crypto, Works, encrypt-Seals, encrypt, decrypt}
use webtor_rs.Tls.Nonce.{RecordCipher, increment_sequence}
use webtor_rs.Tls.Nonces.{compute_nonce_total}
use webtor_rs.Tls.Layer.{
  RecordLayer, inner_plaintext, record_header, seal_record, open_record, with_read_cipher,
  with_write_cipher,
}
use webtor_rs.Tls.Record.{
  read_record, write_single_record, unprotect, protect, on_stream, read_body, write_body,
}

get_or_last : (xs : List ℕ) (x d : ℕ) → get_or (xs ++ x ∷ []) (length xs) d ≡ x
get_or_last [] x d = refl
get_or_last (y ∷ xs) x d = get_or_last xs x d

pub inner_plaintext-append :
    (bytes : List ℕ) (ct : ℕ) → inner_plaintext (bytes ++ ct ∷ []) ≡ ok (ct, bytes)
unfolding inner_plaintext
inner_plaintext-append bytes ct =
    let n : length (bytes ++ ct ∷ []) ≡ suc (length bytes) =
      omega (arith, length-append bytes (ct ∷ [])) in
    let e : suc (length bytes) - 1 ≡ length bytes = omega arith in
    rw (n, e, get_or_last bytes ct 0, take-length-append bytes (ct ∷ [])) (ground arith)

module _ {K C : Type 0} (crypto : Crypto K C) (w : Works crypto) where
  -- A record that `c` seals, and that a cipher in the same state opens.
  abbrev pub Sealed : ℕ → List ℕ → RecordCipher K C → List ℕ → Type 0
  Sealed ct bytes c body =
      (seal_record (encrypt crypto) ct bytes c ≡ (ok body, increment_sequence c))
      × (length body ≡ length bytes + 17)
      × (open_record (decrypt crypto) (record_header 23 (length body)) body c
          ≡ (ok (ct, bytes), increment_sequence c))

  pub seal_record-Sealed :
      (ct : ℕ) (bytes : List ℕ) (c : RecordCipher K C)
      → length c.iv ≡ 12
      → (body : List ℕ) × Sealed ct bytes c body
  unfolding seal_record open_record
  seal_record-Sealed ct bytes c h =
      let (nonce, e, n) = compute_nonce_total c (omega arith) in
      let text = bytes ++ ct ∷ [] in
      let aad = record_header 23 (length text + 16) in
      let (body, s, m, d) = encrypt-Seals crypto w c.aead nonce aad text (omega arith) in
      (
        body,
        (
          rw (e, s, seal_record) refl,
          omega (arith, length-append bytes (ct ∷ [])),
          rw (m, e, d, inner_plaintext-append bytes ct, open_record) refl,
        ),
      )

  pub on_stream-ok :
      {S A : Type 0} (t : Transport S) (call : Action S IoError A) (layer : RecordLayer K C) (s : S)
      (a : A)
      → (call s).0 ≡ ok a
      → on_stream crypto t call (layer, s) ≡ (ok a, (layer, (call s).1))
  on_stream-ok t call layer s a e = rw (e, on_stream) refl

  module _ {S : Type 0} (t : Transport S) (rec : Recorder t) where
    -- One record on the wire.
    pub write_single_record-sent :
        (ct : ℕ) (bytes body : List ℕ) (c c' : RecordCipher K C) (layer : RecordLayer K C) (s : S)
        → layer.write_cipher ≡ some c
        → seal_record (encrypt crypto) ct bytes c ≡ (ok body, c')
        → (s' : S) × (write_single_record crypto t ct bytes (layer, s)
            ≡ (ok tt, (with_write_cipher c' layer, s')))
          × (rec.sent s' ≡ rec.sent s ++ (record_header 23 (length body) ++ body))
    unfolding write_single_record protect
    write_single_record-sent ct bytes body c c' layer s e h =
        let wire = record_header 23 (length body) ++ body in
        let s1 = (t.write_all wire s).1 in
        (
          (t.flush s1).1,
          >>=-step (protect crypto t ct bytes) (write_body crypto t) (layer, s) (23, body)
                (with_write_cipher c' layer, s) (rw (e, h, protect) refl)
              ∙ >>=-step (on_stream crypto t (t.write_all wire)) (λ _. on_stream crypto t t.flush)
                  (with_write_cipher c' layer, s) tt (with_write_cipher c' layer, s1)
                  (on_stream-ok t (t.write_all wire) _ s tt (rec.write_all-ok wire s))
              ∙ on_stream-ok t t.flush _ s1 tt (rec.flush-ok s1),
          rec.sent-flush s1 ∙ rec.sent-write_all wire s,
        )

  module _ {S : Type 0} (u : Transport S) (arr : Arrivals u) where
    pub read_record-arriving :
        (ct : ℕ) (bytes body rest : List ℕ) (c c' : RecordCipher K C) (layer : RecordLayer K C)
        (s : S)
        → layer.read_cipher ≡ some c
        → arr.arriving s ≡ (record_header 23 (length body) ++ body) ++ rest
        → length body ≤ 16640
        → open_record (decrypt crypto) (record_header 23 (length body)) body c
          ≡ (ok (ct, bytes), c')
        → (s' : S) × (read_record crypto u (layer, s)
            ≡ (ok (ct, bytes), (with_read_cipher c' layer, s')))
          × (arr.arriving s' ≡ rest)
    unfolding read_record unprotect
    read_record-arriving ct bytes body rest c c' layer s e h n d =
        let header = record_header 23 (length body) in
        let (r1, a1) =
          arr.read_exact-ok header (body ++ rest) s (h ∙ append_assoc header body rest) in
        let s1 = (u.read_exact 5 s).1 in
        let (r2, a2) = arr.read_exact-ok body rest s1 a1 in
        (
          (u.read_exact (length body) s1).1,
          >>=-step (on_stream crypto u (u.read_exact 5)) (read_body crypto u) (layer, s) header
                (layer, s1) (on_stream-ok u (u.read_exact 5) layer s header r1)
              ∙ rw (be16-be16_bytes (length body) (omega arith), le→ltb_false 16640 (length body) n)
                  (>>=-step (on_stream crypto u (u.read_exact (length body)))
                      (unprotect crypto u header) (layer, s1) body
                      (layer, (u.read_exact (length body) s1).1)
                      (on_stream-ok u (u.read_exact (length body)) layer s1 body r2)
                    ∙ rw (e, d, unprotect) refl),
          a2,
        )
