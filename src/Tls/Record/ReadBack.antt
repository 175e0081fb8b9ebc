-- ===== src/Tls/Record/ReadBack.antt =====
-- subtle-tls/src/record.rs: data written by `write_record` in as many records as it takes, and read
-- by as many calls of `read_record`.
use mathlib.Core.List.{flatten, map}
use webtor_rs.Base.{
  ℕ, zero, suc, ◌≤◌, ◌<◌, ◌≡◌, refl, sym, ap, ◌∙◌, arith, List, [], ◌∷◌, ◌++◌, append_assoc,
  append-nil, some, length, take, drop, All, take-append-drop, length-take, length-drop,
  drop-length-append,
}
use webtor_rs.Base.Outcome.{ok}
use webtor_rs.Base.Action.{Action, ◌>>=◌, pure, >>=-step}
use webtor_rs.Transport.{Transport}
use webtor_rs.Transport.Recorder.{Recorder, Arrivals}
use webtor_rs.Tls.Error.{TlsError}
use webtor_rs.Tls.Cipher.{Crypto, Works}
use webtor_rs.Tls.Nonce.{RecordCipher, increment_sequence}
use webtor_rs.Tls.Layer.{
  RecordLayer, record_header, chunks, chunks_fuel, max_plaintext_size, with_read_cipher,
  with_write_cipher,
}
use webtor_rs.Tls.Record.{read_record, write_single_record, write_chunks, write_record}
use webtor_rs.Tls.Record.Trip.{seal_record-Sealed, write_single_record-sent, read_record-arriving}

-- Chunks of at most `n` bytes that join to the bytes.
chunks_fuel_split :
    (fuel n : ℕ) (bytes : List ℕ)
    → 0 < n
    → length bytes ≤ fuel
    → (flatten (chunks_fuel fuel n bytes) ≡ bytes)
      × All (λ c. length c ≤ n) (chunks_fuel fuel n bytes)
unfolding flatten
chunks_fuel_split zero n [] hn h = (refl, tt)
chunks_fuel_split zero n (b ∷ bytes) hn h = absurd (omega arith)
chunks_fuel_split (suc fuel) n [] hn h = (refl, tt)
chunks_fuel_split (suc fuel) n (b ∷ bytes) hn h =
    let (e, a) =
      chunks_fuel_split fuel n (drop n (b ∷ bytes)) hn (omega (arith, length-drop n (b ∷ bytes))) in
    (
      ap (λ r. take n (b ∷ bytes) ++ r) e ∙ take-append-drop n (b ∷ bytes),
      (omega (arith, length-take n (b ∷ bytes)), a),
    )

append_cancel : (xs ys zs : List ℕ) → xs ++ ys ≡ xs ++ zs → ys ≡ zs
append_cancel xs ys zs e =
    sym (drop-length-append xs ys) ∙ ap (drop (length xs)) e ∙ drop-length-append xs zs

module _ {K C : Type 0} (crypto : Crypto K C) where
  -- `n` calls of `read_record`.
  abbrev pub read_records :
      {S : Type 0} → Transport S → ℕ → Action (RecordLayer K C × S) TlsError (List (ℕ × List ℕ))
  read_records t zero = pure []
  read_records t (suc n) = read_record crypto t >>= λ r. read_records t n >>= λ rs. pure (r ∷ rs)

module _ {K C : Type 0} (crypto : Crypto K C) (w : Works crypto) {S V : Type 0} (t : Transport S)
    (rec : Recorder t) (u : Transport V) (arr : Arrivals u) where
  -- Bytes that a reader whose cipher is in the state `c` takes for the records `cs`.
  abbrev Opens : ℕ → List (List ℕ) → RecordCipher K C → RecordCipher K C → List ℕ → Type 0
  Opens ct cs c c' wire =
      (layer : RecordLayer K C) (v : V) (rest : List ℕ)
      → layer.read_cipher ≡ some c
      → arr.arriving v ≡ wire ++ rest
      → (v' : V) × (read_records crypto u (length cs) (layer, v)
          ≡ (ok (map (λ bytes. (ct, bytes)) cs), (with_read_cipher c' layer, v')))
        × (arr.arriving v' ≡ rest)

  write_chunks-Opens :
      (ct : ℕ) (cs : List (List ℕ)) (c : RecordCipher K C) (layer : RecordLayer K C) (s : S)
      → layer.write_cipher ≡ some c
      → length c.iv ≡ 12
      → All (λ bytes. length bytes ≤ max_plaintext_size) cs
      → (c' : RecordCipher K C) × (wire : List ℕ) × (s' : S) × ((write_chunks crypto t ct cs
              (layer, s)
            ≡ (ok tt, (with_write_cipher c' layer, s')))
          × ((rec.sent s' ≡ rec.sent s ++ wire) × Opens ct cs c c' wire))
  write_chunks-Opens ct [] c layer s e h a = (
    c,
    [],
    s,
    (
      ap (λ o. (ok tt, (record layer { write_cipher = o }, s))) e,
      (
        sym (append-nil (rec.sent s)),
        λ layer v rest d f. (v, ap (λ o. (ok [], (record layer { read_cipher = o }, v))) d, f),
      ),
    ),
  )
  write_chunks-Opens ct (bytes ∷ cs) c layer s e h a =
      let (body, (seal, n, open_)) = seal_record-Sealed crypto w ct bytes c h in
      let (s1, sent1, wire1) =
        write_single_record-sent crypto w t rec ct bytes body c (increment_sequence c) layer s e
          seal in
      let (c', wire, s', (sent2, (wire2, opens))) =
        write_chunks-Opens ct cs (increment_sequence c)
          (with_write_cipher (increment_sequence c) layer) s1 refl h a.1 in
      let record_bytes = record_header 23 (length body) ++ body in
      (
        c',
        record_bytes ++ wire,
        s',
        (
          >>=-step (write_single_record crypto t ct bytes) (λ done. write_chunks crypto t ct cs)
                (layer, s) tt (with_write_cipher (increment_sequence c) layer, s1) sent1
              ∙ sent2,
          (
            wire2 ∙ ap (λ r. r ++ wire) wire1 ∙ append_assoc (rec.sent s) record_bytes wire,
            λ layer v rest d f.
                let (v1, get1, left1) =
                  read_record-arriving crypto w u arr ct bytes body (wire ++ rest) c
                    (increment_sequence c) layer v d (f ∙ append_assoc record_bytes wire rest)
                    (omega arith) open_ in
                let (v2, get2, left2) =
                  opens (with_read_cipher (increment_sequence c) layer) v1 rest refl left1 in
                (
                  v2,
                  >>=-step (read_record crypto u)
                        (λ r. read_records crypto u (length cs) >>= λ rs. pure (r ∷ rs)) (layer, v)
                        (ct, bytes) (with_read_cipher (increment_sequence c) layer, v1) get1
                      ∙ >>=-step (read_records crypto u (length cs)) (λ rs. pure ((ct, bytes) ∷ rs))
                          (with_read_cipher (increment_sequence c) layer, v1)
                          (map (λ bytes. (ct, bytes)) cs) (with_read_cipher c' layer, v2) get2,
                  left2,
                ),
          ),
        ),
      )

  -- Everything written is read: the call has returned, and the layer at the other end, from which
  -- `rest` is still to come, takes the records as parts of `bytes` with their content type and has
  -- its cipher in the state of the writer's.
  abbrev pub ReadsBack : ℕ → List ℕ → List ℕ → RecordLayer K C × V → RecordLayer K C × S → Type 0
  ReadsBack ct bytes rest r s =
      ((write_record crypto t ct bytes s).0 ≡ ok tt)
      × (parts : List (List ℕ)) × (c : RecordCipher K C) × (v : V) × (flatten parts ≡ bytes)
      × ((write_record crypto t ct bytes s).1.0.write_cipher ≡ some c)
      × (read_records crypto u (length parts) r
          ≡ (ok (map (λ part. (ct, part)) parts), (with_read_cipher c r.0, v)))
      × (arr.arriving v ≡ rest)

  -- A writer and a reader whose ciphers are in the same state, with an initialisation vector of 12
  -- bytes: for data of any length and content type, the call of `write_record` returns, and the
  -- bytes that it sends are read back as that data by one `read_record` per record, whatever bytes
  -- follow. The two ciphers are in the same state again. The ciphers work as an AEAD does, writing
  -- below succeeds, and the reader's stream delivers the bytes sent.
  pub write_record-ReadsBack :
      (ct : ℕ) (bytes wire rest : List ℕ) (c : RecordCipher K C) (writer reader : RecordLayer K C)
      (s : S) (v : V)
      → writer.write_cipher ≡ some c
      → reader.read_cipher ≡ some c
      → length c.iv ≡ 12
      → rec.sent (write_record crypto t ct bytes (writer, s)).1.1 ≡ rec.sent s ++ wire
      → arr.arriving v ≡ wire ++ rest
      → ReadsBack ct bytes rest (reader, v) (writer, s)
  unfolding write_record
  write_record-ReadsBack ct bytes wire rest c writer reader s v hw hr h e f =
      let cs = chunks max_plaintext_size bytes in
      let (whole, small) =
        chunks_fuel_split (length bytes) max_plaintext_size bytes (omega arith) (omega arith) in
      let (c', wire', s', (written, (sent, opens))) =
        write_chunks-Opens ct cs c writer s hw h small in
      let same : wire' ≡ wire =
        append_cancel (rec.sent s) wire' wire
          (sym sent ∙ ap (λ r. rec.sent r.1.1) (sym written) ∙ e) in
      let (v', got, left) = opens reader v rest hr (f ∙ ap (λ x. x ++ rest) (sym same)) in
      (ap (λ r. r.0) written, cs, c', v', whole, ap (λ r. r.1.0.write_cipher) written, got, left)
