-- ===== src/Tls/Layer.antt =====
-- `RecordLayer` of subtle-tls/src/record.rs: the state of the TLS 1.3 record layer and the calls
-- that need no stream. An array of fixed length is read with 0 past its end.
use webtor_rs.Base.{
  ℕ, zero, suc, ◌+◌, ◌-◌, ◌/◌, ◌%◌, List, [], ◌∷◌, ◌++◌, Option, none, some, length, take, drop,
  get_or, ltb, ◌==◌, if◌then◌else◌,
}
use webtor_rs.Base.BigEndian.{be24, be16_bytes}
use webtor_rs.Base.Outcome.{Result, ok, err, panics, stuck, ◌>>=◌}
use webtor_rs.Base.Action.{Action}
use webtor_rs.Tls.Error.{TlsError}
use webtor_rs.Tls.Cipher.{
  Crypto, Cipher, aes128_gcm, aes256_gcm, chacha20, new_128, new_256, chacha_cipher, encrypt_sync,
  decrypt_sync,
}
use webtor_rs.Tls.Nonce.{RecordCipher, new, compute_nonce, increment_sequence}

abbrev pub max_record_size : ℕ
max_record_size = 16384 + 256

abbrev pub max_plaintext_size : ℕ
max_plaintext_size = 16384

abbrev pub content_type_handshake : ℕ
content_type_handshake = 22

abbrev pub content_type_application_data : ℕ
content_type_application_data = 23

abbrev pub tls_version_1_2 : ℕ
tls_version_1_2 = 0x0303

pub record RecordLayer (K C : Type 0) : Type 0 where
  pub read_cipher : Option (RecordCipher K C)
  pub write_cipher : Option (RecordCipher K C)
  pub cipher_suite : ℕ

module _ {K C : Type 0} where
  abbrev pub new_layer : RecordLayer K C
  new_layer = record { read_cipher = none; write_cipher = none; cipher_suite = 0x1301 }

  abbrev pub set_cipher_suite : ℕ → RecordLayer K C → RecordLayer K C
  set_cipher_suite cipher_suite layer = record layer { cipher_suite = cipher_suite }

  abbrev pub with_read_cipher : RecordCipher K C → RecordLayer K C → RecordLayer K C
  with_read_cipher c layer = record layer { read_cipher = some c }

  abbrev pub with_write_cipher : RecordCipher K C → RecordLayer K C → RecordLayer K C
  with_write_cipher c layer = record layer { write_cipher = some c }

-- `[content][content_type]`
unfoldable pub inner_plaintext : List ℕ → Result TlsError (ℕ × List ℕ)
inner_plaintext plaintext =
    if length plaintext == 0
    then err (TlsError.record_layer "Empty decrypted record")
    else ok (get_or plaintext (length plaintext - 1) 0, take (length plaintext - 1) plaintext)

-- The five bytes before a body of `n` bytes.
abbrev pub record_header : ℕ → ℕ → List ℕ
record_header record_type n =
    record_type ∷ tls_version_1_2 / 256 % 256 ∷ tls_version_1_2 % 256 ∷ be16_bytes n

-- `data.chunks(n)` on fuel for one chunk each.
abbrev pub chunks_fuel : ℕ → ℕ → List ℕ → List (List ℕ)
chunks_fuel zero n bytes = []
chunks_fuel (suc fuel) n [] = []
chunks_fuel (suc fuel) n (b ∷ bytes) = take n (b ∷ bytes) ∷ chunks_fuel fuel n (drop n (b ∷ bytes))

abbrev pub chunks : ℕ → List ℕ → List (List ℕ)
chunks n bytes = chunks_fuel (length bytes) n bytes

-- The loop of `read_handshake_messages`, on the bytes from `pos` on; each round takes four at least.
unfoldable pub handshake_messages : ℕ → List ℕ → Result TlsError (List (ℕ × List ℕ))
handshake_messages zero bytes = stuck
handshake_messages (suc fuel) (msg_type ∷ a ∷ b ∷ c ∷ bytes) =
    let n = be24 a b c in
    let rest = handshake_messages fuel (drop n bytes) in
    if ltb (length bytes) n
    then err (TlsError.record_layer "Handshake message extends beyond record")
    else (rest >>= λ messages. ok ((msg_type, take n bytes) ∷ messages))
handshake_messages (suc fuel) bytes = ok []

module _ {K C : Type 0} where
  -- Decrypts one record with the given call of the cipher; a failed call leaves the sequence number.
  unfoldable pub open_record :
      (Cipher K C → List ℕ → List ℕ → List ℕ → Result TlsError (List ℕ))
      → List ℕ
      → List ℕ
      → Action (RecordCipher K C) TlsError (ℕ × List ℕ)
  open_record decrypt_with header body c =
      elim (compute_nonce c >>= λ nonce. decrypt_with c.aead nonce header body) [
        | ok plaintext ↦ (inner_plaintext plaintext, increment_sequence c)
        | err e ↦ (err e, c)
        | panics ↦ (panics, c)
        | stuck ↦ (stuck, c)
      ]

  -- Encrypts one record with the given call of the cipher, with the content type after the data.
  unfoldable pub seal_record :
      (Cipher K C → List ℕ → List ℕ → List ℕ → Result TlsError (List ℕ))
      → ℕ
      → List ℕ
      → Action (RecordCipher K C) TlsError (List ℕ)
  seal_record encrypt_with content_type bytes c =
      let plaintext = bytes ++ content_type ∷ [] in
      let aad = record_header content_type_application_data (length plaintext + 16) in
      elim (compute_nonce c >>= λ nonce. encrypt_with c.aead nonce aad plaintext) [
        | ok ciphertext ↦ (ok ciphertext, increment_sequence c)
        | err e ↦ (err e, c)
        | panics ↦ (panics, c)
        | stuck ↦ (stuck, c)
      ]

module _ {K C : Type 0} (crypto : Crypto K C) where
  unfoldable pub create_cipher : RecordLayer K C → List ℕ → Result TlsError (Cipher K C)
  create_cipher layer key =
      if layer.cipher_suite == 0x1301
      then (new_128 crypto key >>= λ k. ok (aes128_gcm k))
      else if layer.cipher_suite == 0x1302
      then (new_256 crypto key >>= λ k. ok (aes256_gcm k))
      else if layer.cipher_suite == 0x1303
      then (chacha_cipher crypto key >>= λ c. ok (chacha20 c))
      else err (TlsError.protocol "Unsupported cipher suite")

  abbrev pub with_cipher :
      (RecordCipher K C → RecordLayer K C → RecordLayer K C)
      → List ℕ
      → List ℕ
      → Action (RecordLayer K C) TlsError (Unit {0})
  with_cipher set key iv layer = elim (create_cipher layer key) [
    | ok aead ↦ (ok tt, set (new aead iv) layer)
    | err e ↦ (err e, layer)
    | panics ↦ (panics, layer)
    | stuck ↦ (stuck, layer)
  ]

  unfoldable pub set_read_cipher : List ℕ → List ℕ → Action (RecordLayer K C) TlsError (Unit {0})
  set_read_cipher = with_cipher with_read_cipher

  unfoldable pub set_write_cipher : List ℕ → List ℕ → Action (RecordLayer K C) TlsError (Unit {0})
  set_write_cipher = with_cipher with_write_cipher

  unfoldable pub decrypt_record_sync :
      List ℕ → List ℕ → Action (RecordLayer K C) TlsError (ℕ × List ℕ)
  decrypt_record_sync header body layer = elim layer.read_cipher [
    | none ↦ (ok (get_or header 0 0, body), layer)
    | some c ↦
        let (r, c') = open_record (decrypt_sync crypto) header body c in
        (r, with_read_cipher c' layer)
  ]

  unfoldable pub encrypt_record_sync : ℕ → List ℕ → Action (RecordLayer K C) TlsError (List ℕ)
  encrypt_record_sync content_type bytes layer = elim layer.write_cipher [
    | none ↦ (ok (record_header content_type (length bytes) ++ bytes), layer)
    | some c ↦
        let (r, c') = seal_record (encrypt_sync crypto) content_type bytes c in
        (
          r >>= λ ciphertext. ok (
              record_header content_type_application_data (length (bytes ++ content_type ∷ []) + 16)
              ++ ciphertext),
          with_write_cipher c' layer,
        )
  ]
