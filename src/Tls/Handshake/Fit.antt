-- ===== src/Tls/Handshake/Fit.antt =====
-- The keys of subtle-tls/src/handshake.rs are the ones that the record layer can use.
use webtor_rs.Base.{ℕ, ◌*◌, ◌≡◌, refl, ◌∙◌, arith, Bool, List, [], some, length, ◌⊎◌, inl, inr, ◌≤◌}
use webtor_rs.Base.Outcome.{ok}
use webtor_rs.Tls.Cipher.{
  Crypto, Cipher, Works, aes128_gcm, aes256_gcm, chacha20, import, new_128, new_256, chacha_cipher,
}
use webtor_rs.Tls.Nonce.{new}
use webtor_rs.Tls.Layer.{RecordLayer, create_cipher, set_read_cipher, with_cipher, with_read_cipher}
use webtor_rs.Tls.Hkdf.{IsHmac, length-expand_label}
use webtor_rs.Tls.Handshake.{Primitives, HandshakeState, get_key_size}
use webtor_rs.Tls.Handshake.Keys.{side, traffic_keys, get_handshake_keys, key_label, iv_label}

-- Web Crypto imports a raw AES key of the stated length.
pub record Imports {K C : Type 0} (crypto : Crypto K C) : Type 0 where
  pub imports :
      (key : List ℕ) (bits : ℕ)
      → length key * 8 ≡ bits
      → (k : K) × (crypto.import_key key bits ≡ some k)

abbrev pub IsSuite : ℕ → Type 0
IsSuite n = (n ≡ 0x1301) ⊎ ((n ≡ 0x1302) ⊎ (n ≡ 0x1303))

module _ (p : Primitives) (h : IsHmac p.hmac) where
  length-traffic_keys :
      (secret : List ℕ) (hs : HandshakeState)
      → get_key_size hs ≤ 8160
      → (key : List ℕ) × (iv : List ℕ) × (traffic_keys p secret hs ≡ ok (key, iv))
        × (length key ≡ get_key_size hs)
        × (length iv ≡ 12)
  unfolding traffic_keys
  length-traffic_keys secret hs b =
      let (key, e, n) = length-expand_label p.hmac h secret key_label [] (get_key_size hs) b in
      let (iv, f, m) = length-expand_label p.hmac h secret iv_label [] 12 (omega arith) in
      (key, iv, rw (e, f, traffic_keys) refl, n, m)

  module _ {K C : Type 0} (crypto : Crypto K C) (w : Works crypto) (i : Imports crypto) where
    aes128_fits :
        (layer : RecordLayer K C) (key : List ℕ) (k : K)
        → layer.cipher_suite ≡ 0x1301
        → length key ≡ 16
        → crypto.import_key key 128 ≡ some k
        → create_cipher crypto layer key ≡ ok (aes128_gcm k)
    unfolding create_cipher new_128 import
    aes128_fits layer key k e n f = rw (e, n, w.subtle_there, f, create_cipher) refl

    aes256_fits :
        (layer : RecordLayer K C) (key : List ℕ) (k : K)
        → layer.cipher_suite ≡ 0x1302
        → length key ≡ 32
        → crypto.import_key key 256 ≡ some k
        → create_cipher crypto layer key ≡ ok (aes256_gcm k)
    unfolding create_cipher new_256 import
    aes256_fits layer key k e n f = rw (e, n, w.subtle_there, f, create_cipher) refl

    chacha_fits :
        (layer : RecordLayer K C) (key : List ℕ)
        → layer.cipher_suite ≡ 0x1303
        → length key ≡ 32
        → create_cipher crypto layer key ≡ ok (chacha20 (crypto.chacha_new key))
    unfolding create_cipher chacha_cipher
    chacha_fits layer key e n = rw (e, n, create_cipher) refl

    create_cipher-fits :
        (hs : HandshakeState) (layer : RecordLayer K C) (key : List ℕ)
        → layer.cipher_suite ≡ hs.cipher_suite
        → IsSuite hs.cipher_suite
        → length key ≡ get_key_size hs
        → (cipher : Cipher K C) × (create_cipher crypto layer key ≡ ok cipher)
    create_cipher-fits hs layer key e (inl s) n =
        let m : length key ≡ 16 = n ∙ rw s refl in
        let (k, f) = i.imports key 128 (omega arith) in
        (aes128_gcm k, aes128_fits layer key k (e ∙ s) m f)
    create_cipher-fits hs layer key e (inr (inl s)) n =
        let m : length key ≡ 32 = n ∙ rw s refl in
        let (k, f) = i.imports key 256 (omega arith) in
        (aes256_gcm k, aes256_fits layer key k (e ∙ s) m f)
    create_cipher-fits hs layer key e (inr (inr s)) n =
        (chacha20 (crypto.chacha_new key), chacha_fits layer key (e ∙ s) (n ∙ rw s refl))

    get_key_size-small : (hs : HandshakeState) → IsSuite hs.cipher_suite → get_key_size hs ≤ 8160
    get_key_size-small hs (inl s) = rw s (omega arith)
    get_key_size-small hs (inr (inl s)) = rw s (omega arith)
    get_key_size-small hs (inr (inr s)) = rw s (omega arith)

    set_read_cipher-made :
        (layer : RecordLayer K C) (key iv : List ℕ) (cipher : Cipher K C)
        → create_cipher crypto layer key ≡ ok cipher
        → set_read_cipher crypto key iv layer ≡ (ok tt, with_read_cipher (new cipher iv) layer)
    unfolding set_read_cipher
    set_read_cipher-made layer key iv cipher e = rw (e, set_read_cipher, with_cipher) refl

    -- For each of the three cipher suites, and a record layer that is set to it: once the secret of
    -- a side is there, `get_handshake_keys` returns, and `set_read_cipher` takes its key, so that
    -- the layer reads with a fresh cipher and an initialisation vector of 12 bytes. HMAC returns 32
    -- bytes, and a key of the right length is imported.
    pub set_read_cipher-get_handshake_keys :
        (hs : HandshakeState) (layer : RecordLayer K C) (is_client : Bool) (secret : List ℕ)
        → side is_client hs.client_handshake_secret hs.server_handshake_secret
            "Missing handshake secret"
          ≡ ok secret
        → layer.cipher_suite ≡ hs.cipher_suite
        → IsSuite hs.cipher_suite
        → (key : List ℕ) × (iv : List ℕ) × (cipher : Cipher K C) × (get_handshake_keys p is_client
              hs
            ≡ ok (key, iv))
          × (set_read_cipher crypto key iv layer ≡ (ok tt, with_read_cipher (new cipher iv) layer))
          × (length iv ≡ 12)
    unfolding get_handshake_keys
    set_read_cipher-get_handshake_keys hs layer is_client secret there e suite =
        let (key, iv, got, n, m) = length-traffic_keys secret hs (get_key_size-small hs suite) in
        let (cipher, made) = create_cipher-fits hs layer key e suite n in
        (key, iv, cipher, rw (there, got) refl, set_read_cipher-made layer key iv cipher made, m)
