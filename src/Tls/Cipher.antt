-- ===== src/Tls/Cipher.antt =====
-- subtle-tls/src/crypto.rs: the AEAD ciphers of the record layer. The Web Crypto API and the
-- crate chacha20poly1305 are the parameter `Crypto`; the checks of lengths and the choice between
-- them are the source's.
use webtor_rs.Base.{
  String, ℕ, ◌+◌, ◌≡◌, Bool, true, false, Option, none, some, List, length, ltb, ◌==◌,
  if◌then◌else◌, refl, arith, ==_iff, le→ltb_false,
}
use webtor_rs.Base.Outcome.{Result, ok, err, ◌>>=◌}
use webtor_rs.Tls.Error.{TlsError}

-- What `Reflect::get` finds.
pub data Property : Type 0 where
  failed undefined found : Property

-- The calls that the source makes of code it does not contain. The arguments are in the order key,
-- nonce, additional data, text.
pub record Crypto (K C : Type 0) : Type 0 where
  -- `web_sys::window()` has a `crypto`.
  pub window_crypto : Bool
  -- `globalThis.crypto` and its `subtle`.
  pub global_crypto : Property
  pub global_subtle : Property
  pub import_key : List ℕ → ℕ → Option K
  pub aes_encrypt : K → List ℕ → List ℕ → List ℕ → Option (List ℕ)
  pub aes_decrypt : K → List ℕ → List ℕ → List ℕ → Option (List ℕ)
  pub chacha_new : List ℕ → C
  pub chacha_encrypt : C → List ℕ → List ℕ → List ℕ → Option (List ℕ)
  pub chacha_decrypt : C → List ℕ → List ℕ → List ℕ → Option (List ℕ)

pub data Cipher (K C : Type 0) : Type 0 where
  aes128_gcm aes256_gcm : K → Cipher K C
  chacha20 : C → Cipher K C

-- `.map_err(|e| error)`
abbrev pub or_error : {A : Type 0} → Option A → TlsError → Result TlsError A
or_error (some a) e = ok a
or_error none e = err e

module _ {K C : Type 0} (crypto : Crypto K C) where
  abbrev property : Property → String → String → Result TlsError (Unit {0})
  property found missing absent = ok tt
  property failed missing absent = err (TlsError.subtle_crypto missing)
  property undefined missing absent = err (TlsError.subtle_crypto absent)

  unfoldable pub get_subtle_crypto : Result TlsError (Unit {0})
  get_subtle_crypto =
      if crypto.window_crypto
      then ok tt
      else property crypto.global_crypto "No crypto object in globalThis"
          "globalThis.crypto is undefined"
        >>= λ _.
            property crypto.global_subtle "No subtle property on crypto"
              "crypto.subtle is undefined"

  unfoldable pub import : List ℕ → ℕ → Result TlsError K
  import key bits = get_subtle_crypto >>= λ _.
      or_error (crypto.import_key key bits) (TlsError.subtle_crypto "Key import failed")

  unfoldable pub new_128 : List ℕ → Result TlsError K
  new_128 key =
      if length key == 16
      then import key 128
      else err (TlsError.crypto "AES-128-GCM requires 16-byte key")

  unfoldable pub new_256 : List ℕ → Result TlsError K
  new_256 key =
      if length key == 32
      then import key 256
      else err (TlsError.crypto "AES-256-GCM requires 32-byte key")

  unfoldable pub aes_gcm_encrypt : K → List ℕ → List ℕ → List ℕ → Result TlsError (List ℕ)
  aes_gcm_encrypt k nonce aad plaintext =
      if length nonce == 12
      then (get_subtle_crypto >>= λ _.
          or_error (crypto.aes_encrypt k nonce aad plaintext)
            (TlsError.subtle_crypto "Encryption failed"))
      else err (TlsError.crypto "AES-GCM requires 12-byte nonce")

  unfoldable pub aes_gcm_decrypt : K → List ℕ → List ℕ → List ℕ → Result TlsError (List ℕ)
  aes_gcm_decrypt k nonce aad ciphertext =
      if length nonce == 12
      then if ltb (length ciphertext) 16
        then err (TlsError.crypto "Ciphertext too short (missing tag)")
        else (get_subtle_crypto >>= λ _.
            or_error (crypto.aes_decrypt k nonce aad ciphertext)
              (TlsError.crypto "Decryption failed (bad tag?)"))
      else err (TlsError.crypto "AES-GCM requires 12-byte nonce")

  unfoldable pub chacha_cipher : List ℕ → Result TlsError C
  chacha_cipher key =
      if length key == 32
      then ok (crypto.chacha_new key)
      else err (TlsError.crypto "ChaCha20-Poly1305 requires 32-byte key")

  unfoldable pub chacha_encrypt : C → List ℕ → List ℕ → List ℕ → Result TlsError (List ℕ)
  chacha_encrypt c nonce aad plaintext =
      if length nonce == 12
      then or_error (crypto.chacha_encrypt c nonce aad plaintext)
          (TlsError.crypto "ChaCha20-Poly1305 encryption failed")
      else err (TlsError.crypto "ChaCha20-Poly1305 requires 12-byte nonce")

  unfoldable pub chacha_decrypt : C → List ℕ → List ℕ → List ℕ → Result TlsError (List ℕ)
  chacha_decrypt c nonce aad ciphertext =
      if length nonce == 12
      then if ltb (length ciphertext) 16
        then err (TlsError.crypto "Ciphertext too short (missing tag)")
        else or_error (crypto.chacha_decrypt c nonce aad ciphertext)
            (TlsError.crypto "ChaCha20-Poly1305 decryption failed")
      else err (TlsError.crypto "ChaCha20-Poly1305 requires 12-byte nonce")

  unfoldable pub encrypt : Cipher K C → List ℕ → List ℕ → List ℕ → Result TlsError (List ℕ)
  encrypt (aes128_gcm k) nonce aad plaintext = aes_gcm_encrypt k nonce aad plaintext
  encrypt (aes256_gcm k) nonce aad plaintext = aes_gcm_encrypt k nonce aad plaintext
  encrypt (chacha20 c) nonce aad plaintext = chacha_encrypt c nonce aad plaintext

  unfoldable pub decrypt : Cipher K C → List ℕ → List ℕ → List ℕ → Result TlsError (List ℕ)
  decrypt (aes128_gcm k) nonce aad ciphertext = aes_gcm_decrypt k nonce aad ciphertext
  decrypt (aes256_gcm k) nonce aad ciphertext = aes_gcm_decrypt k nonce aad ciphertext
  decrypt (chacha20 c) nonce aad ciphertext = chacha_decrypt c nonce aad ciphertext

  abbrev encrypt_only : TlsError
  encrypt_only = TlsError.crypto "Synchronous encryption only supported for ChaCha20-Poly1305"

  abbrev decrypt_only : TlsError
  decrypt_only = TlsError.crypto "Synchronous decryption only supported for ChaCha20-Poly1305"

  unfoldable pub encrypt_sync : Cipher K C → List ℕ → List ℕ → List ℕ → Result TlsError (List ℕ)
  encrypt_sync (aes128_gcm k) nonce aad plaintext = err encrypt_only
  encrypt_sync (aes256_gcm k) nonce aad plaintext = err encrypt_only
  encrypt_sync (chacha20 c) nonce aad plaintext = chacha_encrypt c nonce aad plaintext

  unfoldable pub decrypt_sync : Cipher K C → List ℕ → List ℕ → List ℕ → Result TlsError (List ℕ)
  decrypt_sync (aes128_gcm k) nonce aad ciphertext = err decrypt_only
  decrypt_sync (aes256_gcm k) nonce aad ciphertext = err decrypt_only
  decrypt_sync (chacha20 c) nonce aad ciphertext = chacha_decrypt c nonce aad ciphertext

  abbrev pub supports_sync : Cipher K C → Bool
  supports_sync (aes128_gcm k) = false
  supports_sync (aes256_gcm k) = false
  supports_sync (chacha20 c) = true

-- What RFC 5116 says of an AEAD with a 12-byte nonce and a 16-byte tag: it encrypts every text, the
-- ciphertext is 16 bytes longer, and the same key, nonce and data decrypt it.
pub record IsAead {K : Type 0} (seal open_ : K → List ℕ → List ℕ → List ℕ → Option (List ℕ))
    : Type 0 where
  pub seals :
      (k : K) (nonce aad text : List ℕ)
      → length nonce ≡ 12
      → (c : List ℕ) × (seal k nonce aad text ≡ some c)
        × (length c ≡ length text + 16)
        × (open_ k nonce aad c ≡ some text)

pub record Works {K C : Type 0} (crypto : Crypto K C) : Type 0 where
  pub subtle_there : get_subtle_crypto crypto ≡ ok tt
  pub aes : IsAead crypto.aes_encrypt crypto.aes_decrypt
  pub chacha : IsAead crypto.chacha_encrypt crypto.chacha_decrypt

module _ {K C : Type 0} (crypto : Crypto K C) (w : Works crypto) where
  -- A text encrypted and decrypted with a 12-byte nonce.
  abbrev pub Seals : Cipher K C → List ℕ → List ℕ → List ℕ → Type 0
  Seals cipher nonce aad text =
      (c : List ℕ) × (encrypt crypto cipher nonce aad text ≡ ok c)
      × (length c ≡ length text + 16)
      × (decrypt crypto cipher nonce aad c ≡ ok text)

  aes_gcm_Seals :
      (k : K) (nonce aad text : List ℕ)
      → length nonce ≡ 12
      → (c : List ℕ) × (aes_gcm_encrypt crypto k nonce aad text ≡ ok c)
        × (length c ≡ length text + 16)
        × (aes_gcm_decrypt crypto k nonce aad c ≡ ok text)
  unfolding aes_gcm_encrypt aes_gcm_decrypt
  aes_gcm_Seals k nonce aad text h =
      let (c, e, n, d) = w.aes.seals k nonce aad text h in
      (
        c,
        rw ((==_iff (length nonce) 12).1 h, w.subtle_there, e) refl,
        n,
        rw
            (
              (==_iff (length nonce) 12).1 h,
              le→ltb_false (length c) 16 (omega arith),
              w.subtle_there,
              d,
            )
            refl,
      )

  chacha_Seals :
      (k : C) (nonce aad text : List ℕ)
      → length nonce ≡ 12
      → (c : List ℕ) × (chacha_encrypt crypto k nonce aad text ≡ ok c)
        × (length c ≡ length text + 16)
        × (chacha_decrypt crypto k nonce aad c ≡ ok text)
  unfolding chacha_encrypt chacha_decrypt
  chacha_Seals k nonce aad text h =
      let (c, e, n, d) = w.chacha.seals k nonce aad text h in
      (
        c,
        rw ((==_iff (length nonce) 12).1 h, e) refl,
        n,
        rw ((==_iff (length nonce) 12).1 h, le→ltb_false (length c) 16 (omega arith), d) refl,
      )

  pub encrypt-Seals :
      (cipher : Cipher K C) (nonce aad text : List ℕ)
      → length nonce ≡ 12
      → Seals cipher nonce aad text
  unfolding encrypt decrypt
  encrypt-Seals (aes128_gcm k) = aes_gcm_Seals k
  encrypt-Seals (aes256_gcm k) = aes_gcm_Seals k
  encrypt-Seals (chacha20 c) = chacha_Seals c
