-- ===== src/Tls/Hkdf.antt =====
-- `Hkdf` of subtle-tls/src/crypto.rs: HKDF with SHA-256. HMAC-SHA256, which the Web Crypto API
-- computes, is the parameter `hmac`, its arguments key and data. A label is the bytes of its text.
use webtor_rs.Base.{
  ℕ, zero, suc, ◌+◌, ◌*◌, ◌/◌, ◌%◌, ◌≤◌, ◌≡◌, refl, arith, List, [], ◌∷◌, ◌++◌, length, take,
  length-append, length-take, ltb, ◌==◌, if◌then◌else◌, le→ltb_false,
}
use webtor_rs.Base.BigEndian.{be16_bytes}
use webtor_rs.Base.Outcome.{Result, ok, err, ◌>>=◌}
use webtor_rs.Tls.Error.{TlsError}

abbrev pub hash_len : ℕ
hash_len = 32

abbrev pub zeros : ℕ → List ℕ
zeros zero = []
zeros (suc n) = 0 ∷ zeros n

-- `b"tls13 "`
abbrev pub tls13 : List ℕ
tls13 = 116 ∷ 108 ∷ 115 ∷ 49 ∷ 51 ∷ 32 ∷ []

-- The structure `HkdfLabel`.
abbrev pub hkdf_label : List ℕ → List ℕ → ℕ → List ℕ
hkdf_label label context n =
    be16_bytes n
    ++ length (tls13 ++ label) % 256 ∷ (tls13 ++ label)
    ++ length context % 256 ∷ context

module _ (hmac : List ℕ → List ℕ → Result TlsError (List ℕ)) where
  unfoldable pub extract : List ℕ → List ℕ → Result TlsError (List ℕ)
  extract salt ikm = hmac (if length salt == 0 then zeros 32 else salt) ikm

  -- The loop `for i in 1..=n`, with the rounds that are left.
  unfoldable pub expand_rounds :
      ℕ → ℕ → List ℕ → List ℕ → List ℕ → List ℕ → Result TlsError (List ℕ)
  expand_rounds zero i prk info t okm = ok okm
  expand_rounds (suc n) i prk info t okm = hmac prk ((t ++ info) ++ i % 256 ∷ []) >>= λ t'.
      expand_rounds n (suc i) prk info t' (okm ++ t')

  unfoldable pub expand : List ℕ → List ℕ → ℕ → Result TlsError (List ℕ)
  expand prk info n =
      if ltb 255 ((n + 31) / 32)
      then err (TlsError.crypto "HKDF output too long")
      else (expand_rounds ((n + 31) / 32) 1 prk info [] [] >>= λ okm. ok (take n okm))

  unfoldable pub expand_label : List ℕ → List ℕ → List ℕ → ℕ → Result TlsError (List ℕ)
  expand_label secret label context n = expand secret (hkdf_label label context n) n

  unfoldable pub derive_secret : List ℕ → List ℕ → List ℕ → Result TlsError (List ℕ)
  derive_secret secret label messages_hash = expand_label secret label messages_hash 32

-- An HMAC that always returns 32 bytes.
pub record IsHmac (hmac : List ℕ → List ℕ → Result TlsError (List ℕ)) : Type 0 where
  pub digest : (key bytes : List ℕ) → (out : List ℕ) × (hmac key bytes ≡ ok out) × (length out ≡ 32)

module _ (hmac : List ℕ → List ℕ → Result TlsError (List ℕ)) (h : IsHmac hmac) where
  expand_rounds-total :
      (n i : ℕ) (prk info t okm : List ℕ)
      → (out : List ℕ) × (expand_rounds hmac n i prk info t okm ≡ ok out)
        × (length out ≡ length okm + n * 32)
  unfolding expand_rounds
  expand_rounds-total zero i prk info t okm = (okm, refl, omega arith)
  expand_rounds-total (suc n) i prk info t okm =
      let (t', e, m) = h.digest prk ((t ++ info) ++ i % 256 ∷ []) in
      let (out, f, k) = expand_rounds-total n (suc i) prk info t' (okm ++ t') in
      (out, rw (e, expand_rounds) f, omega (arith, length-append okm t'))

  -- Up to 8,160 bytes can be asked for, and that many come out.
  pub length-expand_label :
      (secret label context : List ℕ) (n : ℕ)
      → n ≤ 8160
      → (okm : List ℕ) × (expand_label hmac secret label context n ≡ ok okm) × (length okm ≡ n)
  unfolding expand_label expand
  length-expand_label secret label context n b =
      let info = hkdf_label label context n in
      let (okm, e, m) = expand_rounds-total ((n + 31) / 32) 1 secret info [] [] in
      (
        take n okm,
        rw (le→ltb_false 255 ((n + 31) / 32) (omega arith), e) refl,
        omega (arith, length-take n okm),
      )
