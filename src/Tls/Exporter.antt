-- ===== src/Tls/Exporter.antt =====
-- The key export of subtle-tls/src/stream.rs, which computes HKDF again with the crates hmac and
-- sha2. They are the parameters `mac` and `sha256`: `mac` takes the key and the pieces given to
-- `update`, and has no value if the key is refused.
use mathlib.Core.List.{flatten}
use webtor_rs.Base.{
  ℕ, zero, suc, ◌+◌, ◌/◌, ◌%◌, ◌<◌, ◌≤◌, ◌≡◌, refl, ap, ◌∙◌, arith, String, List, [], ◌∷◌, ◌++◌,
  take, Option, none, some, ltb, if◌then◌else◌, le→ltb_false, lt→ltb, append_assoc, ◌⊎◌, inl, inr,
}
use native.Mathlib.Decide.{dec_le}
use webtor_rs.Base.Outcome.{Result, ok, err, ◌>>=◌}
use webtor_rs.Tls.Error.{TlsError}
use webtor_rs.Tls.Hkdf.{hkdf_label, expand_rounds, expand, expand_label}

module _ (mac : List ℕ → List (List ℕ) → Option (List ℕ)) where
  abbrev keyed : Option (List ℕ) → Result String (List ℕ)
  keyed none = err "Invalid HMAC key length"
  keyed (some t) = ok t

  unfoldable pub sync_rounds : ℕ → ℕ → List ℕ → List ℕ → List ℕ → List ℕ → Result String (List ℕ)
  sync_rounds zero i secret info t okm = ok okm
  sync_rounds (suc n) i secret info t okm =
      keyed (mac secret (t ∷ info ∷ (i % 256 ∷ []) ∷ [])) >>= λ t'.
      sync_rounds n (suc i) secret info t' (okm ++ t')

  unfoldable pub hkdf_expand_label_sync : List ℕ → List ℕ → List ℕ → ℕ → Result String (List ℕ)
  hkdf_expand_label_sync secret label context n =
      if ltb 255 ((n + 31) / 32)
      then err "HKDF output too long"
      else (sync_rounds ((n + 31) / 32) 1 secret (hkdf_label label context n) [] [] >>= λ okm.
          ok (take n okm))

  -- `b"exporter"`
  abbrev exporter : List ℕ
  exporter = 101 ∷ 120 ∷ 112 ∷ 111 ∷ 114 ∷ 116 ∷ 101 ∷ 114 ∷ []

  -- The first argument is the exporter master secret that the handshake stored.
  -- An error is the message of `io::Error::other`.
  unfoldable pub export_keying_material :
      (List ℕ → List ℕ) → Option (List ℕ) → ℕ → List ℕ → Option (List ℕ) → Result String (List ℕ)
  export_keying_material sha256 none n label context =
      err "Keying material not available (handshake incomplete?)"
  export_keying_material sha256 (some secret) n label context =
      let bytes : List ℕ = elim context [ none ↦ [] | some c ↦ c ] in
      hkdf_expand_label_sync secret label (sha256 []) 32 >>= λ derived.
      hkdf_expand_label_sync derived exporter (sha256 bytes) n

-- Two implementations of HMAC that compute one function, one of them piece by piece.
pub record Agrees (hmac : List ℕ → List ℕ → Result TlsError (List ℕ))
    (mac : List ℕ → List (List ℕ) → Option (List ℕ)) : Type 0 where
  pub same :
      (key : List ℕ) (pieces : List (List ℕ))
      → (out : List ℕ) × (hmac key (flatten pieces) ≡ ok out) × (mac key pieces ≡ some out)

module _ (hmac : List ℕ → List ℕ → Result TlsError (List ℕ))
    (mac : List ℕ → List (List ℕ) → Option (List ℕ)) (a : Agrees hmac mac) where
  rounds-agree :
      (n i : ℕ) (secret info t okm : List ℕ)
      → (out : List ℕ) × (expand_rounds hmac n i secret info t okm ≡ ok out)
        × (sync_rounds mac n i secret info t okm ≡ ok out)
  unfolding expand_rounds sync_rounds flatten
  rounds-agree zero i secret info t okm = (okm, refl, refl)
  rounds-agree (suc n) i secret info t okm =
      let last = i % 256 ∷ [] in
      let (t', e, f) = a.same secret (t ∷ info ∷ last ∷ []) in
      let whole : hmac secret ((t ++ info) ++ last) ≡ ok t' =
        ap (hmac secret) (append_assoc t info last) ∙ e in
      let (out, p, q) = rounds-agree n (suc i) secret info t' (okm ++ t') in
      (out, rw (whole, expand_rounds) p, rw (f, sync_rounds) q)

  -- The two implementations of HKDF-Expand-Label agree on every input, if their HMACs do: up to
  -- 8,160 bytes both return the same bytes, and beyond both refuse.
  pub hkdf_expand_label_sync-expand_label :
      (secret label context : List ℕ) (n : ℕ)
      → ((n ≤ 8160)
          × (okm : List ℕ) × (hkdf_expand_label_sync mac secret label context n ≡ ok okm)
          × (expand_label hmac secret label context n ≡ ok okm))
        ⊎ ((8160 < n)
            × (hkdf_expand_label_sync mac secret label context n ≡ err "HKDF output too long")
            × (expand_label hmac secret label context n
                ≡ err (TlsError.crypto "HKDF output too long")))
  unfolding hkdf_expand_label_sync expand_label expand
  hkdf_expand_label_sync-expand_label secret label context n = elim (dec_le n 8160) [
    | yes small ↦
        let (okm, e, f) =
          rounds-agree ((n + 31) / 32) 1 secret (hkdf_label label context n) [] [] in
        let fits = le→ltb_false 255 ((n + 31) / 32) (omega arith) in
        inl (small, take n okm, rw (fits, f) refl, rw (fits, e) refl)
    | no big ↦
        let over = lt→ltb 255 ((n + 31) / 32) (omega arith) in
        inr (omega arith, rw over refl, rw over refl)
  ]
