-- ===== src/Tls/Encrypted/Authentic.antt =====
-- What a server has shown when `process_encrypted_handshake` of subtle-tls/src/stream.rs returns.
use webtor_rs.Base.{
  ℕ, ◌≡◌, refl, sym, ap, ◌∙◌, subst, Bool, true, false, not, List, [], ◌∷◌, Option, some,
  if◌then◌else◌, ◌⊎◌, inl, inr,
}
use webtor_rs.Base.Outcome.{Result, ok, err, ◌>>=◌, >>=-ok}
use webtor_rs.Base.Action.{After-value}
use webtor_rs.Transport.{Transport}
use webtor_rs.Tls.Error.{TlsError}
use webtor_rs.Tls.Cipher.{Crypto}
use webtor_rs.Tls.Layer.{RecordLayer}
use webtor_rs.Tls.Handshake.{Primitives, HandshakeState}
use webtor_rs.Tls.Handshake.Total.{NotEmpty}
use webtor_rs.Tls.Encrypted.{
  Verifier, Progress, start, check_signature, check_certificates, await_finished,
  process_encrypted_handshake,
}
use webtor_rs.Tls.Encrypted.Sound.{
  HashesPrefix, FinishesPrefix, Sound, Finished, await_finished-Sound,
}

module _ (p : Primitives) (hs : HandshakeState) where
  -- The server is who `leaf` says: the chain under the server's name has been verified with `leaf`
  -- first, its key has signed a hash of the transcript, and the server knew the handshake secret at
  -- some point of the transcript.
  abbrev pub IsAuthentic : Verifier → Option (List ℕ) → List ℕ → Type 0
  IsAuthentic v cert transcript =
      (leaf : List ℕ) × (rest : List (List ℕ)) × (key : List ℕ) × (algorithm : ℕ)
      × (signature : List ℕ) × (hash : List ℕ) × (cert ≡ some leaf)
      × (v.verify_chain hs.server_name (leaf ∷ rest) ≡ ok tt)
      × (v.extract_public_key_spki leaf ≡ ok key)
      × (v.verify_certificate_verify algorithm signature hash key ≡ ok tt)
      × HashesPrefix p hs hash transcript
      × FinishesPrefix p hs transcript

  not_refused :
      {A : Type 0} (b : Bool) (e : TlsError) (r : Result TlsError A) (a : A)
      → (if b then err e else r) ≡ ok a
      → (b ≡ false) × (r ≡ ok a)
  not_refused true e r a h = cc
  not_refused false e r a h = (refl, h)

  shown : {A : Type 0} (b : Bool) → not b ≡ false → (b ≡ false) ⊎ A → A
  shown true e (inl f) = cc
  shown true e (inr a) = a
  shown false e s = cc

  check_signature-leaf :
      (v : Verifier) (s : Progress) (chain : List (List ℕ)) (cert : Option (List ℕ))
      → NotEmpty chain
      → check_signature v s chain ≡ ok cert
      → (leaf : List ℕ) × (rest : List (List ℕ)) × (key : List ℕ) × (chain ≡ leaf ∷ rest)
        × (cert ≡ some leaf)
        × (v.extract_public_key_spki leaf ≡ ok key)
        × (v.verify_certificate_verify s.cert_verify_algorithm s.cert_verify_signature
              s.transcript_before_cert_verify key
            ≡ ok tt)
  unfolding check_signature
  check_signature-leaf v s [] cert n e = absurd (n refl)
  check_signature-leaf v s (leaf ∷ rest) cert n e =
      let (key, f, k) =
        >>=-ok
          (λ key.
            v.verify_certificate_verify s.cert_verify_algorithm s.cert_verify_signature
              s.transcript_before_cert_verify key
            >>= λ done. ok (some leaf))
          (v.extract_public_key_spki leaf) e in
      let (done, g, m) =
        >>=-ok (λ done. ok (some leaf))
          (v.verify_certificate_verify s.cert_verify_algorithm s.cert_verify_signature
            s.transcript_before_cert_verify key)
          f in
      let same : cert ≡ some leaf = cc in (leaf, rest, key, refl, same, k, m)

  check_certificates-IsAuthentic :
      (v : Verifier) (s : Progress) (cert : Option (List ℕ))
      → Sound p hs s
      → s.got_finished ≡ true
      → check_certificates v false s ≡ ok cert
      → IsAuthentic v cert s.handshake.transcript
  unfolding check_certificates
  check_certificates-IsAuthentic v s cert (same, chain, hashed, finished) f e =
      let (ee, e1) = not_refused (not s.got_encrypted_extensions) _ _ cert e in
      let (gc, e2) = not_refused (not s.got_certificate) _ _ cert e1 in
      let (gv, e3) = not_refused (not s.got_certificate_verify) _ _ cert e2 in
      let (done, e4, trusted) =
        >>=-ok (λ done. check_signature v s s.cert_chain)
          (v.verify_chain s.handshake.server_name s.cert_chain) e3 in
      let (leaf, rest, key, first, answer, k, signed) =
        check_signature-leaf v s s.cert_chain cert (shown s.got_certificate gc chain) e4 in
      let name : s.handshake.server_name ≡ hs.server_name =
        ap (λ (h : HandshakeState). h.server_name) same in
      (
        leaf,
        rest,
        key,
        s.cert_verify_algorithm,
        s.cert_verify_signature,
        s.transcript_before_cert_verify,
        answer,
        ap (λ n. v.verify_chain n (leaf ∷ rest)) (sym name)
            ∙ ap (v.verify_chain s.handshake.server_name) (sym first)
            ∙ trusted,
        k,
        signed,
        shown s.got_certificate_verify gv hashed,
        shown s.got_finished (ap not f) finished,
      )

  module _ {K C S : Type 0} (crypto : Crypto K C) (t : Transport S) where
    abbrev Answer : Type 0
    Answer = Result TlsError (Option (List ℕ)) × ((RecordLayer K C × S) × HandshakeState)

    -- With verification on, `process_encrypted_handshake` returns only the certificate of an
    -- authenticated server, whatever records arrive and however they are cut: the certificate is the
    -- leaf of a chain that `verify_chain` accepted for the server's name, its public key has signed
    -- the hash of a first part of the transcript, and a Finished message with the verify data of a
    -- first part of the transcript has been received.
    pub process_encrypted_handshake-IsAuthentic :
        (v : Verifier) (fuel : ℕ) (conn conn' : RecordLayer K C × S) (after : HandshakeState)
        (cert : Option (List ℕ))
        → process_encrypted_handshake p crypto t fuel v false (conn, hs) ≡ (ok cert, (conn', after))
        → IsAuthentic v cert after.transcript
    unfolding process_encrypted_handshake
    process_encrypted_handshake-IsAuthentic v fuel conn conn' after cert e =
        let (r, s) = await_finished p crypto t fuel (conn, start hs) in
        let (done, checked, ended) =
          >>=-ok (λ done. check_certificates v false s.1) r (ap (λ (x : Answer). x.0) e) in
        let fresh : Sound p hs (start hs) = (refl, inl refl, inl refl, inl refl) in
        let (sound, f) =
          After-value (Finished p hs crypto t) (r, s) done s
            (await_finished-Sound p hs crypto t fuel (conn, start hs) fresh)
            (ap (λ x. (x, s)) ended) in
        subst (IsAuthentic v cert) (ap (λ (x : Answer). x.1.1.transcript) e)
          (check_certificates-IsAuthentic v s.1 cert sound f checked)
