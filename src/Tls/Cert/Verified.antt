-- ===== src/Tls/Cert/Verified.antt =====
-- What `verify_chain` of subtle-tls/src/cert.rs has checked when it returns.
use webtor_rs.Base.{
  ℕ, ◌≡◌, refl, not, Bool, true, false, List, [], ◌∷◌, Option, none, some, eq_bytes, eq_bytes→≡,
  if◌then◌else◌,
}
use webtor_rs.Base.Int.{ℤ, ltb_ℤ}
use webtor_rs.Base.Outcome.{Result, ok, err, >>=-ok}
use webtor_rs.Tls.Error.{TlsError}
use webtor_rs.Tls.Cert.TrustStore.{Certificate, Parser, TrustStore, ok_or}
use webtor_rs.Tls.Cert.Verify.{SubtleCrypto}
use webtor_rs.Tls.Cert.Signed.{IsSigned, verify_signature-IsSigned}
use webtor_rs.Tls.Cert.Chain.{
  CertificateVerifier, verify_server_name, verify_validity, verify_link, verify_chain_signatures,
  verify_all, verify_chain,
}
use webtor_rs.Tls.Cert.Named.{IsNamed, verify_server_name-IsNamed}

-- The times of a certificate hold the clock.
abbrev pub IsCurrent : ℤ → Certificate → Type 0
IsCurrent now cert = (ltb_ℤ now cert.not_before ≡ false) × (ltb_ℤ cert.not_after now ≡ false)

module _ {K : Type 0} (p : Parser) (subtle : SubtleCrypto K) where
  -- One certificate was issued and signed by another.
  abbrev pub IsIssued : List ℕ → List ℕ → Type 0
  IsIssued cert_der issuer_der =
      (cert : Certificate) × (issuer : Certificate) × (p.from_der cert_der ≡ some cert)
      × (p.from_der issuer_der ≡ some issuer)
      × (cert.issuer ≡ issuer.subject)
      × IsSigned subtle cert issuer

  -- Each certificate was issued by the next.
  abbrev pub IsLinked : List (List ℕ) → Type 0
  IsLinked [] = ⊥
  IsLinked (last ∷ []) = Unit {0}
  IsLinked (cert ∷ issuer ∷ chain) = IsIssued cert issuer × IsLinked (issuer ∷ chain)

  abbrev pub IsVerified : (List ℕ → List ℕ) → ℤ → List ℕ → List (List ℕ) → Type 0
  IsVerified to_lowercase now server_name [] = ⊥
  IsVerified to_lowercase now server_name (leaf_der ∷ chain) =
      (leaf : Certificate) × (p.from_der leaf_der ≡ some leaf)
      × IsNamed to_lowercase server_name leaf
      × IsCurrent now leaf
      × IsLinked (leaf_der ∷ chain)

ok_or-some : {A : Type 0} (o : Option A) (e : TlsError) (a : A) → ok_or o e ≡ ok a → o ≡ some a
ok_or-some none e a h = cc
ok_or-some (some b) e a h = cc

not_err :
    {A : Type 0} (b : Bool) (e : TlsError) (r : Result TlsError A) (a : A)
    → (if b then err e else r) ≡ ok a
    → (b ≡ false) × (r ≡ ok a)
not_err true e r a h = cc
not_err false e r a h = (refl, h)

verify_validity-IsCurrent :
    (now : ℤ) (cert : Certificate) → verify_validity now cert ≡ ok tt → IsCurrent now cert
unfolding verify_validity
verify_validity-IsCurrent now cert e =
    let (p, q) = not_err (ltb_ℤ now cert.not_before) _ _ tt e in
    let (r, s) = not_err (ltb_ℤ cert.not_after now) _ _ tt q in (p, r)

module _ {K : Type 0} (p : Parser) (subtle : SubtleCrypto K) where
  verify_link-IsIssued :
      (cert_der issuer_der : List ℕ)
      → verify_link p subtle cert_der issuer_der ≡ ok tt
      → IsIssued p subtle cert_der issuer_der
  unfolding verify_link
  verify_link-IsIssued cert_der issuer_der e =
      let (cert, f, parsed) = >>=-ok _ (ok_or (p.from_der cert_der) _) e in
      let (issuer, g, parsed') = >>=-ok _ (ok_or (p.from_der issuer_der) _) f in
      let (same, signed) = not_err (not (eq_bytes cert.issuer issuer.subject)) _ _ tt g in
      (
        cert,
        issuer,
        ok_or-some (p.from_der cert_der) _ cert parsed,
        ok_or-some (p.from_der issuer_der) _ issuer parsed',
        eq_bytes→≡ cert.issuer issuer.subject (not_false _ same),
        verify_signature-IsSigned subtle cert issuer signed,
      )
    where
      not_false : (b : Bool) → not b ≡ false → b ≡ true
      not_false true h = refl
      not_false false h = cc

  verify_chain_signatures-IsLinked :
      (store : Option TrustStore) (chain : List (List ℕ))
      → verify_chain_signatures p subtle store chain ≡ ok tt
      → IsLinked p subtle chain
  unfolding verify_chain_signatures
  verify_chain_signatures-IsLinked store [] e = cc
  verify_chain_signatures-IsLinked store (last ∷ []) e = tt
  verify_chain_signatures-IsLinked store (cert ∷ issuer ∷ chain) e =
      let (done, f, linked) =
        >>=-ok (λ done. verify_chain_signatures p subtle store (issuer ∷ chain))
          (verify_link p subtle cert issuer) e in
      (
        verify_link-IsIssued cert issuer linked,
        verify_chain_signatures-IsLinked store (issuer ∷ chain) f,
      )

  pub verify_chain-IsVerified :
      (to_lowercase : List ℕ → List ℕ) (now : ℤ) (v : CertificateVerifier) (chain : List (List ℕ))
      → v.skip_verification ≡ false
      → verify_chain p subtle to_lowercase now v chain ≡ ok tt
      → IsVerified p subtle to_lowercase now v.server_name chain
  unfolding verify_chain verify_all
  verify_chain-IsVerified to_lowercase now v [] on e = cc (rw (on, verify_chain) at e)
  verify_chain-IsVerified to_lowercase now v (leaf_der ∷ chain) on e =
      let (leaf, f, parsed) =
        >>=-ok _ (ok_or (p.from_der leaf_der) _) (rw (on, verify_chain) at e) in
      let (named, g, name) = >>=-ok _ (verify_server_name to_lowercase v.server_name leaf) f in
      let (valid, linked, current) = >>=-ok _ (verify_validity now leaf) g in
      (
        leaf,
        ok_or-some (p.from_der leaf_der) _ leaf parsed,
        verify_server_name-IsNamed to_lowercase v.server_name leaf name,
        verify_validity-IsCurrent now leaf current,
        verify_chain_signatures-IsLinked v.trust_store (leaf_der ∷ chain) linked,
      )
