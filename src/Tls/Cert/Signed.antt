-- ===== src/Tls/Cert/Signed.antt =====
-- What a signature that subtle-tls/src/cert.rs accepts has been checked against.
use webtor_rs.Base.{
  ℕ, ◌≡◌, refl, sym, ap, ◌∙◌, subst, Bool, true, false, List, [], ◌∷◌, Option, none, some, eq_bytes,
  eq_bytes→≡, Bool-cases, inl, inr, Member,
}
use webtor_rs.Base.Outcome.{Result, ok, ◌>>=◌, >>=-ok}
use webtor_rs.Tls.Error.{TlsError}
use webtor_rs.Tls.Cert.TrustStore.{Oid, Certificate}
use webtor_rs.Tls.Cert.Ecdsa.{convert_ecdsa_signature_from_der_sized}
use webtor_rs.Tls.Cert.Verify.{
  AlgorithmName, rsassa_pkcs1_v1_5, rsa_pss, ecdsa, HashName, sha256, sha384, sha512, KeyAlgorithm,
  VerifyAlgorithm, SubtleCrypto, oid_sha256_with_rsa, oid_sha384_with_rsa, oid_sha512_with_rsa,
  oid_rsa_pss, oid_ecdsa_with_sha256, oid_ecdsa_with_sha384, get_ec_curve_from_key,
  get_crypto_algorithm_from_key, verify_algorithm, coord_size, signature_bytes, valid_or,
  verify_with, verify_signature_with_subtle_crypto, verify_signature,
}

-- The bytes that the API is given for a signature: an RSA signature itself, and the two numbers of an
-- ECDSA signature.
abbrev pub SignatureOf : AlgorithmName → HashName → List ℕ → List ℕ → Type 0
SignatureOf rsassa_pkcs1_v1_5 hash signature bytes = bytes ≡ signature
SignatureOf rsa_pss hash signature bytes = bytes ≡ signature
SignatureOf ecdsa hash signature bytes =
    convert_ecdsa_signature_from_der_sized signature (coord_size hash) ≡ ok bytes

-- An ECDSA signature names its hash in the call; an RSA key holds it.
abbrev pub UsesHash : AlgorithmName → HashName → KeyAlgorithm → VerifyAlgorithm → Type 0
UsesHash rsassa_pkcs1_v1_5 hash ka va = ka.hash ≡ some hash
UsesHash rsa_pss hash ka va = ka.hash ≡ some hash
UsesHash ecdsa hash ka va = va.hash ≡ some hash

-- The Web Crypto API has found the signature over the content valid, under the key that it imported from
-- the public key for that algorithm and that hash.
abbrev pub HasVerified :
    {K : Type 0} → SubtleCrypto K → AlgorithmName → HashName → List ℕ → List ℕ → List ℕ → Type 0
HasVerified {K} subtle name hash public_key signature content =
    (ka : KeyAlgorithm) × (va : VerifyAlgorithm) × (key : K) × (bytes : List ℕ) × (ka.name ≡ name)
    × (va.name ≡ name)
    × UsesHash name hash ka va
    × (subtle.import_key ka public_key ≡ ok key)
    × SignatureOf name hash signature bytes
    × (subtle.verify va key bytes content ≡ ok true)

-- The signature algorithms of certificates, RFC 8017 and RFC 5758.
abbrev pub certificate_algorithms : List (Oid × AlgorithmName × HashName)
certificate_algorithms =
    ((1 ∷ 2 ∷ 840 ∷ 113549 ∷ 1 ∷ 1 ∷ 11 ∷ []), rsassa_pkcs1_v1_5, sha256)
    ∷ ((1 ∷ 2 ∷ 840 ∷ 113549 ∷ 1 ∷ 1 ∷ 12 ∷ []), rsassa_pkcs1_v1_5, sha384)
    ∷ ((1 ∷ 2 ∷ 840 ∷ 113549 ∷ 1 ∷ 1 ∷ 13 ∷ []), rsassa_pkcs1_v1_5, sha512)
    ∷ ((1 ∷ 2 ∷ 840 ∷ 113549 ∷ 1 ∷ 1 ∷ 10 ∷ []), rsa_pss, sha256)
    ∷ ((1 ∷ 2 ∷ 840 ∷ 10045 ∷ 4 ∷ 3 ∷ 2 ∷ []), ecdsa, sha256)
    ∷ ((1 ∷ 2 ∷ 840 ∷ 10045 ∷ 4 ∷ 3 ∷ 3 ∷ []), ecdsa, sha384)
    ∷ []

-- The key of the issuer verified the certificate's signature over its signed part.
abbrev pub IsSigned : {K : Type 0} → SubtleCrypto K → Certificate → Certificate → Type 0
IsSigned subtle cert issuer =
    (name : AlgorithmName) × (hash : HashName) × Member (cert.signature_algorithm, name, hash)
      certificate_algorithms
    × HasVerified subtle name hash issuer.public_key cert.signature cert.tbs_certificate

-- A key algorithm that is right for the names.
abbrev pub Fits : AlgorithmName → HashName → KeyAlgorithm → Type 0
Fits name hash ka = (ka.name ≡ name) × UsesHash name hash ka (verify_algorithm name hash)

signature_bytes-SignatureOf :
    (name : AlgorithmName) (hash : HashName) (signature bytes : List ℕ)
    → signature_bytes name hash signature ≡ ok bytes
    → SignatureOf name hash signature bytes
unfolding signature_bytes
signature_bytes-SignatureOf rsassa_pkcs1_v1_5 hash signature bytes e = cc
signature_bytes-SignatureOf rsa_pss hash signature bytes e = cc
signature_bytes-SignatureOf ecdsa hash signature bytes e = e

verify_algorithm-name :
    (name : AlgorithmName) (hash : HashName) → (verify_algorithm name hash).name ≡ name
unfolding verify_algorithm
verify_algorithm-name rsassa_pkcs1_v1_5 hash = refl
verify_algorithm-name rsa_pss hash = refl
verify_algorithm-name ecdsa hash = refl

is_valid : (e : TlsError) (b : Bool) → valid_or e b ≡ ok tt → b ≡ true
is_valid e true h = refl
is_valid e false h = cc

pub verify_with-HasVerified :
    {K : Type 0} (subtle : SubtleCrypto K) (e : TlsError) (name : AlgorithmName) (hash : HashName)
    (ka : KeyAlgorithm) (public_key signature content : List ℕ)
    → Fits name hash ka
    → verify_with subtle e name hash ka public_key signature content ≡ ok tt
    → HasVerified subtle name hash public_key signature content
unfolding verify_with
verify_with-HasVerified subtle e name hash ka public_key signature content fits h =
    let (done, f, there) = >>=-ok _ subtle.get_subtle_crypto h in
    let (key, g, imported) = >>=-ok _ (subtle.import_key ka public_key) f in
    let (bytes, k, converted) = >>=-ok _ (signature_bytes name hash signature) g in
    let (valid, m, verified) =
      >>=-ok (valid_or e) (subtle.verify (verify_algorithm name hash) key bytes content) k in
    (
      ka,
      verify_algorithm name hash,
      key,
      bytes,
      fits.0,
      verify_algorithm-name name hash,
      fits.1,
      imported,
      signature_bytes-SignatureOf name hash signature bytes converted,
      verified ∙ ap ok (is_valid e valid m),
    )

-- What is known of a choice of algorithm.
abbrev IsChosen : Oid → AlgorithmName × HashName × KeyAlgorithm → Type 0
IsChosen oid a = Member (oid, a.0, a.1) certificate_algorithms × Fits a.0 a.1 a.2

rsa-IsChosen :
    (known : Oid) (a b : AlgorithmName × HashName × KeyAlgorithm)
    → IsChosen known a
    → ◌≡◌ {A = Result TlsError (AlgorithmName × HashName × KeyAlgorithm)} (ok a) (ok b)
    → IsChosen known b
rsa-IsChosen known a b h e = let eq : a ≡ b = cc in subst (IsChosen known) eq h

ecdsa-IsChosen :
    (known : Oid) (hash : HashName) (curve : Option Oid)
    (b : AlgorithmName × HashName × KeyAlgorithm)
    → Member (known, ecdsa, hash) certificate_algorithms
    → (get_ec_curve_from_key curve >>= λ c.
        ok (ecdsa, hash, record { name = ecdsa; hash = none; named_curve = some c }))
      ≡ ok b
    → IsChosen known b
unfolding verify_algorithm
ecdsa-IsChosen known hash curve b h e =
    let (c, f, there) =
      >>=-ok (λ c. ok (ecdsa, hash, record { name = ecdsa; hash = none; named_curve = some c }))
        (get_ec_curve_from_key curve) e in
    rsa-IsChosen known (ecdsa, hash, record { name = ecdsa; hash = none; named_curve = some c }) b
      (h, (refl, refl)) f

algorithm-IsChosen :
    (oid : Oid) (curve : Option Oid) (b : AlgorithmName × HashName × KeyAlgorithm)
    → get_crypto_algorithm_from_key oid curve ≡ ok b
    → IsChosen oid b
unfolding get_crypto_algorithm_from_key verify_algorithm
algorithm-IsChosen oid curve b =
    let P : Oid → Type 0 = λ o. get_crypto_algorithm_from_key o curve ≡ ok b → IsChosen o b in
    elim (Bool-cases (eq_bytes oid oid_sha256_with_rsa)) [
      | inl t ↦
          subst P (sym (eq_bytes→≡ oid _ t))
            (rsa-IsChosen oid_sha256_with_rsa _ b (inl refl, (refl, refl)))
      | inr n1 ↦ elim (Bool-cases (eq_bytes oid oid_sha384_with_rsa)) [
        | inl t ↦
            subst P (sym (eq_bytes→≡ oid _ t))
              (rsa-IsChosen oid_sha384_with_rsa _ b (inr (inl refl), (refl, refl)))
        | inr n2 ↦ elim (Bool-cases (eq_bytes oid oid_sha512_with_rsa)) [
          | inl t ↦
              subst P (sym (eq_bytes→≡ oid _ t))
                (rsa-IsChosen oid_sha512_with_rsa _ b (inr (inr (inl refl)), (refl, refl)))
          | inr n3 ↦ elim (Bool-cases (eq_bytes oid oid_rsa_pss)) [
            | inl t ↦
                subst P (sym (eq_bytes→≡ oid _ t))
                  (rsa-IsChosen oid_rsa_pss _ b (inr (inr (inr (inl refl))), (refl, refl)))
            | inr n4 ↦ elim (Bool-cases (eq_bytes oid oid_ecdsa_with_sha256)) [
              | inl t ↦ subst P (sym (eq_bytes→≡ oid _ t)) (
                  ecdsa-IsChosen oid_ecdsa_with_sha256 sha256 curve b
                    (inr (inr (inr (inr (inl refl))))))
              | inr n5 ↦ elim (Bool-cases (eq_bytes oid oid_ecdsa_with_sha384)) [
                | inl t ↦ subst P (sym (eq_bytes→≡ oid _ t)) (
                    ecdsa-IsChosen oid_ecdsa_with_sha384 sha384 curve b
                      (inr (inr (inr (inr (inr (inl refl)))))))
                | inr n6 ↦ λ e. cc (rw (n1, n2, n3, n4, n5, n6) at e)
              ]
            ]
          ]
        ]
      ]
    ]

pub verify_signature-IsSigned :
    {K : Type 0} (subtle : SubtleCrypto K) (cert issuer : Certificate)
    → verify_signature subtle cert issuer ≡ ok tt
    → IsSigned subtle cert issuer
unfolding verify_signature verify_signature_with_subtle_crypto
verify_signature-IsSigned subtle cert issuer e =
    let (a, f, found) =
      >>=-ok _ (get_crypto_algorithm_from_key cert.signature_algorithm issuer.curve) e in
    let (member, fits) = algorithm-IsChosen cert.signature_algorithm issuer.curve a found in
    (
      a.0,
      a.1,
      member,
      verify_with-HasVerified subtle (TlsError.certificate "Signature verification failed") a.0 a.1
          a.2 issuer.public_key cert.signature cert.tbs_certificate fits f,
    )
