-- ===== src/Tls/Cert/Verify.antt =====
-- `verify_signature` of subtle-tls/src/cert.rs and what it calls: the choice of an algorithm, and the
-- calls of the Web Crypto API, which is a parameter. An algorithm, a hash and a curve are values
-- where the source has their names.
use webtor_rs.Base.{
  ℕ, ◌||◌, Bool, true, false, List, [], ◌∷◌, Option, none, some, eq_bytes, if◌then◌else◌,
}
use webtor_rs.Base.Outcome.{Result, ok, err, ◌>>=◌}
use webtor_rs.Tls.Error.{TlsError}
use webtor_rs.Tls.Cert.TrustStore.{Oid, Certificate}
use webtor_rs.Tls.Cert.Ecdsa.{convert_ecdsa_signature_from_der_sized}

pub data AlgorithmName : Type 0 where
  rsassa_pkcs1_v1_5 rsa_pss ecdsa : AlgorithmName

pub data HashName : Type 0 where
  sha256 sha384 sha512 : HashName

pub data Curve : Type 0 where
  p256 p384 p521 : Curve

-- The objects that the calls of the API take.
pub record KeyAlgorithm : Type 0 where
  pub name : AlgorithmName
  pub hash : Option HashName
  pub named_curve : Option Curve

pub record VerifyAlgorithm : Type 0 where
  pub name : AlgorithmName
  pub hash : Option HashName
  pub salt_length : Option ℕ

-- `get_subtle_crypto`, `importKey` of a key in SPKI, and `verify` with the signature and the data.
pub record SubtleCrypto (K : Type 0) : Type 0 where
  pub get_subtle_crypto : Result TlsError (Unit {0})
  pub import_key : KeyAlgorithm → List ℕ → Result TlsError K
  pub verify : VerifyAlgorithm → K → List ℕ → List ℕ → Result TlsError Bool

-- The identifiers of oid_registry, and those of the curves.
abbrev pub oid_sha256_with_rsa : Oid
oid_sha256_with_rsa = 1 ∷ 2 ∷ 840 ∷ 113549 ∷ 1 ∷ 1 ∷ 11 ∷ []

abbrev pub oid_sha384_with_rsa : Oid
oid_sha384_with_rsa = 1 ∷ 2 ∷ 840 ∷ 113549 ∷ 1 ∷ 1 ∷ 12 ∷ []

abbrev pub oid_sha512_with_rsa : Oid
oid_sha512_with_rsa = 1 ∷ 2 ∷ 840 ∷ 113549 ∷ 1 ∷ 1 ∷ 13 ∷ []

abbrev pub oid_rsa_pss : Oid
oid_rsa_pss = 1 ∷ 2 ∷ 840 ∷ 113549 ∷ 1 ∷ 1 ∷ 10 ∷ []

abbrev pub oid_ecdsa_with_sha256 : Oid
oid_ecdsa_with_sha256 = 1 ∷ 2 ∷ 840 ∷ 10045 ∷ 4 ∷ 3 ∷ 2 ∷ []

abbrev pub oid_ecdsa_with_sha384 : Oid
oid_ecdsa_with_sha384 = 1 ∷ 2 ∷ 840 ∷ 10045 ∷ 4 ∷ 3 ∷ 3 ∷ []

abbrev pub oid_p256 : Oid
oid_p256 = 1 ∷ 2 ∷ 840 ∷ 10045 ∷ 3 ∷ 1 ∷ 7 ∷ []

abbrev pub oid_p384 : Oid
oid_p384 = 1 ∷ 3 ∷ 132 ∷ 0 ∷ 34 ∷ []

abbrev pub oid_p521 : Oid
oid_p521 = 1 ∷ 3 ∷ 132 ∷ 0 ∷ 35 ∷ []

-- The curve of a key whose parameter is `curve`, if it has one that is an identifier.
unfoldable pub get_ec_curve_from_key : Option Oid → Result TlsError Curve
get_ec_curve_from_key none = ok p256
get_ec_curve_from_key (some curve_oid) =
    if eq_bytes curve_oid oid_p256
    then ok p256
    else if eq_bytes curve_oid oid_p384
    then ok p384
    else if eq_bytes curve_oid oid_p521
    then ok p521
    else err (TlsError.certificate "Unsupported EC curve OID")

abbrev pub rsa_hash : Oid → HashName
rsa_hash sig_oid =
    if eq_bytes sig_oid oid_sha256_with_rsa
    then sha256
    else if eq_bytes sig_oid oid_sha384_with_rsa
    then sha384
    else sha512

abbrev pub ecdsa_hash : Oid → HashName
ecdsa_hash sig_oid = if eq_bytes sig_oid oid_ecdsa_with_sha256 then sha256 else sha384

-- The names that the calls take, and the key algorithm, for a signature algorithm and the
-- parameter of the issuer's key.
unfoldable pub get_crypto_algorithm_from_key :
    Oid → Option Oid → Result TlsError (AlgorithmName × HashName × KeyAlgorithm)
get_crypto_algorithm_from_key sig_oid curve_oid =
    if eq_bytes sig_oid oid_sha256_with_rsa
      || (eq_bytes sig_oid oid_sha384_with_rsa || eq_bytes sig_oid oid_sha512_with_rsa)
    then ok (
      rsassa_pkcs1_v1_5,
      rsa_hash sig_oid,
      record { name = rsassa_pkcs1_v1_5; hash = some (rsa_hash sig_oid); named_curve = none },
    )
    else if eq_bytes sig_oid oid_rsa_pss
    then ok (rsa_pss, sha256, record { name = rsa_pss; hash = some sha256; named_curve = none })
    else if eq_bytes sig_oid oid_ecdsa_with_sha256 || eq_bytes sig_oid oid_ecdsa_with_sha384
    then (get_ec_curve_from_key curve_oid >>= λ curve.
        ok (
          ecdsa,
          ecdsa_hash sig_oid,
          record { name = ecdsa; hash = none; named_curve = some curve },
        ))
    else err (TlsError.certificate "Unsupported signature algorithm")

-- The older choice, which no code calls: the curve goes with the hash.
unfoldable pub get_crypto_algorithm :
    Oid → Result TlsError (AlgorithmName × HashName × KeyAlgorithm)
get_crypto_algorithm sig_oid =
    if eq_bytes sig_oid oid_sha256_with_rsa
      || (eq_bytes sig_oid oid_sha384_with_rsa || eq_bytes sig_oid oid_sha512_with_rsa)
    then ok (
      rsassa_pkcs1_v1_5,
      rsa_hash sig_oid,
      record { name = rsassa_pkcs1_v1_5; hash = some (rsa_hash sig_oid); named_curve = none },
    )
    else if eq_bytes sig_oid oid_rsa_pss
    then ok (rsa_pss, sha256, record { name = rsa_pss; hash = some sha256; named_curve = none })
    else if eq_bytes sig_oid oid_ecdsa_with_sha256
    then ok (ecdsa, sha256, record { name = ecdsa; hash = none; named_curve = some p256 })
    else if eq_bytes sig_oid oid_ecdsa_with_sha384
    then ok (ecdsa, sha384, record { name = ecdsa; hash = none; named_curve = some p384 })
    else err (TlsError.certificate "Unsupported signature algorithm")

abbrev pub salt_length : HashName → ℕ
salt_length sha256 = 32
salt_length sha384 = 48
salt_length sha512 = 64

unfoldable pub verify_algorithm : AlgorithmName → HashName → VerifyAlgorithm
verify_algorithm ecdsa hash = record { name = ecdsa; hash = some hash; salt_length = none }
verify_algorithm rsa_pss hash = record {
  name = rsa_pss;
  hash = none;
  salt_length = some (salt_length hash);
}
verify_algorithm rsassa_pkcs1_v1_5 hash = record {
  name = rsassa_pkcs1_v1_5;
  hash = none;
  salt_length = none;
}

abbrev pub coord_size : HashName → ℕ
coord_size sha384 = 48
coord_size sha256 = 32
coord_size sha512 = 32

-- The signature as the API takes it.
unfoldable pub signature_bytes : AlgorithmName → HashName → List ℕ → Result TlsError (List ℕ)
signature_bytes ecdsa hash signature =
    convert_ecdsa_signature_from_der_sized signature (coord_size hash)
signature_bytes rsa_pss hash signature = ok signature
signature_bytes rsassa_pkcs1_v1_5 hash signature = ok signature

abbrev pub valid_or : TlsError → Bool → Result TlsError (Unit {0})
valid_or e true = ok tt
valid_or e false = err e

module _ {K : Type 0} (subtle : SubtleCrypto K) where
  -- The part that `verify_certificate_verify` shares: the error is that of a signature that is not
  -- valid.
  unfoldable pub verify_with :
      TlsError
      → AlgorithmName
      → HashName
      → KeyAlgorithm
      → List ℕ
      → List ℕ
      → List ℕ
      → Result TlsError (Unit {0})
  verify_with e name hash key_algorithm public_key_der signature content =
      subtle.get_subtle_crypto >>= λ done. subtle.import_key key_algorithm public_key_der >>= λ key.
      signature_bytes name hash signature >>= λ bytes.
      subtle.verify (verify_algorithm name hash) key bytes content >>= λ is_valid.
      valid_or e is_valid

  unfoldable pub verify_signature_with_subtle_crypto :
      AlgorithmName
      → HashName
      → KeyAlgorithm
      → List ℕ
      → List ℕ
      → List ℕ
      → Result TlsError (Unit {0})
  unfolding verify_with
  verify_signature_with_subtle_crypto =
      verify_with (TlsError.certificate "Signature verification failed")

  unfoldable pub verify_signature : Certificate → Certificate → Result TlsError (Unit {0})
  verify_signature cert issuer =
      get_crypto_algorithm_from_key cert.signature_algorithm issuer.curve >>= λ algorithm.
      verify_signature_with_subtle_crypto algorithm.0 algorithm.1 algorithm.2 issuer.public_key
        cert.signature cert.tbs_certificate
