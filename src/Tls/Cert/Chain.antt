-- ===== src/Tls/Cert/Chain.antt =====
-- `CertificateVerifier` and `verify_certificate_verify` of subtle-tls/src/cert.rs, and
-- `extract_public_key_spki` of subtle-tls/src/stream.rs.
use Prim.Native.Char.{code}
use webtor_rs.Base.{
  ℕ, zero, suc, ◌||◌, not, Bool, false, String, List, [], ◌∷◌, ◌++◌, Option, none, some, ◌==◌,
  eq_bytes, if◌then◌else◌,
}
use webtor_rs.Base.Int.{ℤ, ltb_ℤ}
use webtor_rs.Base.Outcome.{Result, ok, err, panics, stuck, ◌>>=◌}
use webtor_rs.Http.Utf8.{from_utf8}
use webtor_rs.Tls.Error.{TlsError}
use webtor_rs.Tls.Encrypted.{Verifier}
use webtor_rs.Tls.Cert.Hostname.{matches_hostname}
use webtor_rs.Tls.Cert.TrustStore.{
  Oid, GeneralName, dns_name, ip_address, other, Attribute, Certificate, Parser, TrustStore, ok_or,
  is_trusted_root, is_issued_by_trusted_root,
}
use webtor_rs.Tls.Cert.Verify.{
  AlgorithmName, rsassa_pkcs1_v1_5, rsa_pss, ecdsa, HashName, sha256, sha384, sha512, Curve, p256,
  p384, KeyAlgorithm, SubtleCrypto, verify_signature, verify_with,
}

pub record CertificateVerifier : Type 0 where
  pub server_name : List ℕ
  pub skip_verification : Bool
  pub trust_store : Option TrustStore

-- `CertificateVerifier::new`, with what `TrustStore::new` returned.
unfoldable pub new : List ℕ → Bool → Result TlsError TrustStore → CertificateVerifier
new server_name skip_verification store = record {
  server_name = server_name;
  skip_verification = skip_verification;
  trust_store =
      if skip_verification
      then none
      else elim store [ ok s ↦ some s | err e ↦ none | panics ↦ none | stuck ↦ none ];
}

abbrev pub with_trust_store : List ℕ → TrustStore → CertificateVerifier
with_trust_store server_name store = record {
  server_name = server_name;
  skip_verification = false;
  trust_store = some store;
}

abbrev pub oid_common_name : Oid
oid_common_name = 2 ∷ 5 ∷ 4 ∷ 3 ∷ []

module _ (to_lowercase : List ℕ → List ℕ) (server_name : List ℕ) where
  -- The bytes of an address are compared with the name's, if they are UTF-8.
  unfoldable pub matches_name : GeneralName → Bool
  matches_name (dns_name pattern_) = matches_hostname to_lowercase server_name pattern_
  matches_name (ip_address ip_bytes) = elim (from_utf8 ip_bytes) [
    | none ↦ false
    | some ip_str ↦ eq_bytes ip_bytes server_name
  ]
  matches_name other = false

  -- The loops that return at the first match.
  unfoldable pub any_name : List GeneralName → Bool
  any_name [] = false
  any_name (name ∷ names) = matches_name name || any_name names

  unfoldable pub matches_attribute : Attribute → Bool
  matches_attribute attr =
      if eq_bytes attr.attr_type oid_common_name
      then elim attr.as_str [
        | none ↦ false
        | some cn ↦ matches_hostname to_lowercase server_name cn
      ]
      else false

  unfoldable pub any_attribute : List Attribute → Bool
  any_attribute [] = false
  any_attribute (attr ∷ attrs) = matches_attribute attr || any_attribute attrs

  unfoldable pub any_rdn : List (List Attribute) → Bool
  any_rdn [] = false
  any_rdn (rdn ∷ rdns) = any_attribute rdn || any_rdn rdns

  unfoldable pub verify_server_name : Certificate → Result TlsError (Unit {0})
  verify_server_name cert =
      if elim cert.subject_alternative_name [ none ↦ false | some names ↦ any_name names ]
      then ok tt
      else if any_rdn cert.subject_rdns
      then ok tt
      else err (TlsError.certificate "Certificate does not match server name")

-- The clock's seconds are given.
unfoldable pub verify_validity : ℤ → Certificate → Result TlsError (Unit {0})
verify_validity now cert =
    if ltb_ℤ now cert.not_before
    then err (TlsError.certificate "Certificate is not yet valid")
    else if ltb_ℤ cert.not_after now
    then err (TlsError.certificate "Certificate has expired")
    else ok tt

module _ {K : Type 0} (p : Parser) (subtle : SubtleCrypto K) where
  -- A certificate and the next one of the chain.
  unfoldable pub verify_link : List ℕ → List ℕ → Result TlsError (Unit {0})
  verify_link cert_der issuer_der =
      ok_or (p.from_der cert_der) (TlsError.certificate "Failed to parse certificate") >>= λ cert.
      ok_or (p.from_der issuer_der) (TlsError.certificate "Failed to parse issuer") >>= λ issuer.
      if not (eq_bytes cert.issuer issuer.subject)
      then err (TlsError.certificate "Certificate issuer does not match certificate subject")
      else verify_signature subtle cert issuer

  -- The end of a chain: with a trust store every certificate is accepted, the others with a warning.
  unfoldable pub verify_anchor : Option TrustStore → List ℕ → Result TlsError (Unit {0})
  verify_anchor store last_der =
      ok_or (p.from_der last_der) (TlsError.certificate "Failed to parse last certificate")
      >>= λ last. elim store [
        | some roots ↦
            if is_trusted_root roots last_der
            then ok tt
            else if is_issued_by_trusted_root p roots last_der
            then ok tt
            else ok tt
        | none ↦
            if eq_bytes last.issuer last.subject then verify_signature subtle last last else ok tt
      ]

  -- The loop over the links, and the end. An empty chain panics at `cert_chain.len() - 1` or at
  -- the index behind it.
  unfoldable pub verify_chain_signatures :
      Option TrustStore → List (List ℕ) → Result TlsError (Unit {0})
  verify_chain_signatures store [] = panics
  verify_chain_signatures store (last ∷ []) = verify_anchor store last
  verify_chain_signatures store (cert ∷ issuer ∷ chain) =
      let onward = verify_chain_signatures store (issuer ∷ chain) in
      verify_link cert issuer >>= λ done. onward

  module _ (to_lowercase : List ℕ → List ℕ) (now : ℤ) where
    -- The chain of a verifier that does not skip.
    unfoldable pub verify_all :
        CertificateVerifier → List ℕ → List (List ℕ) → Result TlsError (Unit {0})
    verify_all v leaf_der chain =
        ok_or (p.from_der leaf_der) (TlsError.certificate "Failed to parse leaf certificate")
        >>= λ leaf. verify_server_name to_lowercase v.server_name leaf >>= λ named.
            verify_validity now leaf >>= λ valid.
            verify_chain_signatures v.trust_store (leaf_der ∷ chain)

    unfoldable pub verify_chain : CertificateVerifier → List (List ℕ) → Result TlsError (Unit {0})
    verify_chain v [] =
        if v.skip_verification then ok tt else err (TlsError.certificate "Empty certificate chain")
    verify_chain v (leaf_der ∷ chain) =
        if v.skip_verification then ok tt else verify_all v leaf_der chain

unfoldable pub extract_public_key_spki : Parser → List ℕ → Result TlsError (List ℕ)
extract_public_key_spki p cert_der =
    ok_or (p.from_der cert_der) (TlsError.certificate "Failed to parse certificate") >>= λ cert.
    ok cert.public_key

abbrev codes : String → List ℕ
codes String.[] = []
codes (String.◌∷◌ c s) = code c ∷ codes s

abbrev spaces : ℕ → List ℕ
spaces zero = []
spaces (suc n) = 0x20 ∷ spaces n

-- What the server signs.
unfoldable pub signed_content : List ℕ → List ℕ
signed_content transcript_hash =
    spaces 64 ++ (codes "TLS 1.3, server CertificateVerify" ++ 0 ∷ transcript_hash)

-- The names for a code of a signature scheme.
unfoldable pub signature_scheme : ℕ → Option (AlgorithmName × HashName)
signature_scheme n =
    if n == 0x0401
    then some (rsassa_pkcs1_v1_5, sha256)
    else if n == 0x0501
    then some (rsassa_pkcs1_v1_5, sha384)
    else if n == 0x0601
    then some (rsassa_pkcs1_v1_5, sha512)
    else if n == 0x0804
    then some (rsa_pss, sha256)
    else if n == 0x0805
    then some (rsa_pss, sha384)
    else if n == 0x0806
    then some (rsa_pss, sha512)
    else if n == 0x0403
    then some (ecdsa, sha256)
    else if n == 0x0503
    then some (ecdsa, sha384)
    else none

abbrev pub scheme_curve : ℕ → Curve
scheme_curve n = if n == 0x0503 then p384 else p256

unfoldable pub scheme_key_algorithm : ℕ → AlgorithmName → HashName → KeyAlgorithm
scheme_key_algorithm n rsassa_pkcs1_v1_5 hash = record {
  name = rsassa_pkcs1_v1_5;
  hash = some hash;
  named_curve = none;
}
scheme_key_algorithm n rsa_pss hash = record {
  name = rsa_pss;
  hash = some hash;
  named_curve = none;
}
scheme_key_algorithm n ecdsa hash = record {
  name = ecdsa;
  hash = none;
  named_curve = some (scheme_curve n);
}

module _ {K : Type 0} (subtle : SubtleCrypto K) where
  unfoldable pub verify_certificate_verify :
      ℕ → List ℕ → List ℕ → List ℕ → Result TlsError (Unit {0})
  verify_certificate_verify n signature transcript_hash server_public_key =
      ok_or (signature_scheme n) (TlsError.certificate "Unsupported signature algorithm")
      >>= λ scheme.
          verify_with subtle
            (TlsError.certificate "CertificateVerify signature verification failed") scheme.0
            scheme.1 (scheme_key_algorithm n scheme.0 scheme.1) server_public_key signature
            (signed_content transcript_hash)

-- What the handshake is given: a verifier for the server's name, with the store that was loaded.
module _ {K : Type 0} (p : Parser) (subtle : SubtleCrypto K) (to_lowercase : List ℕ → List ℕ) where
  abbrev pub verifier : ℤ → Result TlsError TrustStore → Verifier
  verifier now store = record {
    verify_chain =
        λ server_name. verify_chain p subtle to_lowercase now (new server_name false store);
    extract_public_key_spki = extract_public_key_spki p;
    verify_certificate_verify = verify_certificate_verify subtle;
  }
