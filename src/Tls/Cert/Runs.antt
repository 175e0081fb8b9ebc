-- ===== src/Tls/Cert/Runs.antt =====
-- Concrete runs of subtle-tls/src/cert.rs, and the theorems at concrete inputs.
use mathlib.Core.List.{flatten}
use webtor_rs.Base.{
  ℕ, ◌+◌, ◌*◌, ◌≡◌, ◌≢◌, refl, subst, arith, Bool, true, false, inl, List, [], ◌∷◌, Option, none,
  some, length, leb, ◌==◌, ==_iff, ◌&&◌, if◌then◌else◌,
}
use webtor_rs.Base.Int.{pos}
use webtor_rs.Base.Outcome.{ok, err, Gives}
use webtor_rs.Transport.Script.{Script, script}
use webtor_rs.Tls.Error.{TlsError}
use webtor_rs.Tls.Toy.{Key, toy, primitives, handshake}
use webtor_rs.Tls.Hkdf.{expand, expand_label, expand_rounds}
use webtor_rs.Tls.Layer.{RecordLayer, new_layer}
use webtor_rs.Tls.Record.{read_record, unprotect}
use webtor_rs.Tls.Record.Messages.{messages_bytes}
use webtor_rs.Tls.Handshake.{HandshakeState}
use webtor_rs.Tls.Handshake.Parse.{
  byte, slice, be16_at, be24_at, skip_extensions, certificate, certificates, certificate_list,
  parse_certificate, parse_certificate_verify,
}
use webtor_rs.Tls.Handshake.Keys.{compute_finished, verify_server_finished}
use webtor_rs.Tls.Encrypted.{
  process_encrypted_handshake, await_finished, on_record, drain_messages, on_message,
  on_certificate, on_certificate_verify, on_finished, check_certificates, check_signature,
}
use webtor_rs.Tls.Cert.Hostname.{
  starts_with, ends_with, contains, matches_wildcard, matches_lower, matches_hostname, Names,
  matches_hostname-Names,
}
use webtor_rs.Tls.Cert.Ecdsa.{
  convert_ecdsa_signature_from_der_sized, coordinates, integer, place, start_of, first_nonzero,
  sequence_length, length_bytes,
}
use webtor_rs.Tls.Cert.Ecdsa.Total.{convert_ecdsa_signature_from_der_sized-Gives}
use webtor_rs.Tls.Cert.Ecdsa.RoundTrip.{
  der_signature, convert_ecdsa_signature_from_der_sized-der_signature,
}
use webtor_rs.Tls.Cert.TrustStore.{
  Certificate, Parser, TrustStore, dns_name, ip_address, is_trusted_root, is_issued_by_trusted_root,
  has_der, has_subject,
}
use webtor_rs.Tls.Cert.Verify.{
  Curve, p384, SubtleCrypto, oid_sha256_with_rsa, oid_ecdsa_with_sha256, oid_p384,
  get_ec_curve_from_key, verify_algorithm, signature_bytes, verify_with, verify_signature,
}
use webtor_rs.Tls.Cert.Chain
use webtor_rs.Tls.Cert.Chain.{
  with_trust_store, verifier, matches_name, any_name, verify_server_name, verify_validity,
  verify_anchor, verify_chain_signatures, verify_all, verify_chain, extract_public_key_spki,
  signature_scheme, scheme_key_algorithm, signed_content, verify_certificate_verify,
}
use webtor_rs.Tls.Cert.Faults.{
  verify_chain-with_trust_store, curve_size, WantsSize, verify_signature-size,
  verify_server_name-ipv4,
}

-- `str::to_lowercase` on ASCII.
abbrev ascii_lowercase : List ℕ → List ℕ
ascii_lowercase [] = []
ascii_lowercase (c ∷ cs) = (if leb 65 c && leb c 90 then c + 32 else c) ∷ ascii_lowercase cs

-- "a.b" and "*.B"
abbrev host : List ℕ
host = 97 ∷ 46 ∷ 98 ∷ []

abbrev wildcard : List ℕ
wildcard = 42 ∷ 46 ∷ 66 ∷ []

wildcard_matches : matches_hostname ascii_lowercase host wildcard ≡ true
unfolding matches_hostname matches_lower matches_wildcard starts_with ends_with contains
wildcard_matches = refl

matches_hostname-Names_example : Names (ascii_lowercase wildcard) (ascii_lowercase host)
matches_hostname-Names_example =
    (matches_hostname-Names ascii_lowercase host wildcard).0 wildcard_matches

convert_ecdsa_signature_from_der_sized-Gives_example :
    Gives
      (λ raw. length raw ≡ 4)
      (convert_ecdsa_signature_from_der_sized (48 ∷ 6 ∷ 2 ∷ 1 ∷ 5 ∷ 2 ∷ 1 ∷ 7 ∷ []) 2)
convert_ecdsa_signature_from_der_sized-Gives_example =
    convert_ecdsa_signature_from_der_sized-Gives (48 ∷ 6 ∷ 2 ∷ 1 ∷ 5 ∷ 2 ∷ 1 ∷ 7 ∷ []) 2

convert_small :
    convert_ecdsa_signature_from_der_sized (48 ∷ 6 ∷ 2 ∷ 1 ∷ 5 ∷ 2 ∷ 1 ∷ 7 ∷ []) 2
    ≡ ok (0 ∷ 5 ∷ 0 ∷ 7 ∷ [])
unfolding convert_ecdsa_signature_from_der_sized coordinates integer place start_of first_nonzero
    sequence_length length_bytes byte slice
convert_small = refl

convert_ecdsa_signature_from_der_sized-der_signature_example :
    convert_ecdsa_signature_from_der_sized (der_signature (0 ∷ 200 ∷ []) (255 ∷ 1 ∷ [])) 2
    ≡ ok (0 ∷ 200 ∷ 255 ∷ 1 ∷ [])
convert_ecdsa_signature_from_der_sized-der_signature_example =
    convert_ecdsa_signature_from_der_sized-der_signature (0 ∷ 200 ∷ []) (255 ∷ 1 ∷ []) (omega arith)
      (omega arith) refl

-- Every certificate names the host "a" and itself as its issuer, with an RSA signature.
abbrev cert_of : List ℕ → Certificate
cert_of der = record {
  subject = der;
  issuer = der;
  subject_rdns = [];
  subject_alternative_name = some (dns_name (97 ∷ []) ∷ []);
  not_before = pos 1;
  not_after = pos 9;
  signature_algorithm = oid_sha256_with_rsa;
  signature = [];
  tbs_certificate = [];
  public_key = der;
  curve = none;
}

abbrev parser : Parser
parser = record {
  from_der = λ der. some (cert_of der);
  parse_x509_pem = λ pem. none;
  name_text = λ name. name;
}

-- An API that holds every signature of the right length valid.
abbrev lenient : Option Curve → List ℕ → Bool
lenient none signature = true
lenient (some curve) signature = length signature == curve_size curve * 2

abbrev subtle : SubtleCrypto (Option Curve)
subtle = record {
  get_subtle_crypto = ok tt;
  import_key = λ algorithm spki. ok algorithm.named_curve;
  verify = λ algorithm key signature content. ok (lenient key signature);
}

subtle-WantsSize : WantsSize subtle
subtle-WantsSize curve spki key hash signature content imported size valid =
    let same : key ≡ some curve = cc in
    let answer : lenient key signature ≡ true = cc in
    size ((==_iff _ _).0 (subst (λ k. lenient k signature ≡ true) same answer))

abbrev no_roots : TrustStore
no_roots = record { embedded_roots = []; extended_roots = none; ca_bundle_url = "" }

abbrev one_root : TrustStore
one_root = record no_roots { embedded_roots = record { der = 48 ∷ []; subject = 48 ∷ [] } ∷ [] }

leaf_named : verify_server_name ascii_lowercase (97 ∷ []) (cert_of (48 ∷ [])) ≡ ok tt
unfolding verify_server_name any_name matches_name matches_hostname matches_lower
leaf_named = refl

leaf_valid : verify_validity (pos 5) (cert_of (48 ∷ [])) ≡ ok tt
unfolding verify_validity
leaf_valid = refl

verify_chain-with_trust_store_example :
    verify_chain parser subtle ascii_lowercase
      (pos 5)
      (with_trust_store (97 ∷ []) one_root)
      ((48 ∷ []) ∷ (49 ∷ []) ∷ [])
    ≡ verify_chain parser subtle ascii_lowercase
        (pos 5)
        (with_trust_store (97 ∷ []) no_roots)
        ((48 ∷ []) ∷ (49 ∷ []) ∷ [])
verify_chain-with_trust_store_example =
    verify_chain-with_trust_store parser subtle ascii_lowercase (pos 5) (97 ∷ []) one_root no_roots
      ((48 ∷ []) ∷ (49 ∷ []) ∷ [])

abbrev p384_cert : Certificate
p384_cert = record (cert_of []) {
  signature_algorithm = oid_ecdsa_with_sha256;
  curve = some oid_p384;
}

p384_curve : get_ec_curve_from_key (some oid_p384) ≡ ok p384
unfolding get_ec_curve_from_key
p384_curve = refl

verify_signature-size_example : verify_signature subtle p384_cert p384_cert ≢ ok tt
verify_signature-size_example =
    verify_signature-size subtle p384_cert p384_cert p384 subtle-WantsSize (inl refl) p384_curve
      (omega arith)

-- "10.0.0.1"
abbrev dotted : List ℕ
dotted = 49 ∷ 48 ∷ 46 ∷ 48 ∷ 46 ∷ 48 ∷ 46 ∷ 49 ∷ []

verify_server_name-ipv4_example :
    verify_server_name ascii_lowercase dotted (record (cert_of []) {
      subject_alternative_name = some (ip_address (10 ∷ 0 ∷ 0 ∷ 1 ∷ []) ∷ []);
    })
    ≡ err (TlsError.certificate "Certificate does not match server name")
verify_server_name-ipv4_example =
    verify_server_name-ipv4 ascii_lowercase dotted
      (record (cert_of []) {
        subject_alternative_name = some (ip_address (10 ∷ 0 ∷ 0 ∷ 1 ∷ []) ∷ []);
      })
      (ip_address (10 ∷ 0 ∷ 0 ∷ 1 ∷ []) ∷ []) refl (refl, tt) tt (omega arith)

-- The server's messages in one record, with a signature of the scheme rsa_pss_rsae_sha256.
abbrev server_flight : List ℕ
server_flight =
    messages_bytes
      ((8, 0 ∷ 0 ∷ [])
        ∷ (11, 0 ∷ 0 ∷ 0 ∷ 6 ∷ 0 ∷ 0 ∷ 1 ∷ 48 ∷ 0 ∷ 0 ∷ [])
        ∷ (15, 8 ∷ 4 ∷ 0 ∷ 1 ∷ 7 ∷ [])
        ∷ (20, 1 ∷ 2 ∷ [])
        ∷ [])
      []

abbrev conn : RecordLayer Key Key × Script
conn = (
  new_layer,
  record { incoming = (22 ∷ 3 ∷ 3 ∷ 0 ∷ length server_flight ∷ server_flight) ∷ []; log = [] },
)

abbrev after_handshake : (RecordLayer Key Key × Script) × HandshakeState
after_handshake =
    (process_encrypted_handshake primitives toy script 2
      (verifier parser subtle ascii_lowercase (pos 5) (ok no_roots)) false (conn, handshake)).1

handshake_run :
    process_encrypted_handshake primitives toy script 2
      (verifier parser subtle ascii_lowercase (pos 5) (ok no_roots))
      false
      (conn, handshake)
    ≡ (ok (some (48 ∷ [])), after_handshake)
unfolding process_encrypted_handshake await_finished on_record drain_messages on_message
    on_certificate on_certificate_verify on_finished check_certificates check_signature
    compute_finished verify_server_finished parse_certificate parse_certificate_verify
    certificate_list certificates certificate skip_extensions be24_at be16_at byte slice read_record
    unprotect flatten expand_label expand expand_rounds verify_chain verify_all verify_server_name
    any_name matches_name matches_hostname matches_lower verify_validity verify_chain_signatures
    verify_anchor extract_public_key_spki verify_certificate_verify signature_scheme
    scheme_key_algorithm verify_with signature_bytes verify_algorithm signed_content Chain.new
    is_trusted_root has_der is_issued_by_trusted_root has_subject
handshake_run = refl
