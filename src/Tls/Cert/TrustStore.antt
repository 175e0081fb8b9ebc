-- ===== src/Tls/Cert/TrustStore.antt =====
-- subtle-tls/src/trust_store.rs, and what the certificate checks take from x509-parser.
use webtor_rs.Base.{
  ℕ, zero, suc, ◌||◌, Bool, true, false, List, [], ◌∷◌, Option, none, some, length, eq_bytes,
  if◌then◌else◌, String,
}
use webtor_rs.Base.Int.{ℤ}
use webtor_rs.Base.Outcome.{Result, ok, err, stuck, ◌>>=◌}
use webtor_rs.Tls.Error.{TlsError}

-- An object identifier, as its arcs.
abbrev pub Oid : Type 0
Oid = List ℕ

-- `GeneralName`: the two variants that the checks read, and the others.
pub data GeneralName : Type 0 where
  dns_name : List ℕ → GeneralName
  ip_address : List ℕ → GeneralName
  other : GeneralName

-- An attribute of a name: its type, and its text if it is one.
pub record Attribute : Type 0 where
  pub attr_type : Oid
  pub as_str : Option (List ℕ)

-- `X509Certificate`, the parts that the checks read. The names of subject and issuer are their DER;
-- the subject's relative names are there as well. `curve` is the algorithm parameter of the key, if
-- it is an object identifier.
pub record Certificate : Type 0 where
  pub subject : List ℕ
  pub issuer : List ℕ
  pub subject_rdns : List (List Attribute)
  pub subject_alternative_name : Option (List GeneralName)
  pub not_before : ℤ
  pub not_after : ℤ
  pub signature_algorithm : Oid
  pub signature : List ℕ
  pub tbs_certificate : List ℕ
  pub public_key : List ℕ
  pub curve : Option Oid

-- x509-parser: `X509Certificate::from_der`; `parse_x509_pem`, with the bytes that remain and the
-- content; and a name as text.
pub record Parser : Type 0 where
  pub from_der : List ℕ → Option Certificate
  pub parse_x509_pem : List ℕ → Option (List ℕ × List ℕ)
  pub name_text : List ℕ → List ℕ

pub record RootCertificate : Type 0 where
  pub der : List ℕ
  pub subject : List ℕ

pub record TrustStore : Type 0 where
  pub embedded_roots : List RootCertificate
  pub extended_roots : Option (List RootCertificate)
  pub ca_bundle_url : String

-- `.ok_or(error)`, and the parse of a certificate with its error.
abbrev pub ok_or : {A : Type 0} → Option A → TlsError → Result TlsError A
ok_or none e = err e
ok_or (some a) e = ok a

module _ (p : Parser) where
  unfoldable pub from_pem : List ℕ → Result TlsError RootCertificate
  from_pem pem =
      ok_or (p.parse_x509_pem pem) (TlsError.certificate "Failed to parse PEM") >>= λ parts.
      ok_or (p.from_der parts.1) (TlsError.certificate "Failed to parse certificate") >>= λ cert.
      ok (record { der = parts.1; subject = p.name_text cert.subject })

  unfoldable pub from_pems : List (List ℕ) → Result TlsError (List RootCertificate)
  from_pems [] = ok []
  from_pems (pem ∷ pems) =
      let later = from_pems pems in from_pem pem >>= λ root. later >>= λ roots. ok (root ∷ roots)

  -- `TrustStore::new`, with the texts of the three embedded certificates.
  unfoldable pub new : List ℕ → List ℕ → List ℕ → Result TlsError TrustStore
  new isrg_root_x1 isrg_root_x2 digicert_global_root_g2 =
      from_pems (isrg_root_x1 ∷ isrg_root_x2 ∷ digicert_global_root_g2 ∷ []) >>= λ roots.
      ok (record {
        embedded_roots = roots;
        extended_roots = none;
        ca_bundle_url = "https://curl.se/ca/cacert.pem";
      })

  abbrev pub with_ca_bundle_url : String → TrustStore → TrustStore
  with_ca_bundle_url url store = record store { ca_bundle_url = url }

-- The loops over the roots.
unfoldable pub has_der : List ℕ → List RootCertificate → Bool
has_der cert_der [] = false
has_der cert_der (root ∷ roots) = eq_bytes root.der cert_der || has_der cert_der roots

unfoldable pub has_subject : List ℕ → List RootCertificate → Bool
has_subject name [] = false
has_subject name (root ∷ roots) = eq_bytes root.subject name || has_subject name roots

unfoldable pub der_of_subject : List ℕ → List RootCertificate → Option (List ℕ)
der_of_subject name [] = none
der_of_subject name (root ∷ roots) =
    if eq_bytes root.subject name then some root.der else der_of_subject name roots

unfoldable pub root_of_subject : List ℕ → List RootCertificate → Option RootCertificate
root_of_subject name [] = none
root_of_subject name (root ∷ roots) =
    if eq_bytes root.subject name then some root else root_of_subject name roots

abbrev pub get_roots : TrustStore → List RootCertificate
get_roots store = store.embedded_roots

-- The extended roots, none before they are loaded.
abbrev pub extended : TrustStore → List RootCertificate
extended store = elim store.extended_roots [ none ↦ [] | some roots ↦ roots ]

unfoldable pub has_extended_roots : TrustStore → Bool
has_extended_roots store = elim store.extended_roots [ none ↦ false | some roots ↦ true ]

unfoldable pub is_trusted_root : TrustStore → List ℕ → Bool
is_trusted_root store cert_der =
    has_der cert_der store.embedded_roots || has_der cert_der (extended store)

module _ (p : Parser) where
  unfoldable pub find_root_for_issuer : TrustStore → List ℕ → Option (List ℕ)
  find_root_for_issuer store issuer_der = elim (p.from_der issuer_der) [
    | none ↦ none
    | some cert ↦ elim (der_of_subject (p.name_text cert.subject) store.embedded_roots) [
      | some der ↦ some der
      | none ↦ der_of_subject (p.name_text cert.subject) (extended store)
    ]
  ]

  unfoldable pub find_embedded_root_for_issuer : TrustStore → List ℕ → Option RootCertificate
  find_embedded_root_for_issuer store issuer_der = elim (p.from_der issuer_der) [
    | none ↦ none
    | some cert ↦ root_of_subject (p.name_text cert.subject) store.embedded_roots
  ]

  unfoldable pub is_issued_by_trusted_root : TrustStore → List ℕ → Bool
  is_issued_by_trusted_root store cert_der = elim (p.from_der cert_der) [
    | none ↦ false
    | some cert ↦
        has_subject (p.name_text cert.issuer) store.embedded_roots
        || has_subject (p.name_text cert.issuer) (extended store)
  ]

  -- The certificate of a PEM block; a block with no certificate is left out.
  abbrev pub bundle_root : List ℕ → List RootCertificate → List RootCertificate
  bundle_root contents roots = elim (p.from_der contents) [
    | none ↦ roots
    | some cert ↦ record { der = contents; subject = p.name_text cert.subject } ∷ roots
  ]

  -- The loop over the blocks of a bundle, which ends at the first that does not parse.
  unfoldable pub bundle_roots : ℕ → List ℕ → Result TlsError (List RootCertificate)
  bundle_roots zero remaining = stuck
  bundle_roots (suc fuel) [] = ok []
  bundle_roots (suc fuel) (b ∷ bytes) = elim (p.parse_x509_pem (b ∷ bytes)) [
    | none ↦ ok []
    | some (rest, contents) ↦ bundle_roots fuel rest >>= λ roots. ok (bundle_root contents roots)
  ]

  -- The number of roots that were loaded, and the store.
  unfoldable pub load_extended_roots : List ℕ → TrustStore → Result TlsError (ℕ × TrustStore)
  load_extended_roots pem_bundle store =
      bundle_roots (suc (length pem_bundle)) pem_bundle >>= λ roots.
      ok (length roots, record store { extended_roots = some roots })
