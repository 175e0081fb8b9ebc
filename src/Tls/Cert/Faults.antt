-- ===== src/Tls/Cert/Faults.antt =====
-- Where the certificate checks of subtle-tls/src/cert.rs are not what they mean to be.
use webtor_rs.Base.{
  ℕ, ◌*◌, ◌≤◌, ◌≡◌, ◌≢◌, ◌⊎◌, inl, inr, refl, sym, ap, ◌∙◌, arith, Bool, true, false, List, [], ◌∷◌,
  Option, none, some, length, eq_bytes, eq_bytes→≡, Bool-cases, Option-cases, All,
}
use webtor_rs.Base.Int.{ℤ}
use webtor_rs.Base.Outcome.{ok, err, ◌>>=◌, >>=-ok, Gives-value}
use webtor_rs.Http.Utf8.{from_utf8}
use webtor_rs.Tls.Error.{TlsError}
use webtor_rs.Tls.Cert.TrustStore.{
  Attribute, Oid, GeneralName, dns_name, ip_address, other, Certificate, Parser, TrustStore, ok_or,
  is_trusted_root, is_issued_by_trusted_root,
}
use webtor_rs.Tls.Cert.Ecdsa.{convert_ecdsa_signature_from_der_sized}
use webtor_rs.Tls.Cert.Ecdsa.Total.{convert_ecdsa_signature_from_der_sized-Gives}
use webtor_rs.Tls.Cert.Verify.{
  ecdsa, HashName, Curve, p256, p384, p521, KeyAlgorithm, SubtleCrypto, oid_ecdsa_with_sha256,
  oid_ecdsa_with_sha384, get_ec_curve_from_key, get_crypto_algorithm_from_key, ecdsa_hash,
  verify_algorithm, coord_size, signature_bytes, valid_or, verify_with,
  verify_signature_with_subtle_crypto, verify_signature,
}
use webtor_rs.Tls.Cert.Chain.{
  with_trust_store, matches_name, any_name, any_rdn, any_attribute, matches_attribute,
  oid_common_name, verify_server_name, verify_validity, verify_link, verify_anchor,
  verify_chain_signatures, verify_all, verify_chain,
}

module _ {K : Type 0} (p : Parser) (subtle : SubtleCrypto K) where
  -- With a store, an end of a chain that parses is accepted.
  verify_anchor-accepts :
      (store : TrustStore) (last_der : List ℕ)
      → verify_anchor p subtle (some store) last_der ≡ (
          ok_or (p.from_der last_der) (TlsError.certificate "Failed to parse last certificate")
          >>= λ last. ok tt)
  unfolding verify_anchor
  verify_anchor-accepts store last_der = elim (Bool-cases (is_trusted_root store last_der)) [
    | inl e ↦ rw e refl
    | inr e ↦ elim (Bool-cases (is_issued_by_trusted_root p store last_der)) [
      | inl f ↦ rw (e, f) refl
      | inr f ↦ rw (e, f) refl
    ]
  ]

  verify_chain_signatures-store :
      (s s' : TrustStore) (chain : List (List ℕ))
      → verify_chain_signatures p subtle (some s) chain
        ≡ verify_chain_signatures p subtle (some s') chain
  unfolding verify_chain_signatures
  verify_chain_signatures-store s s' [] = refl
  verify_chain_signatures-store s s' (last ∷ []) =
      verify_anchor-accepts s last ∙ sym (verify_anchor-accepts s' last)
  verify_chain_signatures-store s s' (cert ∷ issuer ∷ chain) =
      ap (λ r. verify_link p subtle cert issuer >>= λ done. r)
        (verify_chain_signatures-store s s' (issuer ∷ chain))

  -- The roots that a verifier trusts have no influence on what `verify_chain` accepts: with any other
  -- store, such as one without a root, it returns the same for every chain.
  pub verify_chain-with_trust_store :
      (to_lowercase : List ℕ → List ℕ) (now : ℤ) (server_name : List ℕ) (s s' : TrustStore)
      (chain : List (List ℕ))
      → verify_chain p subtle to_lowercase now (with_trust_store server_name s) chain
        ≡ verify_chain p subtle to_lowercase now (with_trust_store server_name s') chain
  unfolding verify_chain verify_all
  verify_chain-with_trust_store to_lowercase now server_name s s' [] = refl
  verify_chain-with_trust_store to_lowercase now server_name s s' (leaf_der ∷ chain) =
      rw (verify_chain_signatures-store s s' (leaf_der ∷ chain)) refl

  -- A certificate on its own that names the server and whose times hold the clock is accepted by a
  -- verifier with a trust store: whoever signed it, whatever its signature is, and whatever the
  -- store holds.
  pub verify_chain-untrusted :
      (to_lowercase : List ℕ → List ℕ) (now : ℤ) (server_name : List ℕ) (store : TrustStore)
      (leaf_der : List ℕ) (leaf : Certificate)
      → p.from_der leaf_der ≡ some leaf
      → verify_server_name to_lowercase server_name leaf ≡ ok tt
      → verify_validity now leaf ≡ ok tt
      → verify_chain p subtle to_lowercase now (with_trust_store server_name store) (leaf_der ∷ [])
        ≡ ok tt
  unfolding verify_chain verify_all verify_chain_signatures
  verify_chain-untrusted to_lowercase now server_name store leaf_der leaf parsed named valid =
      rw (parsed, named, valid, verify_anchor-accepts store leaf_der, parsed) refl

-- The bytes of a coordinate on a curve.
abbrev pub curve_size : Curve → ℕ
curve_size p256 = 32
curve_size p384 = 48
curve_size p521 = 66

abbrev pub ecdsa_key : Curve → KeyAlgorithm
ecdsa_key curve = record { name = ecdsa; hash = none; named_curve = some curve }

-- The Web Crypto API: a signature whose length is not that of two coordinates on the key's curve is
-- not valid.
abbrev pub WantsSize : {K : Type 0} → SubtleCrypto K → Type 0
WantsSize {K} subtle =
    (curve : Curve) (spki : List ℕ) (key : K) (hash : HashName) (signature content : List ℕ)
    → subtle.import_key (ecdsa_key curve) spki ≡ ok key
    → length signature ≢ curve_size curve * 2
    → subtle.verify (verify_algorithm ecdsa hash) key signature content ≢ ok true

valid_or-ok : (e : TlsError) (b : Bool) → valid_or e b ≡ ok tt → b ≡ true
valid_or-ok e true h = refl
valid_or-ok e false h = cc

module _ {K : Type 0} (subtle : SubtleCrypto K) where
  verify_with-size :
      (curve : Curve) (hash : HashName) (e : TlsError) (spki signature content : List ℕ)
      → WantsSize subtle
      → coord_size hash ≢ curve_size curve
      → verify_with subtle e ecdsa hash (ecdsa_key curve) spki signature content ≢ ok tt
  unfolding verify_with signature_bytes
  verify_with-size curve hash e spki signature content wants other_size h =
      let (done, f, there) = >>=-ok _ subtle.get_subtle_crypto h in
      let (key, g, imported) = >>=-ok _ (subtle.import_key (ecdsa_key curve) spki) f in
      let (bytes, k, converted) =
        >>=-ok _ (convert_ecdsa_signature_from_der_sized signature (coord_size hash)) g in
      let (valid, m, verified) =
        >>=-ok (valid_or e) (subtle.verify (verify_algorithm ecdsa hash) key bytes content) k in
      let size =
        Gives-value (λ raw. length raw ≡ coord_size hash * 2) _ bytes
          (convert_ecdsa_signature_from_der_sized-Gives signature (coord_size hash)) converted in
      let positive : valid ≡ true = valid_or-ok e valid m in
      wants curve spki key hash bytes content imported (λ n. other_size (omega arith))
        (verified ∙ ap ok positive)

  algorithm-ecdsa :
      (oid : Oid) (curve_oid : Option Oid) (curve : Curve)
      → (oid ≡ oid_ecdsa_with_sha256) ⊎ (oid ≡ oid_ecdsa_with_sha384)
      → get_ec_curve_from_key curve_oid ≡ ok curve
      → get_crypto_algorithm_from_key oid curve_oid ≡ ok (ecdsa, ecdsa_hash oid, ecdsa_key curve)
  unfolding get_crypto_algorithm_from_key
  algorithm-ecdsa oid curve_oid curve (inl e) h = rw (e, h) refl
  algorithm-ecdsa oid curve_oid curve (inr e) h = rw (e, h) refl

  -- A certificate with an ECDSA signature whose hash is not of the size of the issuer's curve, such as
  -- SHA-256 with a key on P-384 or SHA-384 with a key on P-256, is refused, whatever its signature
  -- is: the conversion takes the size of a coordinate from the hash.
  pub verify_signature-size :
      (cert issuer : Certificate) (curve : Curve)
      → WantsSize subtle
      → (cert.signature_algorithm ≡ oid_ecdsa_with_sha256)
        ⊎ (cert.signature_algorithm ≡ oid_ecdsa_with_sha384)
      → get_ec_curve_from_key issuer.curve ≡ ok curve
      → coord_size (ecdsa_hash cert.signature_algorithm) ≢ curve_size curve
      → verify_signature subtle cert issuer ≢ ok tt
  unfolding verify_signature verify_signature_with_subtle_crypto
  verify_signature-size cert issuer curve wants oid there other_size h =
      verify_with-size curve (ecdsa_hash cert.signature_algorithm) _ issuer.public_key
        cert.signature cert.tbs_certificate wants other_size
        (rw (algorithm-ecdsa cert.signature_algorithm issuer.curve curve oid there) at h)

-- An IPv4 address, in its four bytes.
abbrev pub IsIpv4 : GeneralName → Type 0
IsIpv4 (dns_name pattern_) = ⊥
IsIpv4 (ip_address ip_bytes) = length ip_bytes ≡ 4
IsIpv4 other = ⊥

-- A part of the subject with no common name in it.
abbrev pub NoCommonName : List Attribute → Type 0
NoCommonName = All (λ attr. attr.attr_type ≢ oid_common_name)

module _ (to_lowercase : List ℕ → List ℕ) (server_name : List ℕ) where
  matches_name-ipv4 :
      (name : GeneralName)
      → IsIpv4 name
      → 7 ≤ length server_name
      → matches_name to_lowercase server_name name ≡ false
  unfolding matches_name
  matches_name-ipv4 (dns_name pattern_) four h = absurd four
  matches_name-ipv4 other four h = absurd four
  matches_name-ipv4 (ip_address ip_bytes) four h = elim (Option-cases (from_utf8 ip_bytes)) [
    | inl f ↦ rw (f, matches_name) refl
    | inr (ip_str, f) ↦ elim (Bool-cases (eq_bytes ip_bytes server_name)) [
      | inl e ↦
          let n : length ip_bytes ≡ length server_name = ap length (eq_bytes→≡ _ _ e) in
          absurd (omega arith)
      | inr e ↦ rw (f, e, matches_name) refl
    ]
  ]

  any_name-ipv4 :
      (names : List GeneralName)
      → All IsIpv4 names
      → 7 ≤ length server_name
      → any_name to_lowercase server_name names ≡ false
  unfolding any_name
  any_name-ipv4 [] four h = refl
  any_name-ipv4 (name ∷ names) (four, more) h =
      rw (matches_name-ipv4 name four h) (any_name-ipv4 names more h)

  any_attribute-none :
      (rdn : List Attribute) → NoCommonName rdn → any_attribute to_lowercase server_name rdn ≡ false
  unfolding any_attribute matches_attribute
  any_attribute-none [] h = refl
  any_attribute-none (attr ∷ rdn) (n, h) =
      elim (Bool-cases (eq_bytes attr.attr_type oid_common_name)) [
        | inl e ↦ absurd (n (eq_bytes→≡ attr.attr_type oid_common_name e))
        | inr e ↦ rw e (any_attribute-none rdn h)
      ]

  any_rdn-none :
      (rdns : List (List Attribute))
      → All NoCommonName rdns
      → any_rdn to_lowercase server_name rdns ≡ false
  unfolding any_rdn
  any_rdn-none [] h = refl
  any_rdn-none (rdn ∷ rdns) (n, h) = rw (any_attribute-none rdn n) (any_rdn-none rdns h)

  -- A certificate whose alternative names are IPv4 addresses, as RFC 5280 encodes them in four bytes,
  -- and that has no common name, is refused for every server name of seven characters or more, as
  -- the text of an IPv4 address has.
  pub verify_server_name-ipv4 :
      (cert : Certificate) (names : List GeneralName)
      → cert.subject_alternative_name ≡ some names
      → All IsIpv4 names
      → All NoCommonName cert.subject_rdns
      → 7 ≤ length server_name
      → verify_server_name to_lowercase server_name cert
        ≡ err (TlsError.certificate "Certificate does not match server name")
  unfolding verify_server_name
  verify_server_name-ipv4 cert names san four none_ h =
      rw (san, any_name-ipv4 names four h, any_rdn-none cert.subject_rdns none_) refl
