-- ===== src/Tls/Cert/Named.antt =====
-- The name of a server that `verify_server_name` of subtle-tls/src/cert.rs has found in a certificate.
use webtor_rs.Base.{
  Member, ℕ, ◌≡◌, ◌⊎◌, inl, inr, refl, Bool, true, false, ◌||◌, List, [], ◌∷◌, some, eq_bytes,
  eq_bytes→≡, Bool-cases, Option-cases,
}
use webtor_rs.Base.Outcome.{ok}
use webtor_rs.Http.Utf8.{from_utf8}
use webtor_rs.Tls.Cert.Hostname.{matches_hostname-Names, Names}
use webtor_rs.Tls.Cert.TrustStore.{GeneralName, dns_name, ip_address, other, Attribute, Certificate}
use webtor_rs.Tls.Cert.Chain.{
  oid_common_name, matches_name, any_name, matches_attribute, any_attribute, any_rdn,
  verify_server_name,
}

module _ (to_lowercase : List ℕ → List ℕ) (server_name : List ℕ) where
  abbrev NamesServer : List ℕ → Type 0
  NamesServer pattern_ = Names (to_lowercase pattern_) (to_lowercase server_name)

  -- The certificate has an alternative name that stands for the server's, an address whose bytes are
  -- the server's name, or a common name that stands for it.
  abbrev pub IsNamed : Certificate → Type 0
  IsNamed cert =
      ((names : List GeneralName) × (pattern_ : List ℕ) × (cert.subject_alternative_name
          ≡ some names)
        × (Member (dns_name pattern_) names × NamesServer pattern_
            ⊎ (Member (ip_address pattern_) names × (pattern_ ≡ server_name))))
      ⊎ ((rdn : List Attribute) × (attr : Attribute) × (pattern_ : List ℕ) × Member rdn
            cert.subject_rdns
          × Member attr rdn
          × (attr.attr_type ≡ oid_common_name)
          × (attr.as_str ≡ some pattern_)
          × NamesServer pattern_)

either : (a b : Bool) → a || b ≡ true → (a ≡ true) ⊎ (b ≡ true)
either true b e = inl refl
either false b e = inr e

module _ (to_lowercase : List ℕ → List ℕ) (server_name : List ℕ) where
  Matched : List GeneralName → Type 0
  Matched names =
      (pattern_ : List ℕ) × (Member (dns_name pattern_) names
          × NamesServer to_lowercase server_name pattern_
        ⊎ (Member (ip_address pattern_) names × (pattern_ ≡ server_name)))

  first-Matched :
      (name : GeneralName) (names : List GeneralName)
      → matches_name to_lowercase server_name name ≡ true
      → Matched (name ∷ names)
  unfolding Matched matches_name
  first-Matched (dns_name pattern_) names e =
      (pattern_, inl (inl refl, (matches_hostname-Names to_lowercase server_name pattern_).0 e))
  first-Matched (ip_address ip_bytes) names e = elim (Option-cases (from_utf8 ip_bytes)) [
    | inl f ↦ let bad : false ≡ true = rw (f, matches_name) at e in cc
    | inr (ip_str, f) ↦
        (ip_bytes, inr (inl refl, eq_bytes→≡ ip_bytes server_name (rw (f, matches_name) at e)))
  ]
  first-Matched other names e = cc

  later-Matched :
      (name : GeneralName) (names : List GeneralName) → Matched names → Matched (name ∷ names)
  unfolding Matched
  later-Matched name names (pattern_, inl (m, n)) = (pattern_, inl (inr m, n))
  later-Matched name names (pattern_, inr (m, n)) = (pattern_, inr (inr m, n))

  any_name-Matched :
      (names : List GeneralName) → any_name to_lowercase server_name names ≡ true → Matched names
  unfolding any_name
  any_name-Matched [] e = cc
  any_name-Matched (name ∷ names) e =
      elim (either (matches_name to_lowercase server_name name) _ e) [
        | inl h ↦ first-Matched name names h
        | inr h ↦ later-Matched name names (any_name-Matched names h)
      ]

  CommonName : List Attribute → Type 0
  CommonName rdn =
      (attr : Attribute) × (pattern_ : List ℕ) × Member attr rdn
      × (attr.attr_type ≡ oid_common_name)
      × (attr.as_str ≡ some pattern_)
      × NamesServer to_lowercase server_name pattern_

  attribute-CommonName :
      (attr : Attribute) (rdn : List Attribute)
      → matches_attribute to_lowercase server_name attr ≡ true
      → CommonName (attr ∷ rdn)
  unfolding CommonName matches_attribute
  attribute-CommonName attr rdn e = elim (Bool-cases (eq_bytes attr.attr_type oid_common_name)) [
    | inl t ↦ elim (Option-cases attr.as_str) [
      | inl n ↦ let bad : false ≡ true = rw (t, n, matches_attribute) at e in cc
      | inr (cn, n) ↦ (
        attr,
        cn,
        inl refl,
        eq_bytes→≡ attr.attr_type oid_common_name t,
        n,
        (matches_hostname-Names to_lowercase server_name cn).0 (rw (t, n, matches_attribute) at e),
      )
    ]
    | inr t ↦ let bad : false ≡ true = rw (t, matches_attribute) at e in cc
  ]

  any_attribute-CommonName :
      (rdn : List Attribute) → any_attribute to_lowercase server_name rdn ≡ true → CommonName rdn
  unfolding any_attribute
  any_attribute-CommonName [] e = cc
  any_attribute-CommonName (attr ∷ rdn) e =
      elim (either (matches_attribute to_lowercase server_name attr) _ e) [
        | inl h ↦ attribute-CommonName attr rdn h
        | inr h ↦ later (any_attribute-CommonName rdn h)
      ]
    where
      later : CommonName rdn → CommonName (attr ∷ rdn)
      later c = unfold CommonName in (c.0, c.1, inr c.2, c.3, c.4, c.5)

  any_rdn-CommonName :
      (rdns : List (List Attribute))
      → any_rdn to_lowercase server_name rdns ≡ true
      → (rdn : List Attribute) × Member rdn rdns × CommonName rdn
  unfolding any_rdn
  any_rdn-CommonName [] e = cc
  any_rdn-CommonName (rdn ∷ rdns) e =
      elim (either (any_attribute to_lowercase server_name rdn) _ e) [
        | inl h ↦ (rdn, inl refl, any_attribute-CommonName rdn h)
        | inr h ↦ let (r, m, c) = any_rdn-CommonName rdns h in (r, inr m, c)
      ]

  from_rdns :
      (cert : Certificate)
      → any_rdn to_lowercase server_name cert.subject_rdns ≡ true
      → IsNamed to_lowercase server_name cert
  unfolding CommonName
  from_rdns cert e =
      let (rdn, m, (attr, pattern_, n, t, s, h)) = any_rdn-CommonName cert.subject_rdns e in
      inr (rdn, attr, pattern_, m, n, t, s, h)

  pub verify_server_name-IsNamed :
      (cert : Certificate)
      → verify_server_name to_lowercase server_name cert ≡ ok tt
      → IsNamed to_lowercase server_name cert
  unfolding verify_server_name Matched
  verify_server_name-IsNamed cert e = elim (Option-cases cert.subject_alternative_name) [
    | inl n ↦ elim (Bool-cases (any_rdn to_lowercase server_name cert.subject_rdns)) [
      | inl m ↦ from_rdns cert m
      | inr m ↦ cc (rw (n, m, verify_server_name) at e)
    ]
    | inr (names, n) ↦ elim (Bool-cases (any_name to_lowercase server_name names)) [
      | inl a ↦ let (pattern_, h) = any_name-Matched names a in inl (names, pattern_, n, h)
      | inr a ↦ elim (Bool-cases (any_rdn to_lowercase server_name cert.subject_rdns)) [
        | inl m ↦ from_rdns cert m
        | inr m ↦ cc (rw (n, a, m, verify_server_name) at e)
      ]
    ]
  ]
