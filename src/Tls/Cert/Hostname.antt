-- ===== src/Tls/Cert/Hostname.antt =====
-- `matches_hostname` of subtle-tls/src/cert.rs. A text is its bytes. `str::to_lowercase` goes by the
-- tables of Unicode and is a parameter.
use webtor_rs.Base.{
  ℕ, ◌-◌, ◌≡◌, ◌≢◌, ◌↔◌, ◌⊎◌, inl, inr, refl, sym, ap, ◌∙◌, arith, Bool, true, false, not, ◌&&◌,
  ◌||◌, List, [], ◌∷◌, ◌++◌, length, take, drop, leb, le→leb, ◌==◌, ==_iff, eq_bytes, eq_bytes→≡,
  Bool-cases, All, if◌then◌else◌, length-append, take-append-drop, take-length-append,
  drop-length-append,
}

-- `str::starts_with`
unfoldable pub starts_with : List ℕ → List ℕ → Bool
starts_with [] text = true
starts_with (c ∷ cs) [] = false
starts_with (c ∷ cs) (d ∷ text) = (c == d) && starts_with cs text

-- `str::ends_with`
unfoldable pub ends_with : List ℕ → List ℕ → Bool
ends_with suffix text =
    leb (length suffix) (length text) && eq_bytes (drop (length text - length suffix) text) suffix

-- `str::contains` with a character of one byte.
unfoldable pub contains : ℕ → List ℕ → Bool
contains c [] = false
contains c (d ∷ text) = (c == d) || contains c text

abbrev is_empty : List ℕ → Bool
is_empty [] = true
is_empty (c ∷ text) = false

-- The test of a wildcard's suffix, which begins with a dot.
unfoldable pub matches_wildcard : List ℕ → List ℕ → Bool
matches_wildcard hostname suffix =
    let prefix = take (length hostname - length suffix) hostname in
    if ends_with suffix hostname then not (contains 46 prefix) && not (is_empty prefix) else false

-- The tests on the two names in lower case.
unfoldable pub matches_lower : List ℕ → List ℕ → Bool
matches_lower hostname pattern_ =
    if eq_bytes hostname pattern_
    then true
    else if starts_with (42 ∷ 46 ∷ []) pattern_
    then matches_wildcard hostname (drop 1 pattern_)
    else false

unfoldable pub matches_hostname : (List ℕ → List ℕ) → List ℕ → List ℕ → Bool
matches_hostname to_lowercase server_name pattern_ =
    matches_lower (to_lowercase server_name) (to_lowercase pattern_)

-- What a name in a certificate stands for: a host of that name, or, where the name is `*.` and a
-- domain, a host with one more label before the domain.
abbrev pub Names : List ℕ → List ℕ → Type 0
Names pattern_ hostname =
    (hostname ≡ pattern_)
    ⊎ ((label : List ℕ) × (domain : List ℕ) × (pattern_ ≡ 42 ∷ 46 ∷ domain)
        × (hostname ≡ label ++ 46 ∷ domain)
        × (label ≢ [])
        × All (λ c. 46 ≢ c) label)

eq_bytes_refl : (xs : List ℕ) → eq_bytes xs xs ≡ true
eq_bytes_refl [] = refl
eq_bytes_refl (x ∷ xs) = rw ((==_iff x x).1 refl) (eq_bytes_refl xs)

both : (a b : Bool) → a && b ≡ true → (a ≡ true) × (b ≡ true)
both true b e = (refl, e)
both false b e = cc

starts_with-star :
    (text : List ℕ)
    → starts_with (42 ∷ 46 ∷ []) text ≡ true
    → (rest : List ℕ) × (text ≡ 42 ∷ 46 ∷ rest)
unfolding starts_with
starts_with-star [] e = cc
starts_with-star (a ∷ []) e = let (p, q) = both (42 == a) false e in cc
starts_with-star (a ∷ b ∷ text) e =
    let (p, q) = both (42 == a) ((46 == b) && true) e in
    let (r, s) = both (46 == b) true q in
    let x = (==_iff 42 a).0 p in let y = (==_iff 46 b).0 r in (text, cc)

contains-All : (c : ℕ) (text : List ℕ) → contains c text ≡ false → All (λ d. c ≢ d) text
unfolding contains
contains-All c [] e = tt
contains-All c (d ∷ text) e = elim (Bool-cases (c == d)) [
  | inl h ↦ let bad : true ≡ false = rw h at e in cc
  | inr h ↦ (λ same. let bad = (==_iff c d).1 same in cc, contains-All c text (rw h at e))
]

All-contains : (c : ℕ) (text : List ℕ) → All (λ d. c ≢ d) text → contains c text ≡ false
unfolding contains
All-contains c [] h = refl
All-contains c (d ∷ text) (n, h) = elim (Bool-cases (c == d)) [
  | inl e ↦ absurd (n ((==_iff c d).0 e))
  | inr e ↦ rw e (All-contains c text h)
]

pub ends_with-append : (suffix text : List ℕ) → ends_with suffix (text ++ suffix) ≡ true
unfolding ends_with
ends_with-append suffix text =
    let n : length (text ++ suffix) - length suffix ≡ length text =
      omega (arith, length-append text suffix) in
    rw
      (
        le→leb (length suffix) (length (text ++ suffix)) (omega (arith, length-append text suffix)),
        n,
        drop-length-append text suffix,
      )
      (eq_bytes_refl suffix)

ends_with-cut :
    (suffix text : List ℕ)
    → ends_with suffix text ≡ true
    → text ≡ take (length text - length suffix) text ++ suffix
unfolding ends_with
ends_with-cut suffix text e =
    let (p, q) =
      both (leb (length suffix) (length text))
        (eq_bytes (drop (length text - length suffix) text) suffix) e in
    sym (take-append-drop (length text - length suffix) text)
    ∙ ap (◌++◌ (take (length text - length suffix) text)) (eq_bytes→≡ _ _ q)

not_empty : (text : List ℕ) → not (is_empty text) ≡ true → text ≢ []
not_empty [] e h = cc
not_empty (c ∷ text) e h = cc

is_empty-false : (text : List ℕ) → text ≢ [] → is_empty text ≡ false
is_empty-false [] n = absurd (n refl)
is_empty-false (c ∷ text) n = refl

not-true : (b : Bool) → not b ≡ true → b ≡ false
not-true true e = cc
not-true false e = refl

matches_wildcard-label :
    (hostname suffix : List ℕ)
    → matches_wildcard hostname suffix ≡ true
    → (label : List ℕ) × (hostname ≡ label ++ suffix) × (label ≢ []) × All (λ c. 46 ≢ c) label
unfolding matches_wildcard
matches_wildcard-label hostname suffix e =
    let prefix = take (length hostname - length suffix) hostname in
    elim (Bool-cases (ends_with suffix hostname)) [
      | inl f ↦
          let (p, q) = both (not (contains 46 prefix)) (not (is_empty prefix)) (rw f at e) in
          (
            prefix,
            ends_with-cut suffix hostname f,
            not_empty prefix q,
            contains-All 46 prefix (not-true (contains 46 prefix) p),
          )
      | inr f ↦ let bad : false ≡ true = rw f at e in cc
    ]

matches_wildcard-append :
    (label suffix : List ℕ)
    → label ≢ []
    → All (λ c. 46 ≢ c) label
    → matches_wildcard (label ++ suffix) suffix ≡ true
unfolding matches_wildcard
matches_wildcard-append label suffix n h =
    let count : length (label ++ suffix) - length suffix ≡ length label =
      omega (arith, length-append label suffix) in
    rw
      (
        ends_with-append suffix label,
        count,
        take-length-append label suffix,
        All-contains 46 label h,
        is_empty-false label n,
      )
      refl

matches_lower-Names :
    (hostname pattern_ : List ℕ) → matches_lower hostname pattern_ ≡ true → Names pattern_ hostname
unfolding matches_lower
matches_lower-Names hostname pattern_ e = elim (Bool-cases (eq_bytes hostname pattern_)) [
  | inl same ↦ inl (eq_bytes→≡ hostname pattern_ same)
  | inr other ↦ elim (Bool-cases (starts_with (42 ∷ 46 ∷ []) pattern_)) [
    | inl star ↦
        let (domain, p) = starts_with-star pattern_ star in
        let (label, q, n, h) =
          matches_wildcard-label hostname (drop 1 pattern_) (rw (other, star) at e) in
        inr (label, domain, p, q ∙ ap (λ t. label ++ drop 1 t) p, n, h)
    | inr plain ↦ let bad : false ≡ true = rw (other, plain) at e in cc
  ]
]

Names-matches_lower :
    (hostname pattern_ : List ℕ) → Names pattern_ hostname → matches_lower hostname pattern_ ≡ true
unfolding matches_lower starts_with
Names-matches_lower hostname pattern_ (inl same) = rw (same, eq_bytes_refl pattern_) refl
Names-matches_lower hostname pattern_ (inr (label, domain, p, q, n, h)) =
    elim (Bool-cases (eq_bytes hostname pattern_)) [
      | inl e ↦ rw e refl
      | inr e ↦ rw (e, p, q) (matches_wildcard-append label (46 ∷ domain) n h)
    ]

-- A name of a certificate matches the server's exactly where it stands for it, both in lower case: it
-- is the same name, or `*.` and a domain, and the server's name is one label, neither empty nor
-- with a dot in it, before that domain.
pub matches_hostname-Names :
    (to_lowercase : List ℕ → List ℕ) (server_name pattern_ : List ℕ)
    → (matches_hostname to_lowercase server_name pattern_ ≡ true)
      ↔ Names (to_lowercase pattern_) (to_lowercase server_name)
unfolding matches_hostname
matches_hostname-Names to_lowercase server_name pattern_ = (
  matches_lower-Names (to_lowercase server_name) (to_lowercase pattern_),
  Names-matches_lower (to_lowercase server_name) (to_lowercase pattern_),
)
