-- ===== src/Isolation/Groups.antt =====
-- Which URLs have the same key by `IsolationKey::from_url` of webtor/src/isolation.rs.
use Prim.Native.Char.{code}
use Prim.Native.String.{◌++◌ as ◌<>◌}
use text.Mathlib.Text.{◌==◌ as str_eq}
use text.Mathlib.TextEquality.{Char-path, eq_iff}
use text.Mathlib.TextLemmas.{nil-append, cons-append}
use webtor_rs.Base.{
  ℕ, zero, suc, ◌+◌, ◌-◌, ◌*◌, ◌/◌, ◌%◌, ◌<◌, ◌≡◌, ◌≢◌, ◌↔◌, ◌⊎◌, true, false, none, Option-cases,
  refl, sym, ap, ◌∙◌, arith, List, [], ◌∷◌, ◌++◌, some, String, All, ltb, ltb→lt, Bool-cases, inl,
  inr,
}
use webtor_rs.Isolation.{
  StreamIsolationPolicy, per_domain, per_subdomain, per_origin, no_isolation, Url, Hosts, digit,
  digits, host_of, port_of, extract_domain, from_url,
}

abbrev pub codes : String → List ℕ
codes String.[] = []
codes (String.◌∷◌ c s) = code c ∷ codes s

-- A text with no colon.
abbrev pub NoColon : List ℕ → Type 0
NoColon = All (λ c. 58 ≢ c)

codes-append : (s t : String) → codes (s <> t) ≡ codes s ++ codes t
codes-append String.[] t = ap codes (nil-append t)
codes-append (String.◌∷◌ c s) t =
    ap codes (cons-append c s t) ∙ ap (◌∷◌ (code c)) (codes-append s t)

codes_inj : (s t : String) → codes s ≡ codes t → s ≡ t
codes_inj String.[] String.[] e = refl
codes_inj String.[] (String.◌∷◌ c t) e = cc
codes_inj (String.◌∷◌ c s) String.[] e = cc
codes_inj (String.◌∷◌ c s) (String.◌∷◌ d t) e =
    let first : code c ≡ code d = cc in
    let same = Char-path c d first in let later = codes_inj s t (cc) in cc

-- The digits and what they stand for.
value : List ℕ → ℕ → ℕ
value [] acc = acc
value (c ∷ cs) acc = value cs (acc * 10 + (c - 48))

value-append : (xs : List ℕ) (c acc : ℕ) → value (xs ++ c ∷ []) acc ≡ value xs acc * 10 + (c - 48)
unfolding value
value-append [] c acc = refl
value-append (x ∷ xs) c acc = value-append xs c (acc * 10 + (x - 48))

code-digit : (n : ℕ) → n < 10 → codes (digit n) ≡ (48 + n) ∷ []
unfolding digit
code-digit zero h = refl
code-digit (suc zero) h = refl
code-digit (suc (suc zero)) h = refl
code-digit (suc (suc (suc zero))) h = refl
code-digit (suc (suc (suc (suc zero)))) h = refl
code-digit (suc (suc (suc (suc (suc zero))))) h = refl
code-digit (suc (suc (suc (suc (suc (suc zero)))))) h = refl
code-digit (suc (suc (suc (suc (suc (suc (suc zero))))))) h = refl
code-digit (suc (suc (suc (suc (suc (suc (suc (suc zero)))))))) h = refl
code-digit (suc (suc (suc (suc (suc (suc (suc (suc (suc zero))))))))) h = refl
code-digit (suc (suc (suc (suc (suc (suc (suc (suc (suc (suc n)))))))))) h = absurd (omega arith)

NoColon-append : (xs ys : List ℕ) → NoColon xs → NoColon ys → NoColon (xs ++ ys)
NoColon-append [] ys h k = k
NoColon-append (x ∷ xs) ys (n, h) k = (n, NoColon-append xs ys h k)

NoColon-digit : (n : ℕ) → n < 10 → NoColon (codes (digit n))
NoColon-digit n h = rw (code-digit n h) ((λ e. absurd (omega arith)), tt)

NoColon-digits : (fuel n : ℕ) → NoColon (codes (digits fuel n))
unfolding digits
NoColon-digits zero n = tt
NoColon-digits (suc fuel) n = elim (Bool-cases (ltb n 10)) [
  | inl e ↦ rw e (NoColon-digit n (ltb→lt n 10 e))
  | inr e ↦
      rw (e, codes-append (digits fuel (n / 10)) (digit (n % 10)))
        (NoColon-append (codes (digits fuel (n / 10))) (codes (digit (n % 10)))
          (NoColon-digits fuel (n / 10)) (NoColon-digit (n % 10) (omega arith)))
]

-- How many numbers have that many digits.
abbrev room : ℕ → ℕ
room zero = 1
room (suc fuel) = 10 * room fuel

value-digits : (fuel n : ℕ) → n < room fuel → value (codes (digits fuel n)) 0 ≡ n
unfolding digits value
value-digits zero n h = omega arith
value-digits (suc fuel) n h = elim (Bool-cases (ltb n 10)) [
  | inl e ↦ rw (e, code-digit n (ltb→lt n 10 e)) (omega arith)
  | inr e ↦
      rw
        (
          e,
          codes-append (digits fuel (n / 10)) (digit (n % 10)),
          code-digit (n % 10) (omega arith),
          value-append (codes (digits fuel (n / 10))) (48 + n % 10) 0,
          value-digits fuel (n / 10) (omega arith),
        )
        (omega arith)
]

-- Two texts cut at their first colon, and at their last one.
cut_first :
    (xs ys us vs : List ℕ)
    → NoColon xs
    → NoColon us
    → xs ++ 58 ∷ ys ≡ us ++ 58 ∷ vs
    → (xs ≡ us) × (ys ≡ vs)
cut_first [] ys [] vs h k e = (refl, cc)
cut_first [] ys (u ∷ us) vs h (n, k) e = let same : 58 ≡ u = cc in absurd (n same)
cut_first (x ∷ xs) ys [] vs (n, h) k e = let same : 58 ≡ x = cc in absurd (n same)
cut_first (x ∷ xs) ys (u ∷ us) vs (m, h) (n, k) e =
    let (p, q) = cut_first xs ys us vs h k (cc) in let same : x ≡ u = cc in (cc, q)

has_colon : (xs ys : List ℕ) → NoColon (xs ++ 58 ∷ ys) → ⊥
has_colon [] ys (n, h) = n refl
has_colon (x ∷ xs) ys (n, h) = has_colon xs ys h

cut_last :
    (xs ys us vs : List ℕ)
    → NoColon ys
    → NoColon vs
    → xs ++ 58 ∷ ys ≡ us ++ 58 ∷ vs
    → (xs ≡ us) × (ys ≡ vs)
cut_last [] ys [] vs h k e = (refl, cc)
cut_last [] ys (u ∷ us) vs h k e =
    let same : ys ≡ us ++ 58 ∷ vs = cc in absurd (has_colon us vs (rw same at h))
cut_last (x ∷ xs) ys [] vs h k e =
    let same : vs ≡ xs ++ 58 ∷ ys = cc in absurd (has_colon xs ys (rw same at k))
cut_last (x ∷ xs) ys (u ∷ us) vs h k e =
    let (p, q) = cut_last xs ys us vs h k (cc) in let same : x ≡ u = cc in (cc, q)

-- A host that is no name of a domain: empty, an address, or an address in brackets.
abbrev pub IsAddress : Hosts → String → Type 0
IsAddress hosts host =
    (host ≡ "") ⊎ ((hosts.is_ip_addr host ≡ true) ⊎ (hosts.in_brackets host ≡ true))

-- The site of a host: its registrable domain by the public suffix list, or the host itself if it is
-- no name of a domain or the list has none for it.
abbrev pub IsSite : Hosts → String → String → Type 0
IsSite hosts host site =
    ((¬ IsAddress hosts host) × (hosts.psl_domain host ≡ some site))
    ⊎ ((IsAddress hosts host ⊎ (hosts.psl_domain host ≡ none)) × (site ≡ host))

not-IsAddress :
    (hosts : Hosts) (host : String)
    → str_eq host "" ≡ false
    → hosts.is_ip_addr host ≡ false
    → hosts.in_brackets host ≡ false
    → ¬ IsAddress hosts host
not-IsAddress hosts host e f g (inl h) =
    let bad : true ≡ false = sym ((eq_iff host "").1 h) ∙ e in cc
not-IsAddress hosts host e f g (inr (inl h)) = cc
not-IsAddress hosts host e f g (inr (inr h)) = cc

extract_domain-IsSite :
    (hosts : Hosts) (host : String) → IsSite hosts host (extract_domain hosts host)
unfolding extract_domain
extract_domain-IsSite hosts host = elim (Bool-cases (str_eq host "")) [
  | inl e ↦ let empty = (eq_iff host "").0 e in inr (inl (inl empty), rw e (sym empty))
  | inr e ↦ elim (Bool-cases (hosts.is_ip_addr host)) [
    | inl f ↦ inr (inl (inr (inl f)), rw (e, f) refl)
    | inr f ↦ elim (Bool-cases (hosts.in_brackets host)) [
      | inl g ↦ inr (inl (inr (inr g)), rw (e, f, g) refl)
      | inr g ↦ elim (Option-cases (hosts.psl_domain host)) [
        | inl n ↦ inr (inr n, rw (e, f, g, n) refl)
        | inr (domain, n) ↦ inl (not-IsAddress hosts host e f g, n ∙ ap some (rw (e, f, g, n) refl))
      ]
    ]
  ]
]

-- A host has one site.
IsSite-unique :
    (hosts : Hosts) (host a b : String) → IsSite hosts host a → IsSite hosts host b → a ≡ b
IsSite-unique hosts host a b (inl (n, e)) (inl (m, f)) = cc
IsSite-unique hosts host a b (inl (n, e)) (inr (inl m, f)) = absurd (n m)
IsSite-unique hosts host a b (inl (n, e)) (inr (inr m, f)) = cc
IsSite-unique hosts host a b (inr (inl n, e)) (inl (m, f)) = absurd (m n)
IsSite-unique hosts host a b (inr (inr n, e)) (inl (m, f)) = cc
IsSite-unique hosts host a b (inr (n, e)) (inr (m, f)) = e ∙ sym f

-- What a policy keeps together.
abbrev pub SameGroup : Hosts → StreamIsolationPolicy → Url → Url → Type 0
SameGroup hosts per_origin u v =
    (u.scheme ≡ v.scheme) × (host_of u ≡ host_of v) × (port_of u ≡ port_of v)
SameGroup hosts per_subdomain u v = host_of u ≡ host_of v
SameGroup hosts per_domain u v =
    (site : String) × IsSite hosts (host_of u) site × IsSite hosts (host_of v) site
SameGroup hosts no_isolation u v = Unit {0}

-- A URL's scheme has no colon, by the URL standard, and its port is a u16.
pub record IsUrl (u : Url) : Type 0 where
  pub plain_scheme : NoColon (codes u.scheme)
  pub small_port : port_of u < 65536

origin_text : Url → String
origin_text u = u.scheme <> ("://" <> (host_of u <> (":" <> digits 5 (port_of u))))

-- The codes of a key of an origin.
codes-origin_text :
    (u : Url)
    → codes (origin_text u)
      ≡ codes u.scheme ++ 58 ∷ (47 ∷ 47 ∷ (codes (host_of u) ++ 58 ∷ codes (digits 5 (port_of u))))
unfolding origin_text
codes-origin_text u =
    codes-append u.scheme _
    ∙ ap (◌++◌ (codes u.scheme)) (
        codes-append "://" _
        ∙ ap (λ t. 58 ∷ 47 ∷ 47 ∷ t)
            (codes-append (host_of u) _
              ∙ ap (◌++◌ (codes (host_of u))) (codes-append ":" (digits 5 (port_of u)))))

origin_text_inj :
    (u v : Url)
    → IsUrl u
    → IsUrl v
    → origin_text u ≡ origin_text v
    → (u.scheme ≡ v.scheme) × (host_of u ≡ host_of v) × (port_of u ≡ port_of v)
origin_text_inj u v p q e =
    let long = sym (codes-origin_text u) ∙ ap codes e ∙ codes-origin_text v in
    let long_u = codes (host_of u) ++ 58 ∷ codes (digits 5 (port_of u)) in
    let long_v = codes (host_of v) ++ 58 ∷ codes (digits 5 (port_of v)) in
    let (schemes, rest) =
      cut_first (codes u.scheme) (47 ∷ 47 ∷ long_u) (codes v.scheme) (47 ∷ 47 ∷ long_v)
        p.plain_scheme q.plain_scheme long in
    let (hosts, ports) =
      cut_last (codes (host_of u)) (codes (digits 5 (port_of u))) (codes (host_of v))
        (codes (digits 5 (port_of v))) (NoColon-digits 5 (port_of u)) (NoColon-digits 5 (port_of v))
        (cc) in
    let a = p.small_port in
    let b = q.small_port in
    (
      codes_inj u.scheme v.scheme schemes,
      codes_inj (host_of u) (host_of v) hosts,
      sym (value-digits 5 (port_of u) (omega arith))
          ∙ ap (λ t. value t 0) ports
          ∙ value-digits 5 (port_of v) (omega arith),
    )

some_inj : {A : Type 0} (a b : A) → some a ≡ some b → a ≡ b
some_inj a b e = cc

-- Two URLs have the same key, or both none, exactly where the policy keeps them together: for
-- `PerOrigin` the same scheme, host and port, for `PerSubdomain` the same host, for `PerDomain` the
-- same site, and for `None` any two. The site of a host is its registrable domain by the public suffix
-- list, or the host itself if it is an address, empty or not listed.
pub from_url-SameGroup :
    (hosts : Hosts) (policy : StreamIsolationPolicy) (u v : Url)
    → IsUrl u
    → IsUrl v
    → (from_url hosts u policy ≡ from_url hosts v policy) ↔ SameGroup hosts policy u v
unfolding from_url origin_text
from_url-SameGroup hosts per_origin u v p q = (
  λ e. origin_text_inj u v p q (some_inj _ _ e),
  λ h i. some (h.0 i <> ("://" <> (h.1 i <> (":" <> digits 5 (h.2 i))))),
)
from_url-SameGroup hosts per_subdomain u v p q = (λ e. some_inj _ _ e, λ h. ap some h)
from_url-SameGroup hosts per_domain u v p q =
    let a = extract_domain-IsSite hosts (host_of u) in
    let b = extract_domain-IsSite hosts (host_of v) in
    (
      λ e. (extract_domain hosts (host_of v), rw (some_inj _ _ e) at a, b),
      λ (site, h, k). ap some (
          IsSite-unique hosts (host_of u) _ site a h
          ∙ sym (IsSite-unique hosts (host_of v) _ site b k)),
    )
from_url-SameGroup hosts no_isolation u v p q = (λ e. tt, λ h. refl)
