-- ===== src/Tls/Handshake/Total.antt =====
-- The parsers of subtle-tls/src/handshake.rs end on every input.
use webtor_rs.Base.{
  ℕ, zero, suc, ◌+◌, ◌-◌, ◌<◌, ◌≤◌, ◌≡◌, ◌≢◌, refl, arith, min, Bool, true, false, ◌&&◌, ◌||◌, List,
  [], ◌∷◌, Option, none, some, length, take, drop, get_or, ltb, leb, ◌==◌, leb→le, lt→ltb, le→leb,
}
use webtor_rs.Base.BigEndian.{be16, be24}
use webtor_rs.Base.Outcome.{Result, ok, ◌>>=◌, Gives, Any, Gives->>=, Gives-if}
use webtor_rs.Tls.Error.{TlsError}
use webtor_rs.Tls.Handshake.Parse.{
  byte, slice, be16_at, be24_at, skip_extensions, certificate, certificates, certificate_list,
  parse_certificate, parse_certificate_verify,
}

pub byte-ok : (bytes : List ℕ) (i : ℕ) → i < length bytes → byte bytes i ≡ ok (get_or bytes i 0)
unfolding byte
byte-ok bytes i h = rw (lt→ltb i (length bytes) h) refl

be16_at-ok : (bytes : List ℕ) (i : ℕ) → i + 2 ≤ length bytes → (n : ℕ) × (be16_at bytes i ≡ ok n)
unfolding be16_at
be16_at-ok bytes i h = (
  be16 (get_or bytes i 0) (get_or bytes (i + 1) 0),
  rw (byte-ok bytes i (omega arith), byte-ok bytes (i + 1) (omega arith)) refl,
)

be24_at-ok : (bytes : List ℕ) (i : ℕ) → i + 3 ≤ length bytes → (n : ℕ) × (be24_at bytes i ≡ ok n)
unfolding be24_at
be24_at-ok bytes i h = (
  be24 (get_or bytes i 0) (get_or bytes (i + 1) 0) (get_or bytes (i + 2) 0),
  rw
      (
        byte-ok bytes i (omega arith),
        byte-ok bytes (i + 1) (omega arith),
        byte-ok bytes (i + 2) (omega arith),
      )
      refl,
)

pub slice-ok :
    (bytes : List ℕ) (i j : ℕ)
    → i ≤ j
    → j ≤ length bytes
    → slice bytes i j ≡ ok (take (j - i) (drop i bytes))
unfolding slice
slice-ok bytes i j h k = rw (le→leb i j h, le→leb j (length bytes) k) refl

both_hold : (b : Bool) (m n : ℕ) → b && leb m n ≡ true → m ≤ n
both_hold true m n h = leb→le m n h
both_hold false m n h = cc

not_past : (b : Bool) (m n : ℕ) → b || ltb m n ≡ false → n ≤ m
not_past true m n h = cc
not_past false m n h = ground arith

-- A certificate lies in the message, past its length.
abbrev Follows : List ℕ → ℕ → List ℕ × ℕ → Type 0
Follows bytes pos c = (pos + 3 ≤ c.1) × (c.1 ≤ length bytes)

certificate-Gives :
    (bytes : List ℕ) (list_end pos : ℕ)
    → pos + 3 ≤ length bytes
    → Gives (Follows bytes pos) (certificate bytes list_end pos)
unfolding certificate
certificate-Gives bytes list_end pos h =
    let (n, e) = be24_at-ok bytes pos h in
    rw e (
      Gives-if (Follows bytes pos) (ltb list_end (pos + 3 + n) || ltb (length bytes) (pos + 3 + n))
        _ _ (λ over. tt)
        (λ inside.
          let fits : pos + 3 + n ≤ length bytes =
            not_past (ltb list_end (pos + 3 + n)) _ _ inside in
          rw (slice-ok bytes (pos + 3) (pos + 3 + n) (omega arith) fits) (omega arith, fits)))

abbrev Resumes : List ℕ → ℕ → Option ℕ → Type 0
Resumes bytes pos none = Unit {0}
Resumes bytes pos (some q) = (pos ≤ q) × (q ≤ length bytes)

skip_extensions-Gives :
    (bytes : List ℕ) (list_end pos : ℕ)
    → pos ≤ length bytes
    → Gives (Resumes bytes pos) (skip_extensions bytes list_end pos)
unfolding skip_extensions
skip_extensions-Gives bytes list_end pos h =
    let P = Resumes bytes pos in
    Gives-if P (leb (pos + 2) list_end && leb (pos + 2) (length bytes)) _ _
      (λ there.
        let (n, e) = be16_at-ok bytes pos (both_hold (leb (pos + 2) list_end) _ _ there) in
        rw e (
          Gives-if P (ltb (length bytes) (pos + 2 + n)) _ _ (λ cut. tt)
            (λ whole. (omega arith, not_past false (length bytes) (pos + 2 + n) whole))))
      (λ missing. (omega arith, h))

certificates-Gives :
    (fuel : ℕ) (bytes : List ℕ) (list_end pos : ℕ)
    → pos ≤ length bytes
    → length bytes < fuel + pos
    → Gives Any (certificates fuel bytes list_end pos)
unfolding certificates
certificates-Gives zero bytes list_end pos b h = absurd (omega arith)
certificates-Gives (suc fuel) bytes list_end pos b h =
    Gives-if Any (leb (pos + 3) list_end && leb (pos + 3) (length bytes)) _ _
      (λ there.
        Gives->>= (Follows bytes pos) Any (certificate bytes list_end pos) _
          (certificate-Gives bytes list_end pos (both_hold (leb (pos + 3) list_end) _ _ there))
          (λ c past.
            Gives->>= (Resumes bytes c.1) Any (skip_extensions bytes list_end c.1) _
              (skip_extensions-Gives bytes list_end c.1 past.1)
              (λ next after.
                rest c past next after
                  (λ q p m. certificates-Gives fuel bytes list_end q m (omega arith)))))
      (λ missing. tt)
  where
    rest :
        (c : List ℕ × ℕ)
        → Follows bytes pos c
        → (next : Option ℕ) → Resumes bytes c.1 next
        → ((q : ℕ) → c.1 ≤ q → q ≤ length bytes → Gives Any (certificates fuel bytes list_end q))
        → Gives Any (elim next as (λ x. Result TlsError (List (List ℕ))) [
          | none ↦ ok (c.0 ∷ [])
          | some q ↦ certificates fuel bytes list_end q >>= λ certs. ok (c.0 ∷ certs)
        ])
    rest c past none after k = tt
    rest c past (some q) after k =
        Gives->>= Any Any (certificates fuel bytes list_end q) _ (k q after.0 after.1)
          (λ certs any. tt)

abbrev pub NotEmpty : List (List ℕ) → Type 0
NotEmpty certs = certs ≢ []

not_empty : (certs : List (List ℕ)) → (length certs == 0) ≡ false → NotEmpty certs
not_empty [] h = cc
not_empty (c ∷ certs) h = λ e. cc

certificate_list-Gives :
    (bytes : List ℕ) (pos : ℕ)
    → pos + 3 ≤ length bytes
    → Gives NotEmpty (certificate_list bytes pos)
unfolding certificate_list
certificate_list-Gives bytes pos h =
    let (n, e) = be24_at-ok bytes pos h in
    let list_end = min (pos + 3 + n) (length bytes) in
    rw e (
      Gives->>= Any NotEmpty (certificates (suc (length bytes)) bytes list_end (pos + 3)) _
        (certificates-Gives (suc (length bytes)) bytes list_end (pos + 3) h (omega arith))
        (λ certs any.
          Gives-if NotEmpty (length certs == 0) _ _ (λ empty. tt) (λ full. not_empty certs full)))

-- `parse_certificate` ends on every input: no index or slice of it is out of range, its loop does
-- not run out, and a list that it returns is not empty.
pub parse_certificate-Gives : (bytes : List ℕ) → Gives NotEmpty (parse_certificate bytes)
unfolding parse_certificate
parse_certificate-Gives bytes =
    Gives-if NotEmpty (ltb (length bytes) 4) _ _ (λ short. tt)
      (λ long.
        let enough = not_past false (length bytes) 4 long in
        rw (byte-ok bytes 0 (omega arith)) (
          Gives-if NotEmpty (ltb (length bytes) (1 + get_or bytes 0 0)) _ _ (λ over. tt)
            (λ within.
              Gives-if NotEmpty (ltb (length bytes) (1 + get_or bytes 0 0 + 3)) _ _ (λ over. tt)
                (λ there.
                  certificate_list-Gives bytes (1 + get_or bytes 0 0)
                    (not_past false (length bytes) _ there)))))

-- `parse_certificate_verify` ends on every input.
pub parse_certificate_verify-Gives : (bytes : List ℕ) → Gives Any (parse_certificate_verify bytes)
unfolding parse_certificate_verify
parse_certificate_verify-Gives bytes =
    Gives-if Any (ltb (length bytes) 4) _ _ (λ short. tt)
      (λ long.
        let enough = not_past false (length bytes) 4 long in
        let (a, e) = be16_at-ok bytes 0 (omega arith) in
        let (n, f) = be16_at-ok bytes 2 (omega arith) in
        rw (e, f)
          (Gives-if Any (ltb (length bytes) (4 + n)) _ _ (λ over. tt)
            (λ there.
              rw (slice-ok bytes 4 (4 + n) (omega arith) (not_past false (length bytes) _ there))
                tt)))
