-- ===== src/Tls/Cert/Ecdsa/Encoding.antt =====
-- The DER INTEGERs of an ECDSA signature, and what `convert_ecdsa_signature_from_der_sized` of
-- subtle-tls/src/cert.rs makes of their contents.
use webtor_rs.Base.{
  ℕ, zero, suc, ◌+◌, ◌-◌, ◌≤◌, ◌≡◌, ◌≢◌, refl, sym, ap, ◌∙◌, arith, min, true, false, List, [], ◌∷◌,
  ◌++◌, length, ltb, ◌==◌, ==_iff, Bool-cases, inl, inr, ltb→lt, lt→ltb, le→ltb_false, take_all,
  if◌then◌else◌,
}
use webtor_rs.Base.Outcome.{ok}
use webtor_rs.Tls.Handshake.Parse.{slice}
use webtor_rs.Tls.Handshake.Total.{byte-ok, slice-ok}
use webtor_rs.Tls.Cert.Ecdsa.{zeros, first_nonzero, start_of, place}

-- The content of a DER INTEGER for a number that is given by its big-endian bytes: no leading zeros,
-- but one where the first bit would be a sign.
unfoldable pub minimal : List ℕ → List ℕ
minimal [] = []
minimal (b ∷ []) = b ∷ []
minimal (b ∷ c ∷ bytes) = if b == 0 then minimal (c ∷ bytes) else b ∷ c ∷ bytes

unfoldable pub signed : List ℕ → List ℕ
signed [] = []
signed (b ∷ bytes) = if ltb b 128 then b ∷ bytes else 0 ∷ b ∷ bytes

unfoldable pub der_integer : List ℕ → List ℕ
der_integer bytes = 2 ∷ length (signed (minimal bytes)) ∷ signed (minimal bytes)

zeros_snoc : (n : ℕ) (xs : List ℕ) → zeros n ++ 0 ∷ xs ≡ zeros (suc n) ++ xs
zeros_snoc zero xs = refl
zeros_snoc (suc n) xs = ap (◌∷◌ 0) (zeros_snoc n xs)

length-minimal :
    (b : ℕ) (bytes : List ℕ)
    → (1 ≤ length (minimal (b ∷ bytes))) × (length (minimal (b ∷ bytes)) ≤ length (b ∷ bytes))
unfolding minimal
length-minimal b [] = (omega arith, omega arith)
length-minimal b (c ∷ bytes) = elim (Bool-cases (b == 0)) [
  | inl e ↦ let (p, q) = length-minimal c bytes in rw e (p, omega arith)
  | inr e ↦ rw e (omega arith, omega arith)
]

zeros-minimal :
    (b : ℕ) (bytes : List ℕ)
    → zeros (length (b ∷ bytes) - length (minimal (b ∷ bytes))) ++ minimal (b ∷ bytes) ≡ b ∷ bytes
unfolding minimal
zeros-minimal b [] = refl
zeros-minimal b (c ∷ bytes) = elim (Bool-cases (b == 0)) [
  | inl e ↦
      let (p, q) = length-minimal c bytes in
      let n : length (b ∷ c ∷ bytes) - length (minimal (c ∷ bytes))
          ≡ suc (length (c ∷ bytes) - length (minimal (c ∷ bytes))) =
        omega arith in
      let zero_ : 0 ≡ b = sym ((==_iff b 0).0 e) in
      let later = zeros-minimal c bytes in rw (e, n) (cc)
  | inr e ↦
      let n : length (b ∷ c ∷ bytes) - length (b ∷ c ∷ bytes) ≡ 0 = omega arith in rw (e, n) refl
]

slice_all : (xs : List ℕ) → slice xs 0 (length xs) ≡ ok xs
slice_all xs =
    slice-ok xs 0 (length xs) (omega arith) (omega arith)
    ∙ ap ok (take_all (length xs - 0) xs (omega arith))

place_short :
    (coord_size : ℕ) (xs : List ℕ)
    → length xs ≤ coord_size
    → place coord_size xs ≡ ok (zeros (coord_size - length xs) ++ xs)
unfolding place start_of
place_short coord_size xs h =
    let n : min (length xs) coord_size ≡ length xs = omega arith in
    rw (le→ltb_false coord_size (length xs) h, slice_all xs, n, slice_all xs) refl

first_nonzero-cons : (b : ℕ) (xs : List ℕ) → b ≢ 0 → first_nonzero (b ∷ xs) ≡ 0
unfolding first_nonzero
first_nonzero-cons b [] h = refl
first_nonzero-cons b (c ∷ xs) h = elim (Bool-cases (b == 0)) [
  | inl e ↦ absurd (h ((==_iff b 0).0 e))
  | inr e ↦ rw e refl
]

start_of-padded : (b : ℕ) (xs : List ℕ) → b ≢ 0 → start_of (length (b ∷ xs)) (0 ∷ b ∷ xs) ≡ ok 1
unfolding start_of first_nonzero
start_of-padded b xs h =
    rw
      (
        lt→ltb (suc (length xs)) (suc (suc (length xs))) (omega arith),
        byte-ok (0 ∷ b ∷ xs) 0 (omega arith),
        first_nonzero-cons b xs h,
      )
      refl

place_padded : (b : ℕ) (xs : List ℕ) → b ≢ 0 → place (length (b ∷ xs)) (0 ∷ b ∷ xs) ≡ ok (b ∷ xs)
unfolding place
place_padded b xs h =
    let kept : slice (0 ∷ b ∷ xs) 1 (length (0 ∷ b ∷ xs)) ≡ ok (b ∷ xs) =
      slice-ok (0 ∷ b ∷ xs) 1 (length (0 ∷ b ∷ xs)) (omega arith) (omega arith)
      ∙ ap ok (take_all (length (0 ∷ b ∷ xs) - 1) (b ∷ xs) (omega arith)) in
    let n : min (length (b ∷ xs)) (length (b ∷ xs)) ≡ length (b ∷ xs) = omega arith in
    let none_ : length (b ∷ xs) - length (b ∷ xs) ≡ 0 = omega arith in
    rw (start_of-padded b xs h, kept, n, slice_all (b ∷ xs), none_) refl

-- A number without leading zeros that fits, padded with a zero or not.
place-signed :
    (coord_size : ℕ) (xs : List ℕ)
    → 1 ≤ length xs
    → length xs ≤ coord_size
    → place coord_size (signed xs) ≡ ok (zeros (coord_size - length xs) ++ xs)
unfolding signed
place-signed coord_size [] n h = absurd (omega arith)
place-signed coord_size (b ∷ xs) n h = elim (Bool-cases (ltb b 128)) [
  | inl small ↦ rw small (place_short coord_size (b ∷ xs) h)
  | inr large ↦
      let top : b ≢ 0 = λ e. let bad : true ≡ false = ap (λ x. ltb x 128) (sym e) ∙ large in cc in
      elim (Bool-cases (ltb (length (b ∷ xs)) coord_size)) [
        | inl room ↦
            let lt = ltb→lt (length (b ∷ xs)) coord_size room in
            let m : coord_size - length (b ∷ xs) ≡ suc (coord_size - length (0 ∷ b ∷ xs)) =
              omega arith in
            rw large (
              place_short coord_size (0 ∷ b ∷ xs) (omega arith)
              ∙ ap ok (
                  zeros_snoc (coord_size - length (0 ∷ b ∷ xs)) (b ∷ xs)
                  ∙ ap (λ k. zeros k ++ b ∷ xs) (sym m)))
        | inr full ↦
            let same : coord_size ≡ length (b ∷ xs) = ground arith in
            let none_ : length (b ∷ xs) - length (b ∷ xs) ≡ 0 = omega arith in
            rw (large, same, none_) (place_padded b xs top)
      ]
]

pub place-signed-minimal :
    (xs : List ℕ) → 1 ≤ length xs → place (length xs) (signed (minimal xs)) ≡ ok xs
place-signed-minimal [] h = absurd (omega arith)
place-signed-minimal (b ∷ bytes) h =
    let (p, q) = length-minimal b bytes in
    place-signed (length (b ∷ bytes)) (minimal (b ∷ bytes)) p q ∙ ap ok (zeros-minimal b bytes)

length-signed :
    (xs : List ℕ) → (length xs ≤ length (signed xs)) × (length (signed xs) ≤ length xs + 1)
unfolding signed
length-signed [] = (omega arith, omega arith)
length-signed (b ∷ xs) = elim (Bool-cases (ltb b 128)) [
  | inl e ↦ rw e (omega arith, omega arith)
  | inr e ↦ rw e (omega arith, omega arith)
]

pub length-der_integer :
    (xs : List ℕ)
    → 1 ≤ length xs
    → (3 ≤ length (der_integer xs)) × (length (der_integer xs) ≤ length xs + 3)
unfolding der_integer
length-der_integer [] h = absurd (omega arith)
length-der_integer (b ∷ xs) h =
    let (p, q) = length-minimal b xs in
    let (m, n) = length-signed (minimal (b ∷ xs)) in (omega arith, omega arith)
