-- ===== src/Turbo/Header.antt =====
-- `TurboFrame::decode` of webtor/src/turbo.rs on the headers that the encoder writes.
use webtor_rs.Base.{
  ℕ, ◌+◌, ◌*◌, ◌/◌, ◌%◌, ◌≤◌, ◌<◌, ◌≡◌, arith, bit_and, Bool, Bool-cases, inl, inr, leb→le, List,
  [], ◌∷◌, ◌++◌, Option, none, some, length, take, leb, ltb, if◌then◌else◌,
}
use webtor_rs.Base.Bits.{low_six, low_seven, bit_seven, bit_six, or_shift_seven, or_groups}
use webtor_rs.Base.Outcome.{Result, ok}
use webtor_rs.Error.{TorError}
use webtor_rs.Turbo.Frame.{TurboFrame, decode, decode_header}
use webtor_rs.Turbo.Wire.{flag, header}

-- What the decoder answers once the header for `n` bytes of payload is complete.
abbrev pub after_header : Bool → ℕ → ℕ → List ℕ → Result TorError (Option (TurboFrame × ℕ))
after_header p n size rest =
    if ltb (length rest) n
    then ok none
    else ok (some (record { bytes = take n rest; is_padding = p }, size + n))

-- The three fields of a first byte.
module _ (p : Bool) (c n : ℕ) (hc : c ≤ 1) (hn : n ≤ 63) where
  first_mask : bit_and (flag p + c * 64 + n) 63 ≡ n
  first_mask = rw (low_six (flag p + c * 64 + n) (ground arith)) (ground arith)

  first_more : bit_and (flag p + c * 64 + n) 64 ≡ c * 64
  first_more = rw (bit_six (flag p + c * 64 + n) (ground arith)) (ground arith)

  first_flag : bit_and (flag p + c * 64 + n) 128 ≡ flag p
  first_flag = rw (bit_seven (flag p + c * 64 + n) (ground arith)) (ground arith)

pub decode_short :
    (p : Bool) (n : ℕ) (rest : List ℕ)
    → n ≤ 63
    → decode ((flag p + n) ∷ rest) ≡ after_header p n 1 rest
unfolding decode decode_header
decode_short p n rest h =
    let e : flag p + n ≡ flag p + 0 * 64 + n = omega arith in
    rw e (
      ground (
        arith,
        first_mask p 0 n (omega arith) h,
        first_more p 0 n (omega arith) h,
        first_flag p 0 n (omega arith) h,
      ))

module _ (p : Bool) (a : ℕ) (ha : a ≤ 63) where
  pub decode_two :
      (b : ℕ) (rest : List ℕ)
      → b < 128
      → decode ((flag p + 64 + a) ∷ b ∷ rest) ≡ after_header p (a * 128 + b) 2 rest
  unfolding decode decode_header
  decode_two b rest hb =
      let e : flag p + 64 + a ≡ flag p + 1 * 64 + a = omega arith in
      rw e (
        ground (
          arith,
          first_mask p 1 a (omega arith) ha,
          first_more p 1 a (omega arith) ha,
          first_flag p 1 a (omega arith) ha,
          bit_seven b,
          low_seven b,
          or_shift_seven a b,
        ))

  pub decode_three :
      (b c : ℕ) (rest : List ℕ)
      → b < 128
      → c < 128
      → decode ((flag p + 64 + a) ∷ (128 + b) ∷ c ∷ rest)
        ≡ after_header p (a * 16384 + b * 128 + c) 3 rest
  unfolding decode decode_header
  decode_three b c rest hb hc =
      let e : flag p + 64 + a ≡ flag p + 1 * 64 + a = omega arith in
      rw e (
        ground (
          arith,
          first_mask p 1 a (omega arith) ha,
          first_more p 1 a (omega arith) ha,
          first_flag p 1 a (omega arith) ha,
          bit_seven (128 + b),
          low_seven (128 + b),
          low_seven c,
          or_groups a b c hb hc,
        ))

  pub decode_one_of_more : decode ((flag p + 64 + a) ∷ []) ≡ ok none
  unfolding decode decode_header
  decode_one_of_more =
      let e : flag p + 64 + a ≡ flag p + 1 * 64 + a = omega arith in
      rw e (ground (arith, first_more p 1 a (omega arith) ha))

  pub decode_two_of_three :
      (b : ℕ) → b < 128 → decode ((flag p + 64 + a) ∷ (128 + b) ∷ []) ≡ ok none
  unfolding decode decode_header
  decode_two_of_three b hb =
      let e : flag p + 64 + a ≡ flag p + 1 * 64 + a = omega arith in
      rw e (ground (arith, first_more p 1 a (omega arith) ha, bit_seven (128 + b)))

pub length-header :
    (p : Bool) (n : ℕ) → length (header p n) ≡ (if leb n 63 then 1 else if leb n 8191 then 2 else 3)
length-header p n = ground arith

-- A complete header is read back, whatever part of the payload has arrived.
pub decode-header :
    (p : Bool) (n : ℕ) (rest : List ℕ)
    → n ≤ 0xfffff
    → decode (header p n ++ rest) ≡ after_header p n (length (header p n)) rest
decode-header p n rest h = elim (Bool-cases (leb n 63)) [
  | inl short ↦ rw short (decode_short p n rest (leb→le _ _ short))
  | inr long ↦ elim (Bool-cases (leb n 8191)) [
    | inl medium ↦
        rw (long, medium)
          (rw e₂ at (decode_two p (n / 128) (ground arith) (n % 128) rest (omega arith)))
    | inr large ↦
        rw (long, large)
          (rw e₃ at (
            decode_three p (n / 16384) (omega arith) (n / 128 % 128) (n % 128) rest (omega arith)
              (omega arith)))
  ]
]
  where
    e₂ : n / 128 * 128 + n % 128 ≡ n
    e₂ = omega arith

    e₃ : n / 16384 * 16384 + n / 128 % 128 * 128 + n % 128 ≡ n
    e₃ = omega arith
