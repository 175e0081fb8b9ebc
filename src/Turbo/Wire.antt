-- ===== src/Turbo/Wire.antt =====
-- What `TurboFrame::encode` of webtor/src/turbo.rs writes, in plain arithmetic.
use webtor_rs.Base.{
  ℕ, ◌+◌, ◌/◌, ◌%◌, ◌≤◌, ◌≡◌, arith, bit_and, bit_or, Bool, true, false, List, [], ◌∷◌, ◌++◌,
  length, leb, if◌then◌else◌,
}
use webtor_rs.Base.Bits.{low_six, or_80, or_40, or_c0, or_00, mask_seven}
use webtor_rs.Base.Outcome.{ok}
use webtor_rs.Turbo.Frame.{TurboFrame, encode}

-- The data flag as a number.
abbrev pub flag : Bool → ℕ
flag padding = if padding then 0 else 128

-- The header in plain arithmetic, for a length below 2 ^ 20.
abbrev pub header : Bool → ℕ → List ℕ
header p n =
    if leb n 63
    then (flag p + n) ∷ []
    else if leb n 8191
    then (flag p + 64 + n / 128) ∷ n % 128 ∷ []
    else (flag p + 64 + n / 16384) ∷ (128 + n / 128 % 128) ∷ n % 128 ∷ []

unfoldable pub wire : TurboFrame → List ℕ
wire f = header f.is_padding (length f.bytes) ++ f.bytes

abbrev pub Fits : TurboFrame → Type 0
Fits f = length f.bytes ≤ 0xfffff

first_short : (p : Bool) (n : ℕ) → n ≤ 63 → bit_or (flag p) (bit_and (n % 256) 63) ≡ flag p + n
first_short true n h =
    rw (low_six (n % 256) (omega arith), or_00 (n % 256 % 64) (omega arith)) (omega arith)
first_short false n h =
    rw (low_six (n % 256) (omega arith), or_80 (n % 256 % 64) (omega arith)) (omega arith)

first_long :
    (p : Bool) (n : ℕ)
    → n ≤ 63
    → bit_or (bit_or (flag p) 64) (bit_and (n % 256) 63) ≡ flag p + 64 + n
first_long true n h =
    rw (low_six (n % 256) (omega arith), or_40 (n % 256 % 64) (omega arith)) (omega arith)
first_long false n h =
    rw (low_six (n % 256) (omega arith), or_c0 (n % 256 % 64) (omega arith)) (omega arith)

middle_byte : (n : ℕ) → bit_or 128 (bit_and (n % 256) 127) ≡ 128 + n % 128
middle_byte n = rw (mask_seven (n % 256), or_80 (n % 256 % 128) (omega arith)) (omega arith)

-- The encoder writes the header and the payload, and fails on no frame that fits.
pub encode-wire : (f : TurboFrame) → Fits f → encode f ≡ ok (wire f)
unfolding encode wire
encode-wire f h = ground (
  arith,
  first_short f.is_padding (length f.bytes),
  first_long f.is_padding (length f.bytes / 128),
  first_long f.is_padding (length f.bytes / 16384),
  middle_byte (length f.bytes / 128),
  mask_seven (length f.bytes),
)
