-- ===== src/Base/BigEndian.antt =====
-- Numbers and their big-endian bytes, the way the sources join them: `(a << 8) | b`.
use Prim.Native.Nat.{ℕ, ◌+◌, ◌*◌, ◌/◌, ◌%◌, ◌<◌, ◌^◌, bit_or}
use mathlib.Core.Path.{◌≡◌}
use mathlib.Core.List.{List, [], ◌∷◌}
use native.Mathlib.Omega.{arith}
use webtor_rs.Base.Bits.{or_halves, or_twice, or_scale_seven, or_shift_seven}

-- `((a as usize) << 8) | (b as usize)`
abbrev pub be16 : ℕ → ℕ → ℕ
be16 a b = bit_or (a * 256) b

-- `((a as usize) << 16) | ((b as usize) << 8) | (c as usize)`
abbrev pub be24 : ℕ → ℕ → ℕ → ℕ
be24 a b c = bit_or (bit_or (a * 65536) (b * 256)) c

-- `(n >> 8) as u8` and `n as u8`
abbrev pub be16_bytes : ℕ → List ℕ
be16_bytes n = n / 256 % 256 ∷ n % 256 ∷ []

or_shift_eight : (a b : ℕ) → b < 256 → bit_or (a * 256) b ≡ a * 256 + b
or_shift_eight a b h = omega (
  arith,
  or_halves (a * 256) b (a * 128) (b / 2) (omega arith) (omega arith),
  or_shift_seven a (b / 2) (omega arith),
)

or_scale_eight : (x y : ℕ) → bit_or (x * 256) (y * 256) ≡ bit_or x y * 256
or_scale_eight x y = omega (
  arith,
  or_twice (x * 256) (y * 256) (x * 128) (y * 128) (omega arith) (omega arith),
  or_scale_seven x y,
)

pub be16-bytes : (a b : ℕ) → b < 256 → be16 a b ≡ a * 256 + b
be16-bytes = or_shift_eight

pub be24-bytes : (a b c : ℕ) → b < 256 → c < 256 → be24 a b c ≡ a * 65536 + b * 256 + c
be24-bytes a b c hb hc =
    let e : a * 65536 ≡ a * 256 * 256 = omega arith in
    rw (e, or_scale_eight (a * 256) b, or_shift_eight a b hb, or_shift_eight (a * 256 + b) c hc)
      (omega arith)

pub be16-be16_bytes : (n : ℕ) → n < 2 ^ 16 → be16 (n / 256 % 256) (n % 256) ≡ n
be16-be16_bytes n h = omega (arith, be16-bytes (n / 256 % 256) (n % 256) (omega arith))

pub be24-be24_bytes : (n : ℕ) → n < 2 ^ 24 → be24 (n / 65536 % 256) (n / 256 % 256) (n % 256) ≡ n
be24-be24_bytes n h =
    omega
      (arith, be24-bytes (n / 65536 % 256) (n / 256 % 256) (n % 256) (omega arith) (omega arith))
