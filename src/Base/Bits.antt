-- ===== src/Base/Bits.antt =====
-- `&` and `|` as arithmetic: masks on one byte by table, and the join of a shifted number
-- with low bits by the digit recursion of `bit_or`.
use Prim.Native.Nat.{
  bit_and, bit_and-bitwise, bit_or, bit_or-bitwise, bitwise, digits, max, min, ℕ, ◌≤◌, ◌<◌, ◌%◌,
  ◌/◌, ◌*◌, ◌+◌, zero, suc,
}
use mathlib.Core.Path.{◌≡◌, refl}
use mathlib.Core.Bool.{Bool, true, false}
use mathlib.Core.Logic.{ite}
use native.Mathlib.Decide.{ℕ_discrete}
use native.Mathlib.Omega.{arith}

module _ (f g : ℕ → ℕ) where
  agree_below : ℕ → Bool
  unfolding ℕ_discrete
  agree_below zero = true
  agree_below (suc n) = ite (ℕ_discrete (f n) (g n)) (agree_below n) false

  agree_below→eq : (n : ℕ) → agree_below n ≡ true → (i : ℕ) → i < n → f i ≡ g i
  unfolding agree_below
  agree_below→eq zero e i h = absurd (omega arith)
  agree_below→eq (suc n) e i h = ground (arith, agree_below→eq n (ground arith) i)

pub low_six : (b : ℕ) → b < 256 → bit_and b 0x3f ≡ b % 64
unfolding agree_below
low_six = agree_below→eq _ _ 256 refl

pub low_seven : (b : ℕ) → b < 256 → bit_and b 0x7f ≡ b % 128
unfolding agree_below
low_seven = agree_below→eq _ _ 256 refl

pub bit_seven : (b : ℕ) → b < 256 → bit_and b 0x80 ≡ b / 128 * 128
unfolding agree_below
bit_seven = agree_below→eq _ _ 256 refl

pub bit_six : (b : ℕ) → b < 256 → bit_and b 0x40 ≡ b / 64 % 2 * 64
unfolding agree_below
bit_six = agree_below→eq _ _ 256 refl

pub or_80 : (b : ℕ) → b < 128 → bit_or 0x80 b ≡ b + 128
unfolding agree_below
or_80 = agree_below→eq _ _ 128 refl

pub or_40 : (b : ℕ) → b < 64 → bit_or 0x40 b ≡ b + 64
unfolding agree_below
or_40 = agree_below→eq _ _ 64 refl

pub or_c0 : (b : ℕ) → b < 64 → bit_or 0xc0 b ≡ b + 192
unfolding agree_below
or_c0 = agree_below→eq _ _ 64 refl

pub or_00 : (b : ℕ) → b < 256 → bit_or 0 b ≡ b
unfolding agree_below
or_00 = agree_below→eq _ _ 256 refl

-- One digit of `bit_or` and `bit_and`: both count the digits to go with their first number, and a
-- larger count changes nothing.
module _ (z : ℕ → ℕ) (op : ℕ → ℕ → ℕ) where
  pub digits_count : (j k x y : ℕ) → x ≤ k → x ≤ j → digits z op k x y ≡ digits z op j x y
  digits_count zero zero x y hk hj = refl
  digits_count zero (suc k) zero y hk hj = refl
  digits_count (suc j) zero zero y hk hj = refl
  digits_count (suc j) (suc k) zero y hk hj = refl
  digits_count zero k (suc x) y hk hj = absurd (omega arith)
  digits_count (suc j) zero (suc x) y hk hj = absurd (omega arith)
  digits_count (suc j) (suc k) (suc x) y hk hj =
      omega (arith, digits_count j k (suc x / 2) (y / 2) (omega arith) (omega arith))

  pub bitwise_digit :
      (x y : ℕ)
      → bitwise z op (suc x) y ≡ bitwise z op (suc x / 2) (y / 2) * 2 + op (suc x % 2) (y % 2)
  bitwise_digit x y =
      omega (arith, digits_count (suc x / 2) x (suc x / 2) (y / 2) (omega arith) (omega arith))

or_digit : (x y : ℕ) → bit_or x y ≡ max (x % 2) (y % 2) + 2 * bit_or (x / 2) (y / 2)
or_digit zero y = omega (arith, bit_or-bitwise 0 y, bit_or-bitwise 0 (y / 2))
or_digit (suc x) y = omega (
  arith,
  bitwise_digit (λ b. b) max x y,
  bit_or-bitwise (suc x) y,
  bit_or-bitwise (suc x / 2) (y / 2),
)

and_digit : (x y : ℕ) → bit_and x y ≡ min (x % 2) (y % 2) + 2 * bit_and (x / 2) (y / 2)
and_digit zero y = omega (arith, bit_and-bitwise 0 y, bit_and-bitwise 0 (y / 2))
and_digit (suc x) y = omega (
  arith,
  bitwise_digit (λ b. zero) min x y,
  bit_and-bitwise (suc x) y,
  bit_and-bitwise (suc x / 2) (y / 2),
)

or_none : (k x : ℕ) → x ≤ k → bit_or x 0 ≡ x
or_none k zero h = refl
or_none zero (suc x) h = absurd (omega arith)
or_none (suc k) (suc x) h = omega (arith, or_none k (suc x / 2) (omega arith), or_digit (suc x) 0)

and_none : (k x : ℕ) → x ≤ k → bit_and x 0 ≡ 0
and_none k zero h = refl
and_none zero (suc x) h = absurd (omega arith)
and_none (suc k) (suc x) h =
    omega (arith, and_none k (suc x / 2) (omega arith), and_digit (suc x) 0)

pub or_halves :
    (a b x y : ℕ) → a / 2 ≡ x → b / 2 ≡ y → bit_or a b ≡ bit_or x y * 2 + max (a % 2) (b % 2)
or_halves a b x y p q = rw (← p, ← q) (omega (arith, or_digit a b))

or_shift_one : (a b : ℕ) → b < 2 → bit_or (a * 2) b ≡ a * 2 + b
or_shift_one a b h =
    omega (arith, or_halves (a * 2) b a 0 (omega arith) (omega arith), or_none a a (omega arith))

or_shift_two : (a b : ℕ) → b < 4 → bit_or (a * 4) b ≡ a * 4 + b
or_shift_two a b h = omega (
  arith,
  or_halves (a * 4) b (a * 2) (b / 2) (omega arith) (omega arith),
  or_shift_one a (b / 2) (omega arith),
)

or_shift_three : (a b : ℕ) → b < 8 → bit_or (a * 8) b ≡ a * 8 + b
or_shift_three a b h = omega (
  arith,
  or_halves (a * 8) b (a * 4) (b / 2) (omega arith) (omega arith),
  or_shift_two a (b / 2) (omega arith),
)

or_shift_four : (a b : ℕ) → b < 16 → bit_or (a * 16) b ≡ a * 16 + b
or_shift_four a b h = omega (
  arith,
  or_halves (a * 16) b (a * 8) (b / 2) (omega arith) (omega arith),
  or_shift_three a (b / 2) (omega arith),
)

or_shift_five : (a b : ℕ) → b < 32 → bit_or (a * 32) b ≡ a * 32 + b
or_shift_five a b h = omega (
  arith,
  or_halves (a * 32) b (a * 16) (b / 2) (omega arith) (omega arith),
  or_shift_four a (b / 2) (omega arith),
)

or_shift_six : (a b : ℕ) → b < 64 → bit_or (a * 64) b ≡ a * 64 + b
or_shift_six a b h = omega (
  arith,
  or_halves (a * 64) b (a * 32) (b / 2) (omega arith) (omega arith),
  or_shift_five a (b / 2) (omega arith),
)

-- A number shifted by seven, joined with seven low bits.
pub or_shift_seven : (a b : ℕ) → b < 128 → bit_or (a * 128) b ≡ a * 128 + b
or_shift_seven a b h = omega (
  arith,
  or_halves (a * 128) b (a * 64) (b / 2) (omega arith) (omega arith),
  or_shift_six a (b / 2) (omega arith),
)

pub or_twice : (a b x y : ℕ) → a ≡ x * 2 → b ≡ y * 2 → bit_or a b ≡ bit_or x y * 2
or_twice a b x y p q = omega (arith, or_halves a b x y (omega arith) (omega arith))

pub or_scale_seven : (x y : ℕ) → bit_or (x * 128) (y * 128) ≡ bit_or x y * 128
or_scale_seven x y = omega (
  arith,
  or_twice (x * 128) (y * 128) (x * 64) (y * 64) (omega arith) (omega arith),
  or_twice (x * 64) (y * 64) (x * 32) (y * 32) (omega arith) (omega arith),
  or_twice (x * 32) (y * 32) (x * 16) (y * 16) (omega arith) (omega arith),
  or_twice (x * 16) (y * 16) (x * 8) (y * 8) (omega arith) (omega arith),
  or_twice (x * 8) (y * 8) (x * 4) (y * 4) (omega arith) (omega arith),
  or_twice (x * 4) (y * 4) (x * 2) (y * 2) (omega arith) (omega arith),
  or_twice (x * 2) (y * 2) x y (omega arith) (omega arith),
)

-- Three groups of a length joined by `|`.
pub or_groups :
    (a b c : ℕ)
    → b < 128
    → c < 128
    → bit_or (bit_or (a * 16384) (b * 128)) c ≡ a * 16384 + b * 128 + c
or_groups a b c hb hc =
    let e : a * 16384 ≡ a * 128 * 128 = omega arith in
    rw (e, or_scale_seven (a * 128) b, or_shift_seven a b hb, or_shift_seven (a * 128 + b) c hc)
      (omega arith)

and_halves :
    (a b x y : ℕ) → a / 2 ≡ x → b / 2 ≡ y → bit_and a b ≡ bit_and x y * 2 + min (a % 2) (b % 2)
and_halves a b x y p q = rw (← p, ← q) (omega (arith, and_digit a b))

mask_one : (a : ℕ) → bit_and a 1 ≡ a % 2
mask_one a = omega (
  arith,
  and_halves a 1 (a / 2) 0 (omega arith) (omega arith),
  and_none (a / 2) (a / 2) (omega arith),
)

mask_two : (a : ℕ) → bit_and a 3 ≡ a % 4
mask_two a = omega (arith, and_halves a 3 (a / 2) 1 (omega arith) (omega arith), mask_one (a / 2))

mask_three : (a : ℕ) → bit_and a 7 ≡ a % 8
mask_three a = omega (arith, and_halves a 7 (a / 2) 3 (omega arith) (omega arith), mask_two (a / 2))

mask_four : (a : ℕ) → bit_and a 15 ≡ a % 16
mask_four a =
    omega (arith, and_halves a 15 (a / 2) 7 (omega arith) (omega arith), mask_three (a / 2))

mask_five : (a : ℕ) → bit_and a 31 ≡ a % 32
mask_five a =
    omega (arith, and_halves a 31 (a / 2) 15 (omega arith) (omega arith), mask_four (a / 2))

mask_six : (a : ℕ) → bit_and a 63 ≡ a % 64
mask_six a =
    omega (arith, and_halves a 63 (a / 2) 31 (omega arith) (omega arith), mask_five (a / 2))

-- The mask of seven ones on a number of any size.
pub mask_seven : (a : ℕ) → bit_and a 127 ≡ a % 128
mask_seven a =
    omega (arith, and_halves a 127 (a / 2) 63 (omega arith) (omega arith), mask_six (a / 2))
