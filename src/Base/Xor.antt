-- ===== src/Base/Xor.antt =====
-- `^` on numbers, by its lowest digit: it can be cancelled.
use Prim.Native.Nat.{ℕ, zero, suc, ◌+◌, ◌*◌, ◌/◌, ◌%◌, ◌≤◌, ◌<◌, bit_xor, bit_xor-bitwise, differ}
use mathlib.Core.Path.{◌≡◌, refl}
use native.Mathlib.Omega.{arith}
use webtor_rs.Base.Bits.{bitwise_digit}

xor_digit : (x y : ℕ) → bit_xor x y ≡ differ (x % 2) (y % 2) + 2 * bit_xor (x / 2) (y / 2)
xor_digit zero y = omega (arith, bit_xor-bitwise 0 y, bit_xor-bitwise 0 (y / 2))
xor_digit (suc x) y = omega (
  arith,
  bitwise_digit (λ b. b) differ x y,
  bit_xor-bitwise (suc x) y,
  bit_xor-bitwise (suc x / 2) (y / 2),
)

differ_cancel : (x b c : ℕ) → x < 2 → b < 2 → c < 2 → differ x b ≡ differ x c → b ≡ c
differ_cancel zero b c hx hb hc e = e
differ_cancel (suc zero) zero zero hx hb hc e = refl
differ_cancel (suc zero) (suc zero) (suc zero) hx hb hc e = refl
differ_cancel (suc zero) zero (suc zero) hx hb hc e = absurd (omega arith)
differ_cancel (suc zero) (suc zero) zero hx hb hc e = absurd (omega arith)
differ_cancel (suc (suc x)) b c hx hb hc e = absurd (omega arith)
differ_cancel (suc zero) (suc (suc b)) c hx hb hc e = absurd (omega arith)
differ_cancel (suc zero) b (suc (suc c)) hx hb hc e = absurd (omega arith)

-- The parts of an equation of two digit sums.
digit_split : (d e x y : ℕ) → d < 2 → e < 2 → d + 2 * x ≡ e + 2 * y → (d ≡ e) × (x ≡ y)
digit_split d e x y hd he p = (omega arith, omega arith)

differ_digit : (x y : ℕ) → x < 2 → y < 2 → differ x y < 2
differ_digit zero y hx hy = hy
differ_digit (suc zero) zero hx hy = omega arith
differ_digit (suc zero) (suc zero) hx hy = omega arith
differ_digit (suc zero) (suc (suc y)) hx hy = absurd (omega arith)
differ_digit (suc (suc x)) y hx hy = absurd (omega arith)

xor_cancel_fuel : (n a b c : ℕ) → b + c ≤ n → bit_xor a b ≡ bit_xor a c → b ≡ c
xor_cancel_fuel zero a b c h e = omega arith
xor_cancel_fuel (suc n) a b c h e =
    let (low, high) =
      digit_split (differ (a % 2) (b % 2)) (differ (a % 2) (c % 2)) (bit_xor (a / 2) (b / 2))
        (bit_xor (a / 2) (c / 2)) (differ_digit (a % 2) (b % 2) (omega arith) (omega arith))
        (differ_digit (a % 2) (c % 2) (omega arith) (omega arith))
        (omega (arith, xor_digit a b, xor_digit a c, e)) in
    let digit =
      differ_cancel (a % 2) (b % 2) (c % 2) (omega arith) (omega arith) (omega arith) low in
    omega (arith, digit, xor_cancel_fuel n (a / 2) (b / 2) (c / 2) (omega arith) high)

-- `a ^ b` with `a` known gives `b`.
pub bit_xor_cancel : (a b c : ℕ) → bit_xor a b ≡ bit_xor a c → b ≡ c
bit_xor_cancel a b c = xor_cancel_fuel (b + c) a b c (omega arith)
