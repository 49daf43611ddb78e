-- ===== src/Prelude/Bits.antt =====
-- `|` of two bit fields that do not overlap is their sum, at every width.
use Prim.Native.Nat.{
  ℕ, zero, suc, ◌+◌, ◌*◌, ◌/◌, ◌%◌, ◌^◌, ◌≤◌, ◌<◌, max, bit_or, digits, bit_or-bitwise,
}
use mathlib.Core.Path.{◌≡◌, refl, ap}
use native.Mathlib.Nat.{pow-suc}
use native.Mathlib.Omega.{arith}

-- The recursion that the native `bit_or` stands for, with its fuel exposed.
abbrev joined : ℕ → ℕ → ℕ → ℕ
joined fuel a b = digits (λ b. b) max fuel a b

-- Fuel beyond the left operand changes nothing.
joined_fuel : (n m a b : ℕ) → a ≤ n → a ≤ m → joined n a b ≡ joined m a b
joined_fuel zero zero a b p q = refl
joined_fuel zero (suc m) zero b p q = refl
joined_fuel zero (suc m) (suc a) b p q = absurd (omega arith)
joined_fuel (suc n) zero zero b p q = refl
joined_fuel (suc n) zero (suc a) b p q = absurd (omega arith)
joined_fuel (suc n) (suc m) zero b p q = refl
joined_fuel (suc n) (suc m) (suc a) b p q =
    omega (arith, joined_fuel n m (suc a / 2) (b / 2) (omega arith) (omega arith))

zero-bit_or : (b : ℕ) → bit_or 0 b ≡ b
zero-bit_or b = bit_or-bitwise 0 b

-- The lowest digit of a join, and the rest.
bit_or-halves : (a b : ℕ) → bit_or a b ≡ bit_or (a / 2) (b / 2) * 2 + max (a % 2) (b % 2)
bit_or-halves zero b = omega (arith, zero-bit_or b, zero-bit_or (b / 2))
bit_or-halves (suc a) b = omega (
  arith,
  bit_or-bitwise (suc a) b,
  bit_or-bitwise (suc a / 2) (b / 2),
  joined_fuel a (suc a / 2) (suc a / 2) (b / 2) (omega arith) (omega arith),
)

bit_or-zero_fuel : (n a : ℕ) → a ≤ n → bit_or a 0 ≡ a
bit_or-zero_fuel n zero h = refl
bit_or-zero_fuel zero (suc a) h = absurd (omega arith)
bit_or-zero_fuel (suc n) (suc a) h =
    omega (arith, bit_or-halves (suc a) 0, bit_or-zero_fuel n (suc a / 2) (omega arith))

-- An even left operand: its half joins the rest of the digits.
bit_or-double : (x b : ℕ) → bit_or (x * 2) b ≡ bit_or x (b / 2) * 2 + b % 2
bit_or-double x b =
    let half : x * 2 / 2 ≡ x = omega arith in
    omega (arith, bit_or-halves (x * 2) b, ap (λ t. bit_or t (b / 2)) half)

-- A field shifted above `k` bits, joined with a value of `k` bits.
pub bit_or_disjoint : (k a b : ℕ) → b < 2 ^ k → bit_or (a * 2 ^ k) b ≡ a * 2 ^ k + b
bit_or_disjoint zero a zero h = omega (arith, bit_or-zero_fuel (a * 1) (a * 1) (omega arith))
bit_or_disjoint zero a (suc b) h = absurd (omega arith)
bit_or_disjoint (suc k) a b h =
    let shifted : a * 2 ^ suc k ≡ a * 2 ^ k * 2 = omega (arith, ap (λ t. a * t) (pow-suc 2 k)) in
    let low : b / 2 < 2 ^ k = omega (arith, pow-suc 2 k) in
    rw shifted (omega (arith, bit_or-double (a * 2 ^ k) b, bit_or_disjoint k a (b / 2) low))
