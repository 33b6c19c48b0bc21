-- ===== src/Prelude/Bits.antt =====
-- Bounds of `bit_or`, from its law for the lowest digit.
use Prim.Native.Nat.{
  ℕ, zero, suc, ◌+◌, ◌*◌, ◌/◌, ◌%◌, ◌^◌, ◌≤◌, ◌<◌, max, bit_or, digits, bit_or-bitwise,
}
use mathlib.Core.Path.{◌≡◌, refl}
use native.Mathlib.Numerals.{unary_clauses}
use native.Mathlib.Omega.{arith}

abbrev merged : ℕ → ℕ → ℕ → ℕ
merged n a b = digits (λ b. b) max n a b

-- The count of digits does not matter if it is no less than the number.
merged_count : (n a b : ℕ) → a ≤ n → merged n a b ≡ merged a a b
merged_count = go
  where
    go2 : (n m a b : ℕ) → a ≤ n → a ≤ m → merged n a b ≡ merged m a b
    go2 zero zero zero b p q = refl
    go2 zero (suc m) zero b p q = refl
    go2 (suc n) zero zero b p q = refl
    go2 (suc n) (suc m) zero b p q = refl
    go2 zero m (suc a) b p q = absurd (omega arith)
    go2 (suc n) zero (suc a) b p q = absurd (omega arith)
    go2 (suc n) (suc m) (suc a) b p q =
        omega (arith, go2 n m (suc a / 2) (b / 2) (omega arith) (omega arith))

    go : (n a b : ℕ) → a ≤ n → merged n a b ≡ merged a a b
    go n a b p = go2 n a a b p (omega arith)

bit_or_zero : (b : ℕ) → bit_or 0 b ≡ b
bit_or_zero b = bit_or-bitwise 0 b

bit_or_step : (a b : ℕ) → bit_or a b ≡ bit_or (a / 2) (b / 2) * 2 + max (a % 2) (b % 2)
bit_or_step zero b = omega (arith, bit_or_zero b, bit_or_zero (b / 2))
bit_or_step (suc a) b = omega (
  arith,
  bit_or-bitwise (suc a) b,
  bit_or-bitwise (suc a / 2) (b / 2),
  merged_count a (suc a / 2) (b / 2) (omega arith),
)

le-bit_or_fuel : (n a b : ℕ) → a ≤ n → a ≤ bit_or a b
le-bit_or_fuel n zero b le = omega arith
le-bit_or_fuel zero (suc a) b le = absurd (omega arith)
le-bit_or_fuel (suc n) (suc a) b le =
    omega (arith, bit_or_step (suc a) b, le-bit_or_fuel n (suc a / 2) (b / 2) (omega arith))

pub le-bit_or : (a b : ℕ) → a ≤ bit_or a b
le-bit_or a b = le-bit_or_fuel a a b (omega arith)

-- Two numbers of `k` digits have a union of `k` digits.
pub bit_or-lt : (k a b : ℕ) → a < 2 ^ k → b < 2 ^ k → bit_or a b < 2 ^ k
bit_or-lt zero zero b p q = omega (arith, bit_or_zero b)
bit_or-lt zero (suc a) b p q = absurd (omega arith)
bit_or-lt (suc k) a b p q =
    let p' = simp unary_clauses at p in
    let q' = simp unary_clauses at q in
    simp unary_clauses (
      omega (
        arith,
        p',
        q',
        bit_or_step a b,
        bit_or-lt k (a / 2) (b / 2) (omega (arith, p')) (omega (arith, q')),
      ))
