-- ===== src/Base/Bits.antt =====
-- Bit operations as arithmetic: a mask of k ones is a remainder, and joining disjoint fields is a
-- sum.
use Prim.Native.Nat.{
  ℕ, zero, suc, ◌+◌, ◌*◌, ◌/◌, ◌%◌, ◌≤◌, ◌<◌, min, max, bit_and, bit_or, digits, bit_and-bitwise,
  bit_or-bitwise,
}
use mathlib.Core.Path.{◌≡◌, refl, ap, ◌∙◌}
use mathlib.Core.Bool.{Bool, true, ◌&&◌}
use native.Mathlib.Omega.{arith}
use native.Mathlib.Nat.{
  mul_comm, mul-le-mul_right, add-mul-mod_self_left, mod-eq_of_lt, mod-lt, div-add-mod,
}

abbrev pub IsByte : ℕ → Type 0
IsByte b = b < 256

-- Over a small range every value is checked by evaluation.
abbrev pub holds_below : ℕ → (ℕ → Bool) → Bool
holds_below zero p = true
holds_below (suc n) p = p n && holds_below n p

pub holds_below_at : (n : ℕ) (p : ℕ → Bool) (x : ℕ) → holds_below n p ≡ true → x < n → p x ≡ true
holds_below_at zero p x h lt = absurd (omega arith)
holds_below_at (suc n) p x h lt = ground (arith, holds_below_at n p x)

-- One step of each operation at the lowest digit, for any fuel that is enough.
abbrev and_run : ℕ → ℕ → ℕ → ℕ
and_run n a b = digits (λ b. zero) min n a b

abbrev or_run : ℕ → ℕ → ℕ → ℕ
or_run n a b = digits (λ b. b) max n a b

and_run_fuel : (n m a b : ℕ) → a ≤ n → a ≤ m → and_run n a b ≡ and_run m a b
and_run_fuel zero zero a b p q = refl
and_run_fuel zero (suc m) zero b p q = refl
and_run_fuel zero (suc m) (suc a) b p q = absurd (omega arith)
and_run_fuel (suc n) zero zero b p q = refl
and_run_fuel (suc n) zero (suc a) b p q = absurd (omega arith)
and_run_fuel (suc n) (suc m) zero b p q = refl
and_run_fuel (suc n) (suc m) (suc a) b p q =
    omega (arith, and_run_fuel n m (suc a / 2) (b / 2) (omega arith) (omega arith))

or_run_fuel : (n m a b : ℕ) → a ≤ n → a ≤ m → or_run n a b ≡ or_run m a b
or_run_fuel zero zero zero b p q = refl
or_run_fuel zero zero (suc a) b p q = absurd (omega arith)
or_run_fuel zero (suc m) zero b p q = refl
or_run_fuel zero (suc m) (suc a) b p q = absurd (omega arith)
or_run_fuel (suc n) zero zero b p q = refl
or_run_fuel (suc n) zero (suc a) b p q = absurd (omega arith)
or_run_fuel (suc n) (suc m) zero b p q = refl
or_run_fuel (suc n) (suc m) (suc a) b p q =
    omega (arith, or_run_fuel n m (suc a / 2) (b / 2) (omega arith) (omega arith))

zero-bit_and : (b : ℕ) → bit_and 0 b ≡ 0
zero-bit_and b = bit_and-bitwise 0 b

zero-bit_or : (b : ℕ) → bit_or 0 b ≡ b
zero-bit_or b = bit_or-bitwise 0 b

bit_and-step : (a b : ℕ) → bit_and a b ≡ bit_and (a / 2) (b / 2) * 2 + min (a % 2) (b % 2)
bit_and-step zero b = omega (arith, zero-bit_and b, zero-bit_and (b / 2))
bit_and-step (suc a) b = omega (
  arith,
  bit_and-bitwise (suc a) b,
  bit_and-bitwise (suc a / 2) (b / 2),
  and_run_fuel a (suc a / 2) (suc a / 2) (b / 2) (omega arith) (omega arith),
)

bit_or-step : (a b : ℕ) → bit_or a b ≡ bit_or (a / 2) (b / 2) * 2 + max (a % 2) (b % 2)
bit_or-step zero b = omega (arith, zero-bit_or b, zero-bit_or (b / 2))
bit_or-step (suc a) b = omega (
  arith,
  bit_or-bitwise (suc a) b,
  bit_or-bitwise (suc a / 2) (b / 2),
  or_run_fuel a (suc a / 2) (suc a / 2) (b / 2) (omega arith) (omega arith),
)

bit_and-zero : (n a : ℕ) → a ≤ n → bit_and a 0 ≡ 0
bit_and-zero zero zero h = zero-bit_and 0
bit_and-zero zero (suc a) h = absurd (omega arith)
bit_and-zero (suc n) zero h = zero-bit_and 0
bit_and-zero (suc n) (suc a) h =
    omega (arith, bit_and-step (suc a) 0, bit_and-zero n (suc a / 2) (omega arith))

bit_or-zero : (n a : ℕ) → a ≤ n → bit_or a 0 ≡ a
bit_or-zero zero zero h = zero-bit_or 0
bit_or-zero zero (suc a) h = absurd (omega arith)
bit_or-zero (suc n) zero h = zero-bit_or 0
bit_or-zero (suc n) (suc a) h =
    omega (arith, bit_or-step (suc a) 0, bit_or-zero n (suc a / 2) (omega arith))

-- The mask of `k` ones keeps the remainder by `2 ^ k`.
abbrev pub ones : ℕ → ℕ
ones zero = 0
ones (suc k) = ones k * 2 + 1

abbrev pub pow2 : ℕ → ℕ
pow2 zero = 1
pow2 (suc k) = pow2 k * 2

pow2_pos : (k : ℕ) → 0 < pow2 k
pow2_pos zero = omega arith
pow2_pos (suc k) = omega (arith, pow2_pos k)

-- The digits of a number below and above a place `m`.
pub mod-mul : (a m n : ℕ) → 0 < m → 0 < n → a % (m * n) ≡ ((a / m) % n) * m + a % m
mod-mul a m n hm hn =
    ap (λ (t : ℕ). t % (m * n)) split
    ∙ add-mul-mod_self_left rest (m * n) (a / m / n)
    ∙ mod-eq_of_lt small
  where
    rest : ℕ
    rest = (a / m) % n * m + a % m

    split : a ≡ rest + m * n * (a / m / n)
    split = omega (arith, ap (λ (t : ℕ). m * t) (div-add-mod (a / m) n), div-add-mod a m)

    step : suc ((a / m) % n) * m ≤ n * m
    step = mul-le-mul_right m (mod-lt (a / m) hn)

    small : rest < m * n
    small = omega (arith, mod-lt a hm, step)

mod_double : (a m : ℕ) → 0 < m → a % (m * 2) ≡ a / 2 % m * 2 + a % 2
mod_double a m h = ap (λ (t : ℕ). a % t) (mul_comm m 2) ∙ mod-mul a 2 m (omega arith) h

pub bit_and-ones : (k a : ℕ) → bit_and a (ones k) ≡ a % pow2 k
bit_and-ones zero a = omega (arith, bit_and-zero a a (omega arith))
bit_and-ones (suc k) a = omega (
  arith,
  bit_and-step a (ones (suc k)),
  ap (λ (t : ℕ). bit_and (a / 2) t) half,
  bit_and-ones k (a / 2),
  mod_double a (pow2 k) (pow2_pos k),
)
  where
    half : (ones k * 2 + 1) / 2 ≡ ones k
    half = omega arith

-- A shifted number joined with one below the shift is their sum.
pub bit_or-add : (k a b : ℕ) → b < pow2 k → bit_or (a * pow2 k) b ≡ a * pow2 k + b
bit_or-add zero a zero h = bit_or-zero (a * 1) (a * 1) (omega arith) ∙ omega arith
bit_or-add zero a (suc b) h = absurd (omega arith)
bit_or-add (suc k) a b h = omega (
  arith,
  bit_or-step (a * pow2 (suc k)) b,
  ap (λ (t : ℕ). bit_or t (b / 2)) half,
  bit_or-add k a (b / 2) (omega arith),
)
  where
    half : (a * (pow2 k * 2)) / 2 ≡ a * pow2 k
    half = omega arith
