-- ===== src/Base/Xor.antt =====
-- Exclusive or: its algebra, and how it goes with shifts.
use Prim.Native.Nat.{
  ℕ, zero, suc, ◌+◌, ◌*◌, ◌/◌, ◌%◌, ◌≤◌, ◌<◌, bit_xor, digits, differ, bit_xor-bitwise,
}
use mathlib.Core.Path.{◌≡◌, refl, ap, ap₂, sym, ◌∙◌}
use native.Mathlib.Omega.{arith}
use live.Base.Bits.{pow2}

-- One step at the lowest digit, for any fuel that is enough.
abbrev xor_run : ℕ → ℕ → ℕ → ℕ
xor_run n a b = digits (λ b. b) differ n a b

xor_run_fuel : (n m a b : ℕ) → a ≤ n → a ≤ m → xor_run n a b ≡ xor_run m a b
xor_run_fuel zero zero zero b p q = refl
xor_run_fuel zero zero (suc a) b p q = absurd (omega arith)
xor_run_fuel zero (suc m) zero b p q = refl
xor_run_fuel zero (suc m) (suc a) b p q = absurd (omega arith)
xor_run_fuel (suc n) zero zero b p q = refl
xor_run_fuel (suc n) zero (suc a) b p q = absurd (omega arith)
xor_run_fuel (suc n) (suc m) zero b p q = refl
xor_run_fuel (suc n) (suc m) (suc a) b p q =
    omega (arith, xor_run_fuel n m (suc a / 2) (b / 2) (omega arith) (omega arith))

differ-digits : (x y : ℕ) → x < 2 → y < 2 → differ x y ≡ (x + y) % 2
differ-digits zero y hx hy = omega arith
differ-digits (suc zero) zero hx hy = refl
differ-digits (suc zero) (suc zero) hx hy = refl
differ-digits (suc zero) (suc (suc y)) hx hy = absurd (omega arith)
differ-digits (suc (suc x)) y hx hy = absurd (omega arith)

zero-bit_xor : (b : ℕ) → bit_xor 0 b ≡ b
zero-bit_xor b = bit_xor-bitwise 0 b

bit_xor-step : (a b : ℕ) → bit_xor a b ≡ bit_xor (a / 2) (b / 2) * 2 + (a + b) % 2
bit_xor-step zero b = omega (arith, zero-bit_xor b, zero-bit_xor (b / 2))
bit_xor-step (suc a) b = omega (
  arith,
  bit_xor-bitwise (suc a) b,
  bit_xor-bitwise (suc a / 2) (b / 2),
  xor_run_fuel a (suc a / 2) (suc a / 2) (b / 2) (omega arith) (omega arith),
  differ-digits (suc a % 2) (b % 2) (omega arith) (omega arith),
)

xor-half : (a b : ℕ) → bit_xor a b / 2 ≡ bit_xor (a / 2) (b / 2)
xor-half a b = omega (arith, bit_xor-step a b)

xor-parity : (a b : ℕ) → bit_xor a b % 2 ≡ (a + b) % 2
xor-parity a b = omega (arith, bit_xor-step a b)

-- Two numbers with equal halves and equal lowest digits.
from_halves : (a b : ℕ) → a / 2 ≡ b / 2 → a % 2 ≡ b % 2 → a ≡ b
from_halves a b h p = omega arith

pub xor_zero : (n a : ℕ) → a ≤ n → bit_xor a 0 ≡ a
xor_zero zero zero h = zero-bit_xor 0
xor_zero zero (suc a) h = absurd (omega arith)
xor_zero (suc n) zero h = zero-bit_xor 0
xor_zero (suc n) (suc a) h =
    omega (arith, bit_xor-step (suc a) 0, xor_zero n (suc a / 2) (omega arith))

xor_comm_to : (n a b : ℕ) → a ≤ n → bit_xor a b ≡ bit_xor b a
xor_comm_to zero zero b h = zero-bit_xor b ∙ sym (xor_zero b b (omega arith))
xor_comm_to zero (suc a) b h = absurd (omega arith)
xor_comm_to (suc n) zero b h = zero-bit_xor b ∙ sym (xor_zero b b (omega arith))
xor_comm_to (suc n) (suc a) b h = omega (
  arith,
  bit_xor-step (suc a) b,
  bit_xor-step b (suc a),
  xor_comm_to n (suc a / 2) (b / 2) (omega arith),
)

pub xor_comm : (a b : ℕ) → bit_xor a b ≡ bit_xor b a
xor_comm a b = xor_comm_to a a b (omega arith)

pub xor_self : (n a : ℕ) → a ≤ n → bit_xor a a ≡ 0
xor_self zero zero h = zero-bit_xor 0
xor_self zero (suc a) h = absurd (omega arith)
xor_self (suc n) zero h = zero-bit_xor 0
xor_self (suc n) (suc a) h =
    omega (arith, bit_xor-step (suc a) (suc a), xor_self n (suc a / 2) (omega arith))

xor_assoc_to : (n a b c : ℕ) → a ≤ n → bit_xor (bit_xor a b) c ≡ bit_xor a (bit_xor b c)
xor_assoc_to zero zero b c h =
    ap (λ (x : ℕ). bit_xor x c) (zero-bit_xor b) ∙ sym (zero-bit_xor (bit_xor b c))
xor_assoc_to zero (suc a) b c h = absurd (omega arith)
xor_assoc_to (suc n) zero b c h =
    ap (λ (x : ℕ). bit_xor x c) (zero-bit_xor b) ∙ sym (zero-bit_xor (bit_xor b c))
xor_assoc_to (suc n) (suc a) b c h =
    from_halves (bit_xor (bit_xor (suc a) b) c) (bit_xor (suc a) (bit_xor b c))
      (xor-half (bit_xor (suc a) b) c
        ∙ ap (λ (x : ℕ). bit_xor x (c / 2)) (xor-half (suc a) b)
        ∙ xor_assoc_to n (suc a / 2) (b / 2) (c / 2) (omega arith)
        ∙ ap (bit_xor (suc a / 2)) (sym (xor-half b c))
        ∙ sym (xor-half (suc a) (bit_xor b c)))
      (omega (
        arith,
        xor-parity (bit_xor (suc a) b) c,
        xor-parity (suc a) b,
        xor-parity (suc a) (bit_xor b c),
        xor-parity b c,
      ))

pub xor_assoc : (a b c : ℕ) → bit_xor (bit_xor a b) c ≡ bit_xor a (bit_xor b c)
xor_assoc a b c = xor_assoc_to a a b c (omega arith)

-- Four numbers, the inner two exchanged.
pub xor_swap :
    (a b c d : ℕ) → bit_xor (bit_xor a b) (bit_xor c d) ≡ bit_xor (bit_xor a c) (bit_xor b d)
xor_swap a b c d =
    xor_assoc a b (bit_xor c d)
    ∙ ap (bit_xor a)
        (sym (xor_assoc b c d) ∙ ap (λ (x : ℕ). bit_xor x d) (xor_comm b c) ∙ xor_assoc c b d)
    ∙ sym (xor_assoc a c (bit_xor b d))

times_one : (x : ℕ) → x * 1 ≡ x
times_one x = omega arith

pub xor-shift : (k a b : ℕ) → bit_xor (a * pow2 k) (b * pow2 k) ≡ bit_xor a b * pow2 k
xor-shift zero a b = ap₂ bit_xor (times_one a) (times_one b) ∙ sym (times_one (bit_xor a b))
xor-shift (suc k) a b = omega (
  arith,
  bit_xor-step (a * pow2 (suc k)) (b * pow2 (suc k)),
  ap₂ bit_xor (half a) (half b),
  xor-shift k a b,
)
  where
    half : (x : ℕ) → (x * (pow2 k * 2)) / 2 ≡ x * pow2 k
    half x = omega arith

-- A shifted number and one below the shift.
pub xor-add : (k a b : ℕ) → b < pow2 k → bit_xor (a * pow2 k) b ≡ a * pow2 k + b
xor-add zero a zero h = xor_zero (a * 1) (a * 1) (omega arith) ∙ omega arith
xor-add zero a (suc b) h = absurd (omega arith)
xor-add (suc k) a b h = omega (
  arith,
  bit_xor-step (a * pow2 (suc k)) b,
  ap (λ (t : ℕ). bit_xor t (b / 2)) half,
  xor-add k a (b / 2) (omega arith),
)
  where
    half : (a * (pow2 k * 2)) / 2 ≡ a * pow2 k
    half = omega arith

-- The digits below a place stay below it.
pub xor_small : (k a b : ℕ) → a < pow2 k → b < pow2 k → bit_xor a b < pow2 k
xor_small zero zero zero ha hb = omega (arith, zero-bit_xor 0)
xor_small zero zero (suc b) ha hb = absurd (omega arith)
xor_small zero (suc a) b ha hb = absurd (omega arith)
xor_small (suc k) a b ha hb =
    omega (arith, bit_xor-step a b, xor_small k (a / 2) (b / 2) (omega arith) (omega arith))

-- The high and the low digits are joined apart.
pub xor_split :
    (k h l g m : ℕ)
    → l < pow2 k
    → m < pow2 k
    → bit_xor (h * pow2 k + l) (g * pow2 k + m) ≡ bit_xor h g * pow2 k + bit_xor l m
xor_split k h l g m hl hm =
    ap₂ bit_xor (sym (xor-add k h l hl)) (sym (xor-add k g m hm))
    ∙ xor_swap (h * pow2 k) l (g * pow2 k) m
    ∙ ap (λ (x : ℕ). bit_xor x (bit_xor l m)) (xor-shift k h g)
    ∙ xor-add k (bit_xor h g) (bit_xor l m) (xor_small k l m hl hm)
