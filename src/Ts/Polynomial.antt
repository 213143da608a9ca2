-- ===== src/Ts/Polynomial.antt =====
-- The check sum of sections without the table, bit by bit, and the table against it.
use live.Base.{
  ℕ, zero, suc, ◌+◌, ◌*◌, ◌/◌, ◌%◌, ◌^◌, ◌<◌, ◌≡◌, refl, ap, ap₂, sym, ◌∙◌, inl, inr, bit_xor,
  holds_below_at, ==_iff, xor_zero, xor_swap, xor-shift, xor_small, xor_split, true, false,
  Bool-cases, List, [], ◌∷◌, arith, if◌then◌else◌, ◌==◌, leb, get_or,
}
use native.Mathlib.Decide.{dec_lt}
use live.Ts.Crc.{crc_table}

-- The generator of CRC-32/MPEG-2.
abbrev pub poly : ℕ
poly = 0x04c11db7

abbrev pub bit_step : ℕ → ℕ
bit_step x = if leb 0x80000000 x then bit_xor (x * 2 % 2 ^ 32) poly else x * 2 % 2 ^ 32

abbrev pub bit_steps : ℕ → ℕ → ℕ
bit_steps zero x = x
bit_steps (suc n) x = bit_steps n (bit_step x)

-- Each byte is joined to the highest digits, and shifted out bit by bit.
abbrev pub crc_bits : ℕ → List ℕ → ℕ
crc_bits x [] = x
crc_bits x (b ∷ src) = crc_bits (bit_steps 8 (bit_xor x (b * 2 ^ 24))) src

bit_step-split : (x : ℕ) → x < 2 ^ 32 → bit_step x ≡ bit_xor (x % 2 ^ 31 * 2) (x / 2 ^ 31 * poly)
bit_step-split x h = elim (dec_lt x 0x80000000) [
  | yes low ↦ rw (off low) (
      sym (
        ap (λ (t : ℕ). bit_xor (x % 2 ^ 31 * 2) (t * poly)) {y = 0} (omega arith)
        ∙ xor_zero (x % 2 ^ 31 * 2) (x % 2 ^ 31 * 2) (omega arith)
        ∙ omega arith))
  | no high ↦ rw (on high) (ap₂ bit_xor (shifted high) (once high))
]
  where
    off : x < 0x80000000 → leb 0x80000000 x ≡ false
    off h = ground arith

    on : ¬ (x < 0x80000000) → leb 0x80000000 x ≡ true
    on h = ground arith

    shifted : ¬ (x < 0x80000000) → x * 2 % 2 ^ 32 ≡ x % 2 ^ 31 * 2
    shifted k = omega arith

    once : ¬ (x < 0x80000000) → poly ≡ x / 2 ^ 31 * poly
    once k = omega arith

pub bit_step_small : (x : ℕ) → x < 2 ^ 32 → bit_step x < 2 ^ 32
bit_step_small x h = elim (Bool-cases (leb 0x80000000 x)) [
  | inl k ↦ rw k (xor_small 32 (x * 2 % 2 ^ 32) poly (omega arith) (omega arith))
  | inr k ↦ rw k (omega arith)
]

top-xor :
    (x y : ℕ)
    → (bit_xor x y / 2 ^ 31 ≡ bit_xor (x / 2 ^ 31) (y / 2 ^ 31))
      × (bit_xor x y % 2 ^ 31 ≡ bit_xor (x % 2 ^ 31) (y % 2 ^ 31))
top-xor x y = (
  omega (arith, split, xor_small 31 (x % 2 ^ 31) (y % 2 ^ 31) (omega arith) (omega arith)),
  omega (arith, split, xor_small 31 (x % 2 ^ 31) (y % 2 ^ 31) (omega arith) (omega arith)),
)
  where
    whole : (z : ℕ) → z ≡ z / 2 ^ 31 * 0x80000000 + z % 2 ^ 31
    whole z = omega arith

    split :
        bit_xor x y
        ≡ bit_xor (x / 2 ^ 31) (y / 2 ^ 31) * 0x80000000 + bit_xor (x % 2 ^ 31) (y % 2 ^ 31)
    split =
        ap₂ bit_xor (whole x) (whole y)
        ∙ xor_split 31 (x / 2 ^ 31) (x % 2 ^ 31) (y / 2 ^ 31) (y % 2 ^ 31) (omega arith)
            (omega arith)

-- The digits 0 and 1 select the generator.
select : (s t : ℕ) → s < 2 → t < 2 → bit_xor s t * poly ≡ bit_xor (s * poly) (t * poly)
select zero zero hs ht = refl
select zero (suc zero) hs ht = refl
select (suc zero) zero hs ht = refl
select (suc zero) (suc zero) hs ht = refl
select (suc (suc s)) t hs ht = absurd (omega arith)
select s (suc (suc t)) hs ht = absurd (omega arith)

bit_step-xor :
    (x y : ℕ) → x < 2 ^ 32 → y < 2 ^ 32 → bit_step (bit_xor x y) ≡ bit_xor (bit_step x) (bit_step y)
bit_step-xor x y hx hy =
    bit_step-split (bit_xor x y) (xor_small 32 x y hx hy)
    ∙ ap₂ bit_xor (ap (λ (t : ℕ). t * 2) (top-xor x y).1 ∙ doubled) (
        ap (λ (t : ℕ). t * poly) (top-xor x y).0
        ∙ select (x / 2 ^ 31) (y / 2 ^ 31) (omega arith) (omega arith))
    ∙ xor_swap (x % 2 ^ 31 * 2) (y % 2 ^ 31 * 2) (x / 2 ^ 31 * poly) (y / 2 ^ 31 * poly)
    ∙ ap₂ bit_xor (sym (bit_step-split x hx)) (sym (bit_step-split y hy))
  where
    doubled : bit_xor (x % 2 ^ 31) (y % 2 ^ 31) * 2 ≡ bit_xor (x % 2 ^ 31 * 2) (y % 2 ^ 31 * 2)
    doubled = sym (xor-shift 1 (x % 2 ^ 31) (y % 2 ^ 31))

pub bit_steps-xor :
    (n x y : ℕ)
    → x < 2 ^ 32
    → y < 2 ^ 32
    → bit_steps n (bit_xor x y) ≡ bit_xor (bit_steps n x) (bit_steps n y)
bit_steps-xor zero x y hx hy = refl
bit_steps-xor (suc n) x y hx hy =
    ap (bit_steps n) (bit_step-xor x y hx hy)
    ∙ bit_steps-xor n (bit_step x) (bit_step y) (bit_step_small x hx) (bit_step_small y hy)

bit_step_low : (x : ℕ) → x < 2 ^ 31 → bit_step x ≡ x * 2
bit_step_low x h = rw low (omega arith)
  where
    low : leb 0x80000000 x ≡ false
    low = ground arith

-- The 24 low digits are only shifted by a byte.
pub bit_steps_low : (l : ℕ) → l < 2 ^ 24 → bit_steps 8 l ≡ l * 256
bit_steps_low l h =
    rw
      (
        bit_step_low l (omega arith),
        bit_step_low (l * 2) (omega arith),
        bit_step_low (l * 2 * 2) (omega arith),
        bit_step_low (l * 2 * 2 * 2) (omega arith),
        bit_step_low (l * 2 * 2 * 2 * 2) (omega arith),
        bit_step_low (l * 2 * 2 * 2 * 2 * 2) (omega arith),
        bit_step_low (l * 2 * 2 * 2 * 2 * 2 * 2) (omega arith),
        bit_step_low (l * 2 * 2 * 2 * 2 * 2 * 2 * 2) (omega arith),
      )
      (omega arith)

-- The table has the eight steps of each byte.
pub table-steps : (j : ℕ) → j < 256 → get_or crc_table j 0 ≡ bit_steps 8 (j * 2 ^ 24)
unfolding crc_table
table-steps j h =
    (==_iff _ _).0
      (holds_below_at 256 (λ (j : ℕ). get_or crc_table j 0 == bit_steps 8 (j * 2 ^ 24)) j refl h)
