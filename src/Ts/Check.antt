-- ===== src/Ts/Check.antt =====
-- The check sum by the table against the one by bits, and the section with its check sum behind it.
use live.Base.{
  ℕ, zero, suc, ◌+◌, ◌*◌, ◌/◌, ◌%◌, ◌^◌, ◌<◌, ◌≡◌, refl, ap, ap₂, sym, subst, ◌∙◌, bit_and, bit_xor,
  bit_and-ones, xor_zero, xor_self, xor_comm, xor-add, xor_small, xor_split, List, [], ◌∷◌, ◌++◌,
  arith, get_or, All, IsByte,
}
use live.Pio.Format.{bytes_be}
use live.Ts.Crc.{crc_table, crc_step, crc_loop, gen_crc32}
use live.Ts.Polynomial.{
  bit_step, bit_steps, crc_bits, bit_steps-xor, bit_steps_low, bit_step_small, table-steps,
}

bit_steps_small : (n x : ℕ) → x < 2 ^ 32 → bit_steps n x < 2 ^ 32
bit_steps_small zero x h = h
bit_steps_small (suc n) x h = bit_steps_small n (bit_step x) (bit_step_small x h)

-- A byte joined to the highest digits.
join_byte :
    (x b : ℕ) → bit_xor x (b * 2 ^ 24) ≡ bit_xor (bit_xor (x / 2 ^ 24) b * 2 ^ 24) (x % 2 ^ 24)
join_byte x b =
    ap₂ bit_xor whole padded
    ∙ xor_split 24 (x / 2 ^ 24) (x % 2 ^ 24) b 0 (omega arith) (omega arith)
    ∙ ap (λ (t : ℕ). bit_xor (x / 2 ^ 24) b * 2 ^ 24 + t)
        (xor_zero (x % 2 ^ 24) (x % 2 ^ 24) (omega arith))
    ∙ sym (xor-add 24 (bit_xor (x / 2 ^ 24) b) (x % 2 ^ 24) (omega arith))
  where
    whole : x ≡ x / 2 ^ 24 * 0x1000000 + x % 2 ^ 24
    whole = omega arith

    padded : b * 2 ^ 24 ≡ b * 0x1000000 + 0
    padded = omega arith

crc_step-bits :
    (x b : ℕ) → x < 2 ^ 32 → b < 256 → crc_step x b ≡ bit_steps 8 (bit_xor x (b * 2 ^ 24))
unfolding crc_step
crc_step-bits x b hx hb =
    ap₂ (λ (s j : ℕ). bit_xor s (get_or crc_table j 0)) shifted index
    ∙ ap (bit_xor (x % 2 ^ 24 * 256)) (table-steps j small)
    ∙ xor_comm (x % 2 ^ 24 * 256) (bit_steps 8 (j * 2 ^ 24))
    ∙ ap (bit_xor (bit_steps 8 (j * 2 ^ 24))) (sym (bit_steps_low (x % 2 ^ 24) (omega arith)))
    ∙ sym (bit_steps-xor 8 (j * 2 ^ 24) (x % 2 ^ 24) (omega (arith, small)) (omega arith))
    ∙ ap (bit_steps 8) (sym (join_byte x b))
  where
    j : ℕ
    j = bit_xor (x / 2 ^ 24) b

    small : bit_xor (x / 2 ^ 24) b < 256
    small = xor_small 8 (x / 2 ^ 24) b (omega arith) (omega arith)

    shifted : x * 2 ^ 8 % 2 ^ 32 ≡ x % 2 ^ 24 * 256
    shifted = omega arith

    high : x / 2 ^ 24 % 256 ≡ x / 2 ^ 24
    high = omega arith

    index : bit_and (bit_xor (x / 2 ^ 24 % 256) b) 0xff ≡ bit_xor (x / 2 ^ 24) b
    index =
        bit_and-ones 8 (bit_xor (x / 2 ^ 24 % 256) b)
        ∙ ap (λ (t : ℕ). bit_xor t b % 256) high
        ∙ omega (arith, small)

crc_step_small : (x b : ℕ) → x < 2 ^ 32 → b < 256 → crc_step x b < 2 ^ 32
crc_step_small x b hx hb =
    subst (λ (t : ℕ). t < 2 ^ 32) (sym (crc_step-bits x b hx hb))
      (bit_steps_small 8 (bit_xor x (b * 2 ^ 24))
        (xor_small 32 x (b * 2 ^ 24) (omega arith) (omega arith)))

crc_loop-bits :
    (x : ℕ) (src : List ℕ) → x < 2 ^ 32 → All IsByte src → crc_loop x src ≡ crc_bits x src
unfolding crc_loop
crc_loop-bits x [] hx bs = refl
crc_loop-bits x (b ∷ src) hx (hb, bs) =
    crc_loop-bits (crc_step x b) src (crc_step_small x b hx hb) bs
    ∙ ap (λ (y : ℕ). crc_bits y src) (crc_step-bits x b hx hb)

-- The sum by the table is the CRC-32/MPEG-2 of the bytes, computed bit by bit by its generator.
pub gen_crc32-bits : (src : List ℕ) → All IsByte src → gen_crc32 src ≡ crc_bits 0xFFFFFFFF src
unfolding gen_crc32
gen_crc32-bits src bs = crc_loop-bits 0xFFFFFFFF src (omega arith) bs

crc_loop-append :
    (x : ℕ) (src rest : List ℕ) → crc_loop x (src ++ rest) ≡ crc_loop (crc_loop x src) rest
unfolding crc_loop
crc_loop-append x [] rest = refl
crc_loop-append x (b ∷ src) rest = crc_loop-append (crc_step x b) src rest

crc_loop_small : (x : ℕ) (src : List ℕ) → x < 2 ^ 32 → All IsByte src → crc_loop x src < 2 ^ 32
unfolding crc_loop
crc_loop_small x [] hx bs = hx
crc_loop_small x (b ∷ src) hx (hb, bs) =
    crc_loop_small (crc_step x b) src (crc_step_small x b hx hb) bs

-- The byte that equals the highest one takes it off.
crc_step-same : (x b : ℕ) → b ≡ x / 2 ^ 24 % 256 → crc_step x b ≡ x * 2 ^ 8 % 2 ^ 32
unfolding crc_step crc_table
crc_step-same x b e =
    ap (λ (j : ℕ). bit_xor (x * 2 ^ 8 % 2 ^ 32) (get_or crc_table (bit_and j 0xff) 0)) {y = 0}
      (ap (bit_xor (x / 2 ^ 24 % 256)) e
        ∙ xor_self (x / 2 ^ 24 % 256) (x / 2 ^ 24 % 256) (omega arith))
    ∙ xor_zero (x * 2 ^ 8 % 2 ^ 32) (x * 2 ^ 8 % 2 ^ 32) (omega arith)

crc_loop-own : (x : ℕ) → x < 2 ^ 32 → crc_loop x (bytes_be 4 x) ≡ 0
unfolding crc_loop
crc_loop-own x h =
    rw
      (
        crc_step-same x (x / 256 ^ 3 % 256) (omega arith),
        crc_step-same (x * 2 ^ 8 % 2 ^ 32) (x / 256 ^ 2 % 256) (omega arith),
        crc_step-same (x * 2 ^ 8 % 2 ^ 32 * 2 ^ 8 % 2 ^ 32) (x / 256 ^ 1 % 256) (omega arith),
        crc_step-same (x * 2 ^ 8 % 2 ^ 32 * 2 ^ 8 % 2 ^ 32 * 2 ^ 8 % 2 ^ 32) (x / 256 ^ 0 % 256)
            (omega arith),
      )
      (omega arith)

-- The sum of a section that ends with its own sum is 0.
pub gen_crc32-own :
    (src : List ℕ) → All IsByte src → gen_crc32 (src ++ bytes_be 4 (gen_crc32 src)) ≡ 0
unfolding gen_crc32
gen_crc32-own src bs =
    crc_loop-append 0xFFFFFFFF src (bytes_be 4 (crc_loop 0xFFFFFFFF src))
    ∙ crc_loop-own (crc_loop 0xFFFFFFFF src) (crc_loop_small 0xFFFFFFFF src (omega arith) bs)
