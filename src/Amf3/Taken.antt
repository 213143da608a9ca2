-- ===== src/Amf3/Taken.antt =====
-- Which bytes the reader of 29-bit integers takes, on any input.
use live.Base.{
  ℕ, zero, suc, ◌+◌, ◌*◌, ◌%◌, ◌^◌, ◌≤◌, ◌<◌, ◌≡◌, refl, inl, inr, ◌⊎◌, bit_and, bit_and-ones,
  Bool-cases, List, [], ◌∷◌, arith, ◌==◌, length, IsByte, All,
}
use live.Amf3.Value.{Refs}
use live.Amf3.Reading.{Read, done, failed, read_byte, u29_loop, decode_u29}

-- The limit of what has been read, with `n` of the first three bytes left.
abbrev pub limit : ℕ → ℕ
limit zero = 2 ^ 21
limit (suc zero) = 2 ^ 14
limit (suc (suc zero)) = 2 ^ 7
limit _ = 1

-- Nothing but the bytes of one integer is taken, and it has 29 bits.
pub record Taken (d : Refs) (r : List ℕ) (most : ℕ) (o : Read ℕ) : Type 0 where
  pub v : ℕ
  pub rest : List ℕ
  pub reads : o ≡ done v d rest
  pub small : v < 2 ^ 29
  pub less : length rest < length r
  pub enough : length r ≤ length rest + most

pub within_limit :
    (n acc x : ℕ)
    → suc n < 4
    → acc < limit (suc n)
    → x < 128
    → ((acc * 2 ^ 7 + x) % 2 ^ 32 < limit n) × ((acc * 2 ^ 7 + x) % 2 ^ 32 < 2 ^ 29)
within_limit zero acc x hn h hx = (omega arith, omega arith)
within_limit (suc zero) acc x hn h hx = (omega arith, omega arith)
within_limit (suc (suc zero)) acc x hn h hx = (omega arith, omega arith)
within_limit (suc (suc (suc n))) acc x hn h hx = absurd (omega arith)

pub seven_bits : (b : ℕ) → bit_and b 0x7f < 128
seven_bits b = omega (arith, bit_and-ones 7 b)

pub one_more :
    (d : Refs) (b : ℕ) (r : List ℕ) (most : ℕ) (o : Read ℕ)
    → (o ≡ failed) ⊎ Taken d r most o
    → (o ≡ failed) ⊎ Taken d (b ∷ r) (suc most) o
one_more d b r most o (inl e) = inl e
one_more d b r most o (inr t) = inr (record {
  v = t.v;
  rest = t.rest;
  reads = t.reads;
  small = t.small;
  less = omega (arith, t.less);
  enough = omega (arith, t.enough);
})

pub u29_loop-Taken :
    (n acc : ℕ) (d : Refs) (r : List ℕ)
    → n < 4
    → acc < limit n
    → All IsByte r
    → (u29_loop n acc d r ≡ failed) ⊎ Taken d r (suc n) (u29_loop n acc d r)
unfolding u29_loop read_byte
u29_loop-Taken zero acc d [] hn h bs = inl refl
u29_loop-Taken (suc n) acc d [] hn h bs = inl refl
u29_loop-Taken zero acc d (b ∷ r) hn h (hb, bs) = inr (record {
  v = (acc * 2 ^ 8 + b) % 2 ^ 32;
  rest = r;
  reads = refl;
  small = omega arith;
  less = omega arith;
  enough = omega arith;
})
u29_loop-Taken (suc n) acc d (b ∷ r) hn h (hb, bs) = elim (Bool-cases (bit_and b 0x80 == 0)) [
  | inl e ↦ inr (record {
    v = (acc * 2 ^ 7 + bit_and b 0x7f) % 2 ^ 32;
    rest = r;
    reads = rw e refl;
    small = (within_limit n acc (bit_and b 0x7f) hn h (seven_bits b)).1;
    less = omega arith;
    enough = omega arith;
  })
  | inr e ↦
      let acc' = (acc * 2 ^ 7 + bit_and b 0x7f) % 2 ^ 32 in
      rw e (
        one_more d b r (suc n) (u29_loop n acc' d r) (
          u29_loop-Taken n acc' d r (omega arith)
            (within_limit n acc (bit_and b 0x7f) hn h (seven_bits b)).0 bs))
]

-- On every input the decoder of integers fails, or gives a number of 29 bits for one to four bytes,
-- and leaves the references as they are.
pub decode_u29-Taken :
    (d : Refs) (r : List ℕ)
    → All IsByte r
    → (decode_u29 d r ≡ failed) ⊎ Taken d r 4 (decode_u29 d r)
unfolding decode_u29
decode_u29-Taken d r bs = u29_loop-Taken 3 0 d r (omega arith) (omega arith) bs
