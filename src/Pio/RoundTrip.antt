-- ===== src/Pio/RoundTrip.antt =====
-- The readers and writers of utils/pio against the byte order of `Pio/Format`.
use live.Base.{
  ℕ, ◌+◌, ◌*◌, ◌^◌, ◌<◌, ◌≡◌, refl, ap, ◌∙◌, List, [], ◌∷◌, arith, bit_or, All, IsByte, bit_or-add,
}
use native.Mathlib.Nat.{mod-eq_of_lt}
use live.Pio.Reader.{shift_in, u16_be, u24_be, u32_be, u40_be, u64_be}
use live.Pio.Writer.{put_u16_be, put_u24_be, put_u32_be, put_u40_be, put_u48_be, put_u64_be}
use live.Pio.Format.{digits_be, bytes_be, overwrite}

pub shift_in-add : (w i c : ℕ) → c < 256 → i * 256 < 2 ^ w → shift_in w i c ≡ i * 256 + c
unfolding shift_in
shift_in-add w i c hc hi = ap (λ (t : ℕ). bit_or t c) (mod-eq_of_lt hi) ∙ bit_or-add 8 i c hc

u16_be-digits : (b : List ℕ) → All IsByte b → u16_be b ≡ digits_be 2 0 b
unfolding u16_be
u16_be-digits [] h = refl
u16_be-digits (b0 ∷ []) h = refl
u16_be-digits (b0 ∷ b1 ∷ b) h = ground (arith, shift_in-add 16 b0 b1)

u24_be-digits : (b : List ℕ) → All IsByte b → u24_be b ≡ digits_be 3 0 b
unfolding u24_be
u24_be-digits [] h = refl
u24_be-digits (b0 ∷ []) h = refl
u24_be-digits (b0 ∷ b1 ∷ []) h = refl
u24_be-digits (b0 ∷ b1 ∷ b2 ∷ b) h =
    ground (arith, shift_in-add 32 b0 b1, shift_in-add 32 (b0 * 256 + b1) b2)

u32_be-digits : (b : List ℕ) → All IsByte b → u32_be b ≡ digits_be 4 0 b
unfolding u32_be
u32_be-digits [] h = refl
u32_be-digits (b0 ∷ []) h = refl
u32_be-digits (b0 ∷ b1 ∷ []) h = refl
u32_be-digits (b0 ∷ b1 ∷ b2 ∷ []) h = refl
u32_be-digits (b0 ∷ b1 ∷ b2 ∷ b3 ∷ b) h = ground (
  arith,
  shift_in-add 32 b0 b1,
  shift_in-add 32 (b0 * 256 + b1) b2,
  shift_in-add 32 ((b0 * 256 + b1) * 256 + b2) b3,
)

u40_be-digits : (b : List ℕ) → All IsByte b → u40_be b ≡ digits_be 5 0 b
unfolding u40_be
u40_be-digits [] h = refl
u40_be-digits (b0 ∷ []) h = refl
u40_be-digits (b0 ∷ b1 ∷ []) h = refl
u40_be-digits (b0 ∷ b1 ∷ b2 ∷ []) h = refl
u40_be-digits (b0 ∷ b1 ∷ b2 ∷ b3 ∷ []) h = refl
u40_be-digits (b0 ∷ b1 ∷ b2 ∷ b3 ∷ b4 ∷ b) h = ground (
  arith,
  shift_in-add 64 b0 b1,
  shift_in-add 64 (b0 * 256 + b1) b2,
  shift_in-add 64 ((b0 * 256 + b1) * 256 + b2) b3,
  shift_in-add 64 (((b0 * 256 + b1) * 256 + b2) * 256 + b3) b4,
)

u64_be-digits : (b : List ℕ) → All IsByte b → u64_be b ≡ digits_be 8 0 b
unfolding u64_be
u64_be-digits [] h = refl
u64_be-digits (b0 ∷ []) h = refl
u64_be-digits (b0 ∷ b1 ∷ []) h = refl
u64_be-digits (b0 ∷ b1 ∷ b2 ∷ []) h = refl
u64_be-digits (b0 ∷ b1 ∷ b2 ∷ b3 ∷ []) h = refl
u64_be-digits (b0 ∷ b1 ∷ b2 ∷ b3 ∷ b4 ∷ []) h = refl
u64_be-digits (b0 ∷ b1 ∷ b2 ∷ b3 ∷ b4 ∷ b5 ∷ []) h = refl
u64_be-digits (b0 ∷ b1 ∷ b2 ∷ b3 ∷ b4 ∷ b5 ∷ b6 ∷ []) h = refl
u64_be-digits (b0 ∷ b1 ∷ b2 ∷ b3 ∷ b4 ∷ b5 ∷ b6 ∷ b7 ∷ b) h = ground (
  arith,
  shift_in-add 64 b0 b1,
  shift_in-add 64 (b0 * 256 + b1) b2,
  shift_in-add 64 ((b0 * 256 + b1) * 256 + b2) b3,
  shift_in-add 64 (((b0 * 256 + b1) * 256 + b2) * 256 + b3) b4,
  shift_in-add 64 ((((b0 * 256 + b1) * 256 + b2) * 256 + b3) * 256 + b4) b5,
  shift_in-add 64 (((((b0 * 256 + b1) * 256 + b2) * 256 + b3) * 256 + b4) * 256 + b5) b6,
  shift_in-add 64 ((((((b0 * 256 + b1) * 256 + b2) * 256 + b3) * 256 + b4) * 256 + b5) * 256 + b6)
      b7,
)

-- Every unsigned big-endian reader gives the number that the first bytes of a slice of bytes spell, and
-- panics exactly on a slice that is too short.
pub readers-digits :
    (b : List ℕ)
    → All IsByte b
    → (u16_be b ≡ digits_be 2 0 b)
      × (u24_be b ≡ digits_be 3 0 b)
      × (u32_be b ≡ digits_be 4 0 b)
      × (u40_be b ≡ digits_be 5 0 b)
      × (u64_be b ≡ digits_be 8 0 b)
readers-digits b h =
    (u16_be-digits b h, u24_be-digits b h, u32_be-digits b h, u40_be-digits b h, u64_be-digits b h)

put_u16_be-bytes : (b : List ℕ) (v : ℕ) → put_u16_be b v ≡ overwrite (bytes_be 2 v) b
unfolding put_u16_be
put_u16_be-bytes [] v = refl
put_u16_be-bytes (b0 ∷ []) v = refl
put_u16_be-bytes (b0 ∷ b1 ∷ b) v = ground arith

put_u24_be-bytes : (b : List ℕ) (v : ℕ) → put_u24_be b v ≡ overwrite (bytes_be 3 v) b
unfolding put_u24_be
put_u24_be-bytes [] v = refl
put_u24_be-bytes (b0 ∷ []) v = refl
put_u24_be-bytes (b0 ∷ b1 ∷ []) v = refl
put_u24_be-bytes (b0 ∷ b1 ∷ b2 ∷ b) v = ground arith

put_u32_be-bytes : (b : List ℕ) (v : ℕ) → put_u32_be b v ≡ overwrite (bytes_be 4 v) b
unfolding put_u32_be
put_u32_be-bytes [] v = refl
put_u32_be-bytes (b0 ∷ []) v = refl
put_u32_be-bytes (b0 ∷ b1 ∷ []) v = refl
put_u32_be-bytes (b0 ∷ b1 ∷ b2 ∷ []) v = refl
put_u32_be-bytes (b0 ∷ b1 ∷ b2 ∷ b3 ∷ b) v = ground arith

put_u40_be-bytes : (b : List ℕ) (v : ℕ) → put_u40_be b v ≡ overwrite (bytes_be 5 v) b
unfolding put_u40_be
put_u40_be-bytes [] v = refl
put_u40_be-bytes (b0 ∷ []) v = refl
put_u40_be-bytes (b0 ∷ b1 ∷ []) v = refl
put_u40_be-bytes (b0 ∷ b1 ∷ b2 ∷ []) v = refl
put_u40_be-bytes (b0 ∷ b1 ∷ b2 ∷ b3 ∷ []) v = refl
put_u40_be-bytes (b0 ∷ b1 ∷ b2 ∷ b3 ∷ b4 ∷ b) v = ground arith

put_u48_be-bytes : (b : List ℕ) (v : ℕ) → put_u48_be b v ≡ overwrite (bytes_be 6 v) b
unfolding put_u48_be
put_u48_be-bytes [] v = refl
put_u48_be-bytes (b0 ∷ []) v = refl
put_u48_be-bytes (b0 ∷ b1 ∷ []) v = refl
put_u48_be-bytes (b0 ∷ b1 ∷ b2 ∷ []) v = refl
put_u48_be-bytes (b0 ∷ b1 ∷ b2 ∷ b3 ∷ []) v = refl
put_u48_be-bytes (b0 ∷ b1 ∷ b2 ∷ b3 ∷ b4 ∷ []) v = refl
put_u48_be-bytes (b0 ∷ b1 ∷ b2 ∷ b3 ∷ b4 ∷ b5 ∷ b) v = ground arith

put_u64_be-bytes : (b : List ℕ) (v : ℕ) → put_u64_be b v ≡ overwrite (bytes_be 8 v) b
unfolding put_u64_be
put_u64_be-bytes [] v = refl
put_u64_be-bytes (b0 ∷ []) v = refl
put_u64_be-bytes (b0 ∷ b1 ∷ []) v = refl
put_u64_be-bytes (b0 ∷ b1 ∷ b2 ∷ []) v = refl
put_u64_be-bytes (b0 ∷ b1 ∷ b2 ∷ b3 ∷ []) v = refl
put_u64_be-bytes (b0 ∷ b1 ∷ b2 ∷ b3 ∷ b4 ∷ []) v = refl
put_u64_be-bytes (b0 ∷ b1 ∷ b2 ∷ b3 ∷ b4 ∷ b5 ∷ []) v = refl
put_u64_be-bytes (b0 ∷ b1 ∷ b2 ∷ b3 ∷ b4 ∷ b5 ∷ b6 ∷ []) v = refl
put_u64_be-bytes (b0 ∷ b1 ∷ b2 ∷ b3 ∷ b4 ∷ b5 ∷ b6 ∷ b7 ∷ b) v = ground arith

-- Every unsigned big-endian writer puts the low digits of its argument over the first bytes of the
-- slice, keeps the rest, and panics exactly on a slice that is too short.
pub writers-bytes :
    (b : List ℕ) (v : ℕ)
    → (put_u16_be b v ≡ overwrite (bytes_be 2 v) b)
      × (put_u24_be b v ≡ overwrite (bytes_be 3 v) b)
      × (put_u32_be b v ≡ overwrite (bytes_be 4 v) b)
      × (put_u40_be b v ≡ overwrite (bytes_be 5 v) b)
      × (put_u48_be b v ≡ overwrite (bytes_be 6 v) b)
      × (put_u64_be b v ≡ overwrite (bytes_be 8 v) b)
writers-bytes b v = (
  put_u16_be-bytes b v,
  put_u24_be-bytes b v,
  put_u32_be-bytes b v,
  put_u40_be-bytes b v,
  put_u48_be-bytes b v,
  put_u64_be-bytes b v,
)
