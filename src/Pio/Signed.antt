-- ===== src/Pio/Signed.antt =====
-- utils/pio: the signed integers and the little-endian one, read behind a write.
use live.Base.{
  ℕ, ◌+◌, ◌-◌, ◌*◌, ◌/◌, ◌%◌, ◌^◌, ◌≤◌, ◌<◌, ◌≡◌, refl, ap, ◌∙◌, ◌⊎◌, Option, some, List, [], ◌∷◌,
  arith, length, drop, bit_or, bit_or-add,
}
use live.Pio.Reader.{shift_in, sign_byte, i16_be, i24_be, i32_be, i64_be, u32_le}
use live.Pio.Writer.{put_i16_be, put_i24_be, put_i32_be, put_i64_be, put_u32_le}
use live.Pio.RoundTrip.{shift_in-add}

-- Two slices of one length that agree behind the first `n` bytes.
abbrev pub SameTail : ℕ → List ℕ → List ℕ → Type 0
SameTail n b c = (length c ≡ length b) × (drop n c ≡ drop n b)

-- What a write at the front followed by a read gives.
abbrev pub ReadsBack :
    ℕ → (List ℕ → ℕ → Option (List ℕ)) → (List ℕ → Option ℕ) → List ℕ → ℕ → Type 0
ReadsBack n put get b v = (c : List ℕ) × (put b v ≡ some c) × (get c ≡ some v) × SameTail n b c

-- The pattern of an int32 in the range of 24 bits.
abbrev pub IsI24 : ℕ → Type 0
IsI24 v = (v < 2 ^ 23) ⊎ ((2 ^ 32 - 2 ^ 23 ≤ v) × (v < 2 ^ 32))

shift_in_32 : (i c : ℕ) → c < 256 → shift_in 32 i c ≡ i % 2 ^ 24 * 256 + c
unfolding shift_in
shift_in_32 i c h = ap (λ (t : ℕ). bit_or t c) (omega arith) ∙ bit_or-add 8 (i % 2 ^ 24) c h

shift_in_64 : (i c : ℕ) → c < 256 → shift_in 64 i c ≡ i % 2 ^ 56 * 256 + c
unfolding shift_in
shift_in_64 i c h = ap (λ (t : ℕ). bit_or t c) (omega arith) ∙ bit_or-add 8 (i % 2 ^ 56) c h

i16_be-put : (b : List ℕ) (v : ℕ) → 2 ≤ length b → v < 2 ^ 16 → ReadsBack 2 put_i16_be i16_be b v
unfolding i16_be put_i16_be
i16_be-put [] v h hv = absurd (omega arith)
i16_be-put (b0 ∷ []) v h hv = absurd (omega arith)
i16_be-put (b0 ∷ b1 ∷ b) v h hv = (
  (v / 2 ^ 8 % 256) ∷ (v % 256) ∷ b,
  ground arith,
  ground (arith, shift_in-add 16 (v / 2 ^ 8 % 256) (v % 256)),
  (refl, refl),
)

i24_be-put : (b : List ℕ) (v : ℕ) → 3 ≤ length b → IsI24 v → ReadsBack 3 put_i24_be i24_be b v
unfolding i24_be put_i24_be
i24_be-put [] v h hv = absurd (omega arith)
i24_be-put (b0 ∷ []) v h hv = absurd (omega arith)
i24_be-put (b0 ∷ b1 ∷ []) v h hv = absurd (omega arith)
i24_be-put (b0 ∷ b1 ∷ b2 ∷ b) v h hv = (
  (v / 2 ^ 16 % 256) ∷ (v / 2 ^ 8 % 256) ∷ (v % 256) ∷ b,
  ground arith,
  ground (
    arith,
    shift_in_32 (sign_byte 32 (v / 2 ^ 16 % 256)) (v / 2 ^ 8 % 256),
    shift_in_32 (shift_in 32 (sign_byte 32 (v / 2 ^ 16 % 256)) (v / 2 ^ 8 % 256)) (v % 256),
  ),
  (refl, refl),
)

i32_be-put : (b : List ℕ) (v : ℕ) → 4 ≤ length b → v < 2 ^ 32 → ReadsBack 4 put_i32_be i32_be b v
unfolding i32_be put_i32_be
i32_be-put [] v h hv = absurd (omega arith)
i32_be-put (b0 ∷ []) v h hv = absurd (omega arith)
i32_be-put (b0 ∷ b1 ∷ []) v h hv = absurd (omega arith)
i32_be-put (b0 ∷ b1 ∷ b2 ∷ []) v h hv = absurd (omega arith)
i32_be-put (b0 ∷ b1 ∷ b2 ∷ b3 ∷ b) v h hv = (
  (v / 2 ^ 24 % 256) ∷ (v / 2 ^ 16 % 256) ∷ (v / 2 ^ 8 % 256) ∷ (v % 256) ∷ b,
  ground arith,
  ground (
    arith,
    shift_in_32 (sign_byte 32 (v / 2 ^ 24 % 256)) (v / 2 ^ 16 % 256),
    shift_in_32 (shift_in 32 (sign_byte 32 (v / 2 ^ 24 % 256)) (v / 2 ^ 16 % 256))
        (v / 2 ^ 8 % 256),
    shift_in_32
        (shift_in 32 (shift_in 32 (sign_byte 32 (v / 2 ^ 24 % 256)) (v / 2 ^ 16 % 256))
          (v / 2 ^ 8 % 256))
        (v % 256),
  ),
  (refl, refl),
)

i64_be-put : (b : List ℕ) (v : ℕ) → 8 ≤ length b → v < 2 ^ 64 → ReadsBack 8 put_i64_be i64_be b v
unfolding i64_be put_i64_be
i64_be-put [] v h hv = absurd (omega arith)
i64_be-put (b0 ∷ []) v h hv = absurd (omega arith)
i64_be-put (b0 ∷ b1 ∷ []) v h hv = absurd (omega arith)
i64_be-put (b0 ∷ b1 ∷ b2 ∷ []) v h hv = absurd (omega arith)
i64_be-put (b0 ∷ b1 ∷ b2 ∷ b3 ∷ []) v h hv = absurd (omega arith)
i64_be-put (b0 ∷ b1 ∷ b2 ∷ b3 ∷ b4 ∷ []) v h hv = absurd (omega arith)
i64_be-put (b0 ∷ b1 ∷ b2 ∷ b3 ∷ b4 ∷ b5 ∷ []) v h hv = absurd (omega arith)
i64_be-put (b0 ∷ b1 ∷ b2 ∷ b3 ∷ b4 ∷ b5 ∷ b6 ∷ []) v h hv = absurd (omega arith)
i64_be-put (b0 ∷ b1 ∷ b2 ∷ b3 ∷ b4 ∷ b5 ∷ b6 ∷ b7 ∷ b) v h hv = (
  (v / 2 ^ 56 % 256)
      ∷ (v / 2 ^ 48 % 256)
      ∷ (v / 2 ^ 40 % 256)
      ∷ (v / 2 ^ 32 % 256)
      ∷ (v / 2 ^ 24 % 256)
      ∷ (v / 2 ^ 16 % 256)
      ∷ (v / 2 ^ 8 % 256)
      ∷ (v % 256)
      ∷ b,
  ground arith,
  ground (
    arith,
    shift_in_64 (sign_byte 64 (v / 2 ^ 56 % 256)) (v / 2 ^ 48 % 256),
    shift_in_64 (shift_in 64 (sign_byte 64 (v / 2 ^ 56 % 256)) (v / 2 ^ 48 % 256))
        (v / 2 ^ 40 % 256),
    shift_in_64
        (shift_in 64 (shift_in 64 (sign_byte 64 (v / 2 ^ 56 % 256)) (v / 2 ^ 48 % 256))
          (v / 2 ^ 40 % 256))
        (v / 2 ^ 32 % 256),
    shift_in_64
        (shift_in 64
          (shift_in 64 (shift_in 64 (sign_byte 64 (v / 2 ^ 56 % 256)) (v / 2 ^ 48 % 256))
            (v / 2 ^ 40 % 256))
          (v / 2 ^ 32 % 256))
        (v / 2 ^ 24 % 256),
    shift_in_64
        (shift_in 64
          (shift_in 64
            (shift_in 64 (shift_in 64 (sign_byte 64 (v / 2 ^ 56 % 256)) (v / 2 ^ 48 % 256))
              (v / 2 ^ 40 % 256))
            (v / 2 ^ 32 % 256))
          (v / 2 ^ 24 % 256))
        (v / 2 ^ 16 % 256),
    shift_in_64
        (shift_in 64
          (shift_in 64
            (shift_in 64
              (shift_in 64 (shift_in 64 (sign_byte 64 (v / 2 ^ 56 % 256)) (v / 2 ^ 48 % 256))
                (v / 2 ^ 40 % 256))
              (v / 2 ^ 32 % 256))
            (v / 2 ^ 24 % 256))
          (v / 2 ^ 16 % 256))
        (v / 2 ^ 8 % 256),
    shift_in_64
        (shift_in 64
          (shift_in 64
            (shift_in 64
              (shift_in 64
                (shift_in 64 (shift_in 64 (sign_byte 64 (v / 2 ^ 56 % 256)) (v / 2 ^ 48 % 256))
                  (v / 2 ^ 40 % 256))
                (v / 2 ^ 32 % 256))
              (v / 2 ^ 24 % 256))
            (v / 2 ^ 16 % 256))
          (v / 2 ^ 8 % 256))
        (v % 256),
  ),
  (refl, refl),
)

u32_le-put : (b : List ℕ) (v : ℕ) → 4 ≤ length b → v < 2 ^ 32 → ReadsBack 4 put_u32_le u32_le b v
unfolding u32_le put_u32_le
u32_le-put [] v h hv = absurd (omega arith)
u32_le-put (b0 ∷ []) v h hv = absurd (omega arith)
u32_le-put (b0 ∷ b1 ∷ []) v h hv = absurd (omega arith)
u32_le-put (b0 ∷ b1 ∷ b2 ∷ []) v h hv = absurd (omega arith)
u32_le-put (b0 ∷ b1 ∷ b2 ∷ b3 ∷ b) v h hv = (
  (v % 256) ∷ (v / 2 ^ 8 % 256) ∷ (v / 2 ^ 16 % 256) ∷ (v / 2 ^ 24 % 256) ∷ b,
  ground arith,
  ground (
    arith,
    shift_in_32 (v / 2 ^ 24 % 256) (v / 2 ^ 16 % 256),
    shift_in_32 (shift_in 32 (v / 2 ^ 24 % 256) (v / 2 ^ 16 % 256)) (v / 2 ^ 8 % 256),
    shift_in_32 (shift_in 32 (shift_in 32 (v / 2 ^ 24 % 256) (v / 2 ^ 16 % 256)) (v / 2 ^ 8 % 256))
        (v % 256),
  ),
  (refl, refl),
)

-- In a slice of eight bytes or more, each signed writer and the little-endian one write an integer of
-- their range so that the matching reader gives it back, and touch nothing behind their bytes.
pub signed-ReadsBack :
    (b : List ℕ) (v16 v24 v32 v64 le32 : ℕ)
    → 8 ≤ length b
    → v16 < 2 ^ 16
    → IsI24 v24
    → v32 < 2 ^ 32
    → v64 < 2 ^ 64
    → le32 < 2 ^ 32
    → ReadsBack 2 put_i16_be i16_be b v16
      × ReadsBack 3 put_i24_be i24_be b v24
      × ReadsBack 4 put_i32_be i32_be b v32
      × ReadsBack 8 put_i64_be i64_be b v64
      × ReadsBack 4 put_u32_le u32_le b le32
signed-ReadsBack b v16 v24 v32 v64 le32 h h16 h24 h32 h64 hle = (
  i16_be-put b v16 (omega arith) h16,
  i24_be-put b v24 (omega arith) h24,
  i32_be-put b v32 (omega arith) h32,
  i64_be-put b v64 h h64,
  u32_le-put b le32 (omega arith) hle,
)
