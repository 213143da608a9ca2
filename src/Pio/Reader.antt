-- ===== src/Pio/Reader.antt =====
-- utils/pio/reader.go. A slice is the list of its bytes; `none` is the panic of an index out of range.
-- A signed result is its two's complement pattern, at the width of the Go type.
use live.Base.{
  ℕ, ◌+◌, ◌-◌, ◌*◌, ◌%◌, ◌^◌, Option, some, List, bit_or, ltb, if◌then◌else◌, get_elem?, ◌>>=◌,
}

-- `i <<= 8; i |= T(c)` in a type T of w bits.
unfoldable pub shift_in : ℕ → ℕ → ℕ → ℕ
shift_in w i c = bit_or (i * 256 % 2 ^ w) c

-- `T(int8(c))`: the sign of the byte fills the w bits.
unfoldable pub sign_byte : ℕ → ℕ → ℕ
sign_byte w c = if ltb c 128 then c else 2 ^ w - 256 + c

unfoldable pub u8 : List ℕ → Option ℕ
u8 b = get_elem? b 0

unfoldable pub u16_be : List ℕ → Option ℕ
unfolding shift_in
u16_be b = do b0 ← get_elem? b 0; b1 ← get_elem? b 1; some (shift_in 16 b0 b1)

unfoldable pub i16_be : List ℕ → Option ℕ
unfolding shift_in
i16_be b = do b0 ← get_elem? b 0; b1 ← get_elem? b 1; some (shift_in 16 b0 b1)

unfoldable pub i24_be : List ℕ → Option ℕ
unfolding shift_in sign_byte
i24_be b = do
  b0 ← get_elem? b 0
  b1 ← get_elem? b 1
  b2 ← get_elem? b 2
  some (shift_in 32 (shift_in 32 (sign_byte 32 b0) b1) b2)

unfoldable pub u24_be : List ℕ → Option ℕ
unfolding shift_in
u24_be b = do
  b0 ← get_elem? b 0
  b1 ← get_elem? b 1
  b2 ← get_elem? b 2
  some (shift_in 32 (shift_in 32 b0 b1) b2)

unfoldable pub i32_be : List ℕ → Option ℕ
unfolding shift_in sign_byte
i32_be b = do
  b0 ← get_elem? b 0
  b1 ← get_elem? b 1
  b2 ← get_elem? b 2
  b3 ← get_elem? b 3
  some (shift_in 32 (shift_in 32 (shift_in 32 (sign_byte 32 b0) b1) b2) b3)

unfoldable pub u32_be : List ℕ → Option ℕ
unfolding shift_in
u32_be b = do
  b0 ← get_elem? b 0
  b1 ← get_elem? b 1
  b2 ← get_elem? b 2
  b3 ← get_elem? b 3
  some (shift_in 32 (shift_in 32 (shift_in 32 b0 b1) b2) b3)

unfoldable pub u40_be : List ℕ → Option ℕ
unfolding shift_in
u40_be b = do
  b0 ← get_elem? b 0
  b1 ← get_elem? b 1
  b2 ← get_elem? b 2
  b3 ← get_elem? b 3
  b4 ← get_elem? b 4
  some (shift_in 64 (shift_in 64 (shift_in 64 (shift_in 64 b0 b1) b2) b3) b4)

unfoldable pub u64_be : List ℕ → Option ℕ
unfolding shift_in
u64_be b = do
  b0 ← get_elem? b 0
  b1 ← get_elem? b 1
  b2 ← get_elem? b 2
  b3 ← get_elem? b 3
  b4 ← get_elem? b 4
  b5 ← get_elem? b 5
  b6 ← get_elem? b 6
  b7 ← get_elem? b 7
  some (
      shift_in 64
        (shift_in 64
          (shift_in 64 (shift_in 64 (shift_in 64 (shift_in 64 (shift_in 64 b0 b1) b2) b3) b4) b5)
          b6)
        b7)

unfoldable pub i64_be : List ℕ → Option ℕ
unfolding shift_in sign_byte
i64_be b = do
  b0 ← get_elem? b 0
  b1 ← get_elem? b 1
  b2 ← get_elem? b 2
  b3 ← get_elem? b 3
  b4 ← get_elem? b 4
  b5 ← get_elem? b 5
  b6 ← get_elem? b 6
  b7 ← get_elem? b 7
  some (
      shift_in 64
        (shift_in 64
          (shift_in 64
            (shift_in 64 (shift_in 64 (shift_in 64 (shift_in 64 (sign_byte 64 b0) b1) b2) b3) b4)
            b5)
          b6)
        b7)

unfoldable pub u32_le : List ℕ → Option ℕ
unfolding shift_in
u32_le b = do
  b3 ← get_elem? b 3
  b2 ← get_elem? b 2
  b1 ← get_elem? b 1
  b0 ← get_elem? b 0
  some (shift_in 32 (shift_in 32 (shift_in 32 b3 b2) b1) b0)
