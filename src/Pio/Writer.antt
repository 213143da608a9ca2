-- ===== src/Pio/Writer.antt =====
-- utils/pio/writer.go. A write gives the changed slice; `none` is the panic of an index out of range.
-- A signed argument is its two's complement pattern: a byte taken at a shift of at most the width
-- less 8 is the same for the arithmetic and the logical shift.
use live.Base.{ℕ, ◌/◌, ◌%◌, ◌^◌, Option, List, set?, ◌>>=◌}

-- `byte(v)`
unfoldable pub low_byte : ℕ → ℕ
low_byte v = v % 256

unfoldable pub put_u8 : List ℕ → ℕ → Option (List ℕ)
put_u8 b v = set? b 0 v

unfoldable pub put_i16_be : List ℕ → ℕ → Option (List ℕ)
unfolding low_byte
put_i16_be b v = do b' ← set? b 0 (low_byte (v / 2 ^ 8)); set? b' 1 (low_byte v)

unfoldable pub put_u16_be : List ℕ → ℕ → Option (List ℕ)
unfolding low_byte
put_u16_be b v = do b' ← set? b 0 (low_byte (v / 2 ^ 8)); set? b' 1 (low_byte v)

unfoldable pub put_i24_be : List ℕ → ℕ → Option (List ℕ)
unfolding low_byte
put_i24_be b v = do
  b' ← set? b 0 (low_byte (v / 2 ^ 16))
  b' ← set? b' 1 (low_byte (v / 2 ^ 8))
  set? b' 2 (low_byte v)

unfoldable pub put_u24_be : List ℕ → ℕ → Option (List ℕ)
unfolding low_byte
put_u24_be b v = do
  b' ← set? b 0 (low_byte (v / 2 ^ 16))
  b' ← set? b' 1 (low_byte (v / 2 ^ 8))
  set? b' 2 (low_byte v)

unfoldable pub put_i32_be : List ℕ → ℕ → Option (List ℕ)
unfolding low_byte
put_i32_be b v = do
  b' ← set? b 0 (low_byte (v / 2 ^ 24))
  b' ← set? b' 1 (low_byte (v / 2 ^ 16))
  b' ← set? b' 2 (low_byte (v / 2 ^ 8))
  set? b' 3 (low_byte v)

unfoldable pub put_u32_be : List ℕ → ℕ → Option (List ℕ)
unfolding low_byte
put_u32_be b v = do
  b' ← set? b 0 (low_byte (v / 2 ^ 24))
  b' ← set? b' 1 (low_byte (v / 2 ^ 16))
  b' ← set? b' 2 (low_byte (v / 2 ^ 8))
  set? b' 3 (low_byte v)

unfoldable pub put_u32_le : List ℕ → ℕ → Option (List ℕ)
unfolding low_byte
put_u32_le b v = do
  b' ← set? b 3 (low_byte (v / 2 ^ 24))
  b' ← set? b' 2 (low_byte (v / 2 ^ 16))
  b' ← set? b' 1 (low_byte (v / 2 ^ 8))
  set? b' 0 (low_byte v)

unfoldable pub put_u40_be : List ℕ → ℕ → Option (List ℕ)
unfolding low_byte
put_u40_be b v = do
  b' ← set? b 0 (low_byte (v / 2 ^ 32))
  b' ← set? b' 1 (low_byte (v / 2 ^ 24))
  b' ← set? b' 2 (low_byte (v / 2 ^ 16))
  b' ← set? b' 3 (low_byte (v / 2 ^ 8))
  set? b' 4 (low_byte v)

unfoldable pub put_u48_be : List ℕ → ℕ → Option (List ℕ)
unfolding low_byte
put_u48_be b v = do
  b' ← set? b 0 (low_byte (v / 2 ^ 40))
  b' ← set? b' 1 (low_byte (v / 2 ^ 32))
  b' ← set? b' 2 (low_byte (v / 2 ^ 24))
  b' ← set? b' 3 (low_byte (v / 2 ^ 16))
  b' ← set? b' 4 (low_byte (v / 2 ^ 8))
  set? b' 5 (low_byte v)

unfoldable pub put_u64_be : List ℕ → ℕ → Option (List ℕ)
unfolding low_byte
put_u64_be b v = do
  b' ← set? b 0 (low_byte (v / 2 ^ 56))
  b' ← set? b' 1 (low_byte (v / 2 ^ 48))
  b' ← set? b' 2 (low_byte (v / 2 ^ 40))
  b' ← set? b' 3 (low_byte (v / 2 ^ 32))
  b' ← set? b' 4 (low_byte (v / 2 ^ 24))
  b' ← set? b' 5 (low_byte (v / 2 ^ 16))
  b' ← set? b' 6 (low_byte (v / 2 ^ 8))
  set? b' 7 (low_byte v)

unfoldable pub put_i64_be : List ℕ → ℕ → Option (List ℕ)
unfolding low_byte
put_i64_be b v = do
  b' ← set? b 0 (low_byte (v / 2 ^ 56))
  b' ← set? b' 1 (low_byte (v / 2 ^ 48))
  b' ← set? b' 2 (low_byte (v / 2 ^ 40))
  b' ← set? b' 3 (low_byte (v / 2 ^ 32))
  b' ← set? b' 4 (low_byte (v / 2 ^ 24))
  b' ← set? b' 5 (low_byte (v / 2 ^ 16))
  b' ← set? b' 6 (low_byte (v / 2 ^ 8))
  set? b' 7 (low_byte v)
