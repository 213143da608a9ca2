-- ===== src/Rtmp/ReadWriter.antt =====
-- protocol/rtmp/core/read_writer.go. The bytes that will still arrive are a list, and the stream ends
-- behind them. The writer below takes `room` more bytes, buffered or sent, before it fails for good.
pub mod Laws
pub mod Sticky
use live.Base.{
  ℕ, zero, suc, ◌+◌, ◌-◌, ◌*◌, ◌/◌, ◌%◌, ◌^◌, Bool, Option, none, some, List, [], ◌∷◌, ◌++◌,
  bit_and, if◌then◌else◌, leb, ltb, length, take, drop,
}
use live.Pio.Format.{digits_be}

pub data Error : Type 0 where
  eof unexpected_eof write_failed : Error
  invalid_remain invalid_format bad_length : ℕ → Error

pub record ReadWriter : Type 0 where
  pub input : List ℕ
  pub read_error : Option Error
  pub out : List ℕ
  pub room : ℕ
  pub write_error : Option Error

-- `bufio.Reader.ReadByte` in the loops below: the error is kept in `readError`.
read_be_loop : ℕ → ℕ → List ℕ → ReadWriter → ℕ × ReadWriter
read_be_loop zero ret input io = (ret, record io { input = input })
read_be_loop (suc n) ret [] io = (0, record io { input = []; read_error = some eof })
read_be_loop (suc n) ret (b ∷ input) io =
    read_be_loop n ((ret * 256 % 2 ^ 32 + b) % 2 ^ 32) input io

read_le_loop : ℕ → ℕ → ℕ → List ℕ → ReadWriter → ℕ × ReadWriter
read_le_loop zero i ret input io = (ret, record io { input = input })
read_le_loop (suc n) i ret [] io = (0, record io { input = []; read_error = some eof })
read_le_loop (suc n) i ret (b ∷ input) io =
    read_le_loop n (i + 1) ((ret + b * 256 ^ i % 2 ^ 32) % 2 ^ 32) input io

-- The error that the source returns beside the number is the one that it leaves in `readError`.
unfoldable pub read_uint_be : ReadWriter → ℕ → ℕ × ReadWriter
unfolding read_be_loop
read_uint_be io n = elim io.read_error [ some e ↦ (0, io) | none ↦ read_be_loop n 0 io.input io ]

unfoldable pub read_uint_le : ReadWriter → ℕ → ℕ × ReadWriter
unfolding read_le_loop
read_uint_le io n = elim io.read_error [ some e ↦ (0, io) | none ↦ read_le_loop n 0 0 io.input io ]

-- `Read` into a slice of `n` bytes: the bytes that were stored, and the error.
unfoldable pub read : ReadWriter → ℕ → List ℕ × Option Error × ReadWriter
read io n = elim io.read_error [
  | some e ↦ ([], some e, io)
  | none ↦
      if leb n (length io.input)
      then (take n io.input, none, record io { input = drop n io.input })
      else let e = if leb (length io.input) 0 then eof else unexpected_eof in
        (io.input, some e, record io { input = []; read_error = some e })
]

-- `bufio.Reader.Peek(4)` and the number that `binary.BigEndian.Uint32` reads from it; `none` is its
-- error. It does not look at `readError`.
unfoldable pub peek_uint32 : ReadWriter → Option ℕ
peek_uint32 io = digits_be 4 0 io.input

unfoldable pub discard : ReadWriter → ℕ → ReadWriter
discard io n = record io { input = drop n io.input }

-- `bufio.Writer.WriteByte`, with the error kept in `writeError`.
write_byte : ReadWriter → ℕ → ReadWriter
write_byte io b =
    if ltb 0 io.room
    then record io { out = io.out ++ b ∷ []; room = io.room - 1 }
    else record io { write_error = some write_failed }

-- The loop with `n - i` rounds left. `v >> ((n - i - 1) << 3)` is a division by a power of 256.
write_be_loop : ℕ → ℕ → ReadWriter → ReadWriter
unfolding write_byte
write_be_loop zero v io = io
write_be_loop (suc k) v io =
    let io' = write_byte io (bit_and (v / 256 ^ k % 256) 0xff) in
    let rest = write_be_loop k v io' in elim io'.write_error [ some e ↦ io' | none ↦ rest ]

write_le_loop : ℕ → ℕ → ReadWriter → ReadWriter
unfolding write_byte
write_le_loop zero v io = io
write_le_loop (suc k) v io =
    let io' = write_byte io (bit_and (v % 256) 0xff) in
    let rest = write_le_loop k (v / 256) io' in elim io'.write_error [ some e ↦ io' | none ↦ rest ]

-- Again the error that is returned is the one in `writeError`.
unfoldable pub write_uint_be : ReadWriter → ℕ → ℕ → ReadWriter
unfolding write_be_loop
write_uint_be io v n = elim io.write_error [ some e ↦ io | none ↦ write_be_loop n v io ]

unfoldable pub write_uint_le : ReadWriter → ℕ → ℕ → ReadWriter
unfolding write_le_loop
write_uint_le io v n = elim io.write_error [ some e ↦ io | none ↦ write_le_loop n v io ]

-- `Write` returns the error of the writer below, and does not keep it in `writeError`.
unfoldable pub write : ReadWriter → List ℕ → Option Error × ReadWriter
write io p = elim io.write_error [
  | some e ↦ (some e, io)
  | none ↦
      if leb (length p) io.room
      then (none, record io { out = io.out ++ p; room = io.room - length p })
      else (some write_failed, record io { out = io.out ++ take io.room p; room = 0 })
]
