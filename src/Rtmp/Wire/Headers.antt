-- ===== src/Rtmp/Wire/Headers.antt =====
-- The headers that the writing side of a chunk stream puts out.
use live.Base.{
  ℕ, ◌+◌, ◌-◌, ◌*◌, ◌^◌, ◌≤◌, ◌<◌, ◌≡◌, ◌⊎◌, inl, inr, refl, none, List, ◌++◌, arith, bit_or-add,
  length, length-append, min,
}
use live.Pio.Format.{bytes_be}
use live.Rtmp.ReadWriter.{ReadWriter, write}
use live.Rtmp.ReadWriter.Laws.{
  bytes_le, emit, emit-nil, emit-emit, CanWrite, write_uint_be-emit, write_uint_le-emit,
}
use live.Rtmp.ChunkStream.{ChunkStream, write_basic_header, end_header, write_header, set_csid}
use live.Rtmp.Wire.{basic_bytes, extended_bytes, first_header, next_header}

-- What is left of the room behind a write.
pub CanWrite-emit :
    {io : ReadWriter} (p : List ℕ) (n : ℕ) → CanWrite io (length p + n) → CanWrite (emit io p) n
CanWrite-emit p n c = record { working = c.working; fits = omega (arith, c.fits) }

basic_header-emit :
    (m : ChunkStream) (io : ReadWriter)
    → m.format ≤ 3
    → m.csid < 65600
    → CanWrite io (length (basic_bytes m.format m.csid))
    → write_basic_header m io ≡ emit io (basic_bytes m.format m.csid)
unfolding write_basic_header basic_bytes
basic_header-emit m io f h c = ground (
  arith,
  bit_or-add 6 m.format m.csid,
  bit_or-add 6 m.format 0,
  bit_or-add 6 m.format 1,
  write_uint_be-emit io (m.format * 64 + m.csid) 1,
  write_uint_be-emit io (m.format * 64) 1,
  write_uint_be-emit io (m.format * 64 + 1) 1,
  write_uint_le-emit (emit io (bytes_be 1 (m.format * 64))) (m.csid - 64) 1,
  write_uint_le-emit (emit io (bytes_be 1 (m.format * 64 + 1))) (m.csid - 64) 2,
  emit-emit io (bytes_be 1 (m.format * 64)) (bytes_le 1 (m.csid - 64)),
  emit-emit io (bytes_be 1 (m.format * 64 + 1)) (bytes_le 2 (m.csid - 64)),
)

end_header-emit :
    (m : ChunkStream) (ts : ℕ) (io : ReadWriter)
    → ts ≡ m.timestamp ⊎ ts ≡ min m.timestamp 0xffffff
    → CanWrite io (length (extended_bytes m.timestamp))
    → end_header m ts io ≡ (none, emit io (extended_bytes m.timestamp))
unfolding end_header extended_bytes
end_header-emit m ts io h c = ground (arith, write_uint_be-emit io m.timestamp 4, emit-nil io)

pub next_header-emit :
    (m : ChunkStream) (io : ReadWriter)
    → m.format ≡ 3
    → m.csid < 65600
    → CanWrite io (length (next_header m))
    → write_header m io ≡ (none, emit io (next_header m))
unfolding write_header next_header
next_header-emit m io f h c = ground (
  arith,
  f,
  basic_header-emit m io (omega arith) h,
  length-append (basic_bytes 3 m.csid) (extended_bytes m.timestamp),
  end_header-emit m m.timestamp (emit io (basic_bytes 3 m.csid)) (inl refl),
  emit-emit io (basic_bytes 3 m.csid) (extended_bytes m.timestamp),
)

-- The fixed part of a first header.
abbrev message_header : ChunkStream → List ℕ
message_header m =
    bytes_be 3 (min m.timestamp 0xffffff)
    ++ (bytes_be 3 m.len ++ (bytes_be 1 m.type_id ++ bytes_le 4 m.stream_id))

pub first_header-emit :
    (m : ChunkStream) (io : ReadWriter)
    → m.format ≡ 0
    → m.csid < 65600
    → m.len < 2 ^ 24
    → CanWrite io (length (first_header m))
    → write_header m io ≡ (none, emit io (first_header m))
unfolding write_header first_header
first_header-emit m io f h l c = ground (
  arith,
  f,
  basic_header-emit m io (omega arith) h,
  length-append (basic_bytes 0 m.csid) (message_header m ++ extended_bytes m.timestamp),
  write_uint_be-emit io1 (min m.timestamp 0xffffff) 3,
  write_uint_be-emit io2 m.len 3,
  write_uint_be-emit io3 m.type_id 1,
  write_uint_le-emit io4 m.stream_id 4,
  end_header-emit m (min m.timestamp 0xffffff) io5 (inr refl),
  emit-emit io4 (bytes_le 4 m.stream_id) (extended_bytes m.timestamp),
  emit-emit io3 (bytes_be 1 m.type_id) (bytes_le 4 m.stream_id ++ extended_bytes m.timestamp),
  emit-emit io2 (bytes_be 3 m.len)
      (bytes_be 1 m.type_id ++ (bytes_le 4 m.stream_id ++ extended_bytes m.timestamp)),
  emit-emit io1 (bytes_be 3 (min m.timestamp 0xffffff)) (
      bytes_be 3 m.len
      ++ (bytes_be 1 m.type_id ++ (bytes_le 4 m.stream_id ++ extended_bytes m.timestamp))),
  emit-emit io (basic_bytes 0 m.csid) (message_header m ++ extended_bytes m.timestamp),
)
  where
    io1 : ReadWriter
    io1 = emit io (basic_bytes 0 m.csid)

    io2 : ReadWriter
    io2 = emit io1 (bytes_be 3 (min m.timestamp 0xffffff))

    io3 : ReadWriter
    io3 = emit io2 (bytes_be 3 m.len)

    io4 : ReadWriter
    io4 = emit io3 (bytes_be 1 m.type_id)

    io5 : ReadWriter
    io5 = emit io4 (bytes_le 4 m.stream_id)

pub write-emit :
    (io : ReadWriter) (p : List ℕ) → CanWrite io (length p) → write io p ≡ (none, emit io p)
unfolding write
write-emit io p c = ground arith

pub len-set_csid : (m : ChunkStream) → (set_csid m).len ≡ m.len
unfolding set_csid
len-set_csid m = ground arith
