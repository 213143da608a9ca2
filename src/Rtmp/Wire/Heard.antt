-- ===== src/Rtmp/Wire/Heard.antt =====
-- The reading side of a chunk stream on the headers of the wire.
use live.Base.{
  ℕ, ◌+◌, ◌-◌, ◌*◌, ◌^◌, ◌≤◌, ◌<◌, ◌≡◌, none, List, [], ◌++◌, arith, bit_and, bit_and-ones,
  append_assoc, if◌then◌else◌, ltb, leb, min,
}
use live.Pio.Format.{bytes_be, digits_be-bytes_be}
use live.Rtmp.ReadWriter.{ReadWriter, read_uint_be, peek_uint32, discard}
use live.Rtmp.ReadWriter.Laws.{bytes_le, read_uint_be-bytes, read_uint_le-bytes}
use live.Rtmp.Pool.{Pool}
use live.Rtmp.ChunkStream.{ChunkStream, done}
use live.Rtmp.ReadChunk.{new, read_csid, read_extended, read_format_0, read_continued}
use live.Rtmp.Wire.{basic_bytes, extended_bytes, IsMessage}

-- The low six bits of a basic header, and the bytes behind its first.
abbrev pub key_of : ℕ → ℕ
key_of csid = if ltb csid 64 then csid else (if ltb csid 320 then 0 else 1)

abbrev pub escape_bytes : ℕ → List ℕ
escape_bytes csid =
    if ltb csid 64
    then []
    else (if ltb csid 320 then bytes_le 1 (csid - 64) else bytes_le 2 (csid - 64))

-- A connection with other bytes to come.
abbrev pub at : ReadWriter → List ℕ → ReadWriter
at io bytes = record io { input = bytes }

basic_bytes-key :
    (f csid : ℕ) → basic_bytes f csid ≡ bytes_be 1 (f * 64 + key_of csid) ++ escape_bytes csid
unfolding basic_bytes
basic_bytes-key f csid = ground arith

pub read_basic :
    (io : ReadWriter) (f csid : ℕ) (rest : List ℕ)
    → io.read_error ≡ none
    → f ≤ 3
    → csid < 65600
    → read_uint_be (at io (basic_bytes f csid ++ rest)) 1
      ≡ (f * 64 + key_of csid, at io (escape_bytes csid ++ rest))
read_basic io f csid rest e hf h = ground (
  arith,
  basic_bytes-key f csid,
  read_uint_be-bytes 1 (f * 64 + key_of csid) (escape_bytes csid ++ rest)
      (at io (basic_bytes f csid ++ rest)),
  append_assoc (bytes_be 1 (f * 64 + key_of csid)) (escape_bytes csid) rest,
)

pub key_of-mask : (f csid : ℕ) → bit_and (f * 64 + key_of csid) 0x3f ≡ key_of csid
key_of-mask f csid = ground (arith, bit_and-ones 6 (f * 64 + key_of csid))

pub read_csid-escape :
    (cs : ChunkStream) (io : ReadWriter) (csid : ℕ) (rest : List ℕ)
    → io.read_error ≡ none
    → 2 ≤ csid
    → csid < 65600
    → cs.csid ≡ key_of csid
    → read_csid cs (at io (escape_bytes csid ++ rest)) ≡ (record cs { csid = csid }, at io rest)
unfolding read_csid
read_csid-escape cs io csid rest e lo hi h = ground (
  arith,
  read_uint_le-bytes 1 (csid - 64) rest (at io (escape_bytes csid ++ rest)),
  read_uint_le-bytes 2 (csid - 64) rest (at io (escape_bytes csid ++ rest)),
)

pub read_extended-bytes :
    (io : ReadWriter) (ts : ℕ) (rest : List ℕ)
    → io.read_error ≡ none
    → ts < 2 ^ 32
    → read_extended (min ts 0xffffff) (at io (extended_bytes ts ++ rest))
      ≡ (ts, leb 0xffffff ts, at io rest)
unfolding read_extended extended_bytes
read_extended-bytes io ts rest e h =
    ground (arith, read_uint_be-bytes 4 ts rest (at io (extended_bytes ts ++ rest)))

-- The fixed part of a first header, and what follows its basic header.
abbrev pub first_fields : ChunkStream → List ℕ → List ℕ
first_fields m rest =
    bytes_be 3 (min m.timestamp 0xffffff)
    ++ (bytes_be 3 m.len
        ++ (bytes_be 1 m.type_id
            ++ (bytes_le 4 m.stream_id ++ (extended_bytes m.timestamp ++ rest))))

pub read_format_0-fields :
    (cs m : ChunkStream) (io : ReadWriter) (pool : Pool) (rest : List ℕ)
    → io.read_error ≡ none
    → IsMessage m
    → read_format_0 cs (at io (first_fields m rest)) pool
      ≡ new
          (record cs {
            format = cs.tmp_format;
            timestamp = m.timestamp;
            len = m.len;
            type_id = m.type_id;
            stream_id = m.stream_id;
            exted = leb 0xffffff m.timestamp;
          })
          (at io rest)
          pool
unfolding read_format_0
read_format_0-fields cs m io pool rest e w = ground (
  arith,
  read_uint_be-bytes 3 (min m.timestamp 0xffffff) r1 (at io (first_fields m rest)),
  read_uint_be-bytes 3 m.len r2 (at io r1),
  read_uint_be-bytes 1 m.type_id r3 (at io r2),
  read_uint_le-bytes 4 m.stream_id r4 (at io r3),
  read_extended-bytes io m.timestamp rest,
)
  where
    r1 : List ℕ
    r1 =
        bytes_be 3 m.len
        ++ (bytes_be 1 m.type_id
            ++ (bytes_le 4 m.stream_id ++ (extended_bytes m.timestamp ++ rest)))

    r2 : List ℕ
    r2 = bytes_be 1 m.type_id ++ (bytes_le 4 m.stream_id ++ (extended_bytes m.timestamp ++ rest))

    r3 : List ℕ
    r3 = bytes_le 4 m.stream_id ++ (extended_bytes m.timestamp ++ rest)

    r4 : List ℕ
    r4 = extended_bytes m.timestamp ++ rest

pub read_continued-bytes :
    (cs : ChunkStream) (io : ReadWriter) (pool : Pool) (rest : List ℕ)
    → cs.timestamp < 2 ^ 32
    → cs.exted ≡ leb 0xffffff cs.timestamp
    → read_continued cs (at io (extended_bytes cs.timestamp ++ rest)) pool
      ≡ record { exit = done; cs = cs; io = at io rest; pool = pool }
unfolding read_continued extended_bytes peek_uint32 discard
read_continued-bytes cs io pool rest h e = ground (arith, digits_be-bytes_be 4 0 cs.timestamp rest)
