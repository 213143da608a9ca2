-- ===== src/Rtmp/ChunkStream.antt =====
-- protocol/rtmp/core/chunk_stream.go: the state of a chunk stream, and its writing side. A slice of
-- `Data` past its length is taken for a fault, as if its capacity were its length.
use live.Base.{
  ℕ, zero, suc, ◌+◌, ◌-◌, ◌*◌, ◌/◌, ◌%◌, ◌^◌, Bool, Option, none, some, List, bit_or, if◌then◌else◌,
  ltb, leb, ◌==◌, ◌||◌, ◌&&◌, length, take, drop,
}
use live.Rtmp.ReadWriter.{ReadWriter, Error, bad_length, write_uint_be, write_uint_le, write}

pub record ChunkStream : Type 0 where
  pub format : ℕ
  pub csid : ℕ
  pub timestamp : ℕ
  pub len : ℕ
  pub type_id : ℕ
  pub stream_id : ℕ
  pub time_delta : ℕ
  pub exted : Bool
  pub index : ℕ
  pub remain : ℕ
  pub got : Bool
  pub tmp_format : ℕ
  pub payload : List ℕ

-- How a method ends: it returns nil, it returns an error, or it panics.
pub data Exit : Type 0 where
  done : Exit
  fail : Error → Exit
  panic : Exit

abbrev pub tag_audio : ℕ
tag_audio = 8

abbrev pub tag_video : ℕ
tag_video = 9

abbrev pub tag_script_data_amf0 : ℕ
tag_script_data_amf0 = 18

abbrev pub tag_script_data_amf3 : ℕ
tag_script_data_amf3 = 0xf

-- The subtractions are of a uint32 that is at least 64.
unfoldable pub write_basic_header : ChunkStream → ReadWriter → ReadWriter
write_basic_header cs io =
    let h = cs.format * 64 % 2 ^ 32 in
    if ltb cs.csid 64
    then write_uint_be io (bit_or h cs.csid) 1
    else (if ltb (cs.csid - 64) 256
        then write_uint_le (write_uint_be io (bit_or h 0) 1) (cs.csid - 64) 1
        else (if ltb (cs.csid - 64) 65536
            then write_uint_le (write_uint_be io (bit_or h 1) 1) (cs.csid - 64) 2
            else io))

-- From the label END on.
unfoldable pub end_header : ChunkStream → ℕ → ReadWriter → Option Error × ReadWriter
end_header cs ts io =
    let io' = if leb 0xffffff ts then write_uint_be io cs.timestamp 4 else io in
    (io'.write_error, io')

unfoldable pub write_header : ChunkStream → ReadWriter → Option Error × ReadWriter
write_header cs io =
    let io1 = write_basic_header cs io in
    if cs.format == 3
    then end_header cs cs.timestamp io1
    else let ts = if ltb 0xffffff cs.timestamp then 0xffffff else cs.timestamp in
      let io2 = write_uint_be io1 ts 3 in
      if cs.format == 2
      then end_header cs ts io2
      else if ltb 0xffffff cs.len
      then (some (bad_length cs.len), io2)
      else let io3 = write_uint_be (write_uint_be io2 cs.len 3) cs.type_id 1 in
        if cs.format == 1
        then end_header cs ts io3
        else end_header cs ts (write_uint_le io3 cs.stream_id 4)

-- Audio goes to chunk stream 4, video and data to 6.
unfoldable pub set_csid : ChunkStream → ChunkStream
set_csid cs =
    if cs.type_id == tag_audio
    then record cs { csid = 4 }
    else (if cs.type_id == tag_video
          || (cs.type_id == tag_script_data_amf0 || cs.type_id == tag_script_data_amf3)
        then record cs { csid = 6 }
        else cs)

-- `uint32(len(chunkStream.Data)) - start`, and what one chunk takes of it.
abbrev pub piece_size : List ℕ → ℕ → ℕ → ℕ
piece_size payload start chunk_size =
    let left = (length payload % 2 ^ 32 + 2 ^ 32 - start) % 2 ^ 32 in
    if leb left chunk_size then left else chunk_size

-- The loop of `writeChunk` with `k` rounds left.
unfoldable pub write_loop :
    ℕ → ℕ → ℕ → ℕ → ChunkStream → ReadWriter → Exit × ChunkStream × ReadWriter
write_loop zero i total chunk_size cs io = (done, cs, io)
write_loop (suc k) i total chunk_size cs io =
    let cs' = record cs { format = if i == 0 then 0 else 3 } in
    let start = i * chunk_size % 2 ^ 32 in
    let inc = piece_size cs.payload start chunk_size in
    let stop = (start + inc) % 2 ^ 32 in
    let header = write_header cs' io in
    let body = write header.1 (take inc (drop start cs.payload)) in
    let rest = write_loop k (i + 1) ((total + inc) % 2 ^ 32) chunk_size cs' body.1 in
    if total == cs.len then (done, cs, io) else elim header.0 [
      | some e ↦ (fail e, cs', header.1)
      | none ↦
          if leb start stop && leb stop (length cs.payload)
          then (elim body.0 [ some e ↦ (fail e, cs', body.1) | none ↦ rest ])
          else (panic, cs', header.1)
    ]

-- A chunk size of 0 is a division by zero.
unfoldable pub write_chunk : ChunkStream → ReadWriter → ℕ → Exit × ChunkStream × ReadWriter
write_chunk cs io chunk_size =
    let cs' = set_csid cs in
    if chunk_size == 0
    then (panic, cs', io)
    else write_loop (cs'.len / chunk_size + 1) 0 0 chunk_size cs' io
