-- ===== src/Rtmp/ReadChunk.antt =====
-- protocol/rtmp/core/chunk_stream.go: the reading side, `new` and `readChunk`.
use live.Base.{
  ℕ, ◌+◌, ◌-◌, ◌%◌, ◌^◌, Bool, true, false, none, some, List, ◌++◌, if◌then◌else◌, ltb, leb, ◌==◌,
  ◌&&◌, not, length, take, drop,
}
use live.Rtmp.ReadWriter.{
  ReadWriter, eof, invalid_remain, invalid_format, read_uint_be, read_uint_le, read, peek_uint32,
  discard,
}
use live.Rtmp.Pool
use live.Rtmp.Pool.{Pool}
use live.Rtmp.ChunkStream.{ChunkStream, Exit, done, fail, panic}

-- What a read leaves: how it ended, the chunk stream, the connection and the pool.
pub record Progress : Type 0 where
  pub exit : Exit
  pub cs : ChunkStream
  pub io : ReadWriter
  pub pool : Pool

-- `new`, as the last step of reading a message header.
unfoldable pub new : ChunkStream → ReadWriter → Pool → Progress
new cs io pool =
    let cs' = record cs { got = false; index = 0; remain = cs.len } in
    elim (Pool.get pool cs.len) [
      | none ↦ record { exit = panic; cs = cs'; io = io; pool = pool }
      | some (payload, pool') ↦ record {
        exit = done;
        cs = record cs' { payload = payload };
        io = io;
        pool = pool';
      }
    ]

-- The two escapes of the basic header.
unfoldable pub read_csid : ChunkStream → ReadWriter → ChunkStream × ReadWriter
read_csid cs io =
    if cs.csid == 0
    then (let (id, io') = read_uint_le io 1 in (record cs { csid = (id + 64) % 2 ^ 32 }, io'))
    else (if cs.csid == 1
        then (let (id, io') = read_uint_le io 2 in (record cs { csid = (id + 64) % 2 ^ 32 }, io'))
        else (cs, io))

-- A timestamp of 0xffffff stands for the four bytes that follow the header.
unfoldable pub read_extended : ℕ → ReadWriter → ℕ × Bool × ReadWriter
read_extended ts io =
    if ts == 0xffffff
    then (let (ts', io') = read_uint_be io 4 in (ts', true, io'))
    else (ts, false, io)

unfoldable pub read_format_0 : ChunkStream → ReadWriter → Pool → Progress
read_format_0 cs io pool =
    let (ts, io1) = read_uint_be io 3 in
    let (len, io2) = read_uint_be io1 3 in
    let (type_id, io3) = read_uint_be io2 1 in
    let (stream_id, io4) = read_uint_le io3 4 in
    let (timestamp, exted, io5) = read_extended ts io4 in
    new
      (record cs {
        format = cs.tmp_format;
        timestamp = timestamp;
        len = len;
        type_id = type_id;
        stream_id = stream_id;
        exted = exted;
      })
      io5 pool

unfoldable pub read_format_1 : ChunkStream → ReadWriter → Pool → Progress
read_format_1 cs io pool =
    let (ts, io1) = read_uint_be io 3 in
    let (len, io2) = read_uint_be io1 3 in
    let (type_id, io3) = read_uint_be io2 1 in
    let (delta, exted, io4) = read_extended ts io3 in
    new
      (record cs {
        format = cs.tmp_format;
        timestamp = (cs.timestamp + delta) % 2 ^ 32;
        len = len;
        type_id = type_id;
        time_delta = delta;
        exted = exted;
      })
      io4 pool

unfoldable pub read_format_2 : ChunkStream → ReadWriter → Pool → Progress
read_format_2 cs io pool =
    let (ts, io1) = read_uint_be io 3 in
    let (delta, exted, io2) = read_extended ts io1 in
    new
      (record cs {
        format = cs.tmp_format;
        timestamp = (cs.timestamp + delta) % 2 ^ 32;
        time_delta = delta;
        exted = exted;
      })
      io2 pool

-- Format 3 between messages repeats the header before; a format of 0 then has an absolute timestamp.
unfoldable pub read_repeated : ChunkStream → ReadWriter → Pool → Progress
read_repeated cs io pool =
    if cs.format == 0
    then (if cs.exted
        then (let (ts, io') = read_uint_be io 4 in new (record cs { timestamp = ts }) io' pool)
        else new cs io pool)
    else (if leb cs.format 2
        then (let (delta, io') = if cs.exted then read_uint_be io 4 else (cs.time_delta, io) in
            new (record cs { timestamp = (cs.timestamp + delta) % 2 ^ 32 }) io' pool)
        else new cs io pool)

-- Format 3 inside a message: the extended timestamp may be repeated, and is skipped then.
unfoldable pub read_continued : ChunkStream → ReadWriter → Pool → Progress
read_continued cs io pool =
    if cs.exted
    then (elim (peek_uint32 io) [
      | none ↦ record { exit = fail eof; cs = cs; io = io; pool = pool }
      | some ts ↦ record {
        exit = done;
        cs = cs;
        io = if ts == cs.timestamp then discard io 4 else io;
        pool = pool;
      }
    ])
    else record { exit = done; cs = cs; io = io; pool = pool }

unfoldable pub read_header : ChunkStream → ReadWriter → Pool → Progress
read_header cs io pool =
    if cs.tmp_format == 0
    then read_format_0 cs io pool
    else if cs.tmp_format == 1
    then read_format_1 cs io pool
    else if cs.tmp_format == 2
    then read_format_2 cs io pool
    else if cs.tmp_format == 3
    then (if cs.remain == 0 then read_repeated cs io pool else read_continued cs io pool)
    else record { exit = fail (invalid_format cs.format); cs = cs; io = io; pool = pool }

-- The bytes of a slice from `i` on replaced by `bytes`.
abbrev pub store : List ℕ → ℕ → List ℕ → List ℕ
store payload i bytes = take i payload ++ (bytes ++ drop (i + length bytes) payload)

-- A short read stores what came, and ends with the error.
unfoldable pub read_body : Progress → ℕ → Progress
read_body p chunk_size =
    let cs = p.cs in
    let size = if ltb chunk_size cs.remain then chunk_size else cs.remain in
    let stop = (cs.index + size) % 2 ^ 32 in
    if leb cs.index stop && leb stop (length cs.payload)
    then (let (bytes, e, io') = read p.io size in
        let payload = store cs.payload cs.index bytes in
        elim e [
          | some x ↦ record p { exit = fail x; cs = record cs { payload = payload }; io = io' }
          | none ↦ record p {
            cs = record cs {
              payload = payload;
              index = stop;
              remain = cs.remain - size;
              got = if cs.remain - size == 0 then true else cs.got;
            };
            io = io';
          }
        ])
    else record p { exit = panic }

unfoldable pub continue : Progress → ℕ → Progress
continue p chunk_size = elim p.exit [ done ↦ read_body p chunk_size | _ ↦ p ]

unfoldable pub read_chunk : ChunkStream → ReadWriter → Pool → ℕ → Progress
read_chunk cs io pool chunk_size =
    if not (cs.remain == 0) && not (cs.tmp_format == 3)
    then record { exit = fail (invalid_remain cs.remain); cs = cs; io = io; pool = pool }
    else (let (cs', io') = read_csid cs io in continue (read_header cs' io' pool) chunk_size)
