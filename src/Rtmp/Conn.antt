-- ===== src/Rtmp/Conn.antt =====
-- protocol/rtmp/core/conn.go: a connection, its chunk streams, and the control messages. Deadlines,
-- addresses and the closing of the socket are left to the network.
use live.Base.{
  ℕ, zero, suc, ◌+◌, ◌/◌, ◌%◌, ◌^◌, false, Option, none, some, [], bit_and, if◌then◌else◌, leb,
  ◌==◌, length, replicate, set, set?, ◌>>=◌,
}
use live.Pio.Format.{digits_be}
use live.Pio.Writer.{put_u32_be}
use live.Rtmp.ReadWriter.{ReadWriter, Error, read_uint_be}
use live.Rtmp.Pool.{Pool, new_pool}
use live.Rtmp.ChunkStream.{ChunkStream, Exit, done, fail, panic, write_chunk}
use live.Rtmp.ReadChunk.{Progress, read_chunk}

-- The map of chunk streams is a function, `none` at an absent key.
pub record Conn : Type 0 where
  pub chunk_size : ℕ
  pub remote_chunk_size : ℕ
  pub window_ack_size : ℕ
  pub remote_window_ack_size : ℕ
  pub received : ℕ
  pub ack_received : ℕ
  pub io : ReadWriter
  pub pool : Pool
  pub chunks : ℕ → Option ChunkStream

abbrev pub new_conn : ReadWriter → Conn
new_conn io = record {
  chunk_size = 128;
  remote_chunk_size = 128;
  window_ack_size = 2_500_000;
  remote_window_ack_size = 2_500_000;
  received = 0;
  ack_received = 0;
  io = io;
  pool = new_pool;
  chunks = λ k. none;
}

-- `ChunkStream{}`
abbrev pub empty_chunk : ChunkStream
empty_chunk = record {
  format = 0;
  csid = 0;
  timestamp = 0;
  len = 0;
  type_id = 0;
  stream_id = 0;
  time_delta = 0;
  exted = false;
  index = 0;
  remain = 0;
  got = false;
  tmp_format = 0;
  payload = [];
}

abbrev pub id_set_chunk_size : ℕ
id_set_chunk_size = 1

abbrev pub id_ack : ℕ
id_ack = 3

abbrev pub id_window_ack_size : ℕ
id_window_ack_size = 5

abbrev pub id_set_peer_bandwidth : ℕ
id_set_peer_bandwidth = 6

abbrev pub update : (ℕ → Option ChunkStream) → ℕ → ChunkStream → ℕ → Option ChunkStream
update chunks k cs j = if j == k then some cs else chunks j

-- The entry for a key, which the loop adds if it is absent.
abbrev pub entry : (ℕ → Option ChunkStream) → ℕ → ChunkStream
entry chunks k = elim (chunks k) [ some cs ↦ cs | none ↦ empty_chunk ]

-- `initControlMsg`; a size below 4 is a panic.
unfoldable pub init_control_msg : ℕ → ℕ → ℕ → Option ChunkStream
init_control_msg id size value = do
  payload ← put_u32_be (replicate size 0) value
  some (record empty_chunk { csid = 2; type_id = id; len = size; payload = payload })

unfoldable pub new_ack : ℕ → Option ChunkStream
new_ack size = init_control_msg id_ack 4 size

unfoldable pub new_set_chunk_size : ℕ → Option ChunkStream
new_set_chunk_size size = init_control_msg id_set_chunk_size 4 size

unfoldable pub new_window_ack_size : ℕ → Option ChunkStream
new_window_ack_size size = init_control_msg id_window_ack_size 4 size

unfoldable pub new_set_peer_bandwidth : ℕ → Option ChunkStream
new_set_peer_bandwidth size = do
  ret ← init_control_msg id_set_peer_bandwidth 5 size
  payload ← set? ret.payload 4 2
  some (record ret { payload = payload })

-- `binary.BigEndian.Uint32(c.Data)` panics on fewer than four bytes.
unfoldable pub handle_control_msg : Conn → ChunkStream → Option Conn
handle_control_msg conn c =
    if c.type_id == id_set_chunk_size
    then (do v ← digits_be 4 0 c.payload; some (record conn { remote_chunk_size = v }))
    else (if c.type_id == id_window_ack_size
        then (do v ← digits_be 4 0 c.payload; some (record conn { remote_window_ack_size = v }))
        else some conn)

-- The acknowledgement is written with its error ignored; a panic of `writeChunk` goes on.
unfoldable pub send_ack : Conn → Option Conn
send_ack conn = do
  cs ← new_ack conn.ack_received
  let (e, cs', io') = write_chunk cs conn.io conn.chunk_size
  elim e [ panic ↦ none | _ ↦ some (record conn { io = io'; ack_received = 0 }) ]

-- The counters of `ack` before its test.
abbrev pub count_received : Conn → ℕ → Conn
count_received conn size =
    let received = (conn.received + size) % 2 ^ 32 in
    record conn {
      received = if leb 0xf0000000 received then 0 else received;
      ack_received = (conn.ack_received + size) % 2 ^ 32;
    }

unfoldable pub ack : Conn → ℕ → Option Conn
ack conn size =
    let conn' = count_received conn size in
    if leb conn'.remote_window_ack_size conn'.ack_received then send_ack conn' else some conn'

-- How `Read` ends. `stuck` is no outcome of the source: the fuel of the model ran out.
pub data ReadResult : Type 0 where
  message : ChunkStream → Conn → ReadResult
  failed : Error → Conn → ReadResult
  crashed stuck : ReadResult

-- Behind the loop: the message is complete.
unfoldable pub finish : Conn → ChunkStream → ReadResult
finish conn c = elim (handle_control_msg conn c >>= λ conn'. ack conn' c.len) [
  | some conn' ↦ message c conn'
  | none ↦ crashed
]

-- One round of the loop up to the result of `readChunk`: the basic header, and the chunk stream.
unfoldable pub read_one : Conn → ℕ × Progress
read_one conn =
    let (h, io) = read_uint_be conn.io 1 in
    let csid = bit_and h 0x3f in
    let cs = record (entry conn.chunks csid) { tmp_format = h / 64; csid = csid } in
    (csid, read_chunk cs io conn.pool conn.remote_chunk_size)

-- The connection after that round. The map keeps the chunk stream only if there was no error; the
-- entry that was absent is there in any case.
unfoldable pub after_read : Conn → ℕ → Progress → Conn
after_read conn csid p = record conn {
  io = p.io;
  pool = p.pool;
  chunks = elim p.exit [
    | done ↦ update conn.chunks csid p.cs
    | _ ↦ update conn.chunks csid (entry conn.chunks csid)
  ];
}

unfoldable pub read_loop : ℕ → Conn → ReadResult
read_loop zero conn = stuck
read_loop (suc fuel) conn =
    let (csid, p) = read_one conn in
    let conn' = after_read conn csid p in
    let again = read_loop fuel conn' in
    elim p.exit [
      | done ↦ if p.cs.got then finish conn' p.cs else again
      | fail e ↦ failed e conn'
      | panic ↦ crashed
    ]

-- Every round but the last takes a byte at least from the input.
unfoldable pub read : Conn → ReadResult
read conn = read_loop (suc (length conn.io.input)) conn

-- `Write`: an announced chunk size holds from its own message on; a short one panics.
unfoldable pub write : Conn → ChunkStream → Exit × ChunkStream × Conn
write conn c =
    elim (if c.type_id == id_set_chunk_size
      then digits_be 4 0 c.payload
      else some conn.chunk_size) [
        | none ↦ (panic, c, conn)
        | some size ↦
            let (e, c', io) = write_chunk c conn.io size in
            (e, c', record conn { io = io; chunk_size = size })
      ]

-- `userControlMsg`, with the size of the event's data; `byte(eventType & 0xff)` keeps a byte.
unfoldable pub user_control_msg : ℕ → ℕ → ChunkStream
user_control_msg event_type size = record empty_chunk {
  csid = 2;
  type_id = 4;
  stream_id = 1;
  len = (size + 2) % 2 ^ 32;
  payload =
      set (set (replicate ((size + 2) % 2 ^ 32) 0) 0 (bit_and (event_type / 256) 0xff)) 1
        (bit_and event_type 0xff);
}

-- The message of `SetBegin` and of `SetRecorded`: stream 1, in the four bytes of the event's data.
unfoldable pub stream_event : ℕ → ChunkStream
stream_event event_type =
    let ret = user_control_msg event_type 4 in
    record ret {
      payload =
          set
            (set
              (set (set ret.payload 2 (bit_and (1 / 256 ^ 3) 0xff)) 3 (bit_and (1 / 256 ^ 2) 0xff))
              4 (bit_and (1 / 256 ^ 1) 0xff))
            5 (bit_and (1 / 256 ^ 0) 0xff);
    }

unfoldable pub set_begin : Conn → Exit × ChunkStream × Conn
set_begin conn = write conn (stream_event 0)

unfoldable pub set_recorded : Conn → Exit × ChunkStream × Conn
set_recorded conn = write conn (stream_event 4)
