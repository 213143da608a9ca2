-- ===== src/Rtmp/RoundTrip.antt =====
-- protocol/rtmp/core: a sender's `writeChunk` and its peer's `Conn.Read`.
use live.Base.{
  ℕ, zero, suc, ◌+◌, ◌-◌, ◌*◌, ◌/◌, ◌^◌, ◌≤◌, ◌<◌, ◌≡◌, ◌≢◌, refl, sym, ap, ap₂, ◌∙◌, true, none,
  List, [], ◌++◌, arith, append-nil, length, length-append, length-take, length-drop, replicate,
  take, drop, min, take-all,
}
use native.Mathlib.Nat.{div-add-mod, mod-lt}
use live.Rtmp.ReadWriter.{ReadWriter}
use live.Rtmp.ReadWriter.Laws.{CanWrite, emit}
use live.Rtmp.Pool.{max_pool_size}
use live.Rtmp.ChunkStream.{ChunkStream, done, set_csid, write_chunk}
use live.Rtmp.Conn.{Conn, message, entry, read, finish, handle_control_msg, ack, count_received}
use live.Rtmp.Wire.{first_header, next_header, next_chunks, message_bytes, IsMessage}
use live.Rtmp.Wire.Headers.{len-set_csid}
use live.Rtmp.Wire.Written.{write_chunk-message_bytes}
use live.Rtmp.Wire.Heard.{key_of}
use live.Rtmp.Wire.Body.{midway, partial}
use live.Rtmp.Wire.Delivery.{HandsMessage, Hands-message}

-- The reader's chunk stream holds the message `m`, complete.
pub record Holds (m cs : ChunkStream) : Type 0 where
  pub csid : cs.csid ≡ m.csid
  pub timestamp : cs.timestamp ≡ m.timestamp
  pub len : cs.len ≡ m.len
  pub type_id : cs.type_id ≡ m.type_id
  pub stream_id : cs.stream_id ≡ m.stream_id
  pub payload : cs.payload ≡ m.payload
  pub got : cs.got ≡ true
  pub remain : cs.remain ≡ 0

partial-all : (bytes : List ℕ) (t : ℕ) → length bytes ≡ t → partial bytes t ≡ bytes
partial-all bytes t h =
    ap₂ ◌++◌ (take-all t bytes (omega arith)) (ap (λ (n : ℕ). replicate {A = ℕ} n 0) none_left)
    ∙ append-nil bytes
  where
    none_left : length bytes - t ≡ 0
    none_left = omega arith

midway-Holds : (m : ChunkStream) (d tmp : ℕ) → IsMessage m → Holds m (midway m d tmp m.len)
midway-Holds m d tmp w = record {
  csid = refl;
  timestamp = refl;
  len = refl;
  type_id = refl;
  stream_id = refl;
  payload = partial-all m.payload m.len w.whole;
  got = ground arith;
  remain = omega arith;
}

-- The payload is part of the bytes on the wire.
length-next_chunks :
    (header : List ℕ) (c k : ℕ) (p : List ℕ)
    → min (length p) (k * c) ≤ length (next_chunks header c k p)
unfolding next_chunks
length-next_chunks header c zero p = omega arith
length-next_chunks header c (suc k) p = ground (
  arith,
  length-append header (take c p ++ next_chunks header c k (drop c p)),
  length-append (take c p) (next_chunks header c k (drop c p)),
  length-take c p,
  length-drop c p,
  length-next_chunks header c k (drop c p),
)

length-message_bytes :
    (m : ChunkStream) (c : ℕ) → IsMessage m → 0 < c → m.len ≤ length (message_bytes m c)
unfolding message_bytes
length-message_bytes m c w h =
    let more : List ℕ = next_chunks (next_header m) c (m.len / c) (drop c m.payload) in
    omega (
      arith,
      w.whole,
      length-append (first_header m) (take c m.payload ++ more),
      length-append (take c m.payload) more,
      length-take c m.payload,
      length-drop c m.payload,
      length-next_chunks (next_header m) c (m.len / c) (drop c m.payload),
      div-add-mod m.len c,
      mod-lt m.len h,
    )

div-le : (n c : ℕ) → 0 < c → n / c ≤ n
div-le n c h = grind (arith, div-add-mod n c)

-- An ordinary message, with the acknowledgement window not yet full, is handed out as it is.
finish-message :
    (conn : Conn) (cs : ChunkStream)
    → cs.type_id ≢ 1
    → cs.type_id ≢ 5
    → conn.ack_received + cs.len < conn.remote_window_ack_size
    → conn.remote_window_ack_size < 2 ^ 32
    → finish conn cs ≡ message cs (count_received conn cs.len)
unfolding finish handle_control_msg ack
finish-message conn cs h1 h5 ha hw = ground arith

-- A sender and a receiver that agree on the chunk size.
pub record Agree (m : ChunkStream) (out : ReadWriter) (c : ℕ) (conn : Conn) : Type 0 where
  pub carried : IsMessage (set_csid m)
  pub chunk_pos : 0 < c
  pub not_empty : 0 < m.len
  pub in_pool : m.len ≤ max_pool_size
  pub fresh : out.out ≡ []
  pub can_write : CanWrite out (length (message_bytes (set_csid m) c))
  pub same_size : conn.remote_chunk_size ≡ c
  pub no_error : conn.io.read_error ≡ none
  pub between : (entry conn.chunks (key_of (set_csid m).csid)).remain ≡ 0

type_id-set_csid : (m : ChunkStream) → (set_csid m).type_id ≡ m.type_id
unfolding set_csid
type_id-set_csid m = ground arith

module _ (m : ChunkStream) {out : ReadWriter} (c : ℕ) (conn : Conn) (rest : List ℕ)
    (a : Agree m out c conn) where
  -- The bytes that a fresh writer holds.
  sent :
      {io : ReadWriter}
      → io ≡ emit out (message_bytes (set_csid m) c)
      → io.out ≡ message_bytes (set_csid m) c
  sent e =
      ap (λ (io : ReadWriter). io.out) e
      ∙ ap (λ (b : List ℕ). b ++ message_bytes (set_csid m) c) a.fresh

  read_message :
      conn.io.input ≡ message_bytes (set_csid m) c ++ rest
      → HandsMessage
          (set_csid m)
          a.carried
          c
          a.chunk_pos
          (entry conn.chunks (key_of (set_csid m).csid)).time_delta
          (suc (length conn.io.input))
          conn
          rest
  read_message hi =
      Hands-message (set_csid m) a.carried c a.chunk_pos conn rest (suc (length conn.io.input))
        a.same_size a.no_error hi a.between (omega (arith, len-set_csid m, a.not_empty))
        (omega (arith, len-set_csid m, a.in_pool)) enough
    where
      enough : (set_csid m).len / c < suc (length conn.io.input)
      enough = omega (
        arith,
        ap (λ (b : List ℕ). length b) hi,
        length-append (message_bytes (set_csid m) c) rest,
        length-message_bytes (set_csid m) c a.carried a.chunk_pos,
        div-le (set_csid m).len c a.chunk_pos,
      )

-- For a message that the wire can carry, that is not empty and fits the pool, that is no control message
-- `Read` acts on and does not fill the acknowledgement window, and for a peer with the same chunk
-- size that is in no message on that chunk stream: `writeChunk` ends well, and one `Read` of the peer,
-- given the bytes written and others behind them, returns the message with the same chunk stream,
-- timestamp, length, type, stream and data, and leaves exactly the bytes behind it.
pub read-write_chunk :
    (m : ChunkStream) (out : ReadWriter) (c : ℕ) (conn : Conn) (rest : List ℕ)
    → Agree m out c conn
    → conn.io.input ≡ (write_chunk m out c).2.out ++ rest
    → m.type_id ≢ 1
    → m.type_id ≢ 5
    → conn.ack_received + m.len < conn.remote_window_ack_size
    → conn.remote_window_ack_size < 2 ^ 32
    → (cs : ChunkStream) × (conn' : Conn) × ((write_chunk m out c).0 ≡ done)
      × (read conn ≡ message cs conn')
      × Holds (set_csid m) cs
      × (conn'.io.input ≡ rest)
unfolding read
read-write_chunk m out c conn rest a hi h1 h5 ha hw =
    let m' : ChunkStream = set_csid m in
    let written = write_chunk-message_bytes c a.chunk_pos m out a.carried a.not_empty a.can_write in
    let delta : ℕ = (entry conn.chunks (key_of m'.csid)).time_delta in
    let (tmp, handed) =
      read_message m c conn rest a
        (hi ∙ ap (λ (b : List ℕ). b ++ rest) (sent m c conn rest a written.1)) in
    let (conn', e, took) = handed in
    (
      midway m' delta tmp m'.len,
      count_received conn' m'.len,
      written.0,
      e
          ∙ finish-message conn' (midway m' delta tmp m'.len)
              (λ t. h1 (sym (type_id-set_csid m) ∙ t)) (λ t. h5 (sym (type_id-set_csid m) ∙ t))
              (omega (arith, took.ack_received, took.remote_window_ack_size, len-set_csid m))
              (omega (arith, took.remote_window_ack_size)),
      midway-Holds m' delta tmp a.carried,
      ap (λ (io : ReadWriter). io.input) took.io,
    )
