-- ===== src/Rtmp/Ends.antt =====
-- protocol/rtmp/core/conn.go and chunk_stream.go: the loop of `Conn.Read`, and what each round takes.
use live.Base.{
  ℕ, zero, suc, ◌+◌, ◌/◌, ◌%◌, ◌^◌, ◌<◌, ◌≡◌, ◌≢◌, refl, not, ◌&&◌, Option-cases, Bool-cases, none,
  inl, inr, ◌⊎◌, arith, length, leb, ltb, ◌==◌, if◌then◌else◌, bit_and, ◌>>=◌,
}
use live.Rtmp.ReadWriter.{ReadWriter, Error, read_uint_be, read_uint_le, peek_uint32}
use live.Rtmp.ReadWriter.{read as read_io}
use live.Rtmp.ReadWriter.Sticky.{
  Reads, Reads-same, Reads-then, read_uint_be-Reads, read_uint_le-Reads, read_byte_taken,
  read-Reads, discard-Reads, read-none,
}
use live.Rtmp.Pool
use live.Rtmp.Pool.{Pool}
use live.Rtmp.ChunkStream.{ChunkStream, Exit, done, fail, panic}
use live.Rtmp.ReadChunk.{
  Progress, new, read_csid, read_extended, read_format_0, read_format_1, read_format_2,
  read_repeated, read_continued, read_header, read_body, continue, read_chunk,
}
use live.Rtmp.Conn.{
  Conn, stuck, handle_control_msg, ack, finish, entry, read_one, after_read, read_loop, read,
}

new-io : (cs : ChunkStream) (io : ReadWriter) (pool : Pool) → (new cs io pool).io ≡ io
unfolding new
new-io cs io pool = elim (Option-cases (Pool.get pool cs.len)) [
  | inl e ↦ rw (new, e) refl
  | inr ((payload, pool'), e) ↦ rw (new, e) refl
]

Reads-new :
    {io : ReadWriter} (cs : ChunkStream) (io' : ReadWriter) (pool : Pool)
    → Reads io io'
    → Reads io (new cs io' pool).io
Reads-new cs io' pool r = rw (new-io cs io' pool) r

Reads-extended : (ts : ℕ) (io : ReadWriter) → Reads io (read_extended ts io).2
unfolding read_extended
Reads-extended ts io = elim (Bool-cases (ts == 0xffffff)) [
  | inl e ↦ rw (read_extended, e) (read_uint_be-Reads io 4)
  | inr e ↦ rw (read_extended, e) Reads-same
]

Reads-csid : (cs : ChunkStream) (io : ReadWriter) → Reads io (read_csid cs io).1
unfolding read_csid
Reads-csid cs io = elim (Bool-cases (cs.csid == 0)) [
  | inl e ↦ rw (read_csid, e) (read_uint_le-Reads io 1)
  | inr e ↦ elim (Bool-cases (cs.csid == 1)) [
    | inl e' ↦ rw (read_csid, e, e') (read_uint_le-Reads io 2)
    | inr e' ↦ rw (read_csid, e, e') Reads-same
  ]
]

Reads-format_0 :
    (cs : ChunkStream) (io : ReadWriter) (pool : Pool) → Reads io (read_format_0 cs io pool).io
unfolding read_format_0
Reads-format_0 cs io pool =
    let io1 = (read_uint_be io 3).1 in
    let io2 = (read_uint_be io1 3).1 in
    let io3 = (read_uint_be io2 1).1 in
    let io4 = (read_uint_le io3 4).1 in
    Reads-new _ _ pool (
      Reads-then (read_uint_be-Reads io 3) (
        Reads-then (read_uint_be-Reads io1 3) (
          Reads-then (read_uint_be-Reads io2 1)
            (Reads-then (read_uint_le-Reads io3 4) (Reads-extended (read_uint_be io 3).0 io4)))))

Reads-format_1 :
    (cs : ChunkStream) (io : ReadWriter) (pool : Pool) → Reads io (read_format_1 cs io pool).io
unfolding read_format_1
Reads-format_1 cs io pool =
    let io1 = (read_uint_be io 3).1 in
    let io2 = (read_uint_be io1 3).1 in
    let io3 = (read_uint_be io2 1).1 in
    Reads-new _ _ pool (
      Reads-then (read_uint_be-Reads io 3) (
        Reads-then (read_uint_be-Reads io1 3)
          (Reads-then (read_uint_be-Reads io2 1) (Reads-extended (read_uint_be io 3).0 io3))))

Reads-format_2 :
    (cs : ChunkStream) (io : ReadWriter) (pool : Pool) → Reads io (read_format_2 cs io pool).io
unfolding read_format_2
Reads-format_2 cs io pool = Reads-new _ _ pool (
    Reads-then (read_uint_be-Reads io 3)
      (Reads-extended (read_uint_be io 3).0 (read_uint_be io 3).1))

Reads-repeated :
    (cs : ChunkStream) (io : ReadWriter) (pool : Pool) → Reads io (read_repeated cs io pool).io
unfolding read_repeated
Reads-repeated cs io pool = elim (Bool-cases (cs.format == 0)) [
  | inl f ↦ elim (Bool-cases cs.exted) [
    | inl e ↦
        rw (read_repeated, f, e) (Reads-new _ (read_uint_be io 4).1 pool (read_uint_be-Reads io 4))
    | inr e ↦ rw (read_repeated, f, e) (Reads-new _ io pool Reads-same)
  ]
  | inr f ↦ elim (Bool-cases (leb cs.format 2)) [
    | inl g ↦ elim (Bool-cases cs.exted) [
      | inl e ↦
          rw (read_repeated, f, g, e)
            (Reads-new _ (read_uint_be io 4).1 pool (read_uint_be-Reads io 4))
      | inr e ↦ rw (read_repeated, f, g, e) (Reads-new _ io pool Reads-same)
    ]
    | inr g ↦ rw (read_repeated, f, g) (Reads-new cs io pool Reads-same)
  ]
]

Reads-continued :
    (cs : ChunkStream) (io : ReadWriter) (pool : Pool) → Reads io (read_continued cs io pool).io
unfolding read_continued
Reads-continued cs io pool = elim (Bool-cases cs.exted) [
  | inr e ↦ rw (read_continued, e) Reads-same
  | inl e ↦ elim (Option-cases (peek_uint32 io)) [
    | inl p ↦ rw (read_continued, e, p) Reads-same
    | inr (ts, p) ↦ elim (Bool-cases (ts == cs.timestamp)) [
      | inl t ↦ rw (read_continued, e, p, t) (discard-Reads io 4)
      | inr t ↦ rw (read_continued, e, p, t) Reads-same
    ]
  ]
]

Reads-header :
    (cs : ChunkStream) (io : ReadWriter) (pool : Pool) → Reads io (read_header cs io pool).io
unfolding read_header
Reads-header cs io pool = elim (Bool-cases (cs.tmp_format == 0)) [
  | inl f ↦ rw (read_header, f) (Reads-format_0 cs io pool)
  | inr f0 ↦ elim (Bool-cases (cs.tmp_format == 1)) [
    | inl f ↦ rw (read_header, f0, f) (Reads-format_1 cs io pool)
    | inr f1 ↦ elim (Bool-cases (cs.tmp_format == 2)) [
      | inl f ↦ rw (read_header, f0, f1, f) (Reads-format_2 cs io pool)
      | inr f2 ↦ elim (Bool-cases (cs.tmp_format == 3)) [
        | inr f ↦ rw (read_header, f0, f1, f2, f) Reads-same
        | inl f ↦ elim (Bool-cases (cs.remain == 0)) [
          | inl r ↦ rw (read_header, f0, f1, f2, f, r) (Reads-repeated cs io pool)
          | inr r ↦ rw (read_header, f0, f1, f2, f, r) (Reads-continued cs io pool)
        ]
      ]
    ]
  ]
]

-- How a piece of the work of `readChunk` leaves the connection: if it ends well, without an error.
record Round (io : ReadWriter) (p : Progress) : Type 0 where
  reads : Reads io p.io
  clean : p.exit ≡ done → p.io.read_error ≡ none

Round-body : (p : Progress) (c : ℕ) → p.exit ≡ done → Round p.io (read_body p c)
unfolding read_body
Round-body p c h =
    let size = if ltb c p.cs.remain then c else p.cs.remain in
    let stop = (p.cs.index + size) % 2 ^ 32 in
    elim (Bool-cases (leb p.cs.index stop && leb stop (length p.cs.payload))) [
      | inr k ↦ rw (read_body, k) (record { reads = Reads-same; clean = λ e. absurd (cc e) })
      | inl k ↦ elim (Option-cases (read_io p.io size).1) [
        | inr (x, e) ↦
            rw (read_body, k, e)
              (record { reads = read-Reads p.io size; clean = λ d. absurd (cc d) })
        | inl e ↦
            rw (read_body, k, e)
              (record { reads = read-Reads p.io size; clean = λ _. read-none p.io size e })
      ]
    ]

Round-continue :
    {io : ReadWriter} (p : Progress) (e : Exit) (c : ℕ)
    → p.exit ≡ e
    → Reads io p.io
    → Round io (continue p c)
unfolding continue
Round-continue p done c h r =
    let b = Round-body p c h in
    rw (continue, h) (record { reads = Reads-then r b.reads; clean = b.clean })
Round-continue p (fail x) c h r = record { reads = ground arith; clean = ground arith }
Round-continue p panic c h r = record { reads = ground arith; clean = ground arith }

Round-chunk :
    (cs : ChunkStream) (io : ReadWriter) (pool : Pool) (c : ℕ) → Round io (read_chunk cs io pool c)
unfolding read_chunk
Round-chunk cs io pool c = elim (Bool-cases (not (cs.remain == 0) && not (cs.tmp_format == 3))) [
  | inl k ↦ rw (read_chunk, k) (record { reads = Reads-same; clean = λ e. absurd (cc e) })
  | inr k ↦
      let cs' = (read_csid cs io).0 in
      let io' = (read_csid cs io).1 in
      rw (read_chunk, k)
        (Round-continue (read_header cs' io' pool) (read_header cs' io' pool).exit c refl
          (Reads-then (Reads-csid cs io) (Reads-header cs' io' pool)))
]

-- A round that ends well has taken a byte.
round_taken :
    (conn : Conn)
    → (read_one conn).1.exit ≡ done
    → length (read_one conn).1.io.input < length conn.io.input
unfolding read_one
round_taken conn h =
    let io = (read_uint_be conn.io 1).1 in
    let csid = bit_and (read_uint_be conn.io 1).0 0x3f in
    let cs = record (entry conn.chunks csid) {
      tmp_format = (read_uint_be conn.io 1).0 / 64;
      csid = csid;
    } in
    let r = Round-chunk cs io conn.pool conn.remote_chunk_size in
    omega (arith, r.reads.taken, read_byte_taken conn.io (r.reads.sticky (r.clean h)))

finish-ends : (conn : Conn) (c : ChunkStream) → finish conn c ≢ stuck
unfolding finish
finish-ends conn c h =
    elim (Option-cases (handle_control_msg conn c >>= λ conn'. ack conn' c.len)) [
      | inl e ↦ absurd (cc (rw (finish, e) at h))
      | inr (conn', e) ↦ absurd (cc (rw (finish, e) at h))
    ]

Exit-cases : (x : Exit) → (x ≡ done) ⊎ (((e : Error) × (x ≡ fail e)) ⊎ (x ≡ panic))
Exit-cases done = inl refl
Exit-cases (fail e) = inr (inl (e, refl))
Exit-cases panic = inr (inr refl)

after_read-io :
    (conn : Conn) (csid : ℕ) (p : Progress)
    → length (after_read conn csid p).io.input ≡ length p.io.input
unfolding after_read
after_read-io conn csid p = refl

read_loop-ends :
    (fuel : ℕ) (conn : Conn) → length conn.io.input < fuel → read_loop fuel conn ≢ stuck
unfolding read_loop
read_loop-ends zero conn le h = absurd (omega arith)
read_loop-ends (suc fuel) conn le h =
    let p = (read_one conn).1 in
    let conn' = after_read conn (read_one conn).0 p in
    elim (Exit-cases p.exit) [
      | inl d ↦ elim (Bool-cases p.cs.got) [
        | inl g ↦ finish-ends conn' p.cs (rw (read_loop, d, g) at h)
        | inr g ↦
            read_loop-ends fuel conn'
              (omega (arith, round_taken conn d, after_read-io conn (read_one conn).0 p))
              (rw (read_loop, d, g) at h)
      ]
      | inr (inl (x, e)) ↦ absurd (cc (rw (read_loop, e) at h))
      | inr (inr e) ↦ absurd (cc (rw (read_loop, e) at h))
    ]

-- `Read` comes to an end on every connection, whatever bytes are left to read.
pub read-ends : (conn : Conn) → read conn ≢ stuck
unfolding read
read-ends conn = read_loop-ends (suc (length conn.io.input)) conn (omega arith)
