-- ===== src/Rtmp/Wire/Message.antt =====
-- A connection that reads a whole message from the wire.
use live.Base.{
  ℕ, ◌+◌, ◌-◌, ◌*◌, ◌/◌, ◌≤◌, ◌<◌, ◌≡◌, refl, ap, ap₂, ◌∙◌, none, some, List, ◌++◌, arith,
  append_assoc, bit_and, replicate, take, drop, min,
}
use live.Rtmp.ReadWriter.{ReadWriter, read_uint_be}
use live.Rtmp.Pool
use live.Rtmp.Pool.{Pool, max_pool_size, start_of}
use live.Rtmp.ChunkStream.{ChunkStream, done}
use live.Rtmp.ReadChunk.{Progress, new, read_header, continue, read_chunk}
use live.Rtmp.Conn.{Conn, entry, read_one}
use live.Rtmp.Wire.{basic_bytes, extended_bytes, first_header, next_header, IsMessage}
use live.Rtmp.Wire.Heard.{
  at, key_of, escape_bytes, first_fields, read_basic, key_of-mask, read_csid-escape,
  read_format_0-fields, read_continued-bytes,
}
use live.Rtmp.Wire.Body.{midway, read_body-midway}

-- A buffer that fits in the pool is handed out.
get-fits :
    (pool : Pool) (n : ℕ)
    → n ≤ max_pool_size
    → Pool.get pool n ≡ some (replicate n 0, record { pos = start_of pool n + n })
unfolding Pool.get
get-fits pool n h = ground arith

key_of-div : (f csid : ℕ) → (f * 64 + key_of csid) / 64 ≡ f
key_of-div f csid = ground arith

-- The basic header chooses the chunk stream and the format.
read_one-basic :
    (conn : Conn) (f csid : ℕ) (rest : List ℕ)
    → conn.io.read_error ≡ none
    → conn.io.input ≡ basic_bytes f csid ++ rest
    → f ≤ 3
    → csid < 65600
    → read_one conn ≡ (
      key_of csid,
      read_chunk
          (record (entry conn.chunks (key_of csid)) { tmp_format = f; csid = key_of csid })
          (at conn.io (escape_bytes csid ++ rest))
          conn.pool
          conn.remote_chunk_size,
    )
unfolding read_one
read_one-basic conn f csid rest he hi hf hc =
    ap round (
      ap (λ (b : List ℕ). read_uint_be (at conn.io b) 1) hi
      ∙ read_basic conn.io f csid rest he hf hc)
    ∙ rw (key_of-mask f csid, key_of-div f csid)
  where
    round : ℕ × ReadWriter → ℕ × Progress
    round r = (
      bit_and r.0 0x3f,
      read_chunk
          (record (entry conn.chunks (bit_and r.0 0x3f)) {
            tmp_format = r.0 / 64;
            csid = bit_and r.0 0x3f;
          })
          r.1 conn.pool conn.remote_chunk_size,
    )

module _ (m : ChunkStream) (w : IsMessage m) (c : ℕ) (c_pos : 0 < c) where
  -- What the chunk at position `t` takes.
  abbrev pub piece : ℕ → List ℕ
  piece t = take (min c (m.len - t)) (drop t m.payload)

  read_first_chunk :
      (e : ChunkStream) (io : ReadWriter) (pool : Pool) (rest : List ℕ)
      → e.remain ≡ 0
      → io.read_error ≡ none
      → 0 < m.len
      → m.len ≤ max_pool_size
      → read_chunk
          (record e { tmp_format = 0; csid = key_of m.csid })
          (at io (escape_bytes m.csid ++ first_fields m (piece 0 ++ rest)))
          pool
          c
        ≡ record {
          exit = done;
          cs = midway m e.time_delta 0 (0 + min c (m.len - 0));
          io = at io rest;
          pool = record { pos = start_of pool m.len + m.len };
        }
  unfolding read_chunk read_header continue new
  read_first_chunk e io pool rest r he h hp = ground (
    arith,
    w,
    read_csid-escape (record e { tmp_format = 0; csid = key_of m.csid }) io m.csid
        (first_fields m (piece 0 ++ rest)) he w.csid_from w.csid_below refl,
    read_format_0-fields (record e { tmp_format = 0; csid = m.csid }) m io pool (piece 0 ++ rest) he
        w,
    get-fits pool m.len hp,
    read_body-midway m e.time_delta 0 0 (min c (m.len - 0)) c io
        (record { pos = start_of pool m.len + m.len }) rest w h refl he,
  )

  read_next_chunk :
      (delta tmp t : ℕ) (io : ReadWriter) (pool : Pool) (rest : List ℕ)
      → io.read_error ≡ none
      → t < m.len
      → read_chunk
          (record (midway m delta tmp t) { tmp_format = 3; csid = key_of m.csid })
          (at io (escape_bytes m.csid ++ (extended_bytes m.timestamp ++ (piece t ++ rest))))
          pool
          c
        ≡ record {
          exit = done;
          cs = midway m delta 3 (t + min c (m.len - t));
          io = at io rest;
          pool = pool;
        }
  unfolding read_chunk read_header continue
  read_next_chunk delta tmp t io pool rest he h = ground (
    arith,
    w,
    read_csid-escape (record (midway m delta tmp t) { tmp_format = 3; csid = key_of m.csid }) io
        m.csid (extended_bytes m.timestamp ++ (piece t ++ rest)) he w.csid_from w.csid_below refl,
    read_continued-bytes (midway m delta 3 t) io pool (piece t ++ rest) w.timestamp_below refl,
    read_body-midway m delta 3 t (min c (m.len - t)) c io pool rest w h refl he,
  )

  -- What a connection has after it read the chunk at position `t`, first or not.
  pub record AtChunk (conn : Conn) (t : ℕ) (rest : List ℕ) (cs : ChunkStream) : Type 0 where
    pub pool : Pool
    pub one :
        read_one conn
        ≡ (key_of m.csid, record { exit = done; cs = cs; io = at conn.io rest; pool = pool })

  pub first-AtChunk :
      (conn : Conn) (rest : List ℕ)
      → conn.remote_chunk_size ≡ c
      → conn.io.read_error ≡ none
      → conn.io.input ≡ first_header m ++ (piece 0 ++ rest)
      → (entry conn.chunks (key_of m.csid)).remain ≡ 0
      → 0 < m.len
      → m.len ≤ max_pool_size
      → AtChunk conn 0 rest
          (midway m (entry conn.chunks (key_of m.csid)).time_delta 0 (0 + min c (m.len - 0)))
  unfolding first_header
  first-AtChunk conn rest hc he hi hr h hp = record {
    pool = record { pos = start_of conn.pool m.len + m.len };
    one =
        read_one-basic conn 0 m.csid (first_fields m (piece 0 ++ rest)) he
          (hi ∙ append_assoc (basic_bytes 0 m.csid) _ (piece 0 ++ rest)) (omega arith) w.csid_below
        ∙ ap
            (λ (n : ℕ). (
              key_of m.csid,
              read_chunk
                  (record (entry conn.chunks (key_of m.csid)) {
                    tmp_format = 0;
                    csid = key_of m.csid;
                  })
                  (at conn.io (escape_bytes m.csid ++ first_fields m (piece 0 ++ rest))) conn.pool
                  n,
            ))
            hc
        ∙ ap (λ (p : Progress). (key_of m.csid, p))
            (read_first_chunk (entry conn.chunks (key_of m.csid)) conn.io conn.pool rest hr he h
              hp);
  }

  pub next-AtChunk :
      (conn : Conn) (delta tmp t : ℕ) (rest : List ℕ)
      → conn.remote_chunk_size ≡ c
      → conn.io.read_error ≡ none
      → conn.io.input ≡ next_header m ++ (piece t ++ rest)
      → entry conn.chunks (key_of m.csid) ≡ midway m delta tmp t
      → t < m.len
      → AtChunk conn t rest (midway m delta 3 (t + min c (m.len - t)))
  unfolding next_header
  next-AtChunk conn delta tmp t rest hc he hi hr h = record {
    pool = conn.pool;
    one =
        read_one-basic conn 3 m.csid (extended_bytes m.timestamp ++ (piece t ++ rest)) he
          (hi ∙ append_assoc (basic_bytes 3 m.csid) (extended_bytes m.timestamp) (piece t ++ rest))
          (omega arith) w.csid_below
        ∙ ap₂
            (λ (e : ChunkStream) (n : ℕ). (
              key_of m.csid,
              read_chunk (record e { tmp_format = 3; csid = key_of m.csid })
                  (at conn.io
                    (escape_bytes m.csid ++ (extended_bytes m.timestamp ++ (piece t ++ rest))))
                  conn.pool n,
            ))
            hr hc
        ∙ ap (λ (p : Progress). (key_of m.csid, p))
            (read_next_chunk delta tmp t conn.io conn.pool rest he h);
  }
