-- ===== src/Rtmp/Wire/Delivery.antt =====
-- A connection reads back a whole message that was written to the wire.
use live.Base.{
  ℕ, zero, suc, ◌+◌, ◌-◌, ◌*◌, ◌/◌, ◌≤◌, ◌<◌, ◌≡◌, refl, sym, ap, ap₂, subst, ◌∙◌, Option, none,
  some, List, [], ◌++◌, arith, append_assoc, length-drop, take, drop, min,
}
use native.Mathlib.Decide.{dec_lt}
use live.Rtmp.ReadWriter.{ReadWriter}
use live.Rtmp.Pool.{Pool, max_pool_size}
use live.Rtmp.ChunkStream.{ChunkStream}
use live.Rtmp.Conn.{Conn, empty_chunk, entry, update, finish}
use live.Rtmp.Wire.{first_header, next_header, next_chunks, message_bytes, IsMessage}
use live.Rtmp.Wire.Written.{next_chunks-step, next_chunks-drop, take-piece, rounds_enough}
use live.Rtmp.Wire.Heard.{at, key_of}
use live.Rtmp.Wire.Body.{midway}
use live.Rtmp.Wire.Message.{AtChunk, first-AtChunk, next-AtChunk, piece}
use live.Rtmp.Wire.Took.{Took, kept, kept-Took, Took-trans, Hands, loop_full, loop_more}

entry-eq :
    (chunks : ℕ → Option ChunkStream) (k : ℕ) (cs : ChunkStream)
    → chunks k ≡ some cs
    → entry chunks k ≡ cs
entry-eq chunks k cs h =
    ap
      (λ (o : Option ChunkStream).
        let e : ChunkStream = elim o [ some x ↦ x | none ↦ empty_chunk ] in e)
      h

module _ (m : ChunkStream) (w : IsMessage m) (c : ℕ) (c_pos : 0 < c) where
  piece-take : (t : ℕ) → piece m w c c_pos t ≡ take c (drop t m.payload)
  piece-take t =
      ap (λ (n : ℕ). take (min c (n - t)) (drop t m.payload)) (sym w.whole)
      ∙ take-piece c c_pos m.payload t

  -- The bytes of the chunks from position `t` on, with the first of them split off.
  chunks_from :
      (k t : ℕ) (rest : List ℕ)
      → t < m.len
      → next_chunks (next_header m) c (suc k) (drop t m.payload) ++ rest
        ≡ next_header m
          ++ (piece m w c c_pos t
              ++ (next_chunks (next_header m) c k (drop (t + min c (m.len - t)) m.payload) ++ rest))
  chunks_from k t rest h =
      ap (λ (b : List ℕ). b ++ rest)
        (next_chunks-step c c_pos (next_header m) k t (min c (m.len - t)) m.payload
            (omega (arith, w.whole)) (omega (arith, w.whole))
          ∙ append_assoc (next_header m) (take c (drop t m.payload)) more)
      ∙ append_assoc (next_header m) (take c (drop t m.payload) ++ more) rest
      ∙ ap (◌++◌ (next_header m)) (
          append_assoc (take c (drop t m.payload)) more rest
          ∙ ap (λ (b : List ℕ). b ++ (more ++ rest)) (sym (piece-take t)))
    where
      more : List ℕ
      more = next_chunks (next_header m) c k (drop (t + min c (m.len - t)) m.payload)

  no_chunks : (k t : ℕ) → m.len ≤ t → next_chunks (next_header m) c k (drop t m.payload) ≡ []
  unfolding next_chunks
  no_chunks zero t h = refl
  no_chunks (suc k) t h = ground (arith, w, length-drop t m.payload)

  -- `Read` hands out all of `m`, whatever the format of its last chunk was.
  abbrev pub HandsMessage : ℕ → ℕ → Conn → List ℕ → Type 0
  HandsMessage delta fuel conn rest =
      (tmp : ℕ) × Hands fuel conn (key_of m.csid) rest (midway m delta tmp m.len)

  -- From one chunk, first or not, to the end of the message.
  after_chunk :
      (k fuel delta tmp t : ℕ) (conn : Conn) (rest : List ℕ)
      → let t' = t + min c (m.len - t) in
        let left = next_chunks (next_header m) c k (drop t' m.payload) ++ rest in
        let cs = midway m delta tmp t' in
        t ≤ m.len
        → (a : AtChunk m w c c_pos conn t left cs)
        → (t' < m.len
            → HandsMessage delta fuel (kept conn (key_of m.csid) cs (at conn.io left) a.pool) rest)
        → HandsMessage delta (suc fuel) conn rest
  after_chunk k fuel delta tmp t conn rest h a continue = elim (dec_lt t' m.len) [
    | yes more ↦
        let (tmp', handed) = continue more in
        let (b, e, took) = handed in
        (
          tmp',
          (
            b,
            loop_more conn (key_of m.csid) fuel cs (at conn.io left) a.pool a.one (ground arith)
                ∙ e,
            Took-trans first took,
          ),
        )
    | no full ↦ (
      tmp,
      (
        conn',
        loop_full conn (key_of m.csid) fuel cs (at conn.io left) a.pool a.one (ground arith)
            ∙ ap (λ (n : ℕ). finish conn' (midway m delta tmp n)) (last full),
        subst (λ (n : ℕ). Took conn (key_of m.csid) rest (midway m delta tmp n) conn') (last full)
            (subst (λ (b : List ℕ). Took conn (key_of m.csid) b cs conn') (none_left full) first),
      ),
    )
  ]
    where
      t' : ℕ
      t' = t + min c (m.len - t)

      left : List ℕ
      left = next_chunks (next_header m) c k (drop t' m.payload) ++ rest

      cs : ChunkStream
      cs = midway m delta tmp t'

      conn' : Conn
      conn' = kept conn (key_of m.csid) cs (at conn.io left) a.pool

      first : Took conn (key_of m.csid) left cs conn'
      first = kept-Took conn (key_of m.csid) cs left a.pool

      last : ¬ (t' < m.len) → t' ≡ m.len
      last full = omega arith

      none_left : ¬ (t' < m.len) → left ≡ rest
      none_left full = ap (λ (b : List ℕ). b ++ rest) (no_chunks k t' (omega arith))

  kept-entry :
      (conn : Conn) (cs : ChunkStream) (io : ReadWriter) (pool : Pool)
      → entry (kept conn (key_of m.csid) cs io pool).chunks (key_of m.csid) ≡ cs
  kept-entry conn cs io pool =
      entry-eq (update conn.chunks (key_of m.csid) cs) (key_of m.csid) cs (ground arith)

  HandsMessage-next :
      (k fuel delta tmp t : ℕ) (conn : Conn) (rest : List ℕ)
      → k ≤ fuel
      → m.len ≤ t + k * c
      → conn.remote_chunk_size ≡ c
      → conn.io.read_error ≡ none
      → conn.io.input ≡ next_chunks (next_header m) c k (drop t m.payload) ++ rest
      → entry conn.chunks (key_of m.csid) ≡ midway m delta tmp t
      → t < m.len
      → HandsMessage delta fuel conn rest
  HandsMessage-next zero fuel delta tmp t conn rest hf hk hc he hi hm h = absurd (omega arith)
  HandsMessage-next (suc k) zero delta tmp t conn rest hf hk hc he hi hm h = absurd (omega arith)
  HandsMessage-next (suc k) (suc fuel) delta tmp t conn rest hf hk hc he hi hm h =
      let t' : ℕ = t + min c (m.len - t) in
      let left : List ℕ = next_chunks (next_header m) c k (drop t' m.payload) ++ rest in
      let a : AtChunk m w c c_pos conn t left (midway m delta 3 t') =
        next-AtChunk m w c c_pos conn delta tmp t left hc he (hi ∙ chunks_from k t rest h) hm h in
      after_chunk k fuel delta 3 t conn rest (omega arith) a (λ more.
        HandsMessage-next k fuel delta 3 t'
          (kept conn (key_of m.csid) (midway m delta 3 t') (at conn.io left) a.pool) rest
          (omega arith) (omega arith) hc he refl
          (kept-entry conn (midway m delta 3 t') (at conn.io left) a.pool) more)

  first_chunk_from :
      (rest : List ℕ)
      → message_bytes m c ++ rest
        ≡ first_header m
          ++ (piece m w c c_pos 0
              ++ (next_chunks (next_header m) c (m.len / c) (drop (0 + min c (m.len - 0)) m.payload)
                  ++ rest))
  unfolding message_bytes
  first_chunk_from rest =
      append_assoc (first_header m) (take c m.payload ++ more) rest
      ∙ ap (◌++◌ (first_header m)) (
          append_assoc (take c m.payload) more rest
          ∙ ap₂ (λ (x y : List ℕ). x ++ (y ++ rest)) (sym (piece-take 0))
              (next_chunks-drop c c_pos (next_header m) (m.len / c) 0 (min c (m.len - 0)) m.payload
                (omega (arith, w.whole))))
    where
      more : List ℕ
      more = next_chunks (next_header m) c (m.len / c) (drop c m.payload)

  -- A connection whose peer sends in chunks of size `c`, and that is in the middle of no message on
  -- this chunk stream, reads the message and leaves what follows.
  pub Hands-message :
      (conn : Conn) (rest : List ℕ) (fuel : ℕ)
      → conn.remote_chunk_size ≡ c
      → conn.io.read_error ≡ none
      → conn.io.input ≡ message_bytes m c ++ rest
      → (entry conn.chunks (key_of m.csid)).remain ≡ 0
      → 0 < m.len
      → m.len ≤ max_pool_size
      → m.len / c < fuel
      → HandsMessage (entry conn.chunks (key_of m.csid)).time_delta fuel conn rest
  Hands-message conn rest zero hc he hi hr h hp hf = absurd (omega arith)
  Hands-message conn rest (suc fuel) hc he hi hr h hp hf =
      let d : ℕ = (entry conn.chunks (key_of m.csid)).time_delta in
      let t' : ℕ = 0 + min c (m.len - 0) in
      let left : List ℕ = next_chunks (next_header m) c (m.len / c) (drop t' m.payload) ++ rest in
      let a : AtChunk m w c c_pos conn 0 left (midway m d 0 t') =
        first-AtChunk m w c c_pos conn left hc he (hi ∙ first_chunk_from rest) hr h hp in
      after_chunk (m.len / c) fuel d 0 0 conn rest (omega arith) a (λ more.
        HandsMessage-next (m.len / c) fuel d 0 t'
          (kept conn (key_of m.csid) (midway m d 0 t') (at conn.io left) a.pool) rest (omega arith)
          (omega (arith, rounds_enough c c_pos m.len)) hc he refl
          (kept-entry conn (midway m d 0 t') (at conn.io left) a.pool) more)
