-- ===== src/Rtmp/Wire/Written.antt =====
-- The writing side of a chunk stream puts out the bytes of the wire.
use live.Base.{
  ℕ, zero, suc, ◌+◌, ◌-◌, ◌*◌, ◌/◌, ◌%◌, ◌^◌, ◌≤◌, ◌<◌, ◌≡◌, ◌⊎◌, inl, inr, refl, sym, ap, ◌∙◌,
  none, List, ◌++◌, arith, append_assoc, if◌then◌else◌, length, length-append, length-take,
  length-drop, take, drop, min, drop-drop, drop-all, take-min, ◌==◌,
}
use native.Mathlib.Nat.{div-add-mod, mod-lt}
use native.Mathlib.Numerals.{add-one}
use native.Mathlib.Decide.{dec_le, dec_lt}
use live.Rtmp.ReadWriter.{ReadWriter}
use live.Rtmp.ReadWriter.Laws.{emit, emit-nil, emit-emit, CanWrite}
use live.Rtmp.ChunkStream.{
  ChunkStream, Exit, done, write_header, write_loop, piece_size, write_chunk, set_csid,
}
use live.Rtmp.Wire.{first_header, next_header, next_chunks, message_bytes, IsMessage}
use live.Rtmp.Wire.Headers.{
  CanWrite-emit, next_header-emit, first_header-emit, write-emit, len-set_csid,
}

module _ (chunk_size : ℕ) (c_pos : 0 < chunk_size) where
  -- Behind a full chunk or the last one.
  pub next_chunks-drop :
      (header : List ℕ) (k total inc : ℕ) (p : List ℕ)
      → inc ≡ min chunk_size (length p - total)
      → next_chunks header chunk_size k (drop chunk_size (drop total p))
        ≡ next_chunks header chunk_size k (drop (total + inc) p)
  next_chunks-drop header k total inc p e = elim (dec_le chunk_size (length p - total)) [
    | yes h ↦
        ap (next_chunks header chunk_size k)
          (drop-drop chunk_size total (total + inc) p (omega arith))
    | no h ↦ ap (next_chunks header chunk_size k) (
        drop-all chunk_size (drop total p) (omega (arith, length-drop total p))
        ∙ sym (drop-all (total + inc) p (omega arith)))
  ]

  -- What one chunk takes of the payload.
  piece_size-min :
      (payload : List ℕ) (total : ℕ)
      → total ≤ length payload
      → length payload < 2 ^ 24
      → piece_size payload total chunk_size ≡ min chunk_size (length payload - total)
  piece_size-min payload total h l = ground arith

  pub take-piece :
      (payload : List ℕ) (total : ℕ)
      → take (min chunk_size (length payload - total)) (drop total payload)
        ≡ take chunk_size (drop total payload)
  take-piece payload total =
      ap (λ (t : ℕ). take (min chunk_size t) (drop total payload)) (sym (length-drop total payload))
      ∙ take-min chunk_size (drop total payload)

  -- One round of the loop that writes its chunk.
  write_round :
      (k i total inc : ℕ) (cs cs' : ChunkStream) (io : ReadWriter) (header : List ℕ)
      → IsMessage cs
      → total < cs.len
      → i * chunk_size % 2 ^ 32 ≡ total
      → inc ≡ min chunk_size (cs.len - total)
      → cs' ≡ record cs { format = if i == 0 then 0 else 3 }
      → write_header cs' io ≡ (none, emit io header)
      → CanWrite io (length header + inc)
      → write_loop (suc k) i total chunk_size cs io
        ≡ write_loop k
            (i + 1)
            (total + inc)
            chunk_size
            cs'
            (emit io (header ++ take chunk_size (drop total cs.payload)))
  unfolding write_loop
  write_round k i total inc cs cs' io header w ht hi he hc hh c = ground (
    arith,
    w,
    piece_size-min cs.payload total,
    take-piece cs.payload total,
    length-take chunk_size (drop total cs.payload),
    length-drop total cs.payload,
    write-emit (emit io header) (take chunk_size (drop total cs.payload)),
    emit-emit io header (take chunk_size (drop total cs.payload)),
  )

  pub next_chunks-step :
      (header : List ℕ) (k total inc : ℕ) (p : List ℕ)
      → total < length p
      → inc ≡ min chunk_size (length p - total)
      → next_chunks header chunk_size (suc k) (drop total p)
        ≡ (header ++ take chunk_size (drop total p))
          ++ next_chunks header chunk_size k (drop (total + inc) p)
  unfolding next_chunks
  next_chunks-step header k total inc p h e = ground (
    arith,
    length-drop total p,
    next_chunks-drop header k total inc p e,
    append_assoc header (take chunk_size (drop total p))
        (next_chunks header chunk_size k (drop chunk_size (drop total p))),
  )

  -- The loop with `k` rounds left, from position `total` on, writes `bytes` and nothing else.
  abbrev Writes : ℕ → ℕ → ℕ → ChunkStream → ReadWriter → List ℕ → Type 0
  Writes k i total cs io bytes =
      CanWrite io (length bytes)
      → ((write_loop k i total chunk_size cs io).0 ≡ done)
        × ((write_loop k i total chunk_size cs io).2 ≡ emit io bytes)

  Writes-round :
      (k i total inc : ℕ) (cs cs' : ChunkStream) (io : ReadWriter) (header bytes : List ℕ)
      → IsMessage cs
      → total < cs.len
      → i * chunk_size % 2 ^ 32 ≡ total
      → inc ≡ min chunk_size (cs.len - total)
      → cs' ≡ record cs { format = if i == 0 then 0 else 3 }
      → (CanWrite io (length header) → write_header cs' io ≡ (none, emit io header))
      → Writes k
          (i + 1)
          (total + inc)
          cs'
          (emit io (header ++ take chunk_size (drop total cs.payload)))
          bytes
      → Writes (suc k) i total cs io ((header ++ take chunk_size (drop total cs.payload)) ++ bytes)
  Writes-round k i total inc cs cs' io header bytes w ht hi he hc hh ih c = (
    ap (λ (r : Exit × ChunkStream × ReadWriter). r.0) round ∙ rest.0,
    ap (λ (r : Exit × ChunkStream × ReadWriter). r.2) round
        ∙ rest.1
        ∙ emit-emit io (header ++ take chunk_size (drop total cs.payload)) bytes,
  )
    where
      piece : List ℕ
      piece = take chunk_size (drop total cs.payload)

      sizes : length ((header ++ piece) ++ bytes) ≡ length header + inc + length bytes
      sizes = omega (
        arith,
        length-append (header ++ piece) bytes,
        length-append header piece,
        length-take chunk_size (drop total cs.payload),
        length-drop total cs.payload,
        w.whole,
      )

      can : (n : ℕ) → n ≤ length header + inc + length bytes → CanWrite io n
      can n h = record { working = c.working; fits = omega (arith, c.fits, sizes) }

      round :
          write_loop (suc k) i total chunk_size cs io
          ≡ write_loop k (i + 1) (total + inc) chunk_size cs' (emit io (header ++ piece))
      round =
          write_round k i total inc cs cs' io header w ht hi he hc (hh (can _ (omega arith)))
            (can _ (omega arith))

      rest :
          ((write_loop k (i + 1) (total + inc) chunk_size cs' (emit io (header ++ piece))).0 ≡ done)
          × ((write_loop k (i + 1) (total + inc) chunk_size cs' (emit io (header ++ piece))).2
              ≡ emit (emit io (header ++ piece)) bytes)
      rest = ih (
          CanWrite-emit (header ++ piece) (length bytes) (
            can _ (
              omega
                (arith, length-append header piece, length-append (header ++ piece) bytes, sizes))))

  -- Nothing is left to write.
  Writes-end :
      (k i total : ℕ) (cs : ChunkStream) (io : ReadWriter)
      → IsMessage cs
      → total ≡ cs.len
      → Writes k i total cs io (next_chunks (next_header cs) chunk_size k (drop total cs.payload))
  unfolding write_loop next_chunks
  Writes-end zero i total cs io w e c = (refl, sym (emit-nil io))
  Writes-end (suc k) i total cs io w e c =
      ground (arith, w, length-drop total cs.payload, emit-nil io)

  format-IsMessage :
      (cs : ChunkStream) (f : ℕ) → IsMessage cs → IsMessage (record cs { format = f })
  format-IsMessage cs f w = record {
    csid_from = w.csid_from;
    csid_below = w.csid_below;
    type_below = w.type_below;
    stream_below = w.stream_below;
    timestamp_below = w.timestamp_below;
    len_below = w.len_below;
    whole = w.whole;
  }

  next_position :
      (i total len : ℕ)
      → total ≡ i * chunk_size
      → total ≤ len
      → (total + min chunk_size (len - total) ≡ len)
        ⊎ (total + min chunk_size (len - total) ≡ (i + 1) * chunk_size)
  next_position i total len e h = elim (dec_le chunk_size (len - total)) [
    | yes p ↦ inr (omega arith)
    | no p ↦ inl (omega arith)
  ]

  Writes-next :
      (k i total : ℕ) (cs : ChunkStream) (io : ReadWriter)
      → IsMessage cs
      → 0 < i
      → total ≤ cs.len
      → (total ≡ cs.len) ⊎ (total ≡ i * chunk_size)
      → cs.len < (i + k) * chunk_size
      → Writes k i total cs io (next_chunks (next_header cs) chunk_size k (drop total cs.payload))
  unfolding next_header
  Writes-next k i total cs io w hi ht (inl e) hk = Writes-end k i total cs io w e
  Writes-next zero i total cs io w hi ht (inr e) hk =
      Writes-end zero i total cs io w (omega (arith, e, hk))
  Writes-next (suc k) i total cs io w hi ht (inr e) hk = elim (dec_lt total cs.len) [
    | yes h ↦
        let inc : ℕ = min chunk_size (cs.len - total) in
        let cs' : ChunkStream = record cs { format = 3 } in
        rw
          (next_chunks-step (next_header cs) k total inc cs.payload (omega (arith, w.whole))
            (omega (arith, w.whole)))
          (Writes-round k i total inc cs cs' io (next_header cs)
            (next_chunks (next_header cs) chunk_size k (drop (total + inc) cs.payload)) w h
            (omega (arith, e, w.len_below)) refl (ground arith)
            (λ c. next_header-emit cs' io refl w.csid_below c)
            (Writes-next k (i + 1) (total + inc) cs'
              (emit io (next_header cs ++ take chunk_size (drop total cs.payload)))
              (format-IsMessage cs 3 w) (omega arith) (omega arith)
              (next_position i total cs.len e ht) (omega (arith, e, hk))))
    | no h ↦ Writes-end (suc k) i total cs io w (omega arith)
  ]

  pub rounds_enough : (len : ℕ) → len < (1 + len / chunk_size) * chunk_size
  rounds_enough len = omega (arith, div-add-mod len chunk_size, mod-lt len c_pos)

  Writes-message :
      (cs : ChunkStream) (io : ReadWriter)
      → IsMessage cs
      → 0 < cs.len
      → Writes (suc (cs.len / chunk_size)) 0 0 cs io (message_bytes cs chunk_size)
  unfolding message_bytes first_header next_header
  Writes-message cs io w h =
      let inc : ℕ = min chunk_size (cs.len - 0) in
      let cs' : ChunkStream = record cs { format = 0 } in
      let start : List ℕ = take chunk_size cs.payload in
      let bytes : List ℕ =
        next_chunks (next_header cs) chunk_size (cs.len / chunk_size) (drop (0 + inc) cs.payload) in
      rw
        (
          next_chunks-drop (next_header cs) (cs.len / chunk_size) 0 inc cs.payload
              (omega (arith, w.whole)),
          ← append_assoc (first_header cs) start bytes,
        )
        (Writes-round (cs.len / chunk_size) 0 0 inc cs cs' io (first_header cs) bytes w h
          (omega arith) refl refl (λ c. first_header-emit cs' io refl w.csid_below w.len_below c)
          (Writes-next (cs.len / chunk_size) (0 + 1) (0 + inc) cs'
            (emit io (first_header cs ++ start)) (format-IsMessage cs 0 w) (omega arith)
            (omega arith) (next_position 0 0 cs.len (omega arith) (omega arith))
            (rounds_enough cs.len)))

  -- A message that the wire can carry and that is not empty is written as its bytes, with a chunk size
  -- above zero, if there is room
  -- for them.
  pub write_chunk-message_bytes :
      (m : ChunkStream) (io : ReadWriter)
      → IsMessage (set_csid m)
      → 0 < m.len
      → CanWrite io (length (message_bytes (set_csid m) chunk_size))
      → ((write_chunk m io chunk_size).0 ≡ done)
        × ((write_chunk m io chunk_size).2 ≡ emit io (message_bytes (set_csid m) chunk_size))
  unfolding write_chunk
  write_chunk-message_bytes m io w h c =
      ground (arith, len-set_csid m, add-one (m.len / chunk_size), Writes-message (set_csid m) io w)
