-- ===== src/Rtmp/Wire/Body.antt =====
-- The payload of a message as it fills, chunk by chunk.
use live.Base.{
  ℕ, zero, suc, ◌+◌, ◌-◌, ◌≤◌, ◌<◌, ◌≡◌, refl, sym, ap, ap₂, ◌∙◌, none, List, [], ◌∷◌, ◌++◌, arith,
  append_assoc, leb, length, length-append, length-take, length-drop, length-replicate, replicate,
  take, drop, min, take-append, drop-append, drop-drop,
}
use live.Rtmp.ReadWriter.{ReadWriter, read}
use live.Rtmp.Pool.{Pool}
use live.Rtmp.ChunkStream.{ChunkStream, done}
use live.Rtmp.ReadChunk.{store, read_body}
use live.Rtmp.Wire.{IsMessage}
use live.Rtmp.Wire.Heard.{at}

-- The first `t` bytes have come.
abbrev pub partial : List ℕ → ℕ → List ℕ
partial bytes t = take t bytes ++ replicate (length bytes - t) 0

take-add : (t s k : ℕ) (xs : List ℕ) → k ≡ t + s → take k xs ≡ take t xs ++ take s (drop t xs)
take-add zero s k xs e = ap (λ (j : ℕ). take j xs) (omega arith)
take-add (suc t) s zero xs e = absurd (omega arith)
take-add (suc t) zero (suc k) [] e = refl
take-add (suc t) (suc s) (suc k) [] e = refl
take-add (suc t) s (suc k) (x ∷ xs) e = ap (◌∷◌ x) (take-add t s k xs (omega arith))

drop-replicate : (s n : ℕ) → drop s (replicate {A = ℕ} n 0) ≡ replicate (n - s) 0
drop-replicate zero n = ap (λ (j : ℕ). replicate {A = ℕ} j 0) (omega arith)
drop-replicate (suc s) zero =
    let e : zero ≡ zero - suc s = omega arith in ap (λ (j : ℕ). replicate {A = ℕ} j 0) e
drop-replicate (suc s) (suc n) =
    let e : n - s ≡ suc n - suc s = omega arith in
    drop-replicate s n ∙ ap (λ (j : ℕ). replicate {A = ℕ} j 0) e

drop-append_past :
    (n s k : ℕ) (xs ys : List ℕ) → length xs ≡ n → k ≡ n + s → drop k (xs ++ ys) ≡ drop s ys
drop-append_past n s k xs ys h e =
    sym (drop-drop s n k (xs ++ ys) e) ∙ ap (drop s) (drop-append n xs ys h)

length-partial :
    (bytes : List ℕ) (t : ℕ) → t ≤ length bytes → length (partial bytes t) ≡ length bytes
length-partial bytes t h = omega (
  arith,
  length-append (take t bytes) (replicate (length bytes - t) 0),
  length-take t bytes,
  length-replicate {0} {A = ℕ} (length bytes - t) 0,
)

store-partial :
    (bytes : List ℕ) (t s : ℕ)
    → t + s ≤ length bytes
    → store (partial bytes t) t (take s (drop t bytes)) ≡ partial bytes (t + s)
store-partial bytes t s h =
    ap₂ ◌++◌ (take-append t (take t bytes) zeros front) (
      ap (◌++◌ piece)
        (drop-append_past t s (t + length piece) (take t bytes) zeros front size ∙ left))
    ∙ sym (append_assoc (take t bytes) piece (replicate (length bytes - (t + s)) 0))
    ∙ ap (λ (p : List ℕ). p ++ replicate (length bytes - (t + s)) 0)
        (sym (take-add t s (t + s) bytes refl))
  where
    zeros : List ℕ
    zeros = replicate (length bytes - t) 0

    piece : List ℕ
    piece = take s (drop t bytes)

    front : length (take t bytes) ≡ t
    front = omega (arith, length-take t bytes)

    size : t + length piece ≡ t + s
    size = omega (arith, length-take s (drop t bytes), length-drop t bytes)

    left : drop s zeros ≡ replicate (length bytes - (t + s)) 0
    left = drop-replicate s (length bytes - t) ∙ ap (λ (j : ℕ). replicate {A = ℕ} j 0) (omega arith)

-- The chunk stream in the middle of `m`, with `t` bytes read. Its time delta is that of an earlier
-- message, and `tmp` the format of the last header.
abbrev pub midway : ChunkStream → ℕ → ℕ → ℕ → ChunkStream
midway m delta tmp t = record {
  format = 0;
  csid = m.csid;
  timestamp = m.timestamp;
  len = m.len;
  type_id = m.type_id;
  stream_id = m.stream_id;
  time_delta = delta;
  exted = leb 0xffffff m.timestamp;
  index = t;
  remain = m.len - t;
  got = leb m.len t;
  tmp_format = tmp;
  payload = partial m.payload t;
}

-- A read that finds its bytes takes them.
read-front :
    (io : ReadWriter) (p rest : List ℕ) (n : ℕ)
    → io.read_error ≡ none
    → length p ≡ n
    → read (at io (p ++ rest)) n ≡ (p, none, at io rest)
unfolding read
read-front io p rest n e h =
    ground (arith, length-append p rest, take-append n p rest, drop-append n p rest)

pub read_body-midway :
    (m : ChunkStream) (delta tmp t inc c : ℕ) (io : ReadWriter) (pool : Pool) (rest : List ℕ)
    → IsMessage m
    → t < m.len
    → inc ≡ min c (m.len - t)
    → io.read_error ≡ none
    → read_body
        (record {
          exit = done;
          cs = midway m delta tmp t;
          io = at io (take inc (drop t m.payload) ++ rest);
          pool = pool;
        })
        c
      ≡ record { exit = done; cs = midway m delta tmp (t + inc); io = at io rest; pool = pool }
unfolding read_body
read_body-midway m delta tmp t inc c io pool rest w h hi e = ground (
  arith,
  w,
  length-take inc (drop t m.payload),
  length-drop t m.payload,
  length-partial m.payload t,
  read-front io (take inc (drop t m.payload)) rest inc,
  store-partial m.payload t inc,
)
