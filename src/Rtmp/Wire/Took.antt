-- ===== src/Rtmp/Wire/Took.antt =====
-- A round of Read in the middle of a message.
use live.Base.{ℕ, suc, ◌≡◌, ◌≢◌, refl, ap, ◌∙◌, true, false, some, List, arith}
use live.Rtmp.ReadWriter.{ReadWriter}
use live.Rtmp.Pool.{Pool}
use live.Rtmp.ChunkStream.{ChunkStream, done}
use live.Rtmp.Conn.{Conn, update, read_one, after_read, read_loop, finish}
use live.Rtmp.Wire.Heard.{at}

-- The connection `b` is `a` after it took the input up to `rest` and kept `cs` under the key `k`.
pub record Took (a : Conn) (k : ℕ) (rest : List ℕ) (cs : ChunkStream) (b : Conn) : Type 0 where
  pub io : b.io ≡ at a.io rest
  pub chunk_size : b.chunk_size ≡ a.chunk_size
  pub remote_chunk_size : b.remote_chunk_size ≡ a.remote_chunk_size
  pub window_ack_size : b.window_ack_size ≡ a.window_ack_size
  pub remote_window_ack_size : b.remote_window_ack_size ≡ a.remote_window_ack_size
  pub received : b.received ≡ a.received
  pub ack_received : b.ack_received ≡ a.ack_received
  pub here : b.chunks k ≡ some cs
  pub elsewhere : (j : ℕ) → j ≢ k → b.chunks j ≡ a.chunks j

-- The connection after a round of the loop that ended well.
abbrev pub kept : Conn → ℕ → ChunkStream → ReadWriter → Pool → Conn
kept conn k cs io pool = record conn { io = io; pool = pool; chunks = update conn.chunks k cs }

pub kept-Took :
    (conn : Conn) (k : ℕ) (cs : ChunkStream) (rest : List ℕ) (pool : Pool)
    → Took conn k rest cs (kept conn k cs (at conn.io rest) pool)
kept-Took conn k cs rest pool = record {
  io = refl;
  chunk_size = refl;
  remote_chunk_size = refl;
  window_ack_size = refl;
  remote_window_ack_size = refl;
  received = refl;
  ack_received = refl;
  here = ground arith;
  elsewhere = λ j h. ground arith;
}

pub Took-trans :
    {a b d : Conn} {k : ℕ} {r s : List ℕ} {cs cs' : ChunkStream}
    → Took a k r cs b
    → Took b k s cs' d
    → Took a k s cs' d
Took-trans {s = s} p q = record {
  io = q.io ∙ ap (λ (io : ReadWriter). at io s) p.io;
  chunk_size = q.chunk_size ∙ p.chunk_size;
  remote_chunk_size = q.remote_chunk_size ∙ p.remote_chunk_size;
  window_ack_size = q.window_ack_size ∙ p.window_ack_size;
  remote_window_ack_size = q.remote_window_ack_size ∙ p.remote_window_ack_size;
  received = q.received ∙ p.received;
  ack_received = q.ack_received ∙ p.ack_received;
  here = q.here;
  elsewhere = λ j h. q.elsewhere j h ∙ p.elsewhere j h;
}

module _ (conn : Conn) (k fuel : ℕ) (cs : ChunkStream) (io : ReadWriter) (pool : Pool)
    (one : read_one conn ≡ (k, record { exit = done; cs = cs; io = io; pool = pool })) where
  pub loop_full : cs.got ≡ true → read_loop (suc fuel) conn ≡ finish (kept conn k cs io pool) cs
  unfolding read_loop after_read
  loop_full g = ground (arith, one, g)

  pub loop_more :
      cs.got ≡ false → read_loop (suc fuel) conn ≡ read_loop fuel (kept conn k cs io pool)
  unfolding read_loop after_read
  loop_more g = ground (arith, one, g)

-- `Read` from here on hands out `cs`, and leaves `rest` to be read.
abbrev pub Hands : ℕ → Conn → ℕ → List ℕ → ChunkStream → Type 0
Hands fuel conn k rest cs =
    (conn' : Conn) × (read_loop fuel conn ≡ finish conn' cs) × Took conn k rest cs conn'
