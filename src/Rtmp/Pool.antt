-- ===== src/Rtmp/Pool.antt =====
-- utils/pool. A buffer that is handed out is never handed out again, and its bytes are zero, so a
-- slice is the list of its bytes; the pool keeps its position only.
use live.Base.{ℕ, ◌+◌, ◌*◌, Option, none, some, List, leb, ltb, if◌then◌else◌, replicate}

abbrev pub max_pool_size : ℕ
max_pool_size = 500 * 1024

pub record Pool : Type 0 where
  pub pos : ℕ

abbrev pub new_pool : Pool
new_pool = record { pos = 0 }

-- The position after the buffer was renewed, if it had to be. `int` arithmetic: the test holds for
-- each size above the buffer's, whatever the position is.
abbrev pub start_of : Pool → ℕ → ℕ
start_of pool size = if ltb max_pool_size (pool.pos + size) then 0 else pool.pos

-- `none` is the panic of the slice expression: `size` is more than a whole buffer.
unfoldable pub get : Pool → ℕ → Option (List ℕ × Pool)
get pool size =
    let pos = start_of pool size in
    if leb (pos + size) max_pool_size
    then some (replicate size 0, record { pos = pos + size })
    else none
