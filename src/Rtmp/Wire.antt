-- ===== src/Rtmp/Wire.antt =====
-- The bytes of a message on the wire: an independent description of what `writeChunk` writes and
-- `readChunk` reads.
pub mod Headers
pub mod Written
pub mod Heard
pub mod Body
pub mod Message
pub mod Took
pub mod Delivery
use live.Base.{
  ℕ, zero, suc, ◌+◌, ◌-◌, ◌*◌, ◌/◌, ◌^◌, ◌≤◌, ◌<◌, ◌≡◌, List, [], ◌∷◌, ◌++◌, if◌then◌else◌, ltb,
  leb, length, take, drop, min,
}
use live.Pio.Format.{bytes_be}
use live.Rtmp.ReadWriter.Laws.{bytes_le}
use live.Rtmp.ChunkStream.{ChunkStream}

-- The basic header in its one, two or three bytes.
unfoldable pub basic_bytes : ℕ → ℕ → List ℕ
basic_bytes format csid =
    if ltb csid 64
    then bytes_be 1 (format * 64 + csid)
    else (if ltb csid 320
        then bytes_be 1 (format * 64) ++ bytes_le 1 (csid - 64)
        else bytes_be 1 (format * 64 + 1) ++ bytes_le 2 (csid - 64))

unfoldable pub extended_bytes : ℕ → List ℕ
extended_bytes timestamp = if leb 0xffffff timestamp then bytes_be 4 timestamp else []

-- The header of a first chunk, and that of the chunks behind it.
unfoldable pub first_header : ChunkStream → List ℕ
first_header m =
    basic_bytes 0 m.csid
    ++ (bytes_be 3 (min m.timestamp 0xffffff)
        ++ (bytes_be 3 m.len
            ++ (bytes_be 1 m.type_id ++ (bytes_le 4 m.stream_id ++ extended_bytes m.timestamp))))

unfoldable pub next_header : ChunkStream → List ℕ
next_header m = basic_bytes 3 m.csid ++ extended_bytes m.timestamp

-- The chunks behind the first, at most `k` of them, for the bytes `p` that are left.
unfoldable pub next_chunks : List ℕ → ℕ → ℕ → List ℕ → List ℕ
next_chunks header chunk_size zero p = []
next_chunks header chunk_size (suc k) p =
    let rest = next_chunks header chunk_size k (drop chunk_size p) in
    if leb (length p) 0 then [] else header ++ (take chunk_size p ++ rest)

unfoldable pub message_bytes : ChunkStream → ℕ → List ℕ
message_bytes m chunk_size =
    first_header m
    ++ (take chunk_size m.payload
        ++ next_chunks (next_header m) chunk_size (m.len / chunk_size) (drop chunk_size m.payload))

-- What the wire can carry of a message.
pub record IsMessage (m : ChunkStream) : Type 0 where
  pub csid_from : 2 ≤ m.csid
  pub csid_below : m.csid < 65600
  pub type_below : m.type_id < 256
  pub stream_below : m.stream_id < 2 ^ 32
  pub timestamp_below : m.timestamp < 2 ^ 32
  pub len_below : m.len < 2 ^ 24
  pub whole : length m.payload ≡ m.len
