-- ===== src/Flv/Writer.antt =====
-- container/flv/muxer.go and protocol/httpflv/writer.go, whose SendPacket has the same body as Write,
-- with the time stamps of av/rwbase.go. The file and the response take every byte. The time of the last
-- packet, PreTime, is only read by the clock.
use live.Base.{
  ℕ, ◌+◌, ◌/◌, ◌%◌, ◌^◌, bit_and, Option, none, some, List, [], ◌∷◌, ◌++◌, if◌then◌else◌, ◌==◌, ltb,
  length, take, drop, replicate, ◌>>=◌,
}
use live.Pio.Writer.{put_u8, put_i24_be, put_i32_be}
use live.Av.{Packet}
use live.Amf.Value.{Value}
use live.Amf.Decoder.{Decoded}
use live.Amf.Metadata.{Reformed, reformed, reform_error, reform_panic, metadata_reform}

-- av/rwbase.go
pub record RwBaser : Type 0 where
  pub base_timestamp : ℕ
  pub last_video_timestamp : ℕ
  pub last_audio_timestamp : ℕ

unfoldable pub calc_base_timestamp : RwBaser → RwBaser
calc_base_timestamp rw' = record rw' {
  base_timestamp =
      if ltb rw'.last_video_timestamp rw'.last_audio_timestamp
      then rw'.last_audio_timestamp
      else rw'.last_video_timestamp;
}

unfoldable pub rec_time_stamp : ℕ → ℕ → RwBaser → RwBaser
rec_time_stamp timestamp type_id rw' =
    if type_id == 9
    then record rw' { last_video_timestamp = timestamp }
    else (if type_id == 8 then record rw' { last_audio_timestamp = timestamp } else rw')

pub record FlvWriter : Type 0 where
  pub base : RwBaser
  pub buf : List ℕ

-- A write into the slice `buf[i:j]`.
abbrev pub put_slice : ℕ → ℕ → (List ℕ → Option (List ℕ)) → List ℕ → Option (List ℕ)
put_slice i j put buf = put (drop i (take j buf)) >>= (λ b. some (take i buf ++ (b ++ drop j buf)))

abbrev pub flv_header : List ℕ
flv_header = 0x46 ∷ 0x4c ∷ 0x56 ∷ 0x01 ∷ 0x05 ∷ 0x00 ∷ 0x00 ∷ 0x00 ∷ 0x09 ∷ []

-- The writer and what it has written; `none` is a panic.
unfoldable pub new_flv_writer : Option (FlvWriter × List ℕ)
new_flv_writer = put_slice 0 4 (λ b. put_i32_be b 0) (replicate 11 0) >>= (λ buf. some (
  record {
    base = record { base_timestamp = 0; last_video_timestamp = 0; last_audio_timestamp = 0 };
    buf = buf;
  },
  flv_header ++ take 4 buf,
))

unfoldable pub type_id : Packet → ℕ
type_id p = if p.is_video then 9 else (if p.is_metadata then 18 else 8)

-- The header of a tag, the data, and the size of both.
unfoldable pub put_tag : ℕ → ℕ → List ℕ → List ℕ → Option (List ℕ × List ℕ)
put_tag ty timestamp payload buf =
    put_slice 0 1 (λ b. put_u8 b (ty % 256)) buf
    >>= put_slice 1 4 (λ b. put_i24_be b (length payload % 2 ^ 32))
    >>= put_slice 4 7 (λ b. put_i24_be b (bit_and timestamp 0xffffff))
    >>= put_slice 7 8 (λ b. put_u8 b (bit_and (timestamp / 2 ^ 24) 0xff % 256))
    >>= (λ h.
        put_slice 0 4 (λ b. put_i32_be b ((length payload + 11) % 2 ^ 32)) h
        >>= (λ buf'. some (buf', h ++ (payload ++ take 4 buf'))))

-- An error, with nothing written, a panic, or the writer and what was written.
pub data Outcome : Type 0 where
  failed panic : Outcome
  wrote : FlvWriter → List ℕ → Outcome

unfoldable pub finish : RwBaser → Option (List ℕ × List ℕ) → Outcome
finish base none = panic
finish base (some (buf, out)) = wrote (record { base = base; buf = buf }) out

unfoldable pub write_data : FlvWriter → Packet → Reformed → Outcome
write_data w p reform_error = failed
write_data w p reform_panic = panic
write_data w p (reformed payload) =
    let timestamp = (p.time_stamp + w.base.base_timestamp) % 2 ^ 32 in
    finish (rec_time_stamp timestamp (type_id p) w.base)
      (put_tag (type_id p) timestamp payload w.buf)

-- `p.Data` of the packet, which other writers share, afterwards; it is nil behind an error.
unfoldable pub set_data : Packet → Reformed → Packet
set_data p (reformed payload) = record p { payload = payload }
set_data p reform_error = record p { payload = [] }
set_data p reform_panic = p

-- SendPacket of httpflv, for the packets that come out of the queue until it is closed. It ends with
-- an error in each case; a panic ends the program.
pub data SendEnd : Type 0 where
  closed not_reformed crashed : SendEnd

unfoldable pub send_on : (FlvWriter → List ℕ × SendEnd) → Outcome → List ℕ × SendEnd
send_on next failed = ([], not_reformed)
send_on next panic = ([], crashed)
send_on next (wrote w out) = (out ++ (next w).0, (next w).1)

-- Metadata is written without its frame, and loses it. The packets in a queue are different ones.
module _ (decode_amf3 : List ℕ → Decoded Value) where
  unfoldable pub data_of : Packet → Reformed
  data_of p =
      if type_id p == 18 then metadata_reform decode_amf3 p.payload 3 else reformed p.payload

  unfoldable pub write : FlvWriter → Packet → Outcome × Packet
  write w p = (write_data w p (data_of p), set_data p (data_of p))

  unfoldable pub send_packet : List Packet → FlvWriter → List ℕ × SendEnd
  send_packet [] w = ([], closed)
  send_packet (p ∷ packet_queue) w = send_on (send_packet packet_queue) (write w p).0
