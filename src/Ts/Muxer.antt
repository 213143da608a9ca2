-- ===== src/Ts/Muxer.antt =====
-- container/ts/muxer.go: Mux, which cuts a frame behind its PES header into packets of 188 bytes.
-- The writer is there and takes every packet. `i`, `tmpLen`, `dataLen` and `remainBytes` are bytes
-- and wrap around. The arrays of the program tables are in Ts/Tables.
use live.Base.{
  ℕ, zero, suc, ◌+◌, ◌-◌, ◌*◌, ◌/◌, ◌%◌, ◌^◌, bit_and, bit_or, Bool, true, false, ◌&&◌, Option,
  none, some, List, [], ◌∷◌, ◌++◌, if◌then◌else◌, ◌==◌, ltb, leb, length, get_or, set, take, drop,
  replicate, ◌>>=◌,
}
use live.Flv.Tag.{Tag, is_key_frame}
use live.Av.{Packet}
use live.Ts.Pes.{pes_packet, write_pcr}

pub record Muxer : Type 0 where
  pub video_cc : ℕ
  pub audio_cc : ℕ
  pub pat_cc : ℕ
  pub pmt_cc : ℕ
  pub ts_packet : List ℕ

abbrev pub new_muxer : Muxer
new_muxer = record {
  video_cc = 0;
  audio_cc = 0;
  pat_cc = 0;
  pmt_cc = 0;
  ts_packet = replicate 188 0;
}

-- `copy(b[i:], src)`
abbrev pub copy : List ℕ → List ℕ → List ℕ
copy [] b = b
copy (x ∷ src) [] = []
copy (x ∷ src) (y ∷ b) = x ∷ copy src b

abbrev pub copy_at : ℕ → List ℕ → List ℕ → List ℕ
copy_at i src b = take i b ++ copy src (drop i b)

-- `data[i:i+n]`, which panics out of range
abbrev pub slice? : List ℕ → ℕ → ℕ → Option (List ℕ)
slice? b i n = if leb (i + n) (length b) then some (take n (drop i b)) else none

-- `cc++`, and back to 0 behind 15.
unfoldable pub next_cc : ℕ → ℕ
next_cc cc = if ltb 0xf ((cc + 1) % 256) then 0 else (cc + 1) % 256

-- The slice has more than one byte.
unfoldable pub adaptation_buf_init : ℕ → List ℕ → List ℕ
adaptation_buf_init remain_bytes (x ∷ y ∷ src) =
    (remain_bytes + 255) % 256
    ∷ (if remain_bytes == 1 then y ∷ src else 0x00 ∷ replicate (length src) 0xff)
adaptation_buf_init remain_bytes src = src

-- The variables of the loop. A packet is filled up to `i`.
pub record Loop : Type 0 where
  pub muxer : Muxer
  pub first : Bool
  pub w_bytes : ℕ
  pub pes_index : ℕ
  pub pes_header_len : ℕ
  pub packet_bytes_len : ℕ

-- What stays the same in the loop.
pub record Frame : Type 0 where
  pub is_video : Bool
  pub key_frame : Bool
  pub dts : ℕ
  pub pes : List ℕ
  pub payload : List ℕ

-- A packet in the making.
pub record Filling : Type 0 where
  pub buf : List ℕ
  pub i : ℕ

unfoldable pub count_cc : Frame → Muxer → Muxer
count_cc f m =
    if f.is_video
    then record m { video_cc = next_cc m.video_cc }
    else record m { audio_cc = next_cc m.audio_cc }

abbrev pub pid_of : Frame → ℕ
pid_of f = if f.is_video then 0x100 else 0x101

unfoldable pub ts_header : Frame → Bool → Muxer → List ℕ
ts_header f first m =
    let high = pid_of f / 2 ^ 8 % 256 in
    let cc = if f.is_video then m.video_cc else m.audio_cc in
    0x47
    ∷ (if first then bit_or high 0x40 else high)
    ∷ (pid_of f % 256)
    ∷ bit_or 0x10 (bit_and cc 0x0f)
    ∷ []

-- `muxer.tsPacket[3] |= 0x20`
abbrev pub with_adaptation : List ℕ → List ℕ
with_adaptation buf = set buf 3 (bit_or (get_or buf 3 0) 0x20)

unfoldable pub put_pcr : Frame → Bool → List ℕ → Filling
put_pcr f first buf =
    if first && (f.is_video && f.key_frame)
    then record { buf = copy_at 4 (7 ∷ 0x50 ∷ write_pcr f.dts) (with_adaptation buf); i = 12 }
    else record { buf = buf; i = 4 }

-- The bytes that are left over are stuffed.
unfoldable pub stuff : Bool → ℕ → Filling → Filling
stuff first data_len p =
    let remain_bytes = (184 + 512 - data_len - (if first then p.i - 4 else 0)) % 256 in
    record {
      buf =
          take p.i (with_adaptation p.buf)
          ++ adaptation_buf_init remain_bytes (drop p.i (with_adaptation p.buf));
      i = (p.i + remain_bytes) % 256;
    }

-- The packet and `dataLen`.
unfoldable pub make_room : Bool → ℕ → Filling → Filling × ℕ
make_room first packet_bytes_len p =
    if leb 184 packet_bytes_len
    then (p, if first then 184 - (p.i - 4) else 184)
    else (stuff first packet_bytes_len p, packet_bytes_len)

-- The PES header goes into the first packet.
unfoldable pub put_pes : Frame → Loop → Filling × ℕ → Option (Loop × Filling × ℕ)
put_pes f l (p, data_len) =
    let tmp_len = if leb l.pes_header_len (188 - p.i) then l.pes_header_len else 188 - p.i in
    if l.first && (ltb p.i 188 && ltb 0 l.pes_header_len)
    then slice? f.pes l.pes_index tmp_len >>= (λ b. some (
      record l {
        packet_bytes_len = l.packet_bytes_len - tmp_len;
        pes_header_len = l.pes_header_len - tmp_len;
        pes_index = l.pes_index + tmp_len;
      },
      record { buf = copy_at p.i b p.buf; i = (p.i + tmp_len) % 256 },
      (data_len + 256 - tmp_len) % 256,
    ))
    else some (l, p, data_len)

unfoldable pub put_payload : Frame → Loop × Filling × ℕ → Option (Loop × Filling)
put_payload f (l, p, data_len) =
    let n = if leb (188 - p.i) data_len then 188 - p.i else data_len in
    if ltb p.i 188
    then slice? f.payload l.w_bytes n >>= (λ b. some (
      record l { w_bytes = l.w_bytes + n; packet_bytes_len = l.packet_bytes_len - n },
      record p { buf = copy_at p.i b p.buf },
    ))
    else some (l, p)

abbrev pub end_round : Muxer → Loop × Filling → Option (Loop × List ℕ)
end_round m (l, p) =
    some (record l { muxer = record m { ts_packet = p.buf }; first = false }, p.buf)

-- One round: the packet that is written is the array afterwards.
unfoldable pub mux_round : Frame → Loop → Option (Loop × List ℕ)
mux_round f l =
    let m = count_cc f l.muxer in
    put_pes f l (
      make_room l.first l.packet_bytes_len
        (put_pcr f l.first (copy_at 0 (ts_header f l.first m) m.ts_packet)))
    >>= put_payload f
    >>= end_round m

abbrev pub and_packet : List ℕ → Muxer × List (List ℕ) → Option (Muxer × List (List ℕ))
and_packet b (m, packets) = some (m, b ∷ packets)

-- `none` is a panic or the end of the fuel.
unfoldable pub mux_loop : ℕ → Frame → Loop → Option (Muxer × List (List ℕ))
mux_loop zero f l = none
mux_loop (suc n) f l =
    let rest = mux_round f l >>= (λ r. mux_loop n f r.0 >>= and_packet r.1) in
    if leb l.packet_bytes_len 0 then some (l.muxer, []) else rest

-- The composition time is an int32.
abbrev pub pts_of : ℕ → ℕ → ℕ
pts_of dts ct = (dts + (if ltb ct (2 ^ 31) then ct else 2 ^ 64 - 2 ^ 32 + ct) * 90) % 2 ^ 64

abbrev pub frame_of : Packet → Bool → ℕ → Frame
frame_of p key pts =
    let dts = p.time_stamp * 90 in
    record {
      is_video = p.is_video;
      key_frame = key;
      dts = dts;
      pes = pes_packet p.is_video (length p.payload) pts dts;
      payload = p.payload;
    }

-- A video packet without a header is a nil interface, whose method panics.
unfoldable pub frame_with : Packet → Bool → Option Tag → Option Frame
frame_with p false header = some (frame_of p false (p.time_stamp * 90))
frame_with p true (some tag) =
    some (frame_of p (is_key_frame tag) (pts_of (p.time_stamp * 90) tag.composition_time))
frame_with p true none = none

-- One round for each byte is enough, and one more for the end.
unfoldable pub mux_frame : Muxer → Frame → Option (Muxer × List (List ℕ))
mux_frame m f =
    let len = length f.payload + length f.pes in
    mux_loop (suc len) f (record {
      muxer = m;
      first = true;
      w_bytes = 0;
      pes_index = 0;
      pes_header_len = length f.pes;
      packet_bytes_len = len;
    })

unfoldable pub mux : Muxer → Packet → Option (Muxer × List (List ℕ))
mux m p = frame_with p p.is_video p.header >>= mux_frame m
