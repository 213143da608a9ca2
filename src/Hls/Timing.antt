-- ===== src/Hls/Timing.antt =====
-- protocol/hls/align.go, status.go and audio_cache.go: times of 64 bits in ticks of 90 kHz. The clock
-- times of status.go are left out: nothing reads them.
use live.Base.{
  ℕ, ◌+◌, ◌-◌, ◌*◌, ◌%◌, ◌^◌, Bool, true, false, List, [], ◌++◌, if◌then◌else◌, ◌==◌, leb, length,
  replicate,
}

pub record Align : Type 0 where
  pub frame_num : ℕ
  pub frame_base : ℕ

abbrev pub new_align : Align
new_align = record { frame_num = 0; frame_base = 0 }

abbrev pub est_pts : Align → ℕ → ℕ
est_pts a inc = (a.frame_base + a.frame_num * inc) % 2 ^ 64

-- `h264_default_hz` is 90; the time afterwards.
unfoldable pub align : Align → ℕ → ℕ → Align × ℕ
align a dts inc =
    let est = est_pts a inc in
    let d_pts = if leb dts est then est - dts else dts - est in
    if leb d_pts (2 * 90)
    then (record a { frame_num = (a.frame_num + 1) % 2 ^ 64 }, est)
    else (record { frame_num = 1; frame_base = dts }, dts)

-- A time stamp has 32 bits, and the difference of two is kept as an int64.
pub record Status : Type 0 where
  pub has_video : Bool
  pub seq_id : ℕ
  pub has_set_first_ts : Bool
  pub first_timestamp : ℕ
  pub last_timestamp : ℕ

abbrev pub new_status : Status
new_status = record {
  has_video = false;
  seq_id = 0;
  has_set_first_ts = false;
  first_timestamp = 0;
  last_timestamp = 0;
}

unfoldable pub update : Bool → ℕ → Status → Status
update is_video timestamp t = record t {
  has_video = if is_video then true else t.has_video;
  has_set_first_ts = true;
  first_timestamp = if t.has_set_first_ts then t.first_timestamp else timestamp;
  last_timestamp = timestamp;
}

unfoldable pub reset_and_new : Status → Status
reset_and_new t = record t { seq_id = t.seq_id + 1; has_video = false; has_set_first_ts = false }

unfoldable pub duration_ms : Status → ℕ
duration_ms t = (t.last_timestamp + 2 ^ 64 - t.first_timestamp) % 2 ^ 64

-- The buffer starts with the zeros that it was made of. `num` is a byte.
pub record AudioCache : Type 0 where
  pub num : ℕ
  pub offset : ℕ
  pub pts : ℕ
  pub buf : List ℕ

abbrev pub new_audio_cache : AudioCache
new_audio_cache = record { num = 0; offset = 0; pts = 0; buf = replicate 10240 0 }

unfoldable pub reset_if_empty : ℕ → AudioCache → AudioCache
reset_if_empty pts a = if a.num == 0 then record a { offset = 0; pts = pts; buf = [] } else a

unfoldable pub cache : List ℕ → ℕ → AudioCache → AudioCache
cache src pts a =
    let a' = reset_if_empty pts a in
    record a' { buf = a'.buf ++ src; offset = a'.offset + length src; num = (a'.num + 1) % 256 }

unfoldable pub get_frame : AudioCache → AudioCache × (ℕ × (ℕ × List ℕ))
get_frame a = (record a { num = 0 }, (a.offset, (a.pts, a.buf)))

unfoldable pub cache_num : AudioCache → ℕ
cache_num a = a.num
