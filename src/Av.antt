-- ===== src/Av.antt =====
-- av/av.go: the packet that the parts exchange. The only header type of the program is the FLV tag,
-- which is both an audio and a video packet header; `none` is a header that is not set.
use live.Base.{ℕ, Bool, Option, List}
use live.Flv.Tag.{Tag}

pub record Packet : Type 0 where
  pub is_audio : Bool
  pub is_video : Bool
  pub is_metadata : Bool
  pub time_stamp : ℕ
  pub stream_id : ℕ
  pub header : Option Tag
  pub payload : List ℕ
