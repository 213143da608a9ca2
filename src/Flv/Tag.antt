-- ===== src/Flv/Tag.antt =====
-- container/flv/tag.go: the header of an audio or video tag. The part `flvt` of the source's `Tag` is
-- never set or read, and is left out. `int32` is kept as its 32 bits.
use live.Base.{
  ℕ, ◌+◌, ◌*◌, ◌/◌, ◌%◌, ◌^◌, Bool, none, some, List, [], ◌∷◌, bit_and, if◌then◌else◌, ◌==◌, ◌&&◌,
  ◌||◌, length, get_elem?,
}

pub record Tag : Type 0 where
  pub sound_format : ℕ
  pub sound_rate : ℕ
  pub sound_size : ℕ
  pub sound_type : ℕ
  pub aac_packet_type : ℕ
  pub frame_type : ℕ
  pub codec_id : ℕ
  pub avc_packet_type : ℕ
  pub composition_time : ℕ

-- `var tag Tag`
abbrev pub new_tag : Tag
new_tag = record {
  sound_format = 0;
  sound_rate = 0;
  sound_size = 0;
  sound_type = 0;
  aac_packet_type = 0;
  frame_type = 0;
  codec_id = 0;
  avc_packet_type = 0;
  composition_time = 0;
}

-- av/av.go
abbrev pub sound_mp3 : ℕ
sound_mp3 = 2

abbrev pub sound_aac : ℕ
sound_aac = 10

abbrev pub aac_seqhdr : ℕ
aac_seqhdr = 0

abbrev pub aac_raw : ℕ
aac_raw = 1

abbrev pub avc_seqhdr : ℕ
avc_seqhdr = 0

abbrev pub frame_key : ℕ
frame_key = 1

abbrev pub frame_inter : ℕ
frame_inter = 2

abbrev pub video_h264 : ℕ
video_h264 = 7

unfoldable pub is_key_frame : Tag → Bool
is_key_frame tag = tag.frame_type == frame_key

unfoldable pub is_seq : Tag → Bool
is_seq tag = tag.frame_type == frame_key && tag.avc_packet_type == avc_seqhdr

-- The bytes that the header takes and the tag, an error, or the panic of an index out of range.
pub data Parsed : Type 0 where
  parsed : ℕ → Tag → Parsed
  invalid : ℕ → Parsed
  panic : Parsed

unfoldable pub parse_audio_header : Tag → List ℕ → Parsed
parse_audio_header tag [] = invalid 0
parse_audio_header tag (flags ∷ b) =
    let tag' = record tag {
      sound_format = flags / 16;
      sound_rate = bit_and (flags / 4) 0x3;
      sound_size = bit_and (flags / 2) 0x1;
      sound_type = bit_and flags 0x1;
    } in
    if flags / 16 == sound_aac
    then (elim (get_elem? (flags ∷ b) 1) [
      | some t ↦ parsed 2 (record tag' { aac_packet_type = t })
      | none ↦ panic
    ])
    else parsed 1 tag'

-- `compositionTime<<8 + int32(b)`
abbrev pub add_time : ℕ → ℕ → ℕ
add_time time b = (time * 256 % 2 ^ 32 + b) % 2 ^ 32

unfoldable pub parse_video_header : Tag → List ℕ → Parsed
parse_video_header tag (flags ∷ b1 ∷ b2 ∷ b3 ∷ b4 ∷ b) =
    let tag' = record tag { frame_type = flags / 16; codec_id = bit_and flags 0xf } in
    if flags / 16 == frame_inter || flags / 16 == frame_key
    then parsed 5 (record tag' {
      avc_packet_type = b1;
      composition_time = add_time (add_time (add_time tag.composition_time b2) b3) b4;
    })
    else parsed 1 tag'
parse_video_header tag b = invalid (length b)

unfoldable pub parse_media_tag_header : Tag → List ℕ → Bool → Parsed
parse_media_tag_header tag b is_video =
    if is_video then parse_video_header tag b else parse_audio_header tag b
