-- ===== src/Codec.antt =====
-- parser/parser.go: the parser of each codec, made when its first packet comes. The writer takes every
-- byte. `none` is the end of the fuel of the H.264 parser.
pub mod Laws
pub mod Mixed
use live.Base.{ℕ, Bool, true, false, Option, none, some, List, [], ◌∷◌, if◌then◌else◌, ◌==◌, ◌>>=◌}
use live.Flv.Tag.{Tag, is_seq, sound_aac, sound_mp3, video_h264}
use live.Av.{Packet}
use live.H264
use live.Aac
use live.Mp3

pub data Error : Type 0 where
  h264_error : H264.Error → Error
  mp3_error : Mp3.Error → Error
  aac_specific_buf_invalid aac_audio_buf_invalid : Error

pub record CodecParser : Type 0 where
  pub aac : Option Aac.Parser
  pub mp3 : Option Mp3.Parser
  pub h264 : Option H264.Parser

abbrev pub new_codec_parser : CodecParser
new_codec_parser = record { aac = none; mp3 = none; h264 = none }

abbrev pub or_new {ℓ} : {A : Type ℓ} → A → Option A → A
or_new a none = a
or_new a (some b) = b

-- The parser afterwards, what was written and the error.
pub record Parsed : Type 0 where
  pub parser : CodecParser
  pub written : List ℕ
  pub error : Option Error

abbrev pub map_error {ℓ κ} : {A : Type ℓ} {B : Type κ} → (A → B) → Option A → Option B
map_error f none = none
map_error f (some a) = some (f a)

abbrev pub of_h264 : CodecParser → H264.Outcome → Option Parsed
of_h264 c o = some (record {
  parser = record c { h264 = some o.parser };
  written = o.written;
  error = map_error h264_error o.error;
})

abbrev pub of_aac : CodecParser → Aac.Parser × Aac.Outcome → Parsed
of_aac c (q, Aac.ok b) = record { parser = record c { aac = some q }; written = b; error = none }
of_aac c (q, Aac.specific_buf_invalid) = record {
  parser = record c { aac = some q };
  written = [];
  error = some aac_specific_buf_invalid;
}
of_aac c (q, Aac.audio_buf_invalid) = record {
  parser = record c { aac = some q };
  written = [];
  error = some aac_audio_buf_invalid;
}

abbrev pub of_mp3 : CodecParser → Mp3.Parser × Option Mp3.Error → Parsed
of_mp3 c (q, e) = record {
  parser = record c { mp3 = some q };
  written = [];
  error = map_error mp3_error e;
}

unfoldable pub parse_video : CodecParser → Tag → List ℕ → Option Parsed
parse_video c f b =
    if f.codec_id == video_h264
    then H264.parse (or_new H264.new_parser c.h264) b (is_seq f) >>= of_h264 c
    else some (record { parser = c; written = []; error = none })

unfoldable pub parse_audio : CodecParser → Tag → List ℕ → Parsed
parse_audio c f b =
    if f.sound_format == sound_aac
    then of_aac c (Aac.parse (or_new Aac.new_parser c.aac) b f.aac_packet_type)
    else (if f.sound_format == sound_mp3
        then of_mp3 c (Mp3.parse (or_new Mp3.new_parser c.mp3) b)
        else record { parser = c; written = []; error = none })

unfoldable pub parse_with : CodecParser → Bool → Option Tag → List ℕ → Option Parsed
parse_with c is_video none b = some (record { parser = c; written = []; error = none })
parse_with c true (some f) b = parse_video c f b
parse_with c false (some f) b = some (parse_audio c f b)

unfoldable pub parse : CodecParser → Packet → Option Parsed
parse c p = parse_with c p.is_video p.header p.payload

-- `none` is errNoAudio. The MP3 parser may set its rate.
unfoldable pub rate_of :
    CodecParser → Option Aac.Parser → Option Mp3.Parser → CodecParser × Option ℕ
rate_of c (some q) mp3 = (c, some (Aac.sample_rate q))
rate_of c none (some q) =
    (record c { mp3 = some (Mp3.sample_rate q).0 }, some (Mp3.sample_rate q).1)
rate_of c none none = (c, none)

unfoldable pub sample_rate : CodecParser → CodecParser × Option ℕ
sample_rate c = rate_of c c.aac c.mp3
