-- ===== src/Examples/Codecs.antt =====
-- Concrete inputs for the theorems on the H.264, AAC and MP3 parsers.
use live.Base.{ℕ, ◌+◌, ◌≡◌, refl, true, false, none, some, List, [], ◌∷◌, ◌++◌, arith, length}
use live.Flv.Tag.{Tag, new_tag, is_seq}
use live.Av.{Packet}
use live.H264.{Parser, data_size_not_match, nalu_aud, get_annexb_h264, parse, parse_specific_info}
use live.H264.Format.{avcc, short, complete, is_parameter, framed, byte_stream}
use live.H264.Pictures.{Units, get_annexb-ends, parse-picture}
use live.H264.Config.{parse_specific_info-config}
use live.Codec.{new_codec_parser}
use live.Codec.{parse as parse_codec}
use live.Aac.Laws.{frame_length, rate_index, profile, channels}
use live.Codec.Mixed.{parse_all, info_of, parse_all-mixed}
use live.Codec.Laws.{rate_after, sample_rate-aac}

abbrev configured : Parser
configured = record { specific_info = 0 ∷ 0 ∷ 0 ∷ 1 ∷ 0x67 ∷ []; pps = [] }

-- Two NALUs behind a supplemental one, the second an IDR slice, and two bytes too many.
parse-picture_example :
    (parse configured
        (0 ∷ 0 ∷ 0 ∷ 2 ∷ 0x06 ∷ 9 ∷ 0 ∷ 0 ∷ 0 ∷ 2 ∷ 0x67 ∷ 7 ∷ 0 ∷ 0 ∷ 0 ∷ 2 ∷ 0x65 ∷ 5 ∷ 0 ∷ 0
          ∷ [])
        false
      ≡ some (record {
        parser = record configured { pps = 0 ∷ 0 ∷ 0 ∷ 1 ∷ 0x67 ∷ 7 ∷ [] };
        written =
            0 ∷ 0 ∷ 0 ∷ 1 ∷ 0x09 ∷ 0xf0 ∷ 0 ∷ 0 ∷ 0 ∷ 1 ∷ 0x06 ∷ 9 ∷ 0 ∷ 0 ∷ 0 ∷ 1 ∷ 0x67 ∷ 7 ∷ 0
            ∷ 0 ∷ 0 ∷ 1 ∷ 0x65 ∷ 5 ∷ [];
        error = some data_size_not_match;
      }))
    × (parse configured (0 ∷ 0 ∷ 0 ∷ 1 ∷ 0x65 ∷ []) false
        ≡ some (record { parser = configured; written = 0 ∷ 0 ∷ 0 ∷ 1 ∷ 0x65 ∷ []; error = none }))
parse-picture_example =
    parse-picture configured (0x06 ∷ 9 ∷ []) ((0x67 ∷ 7 ∷ []) ∷ (0x65 ∷ 5 ∷ []) ∷ []) (0 ∷ 0 ∷ [])
      (0x65 ∷ []) (some data_size_not_match) (λ e. absurd (omega arith))
      ((omega arith, omega arith), ((omega arith, omega arith), ((omega arith, omega arith), tt)))
      (short (omega arith) (omega arith) refl)

get_annexb-ends_example :
    (u : Units (0 ∷ 0 ∷ 0 ∷ 1 ∷ 0x65 ∷ 0 ∷ [])) × (get_annexb_h264 configured
        (0 ∷ 0 ∷ 0 ∷ 1 ∷ 0x65 ∷ 0 ∷ [])
      ≡ some (record {
        parser = record configured { pps = framed is_parameter u.nalus };
        written = nalu_aud ++ byte_stream configured.specific_info u.nalus;
        error = u.end;
      }))
get_annexb-ends_example =
    get_annexb-ends configured (0 ∷ 0 ∷ 0 ∷ 1 ∷ 0x65 ∷ 0 ∷ [])
      (omega arith, (omega arith, (omega arith, (omega arith, (omega arith, (omega arith, tt))))))
      (omega arith)

parse_specific_info-config_example :
    parse_specific_info configured
      (1 ∷ 77 ∷ 64 ∷ 31 ∷ 255 ∷ 225 ∷ 0 ∷ 2 ∷ 0x67 ∷ 1 ∷ 1 ∷ 0 ∷ 1 ∷ 0x68 ∷ 9 ∷ [])
    ≡ (
      record configured {
        specific_info =
            0 ∷ 0 ∷ 0 ∷ 1 ∷ 0x67 ∷ 0 ∷ 0 ∷ 0 ∷ 1 ∷ 0x67 ∷ 1 ∷ 0 ∷ 0 ∷ 0 ∷ 1 ∷ 0x68 ∷ 9 ∷ [];
      },
      none,
    )
parse_specific_info-config_example =
    parse_specific_info-config configured 1 77 64 31 255 225 (0x67 ∷ 1 ∷ []) 1 (0x68 ∷ []) (9 ∷ [])
      (omega arith) (omega arith) (omega arith) (omega arith)

abbrev aac_header : Packet
aac_header = record {
  is_audio = true;
  is_video = false;
  is_metadata = false;
  time_stamp = 0;
  stream_id = 1;
  header = some (record new_tag { sound_format = 10 });
  payload = 0x12 ∷ 0x10 ∷ [];
}

abbrev aac_frame : Packet
aac_frame = record aac_header {
  header = some (record new_tag { sound_format = 10; aac_packet_type = 1 });
  payload = 33 ∷ 34 ∷ [];
}

abbrev avc_tag : Tag
avc_tag = record new_tag { codec_id = 7; frame_type = 1; avc_packet_type = 1 }

abbrev picture : Packet
picture = record aac_header {
  is_audio = false;
  is_video = true;
  header = some avc_tag;
  payload = avcc ((0x65 ∷ 5 ∷ []) ∷ []) [];
}

parse_all-mixed_example :
    (h : List ℕ) × (parse_all new_codec_parser (aac_header ∷ picture ∷ aac_frame ∷ [])
      ≡ some (
          ([], none)
          ∷ (nalu_aud ++ byte_stream (info_of new_codec_parser) ((0x65 ∷ 5 ∷ []) ∷ []), none)
          ∷ (h ++ (33 ∷ 34 ∷ []), none)
          ∷ []))
    × (length h ≡ 7)
    × (frame_length h ≡ length h + 2)
    × (rate_index h ≡ 4)
    × (profile h ≡ 1)
    × (channels h ≡ 2)
unfolding is_seq
parse_all-mixed_example =
    parse_all-mixed new_codec_parser aac_header picture aac_frame 0x12 0x10 [] (0x65 ∷ 5 ∷ []) [] []
      none 33 (34 ∷ [])
      (record {
        tag = record new_tag { sound_format = 10 };
        audio = refl;
        header = refl;
        format = refl;
        kind = refl;
        payload = refl;
      })
      (omega arith) (omega arith)
      (record {
        tag = avc_tag;
        video = refl;
        header = refl;
        codec = refl;
        no_seq = refl;
        payload = refl;
      })
      (λ e. absurd (omega arith)) ((omega arith, omega arith), tt) (complete refl refl)
      (record {
        tag = record new_tag { sound_format = 10; aac_packet_type = 1 };
        audio = refl;
        header = refl;
        format = refl;
        kind = refl;
        payload = refl;
      })
      (omega arith)

sample_rate-aac_example : rate_after (parse_codec new_codec_parser aac_header) ≡ some 44100
sample_rate-aac_example =
    sample_rate-aac new_codec_parser aac_header (record new_tag { sound_format = 10 }) 0x12 0x10 []
      (omega arith) (omega arith) refl refl refl refl refl
