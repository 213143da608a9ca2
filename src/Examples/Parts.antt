-- ===== src/Examples/Parts.antt =====
-- Concrete inputs for the theorems on the caches, the queue, the FLV and AAC headers and utils/pio.
use live.Base.{
  ℕ, ◌+◌, ◌≡◌, ◌≤◌, ◌↔◌, inl, inr, refl, true, false, Option, none, some, List, [], ◌∷◌, ◌++◌,
  arith, ◌>>=◌, if◌then◌else◌, ◌==◌, length,
}
use live.Pio.Reader.{u16_be, u24_be, u32_be, u40_be, u64_be, i16_be, i24_be, i32_be, i64_be, u32_le}
use live.Pio.Writer.{
  put_i16_be, put_i24_be, put_i32_be, put_i64_be, put_u32_le, put_u16_be, put_u24_be, put_u32_be,
  put_u40_be, put_u48_be, put_u64_be,
}
use live.Pio.Format.{digits_be, bytes_be, overwrite}
use live.Pio.RoundTrip.{readers-digits, writers-bytes}
use live.Pio.Signed.{ReadsBack, signed-ReadsBack}
use live.Queue.{Queue, push, pop}
use live.Queue.Laws.{push_all, pop-push, push_cases, push_all-bounded}
use live.Av.{Packet}
use live.Flv.Tag.{
  Tag, new_tag, parsed, is_key_frame, is_seq, parse_audio_header, parse_video_header,
}
use live.Flv.Demuxer.{crash, demux}
use live.Flv.Laws.{
  audio_bytes, audio_tag, IsLoneAac, parse_audio-fields, parse_video-fields, demux-crash_iff,
}
use live.Cache.Gop.{GopCache, new_gop_cache, starts_gop}
use live.Cache.Gop.{send as send_gop}
use live.Cache.Gop.Groups.{
  spec_write_all, spec_write, spec_send, write_all-refines, write-three_crash,
}
use live.Cache.Gop.Groups.{write_all as write_all_gop}
use live.Cache.Stream.{new_cache, send}
use live.Cache.Stream.Joined.{
  latest, metadata, video_seq, audio_seq, kind, frames, write_all, send-write_all,
}
use live.Aac.{ok, new_parser, parse}
use live.Aac.Laws.{frame_length, rate_index, profile, channels, parse-fields}

abbrev packet : Option Tag → ℕ → Packet
packet header x = record {
  is_audio = false;
  is_video = true;
  is_metadata = false;
  time_stamp = 0;
  stream_id = 1;
  header = header;
  payload = x ∷ [];
}

-- A key frame and an inter frame, and the metadata in front of them.
abbrev key : Packet
key = packet (some (record new_tag { frame_type = 1; avc_packet_type = 1 })) 23

abbrev inter : Packet
inter = packet (some (record new_tag { frame_type = 2; avc_packet_type = 1 })) 39

abbrev meta : Packet
meta = record (packet none 2) { is_video = false; is_metadata = true }

abbrev lone_aac : Packet
lone_aac = record (packet none 0xaf) { is_video = false; is_audio = true }

abbrev two_groups : List Packet
two_groups = key ∷ inter ∷ key ∷ []

two_groups-spec : spec_write_all 1 [] two_groups ≡ some ((key ∷ []) ∷ [])
unfolding spec_write_all spec_write starts_gop is_key_frame is_seq
two_groups-spec = refl

write_all-refines_example :
    (c : GopCache) × (write_all_gop (new_gop_cache 1) two_groups ≡ some c)
    × (send_gop c ≡ some (spec_send ((key ∷ []) ∷ [])))
write_all-refines_example =
    write_all-refines 1 two_groups ((key ∷ []) ∷ []) (inl refl) two_groups-spec

write-three_crash_example : write_all_gop (new_gop_cache 3) (key ∷ inter ∷ []) ≡ none
unfolding starts_gop is_key_frame is_seq
write-three_crash_example = write-three_crash 3 key inter (omega arith) refl refl

send-write_all_example :
    (write_all (new_cache 1) (meta ∷ two_groups) >>= send)
    ≡ some (
        latest metadata [] (meta ∷ two_groups)
        ++ (latest video_seq [] (meta ∷ two_groups)
            ++ (latest audio_seq [] (meta ∷ two_groups) ++ spec_send ((key ∷ []) ∷ []))))
unfolding frames kind is_seq
send-write_all_example =
    send-write_all 1 (meta ∷ two_groups) ((key ∷ []) ∷ []) (inl refl) two_groups-spec

abbrev queue : Queue ℕ
queue = record { max_size = 3; list = 1 ∷ 2 ∷ [] }

pop-push_example : (push queue 7 >>= pop) ≡ some (some 7, queue)
pop-push_example = pop-push queue 7 (omega arith)

push_cases_example : push queue 7 ≡ (
    if length queue.list == queue.max_size
    then some (record queue { list = (1 ∷ []) ++ 7 ∷ [] })
    else some (record queue { list = queue.list ++ 7 ∷ [] }))
push_cases_example = push_cases queue (1 ∷ []) 2 7 refl

push_all-bounded_example :
    (q' : Queue ℕ) × (push_all queue (4 ∷ 5 ∷ 6 ∷ []) ≡ some q') × (length q'.list ≤ 3)
push_all-bounded_example = push_all-bounded (4 ∷ 5 ∷ 6 ∷ []) queue (omega arith) (omega arith)

parse_audio-fields_example :
    parse_audio_header new_tag (audio_bytes 10 3 1 1 (1 ∷ 33 ∷ []))
    ≡ parsed 2 (audio_tag 10 3 1 1 1)
parse_audio-fields_example =
    parse_audio-fields 10 3 1 1 (1 ∷ 33 ∷ []) (omega arith) (omega arith) (omega arith)
      (omega arith)

parse_video-fields_example :
    parse_video_header new_tag (0x17 ∷ 1 ∷ 0 ∷ 1 ∷ 2 ∷ 9 ∷ [])
    ≡ parsed 5 (record new_tag {
      frame_type = 1;
      codec_id = 7;
      avc_packet_type = 1;
      composition_time = 258;
    })
parse_video-fields_example =
    parse_video-fields 1 7 1 258 (9 ∷ []) (inl refl) (omega arith) (omega arith)

demux-crash_iff_example : (demux lone_aac ≡ crash) ↔ IsLoneAac lone_aac
demux-crash_iff_example = demux-crash_iff lone_aac

parse-fields_example :
    (h : List ℕ) × ((parse (parse new_parser (0x12 ∷ 0x10 ∷ []) 0).0 (9 ∷ []) 1).1
      ≡ ok (h ++ (9 ∷ [])))
    × (length h ≡ 7)
    × (frame_length h ≡ length h + 1)
    × (rate_index h ≡ 4)
    × (profile h ≡ 1)
    × (channels h ≡ 2)
parse-fields_example =
    parse-fields new_parser 0x12 0x10 [] 9 [] (omega arith) (omega arith) (omega arith)

abbrev slice : List ℕ
slice = 1 ∷ 2 ∷ 3 ∷ 4 ∷ 5 ∷ 6 ∷ 7 ∷ 8 ∷ []

readers-digits_example :
    (u16_be slice ≡ digits_be 2 0 slice)
    × (u24_be slice ≡ digits_be 3 0 slice)
    × (u32_be slice ≡ digits_be 4 0 slice)
    × (u40_be slice ≡ digits_be 5 0 slice)
    × (u64_be slice ≡ digits_be 8 0 slice)
readers-digits_example = readers-digits slice (
  omega arith,
  (
    omega arith,
    (omega arith, (omega arith, (omega arith, (omega arith, (omega arith, (omega arith, tt)))))),
  ),
)

writers-bytes_example :
    (put_u16_be slice 300 ≡ overwrite (bytes_be 2 300) slice)
    × (put_u24_be slice 300 ≡ overwrite (bytes_be 3 300) slice)
    × (put_u32_be slice 300 ≡ overwrite (bytes_be 4 300) slice)
    × (put_u40_be slice 300 ≡ overwrite (bytes_be 5 300) slice)
    × (put_u48_be slice 300 ≡ overwrite (bytes_be 6 300) slice)
    × (put_u64_be slice 300 ≡ overwrite (bytes_be 8 300) slice)
writers-bytes_example = writers-bytes slice 300

signed-ReadsBack_example :
    ReadsBack 2 put_i16_be i16_be slice 65535
    × ReadsBack 3 put_i24_be i24_be slice 4294967295
    × ReadsBack 4 put_i32_be i32_be slice 4294967295
    × ReadsBack 8 put_i64_be i64_be slice 18446744073709551615
    × ReadsBack 4 put_u32_le u32_le slice 77
signed-ReadsBack_example =
    signed-ReadsBack slice 65535 4294967295 4294967295 18446744073709551615 77 (omega arith)
      (omega arith) (inr (omega arith, omega arith)) (omega arith) (omega arith) (omega arith)
