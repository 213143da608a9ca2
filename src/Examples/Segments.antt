-- ===== src/Examples/Segments.antt =====
-- Concrete inputs for the theorems on AMF3, FLV files and HLS segments.
use live.Base.{ℕ, ◌+◌, ◌*◌, ◌≤◌, ◌≡◌, ◌⊎◌, refl, true, false, none, [], ◌∷◌, ◌++◌, arith, replicate}
use live.Av.{Packet}
use live.Amf.Decoder.{failed}
use live.Amf.Value.{same_key}
use live.Amf3.Value.{no_refs}
use live.Amf3.Reading.{decode_u29, decode_string}
use live.Amf3.Reading
use live.Amf3.Writing.{encode_uint29, encode_utf8}
use live.Amf3.Taken.{Taken, decode_u29-Taken}
use live.Amf3.Leaves.{decode_string-twice}
use live.Flv.Writer.{FlvWriter, data_of, type_id}
use live.Flv.Files.{no_bodies, body, tag_of, Reads, write_all-read}
use live.Hls.Cache.{new_ts_cache_item, gen_m3u8_play_list}
use live.Hls.Kept.{Entry, set_all}
use live.Hls.PlayList.{gen_m3u8-set_all}
use live.Hls.Timing.{Align, est_pts, align, new_audio_cache, cache_num, get_frame}
use live.Hls.Steady.{cache_all, align-steady, get_frame-cache_all}

decode_u29-Taken_example :
    (decode_u29 no_refs (0x81 ∷ 0x05 ∷ 9 ∷ []) ≡ Reading.failed)
    ⊎ Taken no_refs (0x81 ∷ 0x05 ∷ 9 ∷ []) 4 (decode_u29 no_refs (0x81 ∷ 0x05 ∷ 9 ∷ []))
decode_u29-Taken_example =
    decode_u29-Taken no_refs (0x81 ∷ 0x05 ∷ 9 ∷ []) (omega arith, (omega arith, (omega arith, tt)))

decode_string-twice_example :
    (decode_string false no_refs
        ((encode_utf8 (97 ∷ 98 ∷ [])).out ++ ((encode_uint29 (0 * 2)).out ++ (5 ∷ [])))
      ≡ Reading.done
          (97 ∷ 98 ∷ [])
          (record no_refs { string_refs = (97 ∷ 98 ∷ []) ∷ [] })
          ((encode_uint29 (0 * 2)).out ++ (5 ∷ [])))
    × (decode_string false
          (record no_refs { string_refs = (97 ∷ 98 ∷ []) ∷ [] })
          ((encode_uint29 (0 * 2)).out ++ (5 ∷ []))
        ≡ Reading.done
            (97 ∷ 98 ∷ [])
            (record no_refs { string_refs = (97 ∷ 98 ∷ []) ∷ [] })
            (5 ∷ []))
decode_string-twice_example =
    decode_string-twice 97 (98 ∷ []) no_refs (5 ∷ []) (omega arith) (omega arith)

abbrev audio : Packet
audio = record {
  is_audio = true;
  is_video = false;
  is_metadata = false;
  time_stamp = 20000000;
  stream_id = 1;
  header = none;
  payload = 0xaf ∷ 1 ∷ 33 ∷ [];
}

abbrev file_writer : FlvWriter
file_writer = record {
  base = record { base_timestamp = 5; last_video_timestamp = 0; last_audio_timestamp = 0 };
  buf = replicate 11 0;
}

write_all-read_example :
    Reads
      (λ _. failed)
      (audio ∷ audio ∷ [])
      file_writer
      (tag_of (λ _. failed) 5 audio (0xaf ∷ 1 ∷ 33 ∷ [])
        ∷ tag_of (λ _. failed) 5 audio (0xaf ∷ 1 ∷ 33 ∷ [])
        ∷ [])
      (9 ∷ [])
unfolding data_of type_id
write_all-read_example =
    write_all-read (λ _. failed) file_writer (audio ∷ audio ∷ [])
      (tag_of (λ _. failed) 5 audio (0xaf ∷ 1 ∷ 33 ∷ [])
        ∷ tag_of (λ _. failed) 5 audio (0xaf ∷ 1 ∷ 33 ∷ [])
        ∷ [])
      (9 ∷ [])
      (record { b0 = 0; b1 = 0; b2 = 0; b3 = 0; b4 = 0; b5 = 0; b6 = 0; b7 = 0; shape = refl })
      (body audio (0xaf ∷ 1 ∷ 33 ∷ []) (audio ∷ []) _ refl (omega arith)
        (body audio (0xaf ∷ 1 ∷ 33 ∷ []) [] [] refl (omega arith) no_bodies))

abbrev segment : ℕ → Entry
segment n = (n ∷ [], record { name = n ∷ []; seq_num = n; duration = 1000 * n; payload = [] })

gen_m3u8-set_all_example :
    gen_m3u8_play_list
      (set_all (segment 1 ∷ segment 2 ∷ segment 3 ∷ segment 4 ∷ []) (new_ts_cache_item []))
    ≡ record {
      target_duration = 5;
      media_sequence = 2;
      segments = (2000, 2 ∷ []) ∷ (3000, 3 ∷ []) ∷ (4000, 4 ∷ []) ∷ [];
    }
unfolding same_key
gen_m3u8-set_all_example =
    gen_m3u8-set_all [] (segment 1 ∷ segment 2 ∷ segment 3 ∷ segment 4 ∷ []) (
      ((refl, refl), ((refl, refl), ((refl, refl), tt))),
      (((refl, refl), ((refl, refl), tt)), (((refl, refl), tt), (tt, tt))),
    )

abbrev aligned : Align
aligned = record { frame_num = 2; frame_base = 9000 }

align-steady_example :
    ((align aligned 13100 2089).1 ≤ 13100 + 180)
    × (13100 ≤ (align aligned 13100 2089).1 + 180)
    × (est_pts (align aligned 13100 2089).0 2089 ≡ (align aligned 13100 2089).1 + 2089)
align-steady_example =
    align-steady aligned 13100 2089 (omega arith) (omega arith) (omega arith) (omega arith)

get_frame-cache_all_example :
    (cache_num (cache_all ((1 ∷ [], 90) ∷ (2 ∷ 3 ∷ [], 180) ∷ []) new_audio_cache) ≡ 2)
    × ((get_frame (cache_all ((1 ∷ [], 90) ∷ (2 ∷ 3 ∷ [], 180) ∷ []) new_audio_cache)).1
        ≡ (3, (90, 1 ∷ 2 ∷ 3 ∷ [])))
    × (cache_num (get_frame (cache_all ((1 ∷ [], 90) ∷ (2 ∷ 3 ∷ [], 180) ∷ []) new_audio_cache)).0
        ≡ 0)
unfolding cache_num
get_frame-cache_all_example =
    get_frame-cache_all new_audio_cache (1 ∷ [], 90) ((2 ∷ 3 ∷ [], 180) ∷ []) refl (omega arith)
