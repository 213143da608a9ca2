-- ===== src/Flv/Laws.antt =====
-- What the demuxer does with every packet, and the tags that it reads.
use live.Base.{
  ℕ, ◌+◌, ◌*◌, ◌/◌, ◌%◌, ◌^◌, ◌<◌, ◌≡◌, ◌≢◌, ◌↔◌, ◌⊎◌, inl, inr, refl, ◌∙◌, Bool-cases, true, false,
  List, [], ◌∷◌, arith, if◌then◌else◌, ◌==◌, bit_and, bit_and-ones,
}
use live.Av.{Packet}
use live.Flv.Tag.{
  Tag, new_tag, parsed, panic, parse_audio_header, parse_video_header, parse_media_tag_header,
}
use live.Flv.Demuxer.{crash, is_end_of_sequence, demux}

-- The audio tag of a packet as bytes.
abbrev pub audio_bytes : ℕ → ℕ → ℕ → ℕ → List ℕ → List ℕ
audio_bytes format rate size type b = (format * 16 + rate * 4 + size * 2 + type) ∷ b

abbrev pub audio_tag : ℕ → ℕ → ℕ → ℕ → ℕ → Tag
audio_tag format rate size type packet_type = record new_tag {
  sound_format = format;
  sound_rate = rate;
  sound_size = size;
  sound_type = type;
  aac_packet_type = packet_type;
}

abbrev audio_flags : ℕ → ℕ → ℕ → ℕ → ℕ
audio_flags format rate size type = format * 16 + rate * 4 + size * 2 + type

audio_masks :
    (format rate size type : ℕ)
    → format < 16
    → rate < 4
    → size < 2
    → type < 2
    → (audio_flags format rate size type / 16 ≡ format)
      × (bit_and (audio_flags format rate size type / 4) 0x3 ≡ rate)
      × (bit_and (audio_flags format rate size type / 2) 0x1 ≡ size)
      × (bit_and (audio_flags format rate size type) 0x1 ≡ type)
audio_masks format rate size type hf hr hs ht = (
  omega arith,
  bit_and-ones 2 (audio_flags format rate size type / 4) ∙ omega arith,
  bit_and-ones 1 (audio_flags format rate size type / 2) ∙ omega arith,
  bit_and-ones 1 (audio_flags format rate size type) ∙ omega arith,
)

-- Every well-formed audio header is read field by field: AAC takes its packet type from the second
-- byte, and panics where there is none; every other format takes one byte.
pub parse_audio-fields :
    (format rate size type : ℕ) (b : List ℕ)
    → format < 16
    → rate < 4
    → size < 2
    → type < 2
    → parse_audio_header new_tag (audio_bytes format rate size type b) ≡ (
        if format == 10
        then (elim b [ [] ↦ panic | t ∷ rest ↦ parsed 2 (audio_tag format rate size type t) ])
        else parsed 1 (audio_tag format rate size type 0))
unfolding parse_audio_header
parse_audio-fields format rate size type [] hf hr hs ht =
    ground (arith, audio_masks format rate size type hf hr hs ht)
parse_audio-fields format rate size type (t ∷ rest) hf hr hs ht =
    ground (arith, audio_masks format rate size type hf hr hs ht)

-- A video header of a key or inter frame gives its codec, its packet type and the composition time of
-- three bytes.
pub parse_video-fields :
    (frame codec packet_type time : ℕ) (rest : List ℕ)
    → (frame ≡ 1) ⊎ (frame ≡ 2)
    → codec < 16
    → time < 2 ^ 24
    → parse_video_header new_tag (
        (frame * 16 + codec)
        ∷ packet_type
        ∷ (time / 2 ^ 16)
        ∷ (time / 2 ^ 8 % 256)
        ∷ (time % 256)
        ∷ rest)
      ≡ parsed 5 (record new_tag {
        frame_type = frame;
        codec_id = codec;
        avc_packet_type = packet_type;
        composition_time = time;
      })
unfolding parse_video_header
parse_video-fields frame codec packet_type time rest hf hc ht =
    ground (arith, bit_and-ones 4 (frame * 16 + codec))

-- An audio payload of one byte that announces AAC.
abbrev pub IsLoneAac : Packet → Type 0
IsLoneAac p = (p.is_video ≡ false) × ((x : ℕ) × (p.payload ≡ x ∷ []) × (x / 16 ≡ 10))

video_no_crash : (p : Packet) (b : List ℕ) → p.payload ≡ b → p.is_video ≡ true → demux p ≢ crash
unfolding demux parse_media_tag_header parse_video_header is_end_of_sequence
video_no_crash p [] e v h = ground arith
video_no_crash p (b0 ∷ []) e v h = ground arith
video_no_crash p (b0 ∷ b1 ∷ []) e v h = ground arith
video_no_crash p (b0 ∷ b1 ∷ b2 ∷ []) e v h = ground arith
video_no_crash p (b0 ∷ b1 ∷ b2 ∷ b3 ∷ []) e v h = ground arith
video_no_crash p (b0 ∷ b1 ∷ b2 ∷ b3 ∷ b4 ∷ b) e v h = ground arith

audio_crash :
    (p : Packet) (b : List ℕ) → p.payload ≡ b → p.is_video ≡ false → demux p ≡ crash → IsLoneAac p
unfolding demux parse_media_tag_header parse_audio_header
audio_crash p [] e v h = ground arith
audio_crash p (x ∷ []) e v h = (v, (x, e, ground arith))
audio_crash p (x ∷ y ∷ b) e v h = ground arith

lone_aac_crash : (p : Packet) → IsLoneAac p → demux p ≡ crash
unfolding demux parse_media_tag_header parse_audio_header
lone_aac_crash p (v, (x, e, f)) = ground arith

-- `Demux` panics exactly on an audio packet of one byte that announces AAC.
pub demux-crash_iff : (p : Packet) → (demux p ≡ crash) ↔ IsLoneAac p
demux-crash_iff p = (forward, lone_aac_crash p)
  where
    forward : demux p ≡ crash → IsLoneAac p
    forward h = elim (Bool-cases p.is_video) [
      | inl v ↦ absurd (video_no_crash p p.payload refl v h)
      | inr v ↦ audio_crash p p.payload refl v h
    ]
