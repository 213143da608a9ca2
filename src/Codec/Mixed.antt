-- ===== src/Codec/Mixed.antt =====
-- Packets of a stream one after the other through Parse, audio and video mixed.
use live.Base.{
  ℕ, ◌+◌, ◌*◌, ◌/◌, ◌%◌, ◌<◌, ◌≡◌, ◌≢◌, refl, ap, true, false, Option, none, some, List, [], ◌∷◌,
  ◌++◌, length, All, ◌>>=◌,
}
use live.Av.{Packet}
use live.Flv.Tag.{Tag, is_seq, sound_aac, video_h264, aac_seqhdr, aac_raw}
use live.H264
use live.H264.{nalu_aud}
use live.H264.Format.{avcc, Fits, Ends, is_parameter, framed, byte_stream}
use live.H264.Pictures.{parse-picture}
use live.Aac
use live.Aac.Laws.{frame_length, rate_index, profile, channels, parse-fields}
use live.Codec.{
  CodecParser, Error, h264_error, map_error, or_new, of_h264, of_aac, parse, parse_with,
  parse_video, parse_audio,
}

-- An AAC packet, and a packet with an H.264 picture.
pub record IsAac (p : Packet) (packet_type : ℕ) (b : List ℕ) : Type 0 where
  pub tag : Tag
  pub audio : p.is_video ≡ false
  pub header : p.header ≡ some tag
  pub format : tag.sound_format ≡ sound_aac
  pub kind : tag.aac_packet_type ≡ packet_type
  pub payload : p.payload ≡ b

pub record IsPicture (p : Packet) (b : List ℕ) : Type 0 where
  pub tag : Tag
  pub video : p.is_video ≡ true
  pub header : p.header ≡ some tag
  pub codec : tag.codec_id ≡ video_h264
  pub no_seq : is_seq tag ≡ false
  pub payload : p.payload ≡ b

-- What is written for each packet, and its error.
abbrev pub parse_all : CodecParser → List Packet → Option (List (List ℕ × Option Error))
parse_all c [] = some []
parse_all c (p ∷ ps) =
    parse c p >>= λ r. parse_all r.parser ps >>= λ rs. some ((r.written, r.error) ∷ rs)

parse-aac :
    (c : CodecParser) (p : Packet) (ty : ℕ) (b : List ℕ)
    → IsAac p ty b
    → parse c p ≡ some (of_aac c (Aac.parse (or_new Aac.new_parser c.aac) b ty))
unfolding parse parse_with parse_audio
parse-aac c p ty b h = rw (h.audio, h.header, h.payload) (rw (h.format, h.kind) refl)

parse-video :
    (c : CodecParser) (p : Packet) (b : List ℕ)
    → IsPicture p b
    → parse c p ≡ (H264.parse (or_new H264.new_parser c.h264) b false >>= of_h264 c)
unfolding parse parse_with parse_video
parse-video c p b h = rw (h.video, h.header, h.payload) (rw h.no_seq (rw h.codec refl))

abbrev pub info_of : CodecParser → List ℕ
info_of c = (or_new H264.new_parser c.h264).specific_info

-- Parse on an AAC sequence header, an H.264 picture and an AAC frame, one after the other, from every
-- state: nothing is written for the first, the second is written as the Annex-B stream of its NALUs,
-- with the parameter sets that were there, and the third behind an ADTS header whose length is that of
-- both, with the rate index of the sequence header, the object type less one in two bits, and the
-- two lower bits of the channels. The picture's first NALU is not of one byte, and the frame has 1 to 8184.
pub parse_all-mixed :
    (c : CodecParser) (config video frame : Packet) (s0 s1 : ℕ) (cfg : List ℕ) (x : List ℕ)
    (nalus : List (List ℕ)) (tail : List ℕ) (e : Option H264.Error) (b : ℕ) (src : List ℕ)
    → IsAac config aac_seqhdr (s0 ∷ s1 ∷ cfg)
    → s0 < 256
    → s1 < 256
    → IsPicture video (avcc (x ∷ nalus) tail)
    → length x ≢ 1
    → All Fits (x ∷ nalus)
    → Ends tail e
    → IsAac frame aac_raw (b ∷ src)
    → length (b ∷ src) + 7 < 8192
    → (h : List ℕ) × (parse_all c (config ∷ video ∷ frame ∷ [])
        ≡ some (
            ([], none)
            ∷ (nalu_aud ++ byte_stream (info_of c) (x ∷ nalus), map_error h264_error e)
            ∷ (h ++ (b ∷ src), none)
            ∷ []))
      × (length h ≡ 7)
      × (frame_length h ≡ length h + length (b ∷ src))
      × (rate_index h ≡ s0 % 8 * 2 + s1 / 128)
      × (profile h ≡ (s0 / 8 + 3) % 4)
      × (channels h ≡ s1 / 8 % 16 % 4)
unfolding Aac.parse Aac.specific_info
parse_all-mixed c config video frame s0 s1 cfg x nalus tail e b src hc h0 h1 hv other fits ends hf
      short =
    let q0 = or_new Aac.new_parser c.aac in
    let p0 = or_new H264.new_parser c.h264 in
    let q1 = (Aac.parse q0 (s0 ∷ s1 ∷ cfg) aac_seqhdr).0 in
    let c1 = record c { aac = some q1 } in
    let (h, written, len, flen, rate, prof, chan) = parse-fields q0 s0 s1 cfg b src h0 h1 short in
    let c2 = record c1 { h264 = some (record p0 { pps = framed is_parameter (x ∷ nalus) }) } in
    (
      h,
      rw (parse-aac c config aac_seqhdr (s0 ∷ s1 ∷ cfg) hc) (
          rw
            (
              parse-video c1 video (avcc (x ∷ nalus) tail) hv,
              (parse-picture p0 x nalus tail [] e other fits ends).0,
            )
            (rw (parse-aac c2 frame aac_raw (b ∷ src) hf) (
              ap
                (λ (o : Aac.Outcome). some (
                  ([], none)
                  ∷ (nalu_aud ++ byte_stream p0.specific_info (x ∷ nalus), map_error h264_error e)
                  ∷ ((of_aac c2 (q1, o)).written, (of_aac c2 (q1, o)).error)
                  ∷ []))
                written))),
      len,
      flen,
      rate,
      prof,
      chan,
    )
