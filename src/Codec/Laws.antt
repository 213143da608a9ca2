-- ===== src/Codec/Laws.antt =====
-- The dispatch of Parse over the codecs, and the sampling rate that it leads to.
use live.Base.{
  ℕ, ◌+◌, ◌*◌, ◌/◌, ◌%◌, ◌<◌, ◌≡◌, refl, ap, bit_and-ones, bit_or-add, Bool, true, false, ◌>>=◌,
  Option, none, some, List, [], ◌∷◌, arith, if◌then◌else◌, ◌==◌, ltb, length, get_or, All, IsByte,
}
use native.Mathlib.Decide.{dec_le}
use live.Flv.Tag.{Tag, is_seq, sound_aac, video_h264, aac_seqhdr}
use live.Av.{Packet}
use live.H264
use live.H264.Pictures.{get_annexb-ends}
use live.Aac
use live.Codec.{
  CodecParser, Parsed, parse, parse_with, parse_video, parse_audio, sample_rate, rate_of, of_h264,
  or_new,
}

abbrev Returns : {A : Type 0} → Option A → Type 0
Returns {A} o = (a : A) × (o ≡ some a)

if-Returns :
    {A : Type 0} (c : Bool) (x y : Option A)
    → Returns x
    → (c ≡ false → Returns y)
    → Returns (if c then x else y)
if-Returns true x y h k = h
if-Returns false x y h k = k refl

too_short :
    (q : H264.Parser) (b : List ℕ)
    → ltb (length b) 4 ≡ true
    → H264.get_annexb_h264 q b
      ≡ some (record { parser = q; written = []; error = some H264.video_data_invalid })
unfolding H264.get_annexb_h264
too_short q b h = rw h refl

annexb-Returns : (q : H264.Parser) (b : List ℕ) → All IsByte b → Returns (H264.get_annexb_h264 q b)
annexb-Returns q b bs = elim (dec_le 4 (length b)) [
  | yes h ↦ let (u, e) = get_annexb-ends q b bs h in (_, e)
  | no h ↦ (_, too_short q b (ground arith))
]

h264-Returns :
    (q : H264.Parser) (b : List ℕ) (seq : Bool) → All IsByte b → Returns (H264.parse q b seq)
unfolding H264.parse
h264-Returns q b seq bs =
    if-Returns seq _ _ (_, refl)
      (λ _. if-Returns (H264.is_nalu_header b) _ _ (_, refl) (λ _. annexb-Returns q b bs))

of_h264-Returns :
    (c : CodecParser) (o : Option H264.Outcome) → Returns o → Returns (o >>= of_h264 c)
of_h264-Returns c o (a, e) = (_, ap (λ (o : Option H264.Outcome). o >>= of_h264 c) e)

parse_with-Returns :
    (c : CodecParser) (is_video : Bool) (header : Option Tag) (b : List ℕ)
    → All IsByte b
    → Returns (parse_with c is_video header b)
unfolding parse_with parse_video
parse_with-Returns c is_video none b bs = (_, refl)
parse_with-Returns c false (some f) b bs = (_, refl)
parse_with-Returns c true (some f) b bs =
    if-Returns (f.codec_id == video_h264) _ _
      (of_h264-Returns c _ (h264-Returns (or_new H264.new_parser c.h264) b (is_seq f) bs))
      (λ _. (_, refl))

-- Parse comes to an end on every packet of bytes, with every header and in every state of the parsers.
pub parse-returns :
    (c : CodecParser) (p : Packet) → All IsByte p.payload → (r : Parsed) × (parse c p ≡ some r)
unfolding parse
parse-returns c p bs = parse_with-Returns c p.is_video p.header p.payload bs

-- The rate that an AAC sequence header names by its index.
abbrev pub rate_at : ℕ → ℕ
rate_at i = if ltb i 13 then get_or Aac.aac_rates i 44100 else 44100

abbrev pub rate_after : Option Parsed → Option ℕ
rate_after none = none
rate_after (some r) = (sample_rate r.parser).1

aac_rate :
    (q : Aac.Parser) (s0 s1 : ℕ) (cfg : List ℕ)
    → s0 < 256
    → s1 < 256
    → Aac.sample_rate (Aac.specific_info q (s0 ∷ s1 ∷ cfg)).0 ≡ rate_at (s0 % 8 * 2 + s1 / 128)
unfolding Aac.sample_rate Aac.specific_info
aac_rate q s0 s1 cfg h0 h1 =
    rw (bit_and-ones 3 s0, bit_or-add 1 (s0 % 8) (s1 / 128) (omega arith)) (ground arith)

-- The sampling rate after an AAC sequence header is the one of its index, whatever was parsed
-- before, and 44100 for an index that names none.
pub sample_rate-aac :
    (c : CodecParser) (p : Packet) (f : Tag) (s0 s1 : ℕ) (cfg : List ℕ)
    → s0 < 256
    → s1 < 256
    → p.is_video ≡ false
    → p.header ≡ some f
    → f.sound_format ≡ sound_aac
    → f.aac_packet_type ≡ aac_seqhdr
    → p.payload ≡ s0 ∷ s1 ∷ cfg
    → rate_after (parse c p) ≡ some (rate_at (s0 % 8 * 2 + s1 / 128))
unfolding parse parse_with parse_audio sample_rate rate_of Aac.parse Aac.specific_info
sample_rate-aac c p f s0 s1 cfg h0 h1 v hd fmt ty pl =
    rw (v, hd, pl) (rw (fmt, ty) (ap some (aac_rate (or_new Aac.new_parser c.aac) s0 s1 cfg h0 h1)))
