-- ===== src/Aac.antt =====
-- parser/aac/parser.go: AAC frames behind ADTS headers. The header slice is written whole by each
-- frame, so it is no state. The writer takes every byte.
pub mod Laws
use live.Base.{
  ℕ, zero, suc, ◌+◌, ◌*◌, ◌/◌, ◌%◌, ◌^◌, bit_and, bit_or, Bool, true, false, not, ◌||◌, Option,
  none, some, List, [], ◌∷◌, ◌++◌, if◌then◌else◌, ◌==◌, leb, length, get_or,
}
use live.Flv.Tag.{aac_seqhdr, aac_raw}

pub record Parser : Type 0 where
  pub getted_specific : Bool
  pub object_type : ℕ
  pub sample_rate : ℕ
  pub channel : ℕ

abbrev pub new_parser : Parser
new_parser = record { getted_specific = false; object_type = 0; sample_rate = 0; channel = 0 }

pub data Outcome : Type 0 where
  specific_buf_invalid audio_buf_invalid : Outcome
  ok : List ℕ → Outcome

unfoldable pub specific_info : Parser → List ℕ → Parser × Outcome
specific_info parser (s0 ∷ s1 ∷ src) = (
  record {
    getted_specific = true;
    object_type = bit_and (s0 / 2 ^ 3) 0xff;
    sample_rate = bit_or (bit_and s0 0x07 * 2) (s1 / 2 ^ 7);
    channel = bit_and (s1 / 2 ^ 3) 0x0f;
  },
  ok [],
)
specific_info parser _ = (parser, specific_buf_invalid)

-- Bytes and the uint16 `frameLen` wrap around at each shift.
unfoldable pub adts_header : Parser → ℕ → List ℕ
adts_header parser frame_len =
    0xff
    ∷ 0xf1
    ∷ bit_or ((parser.object_type + 255) % 2 ^ 8 * 2 ^ 6 % 2 ^ 8)
        (parser.sample_rate * 2 ^ 2 % 2 ^ 8)
    ∷ bit_or (parser.channel * 2 ^ 2 % 2 ^ 8 * 2 ^ 4 % 2 ^ 8)
        (frame_len * 2 ^ 3 % 2 ^ 16 / 2 ^ 14 % 2 ^ 8)
    ∷ (frame_len * 2 ^ 5 % 2 ^ 16 / 2 ^ 8 % 2 ^ 8)
    ∷ bit_or (frame_len * 2 ^ 13 % 2 ^ 16 / 2 ^ 13 * 2 ^ 5 % 2 ^ 16 % 2 ^ 8) (0x7c * 2 / 2 ^ 3)
    ∷ 0xfc
    ∷ []

unfoldable pub adts : Parser → List ℕ → Outcome
adts parser src =
    if leb (length src) 0 || not parser.getted_specific
    then audio_buf_invalid
    else ok (adts_header parser ((length src % 2 ^ 16 + 7) % 2 ^ 16) ++ src)

abbrev pub aac_rates : List ℕ
aac_rates =
    96000 ∷ 88200 ∷ 64000 ∷ 48000 ∷ 44100 ∷ 32000 ∷ 24000 ∷ 22050 ∷ 16000 ∷ 12000 ∷ 11025 ∷ 8000
    ∷ 7350 ∷ []

unfoldable pub sample_rate : Parser → ℕ
sample_rate parser =
    if leb parser.sample_rate 12 then get_or aac_rates parser.sample_rate 44100 else 44100

unfoldable pub parse : Parser → List ℕ → ℕ → Parser × Outcome
parse parser b packet_type =
    if packet_type == aac_seqhdr
    then specific_info parser b
    else (if packet_type == aac_raw then (parser, adts parser b) else (parser, ok []))
