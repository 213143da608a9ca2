-- ===== src/Mp3.antt =====
-- parser/mp3/parser.go: the sampling rate of MP3 frames.
use live.Base.{
  ℕ, ◌/◌, ◌^◌, bit_and, Option, none, some, List, [], ◌∷◌, if◌then◌else◌, ◌==◌, leb, get_or,
}

pub record Parser : Type 0 where
  pub sampling_frequency : ℕ

abbrev pub new_parser : Parser
new_parser = record { sampling_frequency = 0 }

pub data Error : Type 0 where
  mp3_data_invalid index_invalid : Error

abbrev pub mp3_rates : List ℕ
mp3_rates = 44100 ∷ 48000 ∷ 32000 ∷ []

unfoldable pub parse : Parser → List ℕ → Parser × Option Error
parse parser (b0 ∷ b1 ∷ b2 ∷ src) =
    let index = bit_and (b2 / 2 ^ 2) 0x3 in
    if leb index 2
    then (record { sampling_frequency = get_or mp3_rates index 0 }, none)
    else (parser, some index_invalid)
parse parser _ = (parser, some mp3_data_invalid)

-- The rate that is not set yet is set here.
unfoldable pub sample_rate : Parser → Parser × ℕ
sample_rate parser =
    if parser.sampling_frequency == 0
    then (record { sampling_frequency = 44100 }, 44100)
    else (parser, parser.sampling_frequency)
