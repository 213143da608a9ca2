-- ===== src/Ts/Tables.antt =====
-- container/ts/muxer.go: the packets of the program tables. The arrays `pat` and `pmt` are written
-- whole by each call, so they are no state.
use live.Base.{
  ℕ, ◌+◌, ◌-◌, ◌/◌, ◌%◌, ◌^◌, bit_and, bit_or, Bool, ◌||◌, List, [], ◌∷◌, ◌++◌, if◌then◌else◌, ◌==◌,
  ltb, length, replicate,
}
use live.Ts.Muxer.{Muxer}
use live.Ts.Crc.{gen_crc32}

-- `if cc > 0xf { cc = 0 }`
abbrev pub start_cc : ℕ → ℕ
start_cc cc = if ltb 0xf cc then 0 else cc

-- The check sum behind the section, and the padding up to 188 bytes.
unfoldable pub finish_table : List ℕ → List ℕ → List ℕ
finish_table ts_header section =
    let crc32_value = gen_crc32 section in
    ts_header
    ++ (section
        ++ ((crc32_value / 2 ^ 24 % 256)
            ∷ (crc32_value / 2 ^ 16 % 256)
            ∷ (crc32_value / 2 ^ 8 % 256)
            ∷ (crc32_value % 256)
            ∷ replicate (188 - (length ts_header + length section + 4)) 0xff))

abbrev pub pat_header : List ℕ
pat_header = 0x00 ∷ 0xb0 ∷ 0x0d ∷ 0x00 ∷ 0x01 ∷ 0xc1 ∷ 0x00 ∷ 0x00 ∷ 0x00 ∷ 0x01 ∷ 0xf0 ∷ 0x01 ∷ []

unfoldable pub pat : Muxer → Muxer × List ℕ
pat m =
    let cc = start_cc m.pat_cc in
    (
      record m { pat_cc = (cc + 1) % 256 },
      finish_table (0x47 ∷ 0x40 ∷ 0x00 ∷ bit_or 0x10 (bit_and cc 0x0f) ∷ 0x00 ∷ []) pat_header,
    )

-- `soundFormat == 2 || soundFormat == 14`, the formats of MP3
abbrev pub is_mp3 : ℕ → Bool
is_mp3 sound_format = sound_format == 2 || sound_format == 14

unfoldable pub prog_info : Bool → Bool → List ℕ
prog_info mp3 has_video =
    let audio = if mp3 then 0x04 else 0x0f in
    if has_video
    then 0x1b ∷ 0xe1 ∷ 0x00 ∷ 0xf0 ∷ 0x00 ∷ audio ∷ 0xe1 ∷ 0x01 ∷ 0xf0 ∷ 0x00 ∷ []
    else audio ∷ 0xe1 ∷ 0x01 ∷ 0xf0 ∷ 0x00 ∷ []

abbrev pub pmt_header : Bool → ℕ → List ℕ
pmt_header has_video len =
    0x02
    ∷ 0xb0
    ∷ ((len + 9 + 4) % 256)
    ∷ 0x00
    ∷ 0x01
    ∷ 0xc1
    ∷ 0x00
    ∷ 0x00
    ∷ 0xe1
    ∷ (if has_video then 0x00 else 0x01)
    ∷ 0xf0
    ∷ 0x00
    ∷ []

unfoldable pub pmt_packet : ℕ → Bool → Bool → List ℕ
pmt_packet cc mp3 has_video =
    let info = prog_info mp3 has_video in
    finish_table (0x47 ∷ 0x50 ∷ 0x01 ∷ bit_or 0x10 (bit_and cc 0x0f) ∷ 0x00 ∷ [])
      (pmt_header has_video (length info) ++ info)

unfoldable pub pmt : Muxer → ℕ → Bool → Muxer × List ℕ
pmt m sound_format has_video = (
  record m { pmt_cc = (start_cc m.pmt_cc + 1) % 256 },
  pmt_packet (start_cc m.pmt_cc) (is_mp3 sound_format) has_video,
)
