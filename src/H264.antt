-- ===== src/H264.antt =====
-- parser/h264/parser.go: H.264 pictures as an Annex-B byte stream. The writer takes every byte, so an
-- outcome is the parser, the bytes written and the error, `none` for success. The field `frameType`
-- and the local `sequenceHeader` are only set, and are left out.
pub mod Format
pub mod Rounds
pub mod Kinds
pub mod Written
pub mod Pictures
pub mod Config
use live.Base.{
  ℕ, zero, suc, ◌+◌, ◌*◌, ◌/◌, ◌%◌, ◌^◌, bit_and, bit_or, Bool, true, false, not, ◌&&◌, ◌||◌,
  Option, none, some, List, [], ◌∷◌, ◌++◌, if◌then◌else◌, ◌==◌, ltb, leb, length, get_or, take,
  drop, replicate,
}

pub data Error : Type 0 where
  dec_data_nil sps_data_error pps_header_error pps_data_error : Error
  video_data_invalid data_size_not_match nalu_body_len_error : Error

abbrev pub start_code : List ℕ
start_code = 0x00 ∷ 0x00 ∷ 0x00 ∷ 0x01 ∷ []

abbrev pub nalu_aud : List ℕ
nalu_aud = 0x00 ∷ 0x00 ∷ 0x00 ∷ 0x01 ∷ 0x09 ∷ 0xf0 ∷ []

pub record Parser : Type 0 where
  pub specific_info : List ℕ
  pub pps : List ℕ

-- The buffer starts with the zeros that it was made of.
unfoldable pub new_parser : Parser
new_parser = record { specific_info = []; pps = replicate 2048 0 }

pub record Outcome : Type 0 where
  pub parser : Parser
  pub written : List ℕ
  pub error : Option Error

-- The pps is all that follows its header, `ppsLen` bytes or more.
unfoldable pub parse_pps : Parser → List ℕ → List ℕ → Parser × Option Error
parse_pps parser sps tmp_buf =
    let pps_len = bit_or (get_or tmp_buf 1 0 * 2 ^ 8) (get_or tmp_buf 2 0) in
    if ltb (length tmp_buf) 4
    then (parser, some pps_header_error)
    else (if ltb (length (drop 3 tmp_buf)) pps_len || leb pps_len 0
        then (parser, some pps_data_error)
        else (
          record parser {
            specific_info = (parser.specific_info ++ sps) ++ (start_code ++ drop 3 tmp_buf);
          },
          none,
        ))

unfoldable pub parse_specific_info : Parser → List ℕ → Parser × Option Error
parse_specific_info parser src =
    let sps_len = bit_or (get_or src 6 0 * 2 ^ 8) (get_or src 7 0) in
    if ltb (length src) 9
    then (parser, some dec_data_nil)
    else (if ltb (length (drop 8 src)) sps_len || leb sps_len 0
        then (parser, some sps_data_error)
        else parse_pps parser (start_code ++ take sps_len (drop 8 src)) (drop (8 + sps_len) src))

unfoldable pub is_nalu_header : List ℕ → Bool
is_nalu_header src =
    not (ltb (length src) 4)
    && get_or src 0 0 == 0x00
    && get_or src 1 0 == 0x00
    && get_or src 2 0 == 0x00
    && get_or src 3 0 == 0x01

unfoldable pub nalu_size : List ℕ → Option ℕ
nalu_size (b0 ∷ b1 ∷ b2 ∷ b3 ∷ src) =
    some ((((0 * 2 ^ 8 + b0) * 2 ^ 8 + b1) * 2 ^ 8 + b2) * 2 ^ 8 + b3)
nalu_size _ = none

-- The variables of the loop that a NALU changes, the buffer of parameter sets and what is written.
pub record Progress : Type 0 where
  pub has_sps_pps : Bool
  pub has_write_sps_pps : Bool
  pub pps : List ℕ
  pub written : List ℕ

abbrev pub write : List ℕ → Progress → Progress
write b st = record st { written = st.written ++ b }

unfoldable pub write_nalu : List ℕ → Progress → Progress
write_nalu nalu st = write nalu (write start_code st)

unfoldable pub write_sps_pps : List ℕ → Progress → Progress
write_sps_pps info st =
    if st.has_write_sps_pps
    then st
    else write (if st.has_sps_pps then st.pps else info) (record st { has_write_sps_pps = true })

unfoldable pub keep_sps_pps : List ℕ → Progress → Progress
keep_sps_pps nalu st = record st { has_sps_pps = true; pps = (st.pps ++ start_code) ++ nalu }

unfoldable pub nalu_type : List ℕ → ℕ
nalu_type nalu = bit_and (get_or nalu 0 0) 0x1f

unfoldable pub nalu_step : List ℕ → List ℕ → Progress → Progress
nalu_step info nalu st =
    let ty = nalu_type nalu in
    if ty == 5
    then write_nalu nalu (write_sps_pps info st)
    else (if ty == 1 || ty == 6
        then write_nalu nalu st
        else (if ty == 7 || ty == 8 then keep_sps_pps nalu st else st))

-- A round of the loop breaks off with an error, or goes on with the rest of the picture.
pub data Turn : Type 0 where
  stop : Progress → Error → Turn
  go_on : List ℕ → Progress → Turn

-- `src` is what is left of the picture, `dataSize` bytes.
unfoldable pub annexb_turn : List ℕ → List ℕ → Option ℕ → Progress → Turn
annexb_turn info src none st = stop st data_size_not_match
annexb_turn info src (some nal_len) st =
    let body = drop 4 src in
    if leb nal_len (length body) && ltb 0 nal_len
    then go_on (drop nal_len body) (nalu_step info (take nal_len body) st)
    else stop st nalu_body_len_error

unfoldable pub after_turn :
    (List ℕ → Progress → Option (Progress × Option Error)) → Turn → Option (Progress × Option Error)
after_turn loop (stop st e) = some (st, some e)
after_turn loop (go_on src st) = loop src st

-- `none` is the end of the fuel.
unfoldable pub annexb_loop : ℕ → List ℕ → List ℕ → Progress → Option (Progress × Option Error)
annexb_loop zero info src st = none
annexb_loop (suc n) info [] st = some (st, none)
annexb_loop (suc n) info (b ∷ src) st =
    after_turn (annexb_loop n info) (annexb_turn info (b ∷ src) (nalu_size (b ∷ src)) st)

abbrev pub outcome : Parser → Progress × Option Error → Outcome
outcome parser (st, e) = record {
  parser = record parser { pps = st.pps };
  written = st.written;
  error = e;
}

abbrev pub new_progress : Progress
new_progress = record {
  has_sps_pps = false;
  has_write_sps_pps = false;
  pps = [];
  written = nalu_aud;
}

-- One round of the loop for each byte is enough, and one more for its end.
unfoldable pub get_annexb_h264 : Parser → List ℕ → Option Outcome
get_annexb_h264 parser src =
    if ltb (length src) 4
    then some (record { parser = parser; written = []; error = some video_data_invalid })
    else (elim (annexb_loop (suc (length src)) parser.specific_info src new_progress) [
      | some r ↦ some (outcome parser r)
      | none ↦ none
    ])

abbrev pub no_write : Parser × Option Error → Outcome
no_write (parser, e) = record { parser = parser; written = []; error = e }

unfoldable pub parse : Parser → List ℕ → Bool → Option Outcome
parse parser b is_seq =
    if is_seq
    then some (no_write (parse_specific_info parser b))
    else (if is_nalu_header b
        then some (record { parser = parser; written = b; error = none })
        else get_annexb_h264 parser b)
