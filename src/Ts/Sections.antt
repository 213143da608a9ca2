-- ===== src/Ts/Sections.antt =====
-- A reader of the program tables, as ISO/IEC 13818-1 lays them out, against PAT and PMT.
use live.Base.{
  ℕ, zero, suc, ◌+◌, ◌-◌, ◌*◌, ◌/◌, ◌%◌, ◌≤◌, ◌≡◌, refl, ap, bit_and, bit_or, Bool, true, false,
  ◌&&◌, holds_below_at, ==_iff, Option, none, some, List, [], ◌∷◌, arith, if◌then◌else◌, ◌==◌,
  length, get_or, take, drop, ◌>>=◌,
}
use live.Ts.Muxer.{Muxer}
use live.Ts.Demux.{read_packet, same}
use live.Ts.Crc.{gen_crc32, crc_loop, crc_step, crc_table}
use live.Ts.Tables.{start_cc, finish_table, pat, pmt, is_mp3, pmt_packet, prog_info}

-- Behind the pointer byte, a section of the length that it says, if its check sum is 0.
abbrev pub section_length : List ℕ → ℕ
section_length s = get_or s 1 0 % 16 * 256 + get_or s 2 0

abbrev pub checked : List ℕ → Option (List ℕ)
checked s = if gen_crc32 s == 0 then some s else none

abbrev pub section_of : List ℕ → Option (List ℕ)
section_of [] = none
section_of (pointer ∷ b) = checked (take (3 + section_length (drop pointer b)) (drop pointer b))

-- The section in a packet of this stream with this counter.
abbrev pub read_section : ℕ → ℕ → List ℕ → Option (List ℕ)
read_section id cc p = read_packet id true cc p >>= section_of

abbrev pub pid_at : List ℕ → ℕ
pid_at b = get_or b 0 0 % 32 * 256 + get_or b 1 0

-- The number and the table of the one program.
abbrev pub program : List ℕ → ℕ × ℕ
program s = (get_or s 8 0 * 256 + get_or s 9 0, pid_at (drop 10 s))

-- The type and the stream of each of `n` parts.
abbrev pub parts : ℕ → List ℕ → List (ℕ × ℕ)
parts zero b = []
parts (suc n) b = (get_or b 0 0, pid_at (drop 1 b)) ∷ parts n (drop (5 + get_or b 4 0) b)

abbrev pub streams : List ℕ → List (ℕ × ℕ)
streams s = parts ((section_length s - 13) / 5) (drop 12 s)

control : (c : ℕ) → c ≤ 15 → bit_or 0x10 (bit_and c 0x0f) ≡ 16 + c
control c h =
    (==_iff _ _).0
      (holds_below_at 16 (λ (c : ℕ). bit_or 0x10 (bit_and c 0x0f) == 16 + c) c refl (omega arith))

start_small : (c : ℕ) → c ≤ 16 → start_cc c ≤ 15
start_small c h = ground arith

read_section-table :
    (id b1 b2 c : ℕ) (rest : List ℕ)
    → c ≤ 15
    → length rest ≡ 184
    → (same true (b1 / 64 % 2 == 1) && (b1 % 32 * 256 + b2) == id) ≡ true
    → read_section id c (0x47 ∷ b1 ∷ b2 ∷ bit_or 0x10 (bit_and c 0x0f) ∷ rest) ≡ section_of rest
read_section-table id b1 b2 c rest h size ok = rw (control c h) (rw (accepts size ok, plain) refl)
  where
    accepts :
        length rest ≡ 184
        → (same true (b1 / 64 % 2 == 1) && (b1 % 32 * 256 + b2) == id) ≡ true
        → (suc (suc (suc (suc (length rest)))) == 188
            && (0x47 == 0x47
                && (same true (b1 / 64 % 2 == 1)
                    && ((b1 % 32 * 256 + b2) == id && (16 + c) % 16 == c))))
          ≡ true
    accepts size ok = ground arith

    plain : ((16 + c) / 32 % 2 == 1) ≡ false
    plain = ground arith

abbrev pub read_program : ℕ → ℕ → List ℕ → Option (ℕ × ℕ)
read_program id cc p = read_section id cc p >>= (λ s. some (program s))

abbrev pub read_streams : ℕ → ℕ → List ℕ → Option (List (ℕ × ℕ))
read_streams id cc p = read_section id cc p >>= (λ s. some (streams s))

pat_program :
    (m : Muxer) → m.pat_cc ≤ 16 → read_program 0 (start_cc m.pat_cc) (pat m).1 ≡ some (1, 0x1001)
unfolding pat finish_table gen_crc32 crc_loop crc_step crc_table
pat_program m h =
    ap (λ (o : Option (List ℕ)). o >>= (λ (s : List ℕ). some (program s)))
      (read_section-table 0 0x40 0x00 (start_cc m.pat_cc) (drop 4 (pat m).1)
        (start_small m.pat_cc h) refl refl)

-- The streams of a program with and without video.
abbrev pub expected_streams : Bool → Bool → List (ℕ × ℕ)
expected_streams mp3 has_video =
    let audio = if mp3 then 0x04 else 0x0f in
    if has_video then (0x1b, 0x100) ∷ (audio, 0x101) ∷ [] else (audio, 0x101) ∷ []

pmt_streams :
    (c : ℕ) (mp3 has_video : Bool)
    → c ≤ 15
    → read_streams 0x1001 c (pmt_packet c mp3 has_video) ≡ some (expected_streams mp3 has_video)
unfolding pmt_packet prog_info finish_table gen_crc32 crc_loop crc_step crc_table
pmt_streams c true true h =
    ap (λ (o : Option (List ℕ)). o >>= (λ (s : List ℕ). some (streams s)))
      (read_section-table 0x1001 0x50 0x01 c (drop 4 (pmt_packet c true true)) h refl refl)
pmt_streams c true false h =
    ap (λ (o : Option (List ℕ)). o >>= (λ (s : List ℕ). some (streams s)))
      (read_section-table 0x1001 0x50 0x01 c (drop 4 (pmt_packet c true false)) h refl refl)
pmt_streams c false true h =
    ap (λ (o : Option (List ℕ)). o >>= (λ (s : List ℕ). some (streams s)))
      (read_section-table 0x1001 0x50 0x01 c (drop 4 (pmt_packet c false true)) h refl refl)
pmt_streams c false false h =
    ap (λ (o : Option (List ℕ)). o >>= (λ (s : List ℕ). some (streams s)))
      (read_section-table 0x1001 0x50 0x01 c (drop 4 (pmt_packet c false false)) h refl refl)

-- With counters of at most 16, where 16 is taken for 0, PAT gives a packet of stream 0 whose section
-- has a right check sum and one program, number 1, with its table in stream 0x1001. PMT gives a packet of that stream,
-- whose section has a right check sum and the streams of Mux: video of type H.264, if there is any,
-- and audio of type MP3 for the two MP3 formats and AAC for the others. The counters stay at most 16.
pub tables-read :
    (m : Muxer) (sound_format : ℕ) (has_video : Bool)
    → m.pat_cc ≤ 16
    → m.pmt_cc ≤ 16
    → (read_program 0 (start_cc m.pat_cc) (pat m).1 ≡ some (1, 0x1001))
      × (read_streams 0x1001 (start_cc m.pmt_cc) (pmt m sound_format has_video).1
          ≡ some (expected_streams (is_mp3 sound_format) has_video))
      × ((pat m).0.pat_cc ≤ 16)
      × ((pmt m sound_format has_video).0.pmt_cc ≤ 16)
unfolding pat pmt
tables-read m sound_format has_video h k = (
  pat_program m h,
  pmt_streams (start_cc m.pmt_cc) (is_mp3 sound_format) has_video (start_small m.pmt_cc k),
  omega (arith, start_small m.pat_cc h),
  omega (arith, start_small m.pmt_cc k),
)
