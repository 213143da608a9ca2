-- ===== src/Examples/Transport.antt =====
-- Concrete inputs for the theorems on transport streams.
use live.Base.{
  ◌+◌, ◌-◌, ◌^◌, ◌≡◌, ◌≤◌, refl, true, false, some, [], ◌∷◌, ◌++◌, arith, length, replicate,
  if◌then◌else◌, ltb,
}
use live.Flv.Tag.{new_tag, is_key_frame}
use live.Av.{Packet}
use live.Pio.Format.{bytes_be}
use live.Ts.Pes.{pes_packet}
use live.Ts.Muxer.{Frame, new_muxer, frame_of, frame_with, mux}
use live.Ts.Frames.{Carries, mux-demux}
use live.Ts.Times.{stream, header_length, packet_length, pts, dts, pes_packet-reads}
use live.Ts.Crc.{gen_crc32}
use live.Ts.Polynomial.{crc_bits}
use live.Ts.Check.{gen_crc32-bits, gen_crc32-own}
use live.Ts.Tables.{pat, pmt}
use live.Ts.Sections.{read_program, read_streams, tables-read}

abbrev key_picture : Packet
key_picture = record {
  is_audio = false;
  is_video = true;
  is_metadata = false;
  time_stamp = 40;
  stream_id = 1;
  header =
      some (record new_tag {
        frame_type = 1;
        codec_id = 7;
        avc_packet_type = 1;
        composition_time = 80;
      });
  payload = replicate 400 7;
}

abbrev key_frame : Frame
key_frame = frame_of key_picture true 10800

mux-demux_example :
    Carries key_frame true new_muxer (mux new_muxer key_picture) (key_frame.pes ++ replicate 400 7)
unfolding frame_with is_key_frame
mux-demux_example =
    mux-demux new_muxer key_picture key_frame refl (record { small = omega arith; whole = refl })
      (λ _. omega arith)

pes_packet-reads_example :
    (stream (pes_packet true 400 10800 3600) ≡ 0xe0)
    × (header_length (pes_packet true 400 10800 3600) ≡ length (pes_packet true 400 10800 3600))
    × (packet_length (pes_packet true 400 10800 3600) ≡ (
        if ltb (length (pes_packet true 400 10800 3600) + 400 - 6) (2 ^ 16)
        then length (pes_packet true 400 10800 3600) + 400 - 6
        else 0))
    × (pts (pes_packet true 400 10800 3600) ≡ 10800)
    × (dts (pes_packet true 400 10800 3600) ≡ 3600)
pes_packet-reads_example =
    pes_packet-reads true 400 10800 3600 (omega arith) (omega arith) (λ e. absurd (cc e))

gen_crc32-bits_example : gen_crc32 (0x31 ∷ 0x32 ∷ []) ≡ crc_bits 0xFFFFFFFF (0x31 ∷ 0x32 ∷ [])
gen_crc32-bits_example = gen_crc32-bits (0x31 ∷ 0x32 ∷ []) (omega arith, (omega arith, tt))

gen_crc32-own_example : gen_crc32 (0x31 ∷ bytes_be 4 (gen_crc32 (0x31 ∷ []))) ≡ 0
gen_crc32-own_example = gen_crc32-own (0x31 ∷ []) (omega arith, tt)

tables-read_example :
    (read_program 0 0 (pat new_muxer).1 ≡ some (1, 0x1001))
    × (read_streams 0x1001 0 (pmt new_muxer 10 true).1 ≡ some ((0x1b, 0x100) ∷ (0x0f, 0x101) ∷ []))
    × ((pat new_muxer).0.pat_cc ≤ 16)
    × ((pmt new_muxer 10 true).0.pmt_cc ≤ 16)
tables-read_example = tables-read new_muxer 10 true (omega arith) (omega arith)
