-- ===== src/Ts/Prefix.antt =====
-- The header and the adaptation field of a packet in the making.
use live.Base.{
  ℕ, ◌+◌, ◌-◌, ◌%◌, ◌≤◌, ◌<◌, ◌≡◌, refl, ap, ◌∙◌, Bool, true, false, ◌&&◌, List, ◌∷◌, ◌++◌, arith,
  if◌then◌else◌, leb, length, drop, length-drop,
}
use live.Ts.Pes.{write_pcr}
use live.Ts.Muxer.{
  Muxer, Frame, Filling, copy_at, adaptation_buf_init, pid_of, ts_header, put_pcr, stuff, make_room,
}
use live.Ts.Front.{
  cc_of, copy-full, start_byte, plain_header, control_byte_adaptation, ts_header-plain,
  header_written,
}

-- The front of a packet with room for `room` bytes.
abbrev pub made : Frame → Bool → ℕ → Muxer → Filling × ℕ
made f first len m =
    make_room first len (put_pcr f first (copy_at 0 (ts_header f first m) m.ts_packet))

abbrev pub has_pcr : Frame → Bool → Bool
has_pcr f first = first && (f.is_video && f.key_frame)

module _ (f : Frame) (first : Bool) (len : ℕ) (m : Muxer) where
  started :
      cc_of f m < 16
      → length m.ts_packet ≡ 188
      → copy_at 0 (ts_header f first m) m.ts_packet
        ≡ plain_header f first 16 (cc_of f m) ++ drop 4 m.ts_packet
  started h k =
      ap (λ (b : List ℕ). copy_at 0 b m.ts_packet) (ts_header-plain f first m h)
      ∙ header_written 0x47 (start_byte first) (pid_of f % 256) (16 + cc_of f m) m.ts_packet k

  -- A full packet without a clock reference.
  pub made-full :
      cc_of f m < 16
      → length m.ts_packet ≡ 188
      → has_pcr f first ≡ false
      → 184 ≤ len
      → made f first len m
        ≡ (record { buf = plain_header f first 16 (cc_of f m) ++ drop 4 m.ts_packet; i = 4 }, 184)
  unfolding put_pcr make_room
  made-full h k no_pcr long =
      rw (started h k, no_pcr, full)
        (ap
          (λ (n : ℕ).
            (record { buf = plain_header f first 16 (cc_of f m) ++ drop 4 m.ts_packet; i = 4 }, n))
          (same_room first))
    where
      full : leb 184 len ≡ true
      full = ground arith

      same_room : (first : Bool) → (if first then 184 - (4 - 4) else 184) ≡ 184
      same_room true = refl
      same_room false = refl

  -- A packet with a clock reference.
  pub made-pcr :
      cc_of f m < 16
      → length m.ts_packet ≡ 188
      → has_pcr f first ≡ true
      → 184 ≤ len
      → made f first len m ≡ (
        record {
          buf =
              plain_header f first 48 (cc_of f m)
              ++ ((7 ∷ 0x50 ∷ write_pcr f.dts) ++ drop 8 (drop 4 m.ts_packet));
          i = 12;
        },
        176,
      )
  unfolding put_pcr make_room write_pcr
  made-pcr h k pcr long =
      rw
        (
          started h k,
          pcr,
          full,
          is_first first pcr,
          control_byte_adaptation (cc_of f m) h,
          copy-full (7 ∷ 0x50 ∷ write_pcr f.dts) (drop 4 m.ts_packet)
              (omega (arith, length-drop 4 m.ts_packet)),
        )
        refl
    where
      full : leb 184 len ≡ true
      full = ground arith

      is_first : (first : Bool) → has_pcr f first ≡ true → first ≡ true
      is_first true e = refl
      is_first false e = absurd (cc e)

  -- A packet that is stuffed.
  pub made-stuffed :
      cc_of f m < 16
      → length m.ts_packet ≡ 188
      → has_pcr f first ≡ false
      → len < 184
      → made f first len m ≡ (
        record {
          buf =
              plain_header f first 48 (cc_of f m)
              ++ adaptation_buf_init (184 - len) (drop 4 m.ts_packet);
          i = 4 + (184 - len);
        },
        len,
      )
  unfolding put_pcr make_room stuff
  made-stuffed h k no_pcr short =
      rw (started h k, no_pcr, not_full, remain first, control_byte_adaptation (cc_of f m) h)
        (ap
          (λ (n : ℕ). (
            record {
              buf =
                  plain_header f first 48 (cc_of f m)
                  ++ adaptation_buf_init (184 - len) (drop 4 m.ts_packet);
              i = n;
            },
            len,
          ))
          (omega arith))
    where
      not_full : leb 184 len ≡ false
      not_full = ground arith

      remain : (first : Bool) → (184 + 512 - len - (if first then 4 - 4 else 0)) % 256 ≡ 184 - len
      remain true = omega arith
      remain false = omega arith
