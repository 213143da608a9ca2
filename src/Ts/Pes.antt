-- ===== src/Ts/Pes.antt =====
-- container/ts/muxer.go: the PES header, and the clock reference. A time is an int64, kept as its 64
-- bits; a shift to the right followed by a mask of the lower bits does not see its sign.
use live.Base.{
  ℕ, ◌+◌, ◌-◌, ◌*◌, ◌/◌, ◌%◌, ◌^◌, bit_and, bit_or, Bool, not, ◌&&◌, List, [], ◌∷◌, ◌++◌,
  if◌then◌else◌, ◌==◌, ltb,
}

-- The time that writeTs writes.
unfoldable pub wrap_ts : ℕ → ℕ
wrap_ts ts = if ltb 0x1ffffffff ts && ltb ts (2 ^ 63) then ts - 0x1ffffffff else ts

unfoldable pub write_ts : ℕ → ℕ → List ℕ
write_ts fb time =
    let ts = wrap_ts time in
    let val = bit_or (bit_and (ts / 2 ^ 15) 0x7fff * 2) 1 in
    let last = bit_or (bit_and ts 0x7fff * 2) 1 in
    (bit_or (bit_or (fb * 2 ^ 4) (bit_and (ts / 2 ^ 30) 0x07 * 2)) 1 % 256)
    ∷ (val / 2 ^ 8 % 256)
    ∷ (val % 256)
    ∷ (last / 2 ^ 8 % 256)
    ∷ (last % 256)
    ∷ []

-- `p.IsVideo && pts != dts`
abbrev pub has_dts : Bool → ℕ → ℕ → Bool
has_dts is_video pts dts = is_video && not (pts == dts)

abbrev pub pes_size : ℕ → ℕ
pes_size size = if ltb 0xffff size then 0 else size

-- The used bytes of the array `data`, for a frame of `len` bytes.
unfoldable pub pes_packet : Bool → ℕ → ℕ → ℕ → List ℕ
pes_packet is_video len pts dts =
    let flag = if has_dts is_video pts dts then 0xc0 else 0x80 in
    let header_size = if has_dts is_video pts dts then 10 else 5 in
    let size = pes_size (len + header_size + 3) in
    (0x00
      ∷ 0x00
      ∷ 0x01
      ∷ (if is_video then 0xe0 else 0xc0)
      ∷ (size / 2 ^ 8 % 256)
      ∷ (size % 256)
      ∷ 0x80
      ∷ flag
      ∷ header_size
      ∷ [])
    ++ (write_ts (flag / 2 ^ 6) pts ++ (if has_dts is_video pts dts then write_ts 1 dts else []))

unfoldable pub write_pcr : ℕ → List ℕ
write_pcr pcr =
    (pcr / 2 ^ 25 % 256)
    ∷ (bit_and (pcr / 2 ^ 17) 0xff)
    ∷ (bit_and (pcr / 2 ^ 9) 0xff)
    ∷ (bit_and (pcr / 2) 0xff)
    ∷ (bit_or (bit_and pcr 0x1 * 2 ^ 7) 0x7e)
    ∷ 0x00
    ∷ []
