-- ===== src/Ts/Times.antt =====
-- The PES header, read as ISO/IEC 13818-1 lays it out.
use live.Base.{
  ℕ, ◌+◌, ◌-◌, ◌*◌, ◌/◌, ◌%◌, ◌^◌, ◌<◌, ◌≡◌, refl, ap, ◌∙◌, inl, inr, bit_or, bit_and-ones,
  bit_or-add, Bool, true, false, ◌&&◌, Bool-cases, List, [], ◌∷◌, arith, if◌then◌else◌, ◌==◌, ltb,
  lt→ltb, length, get_or, drop,
}
use native.Mathlib.Decide.{dec_lt}
use live.Ts.Pes.{wrap_ts, write_ts, has_dts, pes_size, pes_packet}

-- A time of 33 bits in five bytes.
abbrev pub read_time : List ℕ → ℕ
read_time b =
    (get_or b 0 0 / 2 % 8 * 2 ^ 15 + (get_or b 1 0 * 128 + get_or b 2 0 / 2)) * 2 ^ 15
    + (get_or b 3 0 * 128 + get_or b 4 0 / 2)

marked : (a : ℕ) → bit_or (a * 2) 1 ≡ a * 2 + 1
marked a = bit_or-add 1 a 1 (omega arith)

first_byte : (fb x : ℕ) → bit_or (bit_or (fb * 2 ^ 4) (x % 8 * 2)) 1 ≡ fb * 16 + x % 8 * 2 + 1
first_byte fb x =
    ap (λ (y : ℕ). bit_or y 1) (bit_or-add 4 fb (x % 8 * 2) (omega arith) ∙ even)
    ∙ marked (fb * 8 + x % 8)
    ∙ omega arith
  where
    even : fb * 16 + x % 8 * 2 ≡ (fb * 8 + x % 8) * 2
    even = omega arith

abbrev plain_time : ℕ → ℕ → List ℕ
plain_time fb ts =
    ((fb * 16 + ts / 2 ^ 30 % 8 * 2 + 1) % 256)
    ∷ ((ts / 2 ^ 15 % 2 ^ 15 * 2 + 1) / 2 ^ 8 % 256)
    ∷ ((ts / 2 ^ 15 % 2 ^ 15 * 2 + 1) % 256)
    ∷ ((ts % 2 ^ 15 * 2 + 1) / 2 ^ 8 % 256)
    ∷ ((ts % 2 ^ 15 * 2 + 1) % 256)
    ∷ []

write_ts-plain : (fb time : ℕ) → write_ts fb time ≡ plain_time fb (wrap_ts time)
unfolding write_ts
write_ts-plain fb time =
    let ts = wrap_ts time in
    rw
      (
        bit_and-ones 3 (ts / 2 ^ 30),
        bit_and-ones 15 (ts / 2 ^ 15),
        bit_and-ones 15 ts,
        first_byte fb (ts / 2 ^ 30),
        marked (ts / 2 ^ 15 % 2 ^ 15),
        marked (ts % 2 ^ 15),
      )
      refl

read_time-plain : (fb ts : ℕ) → read_time (plain_time fb ts) ≡ ts % 2 ^ 33
read_time-plain fb ts = omega arith

-- A time of 33 bits is itself. One that does not fit is a tick later when it wraps around.
abbrev pub clock : ℕ → ℕ
clock t = if ltb t (2 ^ 33) then t else (t + 1) % 2 ^ 33

wrap_ts-clock : (t : ℕ) → t < 2 ^ 63 → wrap_ts t % 2 ^ 33 ≡ clock t
unfolding wrap_ts
wrap_ts-clock t h = elim (dec_lt t (2 ^ 33)) [
  | yes k ↦ rw (within k, lt→ltb t (2 ^ 33) k) (omega arith)
  | no k ↦ rw (beyond k, past k) (omega arith)
]
  where
    within : t < 2 ^ 33 → (ltb 0x1ffffffff t && ltb t (2 ^ 63)) ≡ false
    within k = ground arith

    beyond : ¬ (t < 2 ^ 33) → (ltb 0x1ffffffff t && ltb t (2 ^ 63)) ≡ true
    beyond k = ground arith

    past : ¬ (t < 2 ^ 33) → ltb t (2 ^ 33) ≡ false
    past k = ground arith

write_ts-clock : (fb t : ℕ) → t < 2 ^ 63 → read_time (write_ts fb t) ≡ clock t
write_ts-clock fb t h =
    ap read_time (write_ts-plain fb t) ∙ read_time-plain fb (wrap_ts t) ∙ wrap_ts-clock t h

-- The fields of a PES header of a frame.
abbrev pub stream : List ℕ → ℕ
stream h = get_or h 3 0

abbrev pub packet_length : List ℕ → ℕ
packet_length h = get_or h 4 0 * 256 + get_or h 5 0

abbrev pub header_length : List ℕ → ℕ
header_length h = 9 + get_or h 8 0

abbrev pub pts : List ℕ → ℕ
pts h = read_time (drop 9 h)

-- The time of decoding is that of presentation where it is not written.
abbrev pub dts : List ℕ → ℕ
dts h = if get_or h 7 0 / 2 ^ 6 == 3 then read_time (drop 14 h) else pts h

-- What `pes_packet` writes: stream 0xe0 for video and 0xc0 for audio, the length of all that follows
-- the length field, or 0 if that has no 16 bits, and the two times, of which those of 2^33 or more
-- come out a tick late.
pub pes_packet-reads :
    (v : Bool) (len p d : ℕ)
    → p < 2 ^ 63
    → d < 2 ^ 63
    → (v ≡ false → p ≡ d)
    → let h = pes_packet v len p d in
      (stream h ≡ (if v then 0xe0 else 0xc0))
      × (header_length h ≡ length h)
      × (packet_length h ≡ (if ltb (length h + len - 6) (2 ^ 16) then length h + len - 6 else 0))
      × (pts h ≡ clock p)
      × (dts h ≡ clock d)
unfolding pes_packet write_ts
pes_packet-reads v len p d hp hd audio = elim (Bool-cases (has_dts v p d)) [
  | inl h ↦ rw h (
    refl,
    refl,
    size_bytes (len + 10 + 3) (19 + len - 6) (omega arith),
    write_ts-clock 3 p hp,
    write_ts-clock 1 d hd,
  )
  | inr h ↦ rw h (
    refl,
    refl,
    size_bytes (len + 5 + 3) (14 + len - 6) (omega arith),
    write_ts-clock 2 p hp,
    write_ts-clock 2 p hp ∙ ap clock (same_time v h audio),
  )
]
  where
    size_bytes :
        (n k : ℕ)
        → n ≡ k
        → pes_size n / 2 ^ 8 % 256 * 256 + pes_size n % 256 ≡ (if ltb k (2 ^ 16) then k else 0)
    size_bytes n k e = ground arith

    same_time : (v : Bool) → has_dts v p d ≡ false → (v ≡ false → p ≡ d) → p ≡ d
    same_time true h audio = ground arith
    same_time false h audio = audio refl
