-- ===== src/Aac/Laws.antt =====
-- The fields of the ADTS header.
use live.Base.{
  ℕ, suc, ◌+◌, ◌*◌, ◌/◌, ◌%◌, ◌^◌, ◌<◌, ◌≡◌, refl, ap, ◌∙◌, bit_or, bit_or-add, bit_and-ones, true,
  false, List, [], ◌∷◌, ◌++◌, arith, leb, length, get_or,
}
use live.Flv.Tag.{aac_seqhdr, aac_raw}
use live.Aac.{Parser, ok, specific_info, adts_header, adts, parse}

-- The fields, read as ISO/IEC 13818-7 lays them out.
abbrev pub frame_length : List ℕ → ℕ
frame_length h = get_or h 3 0 % 4 * 2048 + get_or h 4 0 * 8 + get_or h 5 0 / 32

abbrev pub rate_index : List ℕ → ℕ
rate_index h = get_or h 2 0 / 4 % 16

abbrev pub profile : List ℕ → ℕ
profile h = get_or h 2 0 / 64

abbrev pub channels : List ℕ → ℕ
channels h = get_or h 2 0 % 2 * 4 + get_or h 3 0 / 64

header_2 :
    (o r : ℕ)
    → r < 16
    → bit_or ((o + 255) % 2 ^ 8 * 2 ^ 6 % 2 ^ 8) (r * 2 ^ 2 % 2 ^ 8) ≡ (o + 3) % 4 * 64 + r * 4
header_2 o r h =
    ap (λ (x : ℕ). bit_or x (r * 2 ^ 2 % 2 ^ 8)) (omega arith)
    ∙ bit_or-add 6 ((o + 3) % 4) (r * 2 ^ 2 % 2 ^ 8) (omega arith)
    ∙ omega arith

header_3 :
    (c n : ℕ)
    → n < 8192
    → bit_or (c * 2 ^ 2 % 2 ^ 8 * 2 ^ 4 % 2 ^ 8) (n * 2 ^ 3 % 2 ^ 16 / 2 ^ 14 % 2 ^ 8)
      ≡ c % 4 * 64 + n / 2048
header_3 c n h =
    ap (λ (x : ℕ). bit_or x (n * 2 ^ 3 % 2 ^ 16 / 2 ^ 14 % 2 ^ 8)) (omega arith)
    ∙ bit_or-add 6 (c % 4) (n * 2 ^ 3 % 2 ^ 16 / 2 ^ 14 % 2 ^ 8) (omega arith)
    ∙ omega arith

header_5 :
    (n : ℕ)
    → bit_or (n * 2 ^ 13 % 2 ^ 16 / 2 ^ 13 * 2 ^ 5 % 2 ^ 16 % 2 ^ 8) (0x7c * 2 / 2 ^ 3)
      ≡ n % 8 * 32 + 31
header_5 n = ap (λ (x : ℕ). bit_or x 31) (omega arith) ∙ bit_or-add 5 (n % 8) 31 (omega arith)

-- The header without its shifts.
abbrev plain_header : ℕ → ℕ → ℕ → ℕ → List ℕ
plain_header o r c n =
    0xff
    ∷ 0xf1
    ∷ ((o + 3) % 4 * 64 + r * 4)
    ∷ (c % 4 * 64 + n / 2048)
    ∷ (n / 8 % 256)
    ∷ (n % 8 * 32 + 31)
    ∷ 0xfc
    ∷ []

adts_header-plain :
    (q : Parser) (n : ℕ)
    → q.sample_rate < 16
    → n < 8192
    → adts_header q n ≡ plain_header q.object_type q.sample_rate q.channel n
unfolding adts_header
adts_header-plain q n r h =
    rw (header_2 q.object_type q.sample_rate r, header_3 q.channel n h, header_5 n)
      (ap
        (λ (x : ℕ).
          0xff
          ∷ 0xf1
          ∷ ((q.object_type + 3) % 4 * 64 + q.sample_rate * 4)
          ∷ (q.channel % 4 * 64 + n / 2048)
          ∷ x
          ∷ (n % 8 * 32 + 31)
          ∷ 0xfc
          ∷ [])
        (omega arith))

specific_info-plain :
    (p : Parser) (s0 s1 : ℕ) (cfg : List ℕ)
    → s0 < 256
    → s1 < 256
    → (specific_info p (s0 ∷ s1 ∷ cfg)).0 ≡ record {
      getted_specific = true;
      object_type = s0 / 8;
      sample_rate = s0 % 8 * 2 + s1 / 128;
      channel = s1 / 8 % 16;
    }
unfolding specific_info
specific_info-plain p s0 s1 cfg h0 h1 =
    rw
      (
        bit_and-ones 8 (s0 / 8),
        bit_and-ones 3 s0,
        bit_and-ones 4 (s1 / 8),
        bit_or-add 1 (s0 % 8) (s1 / 128) (omega arith),
      )
      (ap
        (λ (o : ℕ). record {
          getted_specific = true;
          object_type = o;
          sample_rate = s0 % 8 * 2 + s1 / 128;
          channel = s1 / 8 % 16;
        })
        (omega arith))

adts-plain :
    (q : Parser) (b : ℕ) (src : List ℕ)
    → q.getted_specific ≡ true
    → q.sample_rate < 16
    → length (b ∷ src) + 7 < 8192
    → adts q (b ∷ src)
      ≡ ok (plain_header q.object_type q.sample_rate q.channel (length (b ∷ src) + 7) ++ (b ∷ src))
unfolding adts adts_header
adts-plain q b src got r short =
    rw (nonempty, got)
      (ap (λ (n : ℕ). ok (adts_header q n ++ (b ∷ src))) same
        ∙ ap (λ (h : List ℕ). ok (h ++ (b ∷ src)))
            (adts_header-plain q (length (b ∷ src) + 7) r short))
  where
    nonempty : leb (suc (length src)) 0 ≡ false
    nonempty = ground arith

    same : (suc (length src) % 2 ^ 16 + 7) % 2 ^ 16 ≡ suc (length src) + 7
    same = omega arith

-- In the header of a frame of 1 to 8184 bytes, after a sequence header, the length is that of header
-- and frame together, the rate index is the configured one, the profile is the configured object type
-- less one in two bits, which stands for another type when that is 0 or above 4, and of the four
-- bits of the channel configuration the two lower ones are kept.
pub parse-fields :
    (p : Parser) (s0 s1 : ℕ) (cfg : List ℕ) (b : ℕ) (src : List ℕ)
    → s0 < 256
    → s1 < 256
    → length (b ∷ src) + 7 < 8192
    → (h : List ℕ) × ((parse (parse p (s0 ∷ s1 ∷ cfg) aac_seqhdr).0 (b ∷ src) aac_raw).1
        ≡ ok (h ++ (b ∷ src)))
      × (length h ≡ 7)
      × (frame_length h ≡ length h + length (b ∷ src))
      × (rate_index h ≡ s0 % 8 * 2 + s1 / 128)
      × (profile h ≡ (s0 / 8 + 3) % 4)
      × (channels h ≡ s1 / 8 % 16 % 4)
unfolding parse
parse-fields p s0 s1 cfg b src h0 h1 short =
    let n = length (b ∷ src) + 7 in
    (
      plain_header (s0 / 8) (s0 % 8 * 2 + s1 / 128) (s1 / 8 % 16) n,
      rw (specific_info-plain p s0 s1 cfg h0 h1) (
          adts-plain
            (record {
              getted_specific = true;
              object_type = s0 / 8;
              sample_rate = s0 % 8 * 2 + s1 / 128;
              channel = s1 / 8 % 16;
            })
            b src refl (omega arith) short),
      refl,
      omega arith,
      omega arith,
      omega arith,
      omega arith,
    )
