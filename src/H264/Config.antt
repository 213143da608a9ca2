-- ===== src/H264/Config.antt =====
-- The sequence header, an AVC decoder configuration record, that parseSpecificInfo reads.
use live.Base.{
  ℕ, suc, ◌+◌, ◌*◌, ◌/◌, ◌%◌, ◌^◌, ◌<◌, ◌≡◌, refl, ap, ◌∙◌, bit_or, bit_or-add, false, ◌||◌, none,
  List, ◌∷◌, ◌++◌, arith, ltb, leb, length, drop, length-append, take-append, drop-append,
}
use live.Pio.Format.{bytes_be}
use live.H264.{start_code, Parser, parse_pps, parse_specific_info}

-- The record with one sps and one pps: profile, level and counts, each set behind its length, and
-- what follows the pps.
abbrev pub config_record : (c0 c1 c2 c3 c4 c5 : ℕ) → List ℕ → ℕ → List ℕ → List ℕ → List ℕ
config_record c0 c1 c2 c3 c4 c5 sps count pps more =
    c0
    ∷ c1
    ∷ c2
    ∷ c3
    ∷ c4
    ∷ c5
    ∷ (bytes_be 2 (length sps) ++ (sps ++ (count ∷ (bytes_be 2 (length pps) ++ (pps ++ more)))))

len_16 : (n : ℕ) → n < 2 ^ 16 → bit_or (n / 256 ^ 1 % 256 * 2 ^ 8) (n / 256 ^ 0 % 256) ≡ n
len_16 n h = bit_or-add 8 (n / 256 ^ 1 % 256) (n / 256 ^ 0 % 256) (omega arith) ∙ omega arith

parse_pps-config :
    (parser : Parser) (sps : List ℕ) (count : ℕ) (pps more : List ℕ)
    → 0 < length pps
    → length pps < 2 ^ 16
    → parse_pps parser sps (count ∷ (bytes_be 2 (length pps) ++ (pps ++ more))) ≡ (
      record parser {
        specific_info = (parser.specific_info ++ sps) ++ (start_code ++ (pps ++ more));
      },
      none,
    )
unfolding parse_pps
parse_pps-config parser sps count pps more pos small =
    rw (len_16 (length pps) small, long, fits) refl
  where
    long : ltb (length (count ∷ (bytes_be 2 (length pps) ++ (pps ++ more)))) 4 ≡ false
    long = ground (arith, length-append pps more)

    fits : (ltb (length (pps ++ more)) (length pps) || leb (length pps) 0) ≡ false
    fits = ground (arith, length-append pps more)

-- From a record with one sps and one pps, neither of them empty, both are appended to what earlier
-- sequence headers left, each behind a start code, and all that follows the pps with it.
pub parse_specific_info-config :
    (parser : Parser) (c0 c1 c2 c3 c4 c5 : ℕ) (sps : List ℕ) (count : ℕ) (pps more : List ℕ)
    → 0 < length sps
    → length sps < 2 ^ 16
    → 0 < length pps
    → length pps < 2 ^ 16
    → parse_specific_info parser (config_record c0 c1 c2 c3 c4 c5 sps count pps more) ≡ (
      record parser {
        specific_info =
            (parser.specific_info ++ (start_code ++ sps)) ++ (start_code ++ (pps ++ more));
      },
      none,
    )
unfolding parse_specific_info
parse_specific_info-config parser c0 c1 c2 c3 c4 c5 sps count pps more pos small pos' small' =
    rw (len_16 (length sps) small, long, fits, take-append (length sps) sps after refl, behind)
      (parse_pps-config parser (start_code ++ sps) count pps more pos' small')
  where
    after : List ℕ
    after = count ∷ (bytes_be 2 (length pps) ++ (pps ++ more))

    long : ltb (length (config_record c0 c1 c2 c3 c4 c5 sps count pps more)) 9 ≡ false
    long = ground (arith, length-append sps after)

    fits : (ltb (length (sps ++ after)) (length sps) || leb (length sps) 0) ≡ false
    fits = ground (arith, length-append sps after)

    eight : 8 + length sps ≡ suc (suc (suc (suc (suc (suc (suc (suc (length sps))))))))
    eight = omega arith

    behind : drop (8 + length sps) (config_record c0 c1 c2 c3 c4 c5 sps count pps more) ≡ after
    behind =
        ap (λ (k : ℕ). drop k (config_record c0 c1 c2 c3 c4 c5 sps count pps more)) eight
        ∙ drop-append (length sps) sps after refl
