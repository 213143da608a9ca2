-- ===== src/H264/Pictures.antt =====
-- Whole pictures: getAnnexbH264 and the dispatch of Parse.
use live.Base.{
  ℕ, zero, suc, ◌+◌, ◌*◌, ◌^◌, ◌≤◌, ◌<◌, ◌≡◌, ◌≢◌, refl, ap, ap₂, subst, sym, ◌∙◌, inl, inr, ◌⊎◌,
  false, Option, none, some, List, [], ◌∷◌, ◌++◌, arith, ltb, length, take, drop, All, IsByte,
  length-take, length-drop, take-append-drop,
}
use native.Mathlib.Decide.{dec_le, dec_lt}
use live.Pio.Format.{bytes_be}
use live.H264.{
  Error, data_size_not_match, nalu_body_len_error, start_code, nalu_aud, Parser, Progress,
  new_progress, is_nalu_header, parse, get_annexb_h264, outcome,
}
use live.H264.Format.{avcc, Fits, Ends, complete, short, broken, is_parameter, framed, byte_stream}
use live.H264.Rounds.{run, annexb_loop-avcc}
use live.H264.Written.{run-unsent, run-sets}

annexb-progress :
    (info : List ℕ) (nalus : List (List ℕ))
    → run info new_progress nalus ≡ record (run info new_progress nalus) {
      pps = framed is_parameter nalus;
      written = nalu_aud ++ byte_stream info nalus;
    }
annexb-progress info nalus =
    ap₂ (λ (a b : List ℕ). record (run info new_progress nalus) { pps = a; written = b })
      (run-sets info new_progress nalus) (run-unsent info new_progress nalus refl)

-- A picture is written as a delimiter and its byte stream, and its parameter sets are kept in the
-- buffer, up to where it breaks off: the whole of it without an error, or the NALUs before the
-- first that is cut short, empty, or longer than what is left, with the error for it.
pub get_annexb-avcc :
    (parser : Parser) (nalus : List (List ℕ)) (tail : List ℕ) (e : Option Error)
    → All Fits nalus
    → Ends tail e
    → 4 ≤ length (avcc nalus tail)
    → get_annexb_h264 parser (avcc nalus tail)
      ≡ some (record {
        parser = record parser { pps = framed is_parameter nalus };
        written = nalu_aud ++ byte_stream parser.specific_info nalus;
        error = e;
      })
unfolding get_annexb_h264
get_annexb-avcc parser nalus tail e fits ends long =
    rw
      (
        enough (length (avcc nalus tail)) long,
        annexb_loop-avcc (suc (length (avcc nalus tail))) parser.specific_info nalus tail
            new_progress e fits ends (omega arith),
      )
      (ap (λ (st : Progress). some (outcome parser (st, e)))
        (annexb-progress parser.specific_info nalus))
  where
    enough : (n : ℕ) → 4 ≤ n → ltb n 4 ≡ false
    enough n h = ground arith

not_start_code :
    (n : ℕ) (rest : List ℕ) → n < 2 ^ 32 → n ≢ 1 → is_nalu_header (bytes_be 4 n ++ rest) ≡ false
unfolding is_nalu_header
not_start_code n rest small other = ground arith

-- The bytes of a picture, taken apart.
pub record Units (src : List ℕ) : Type 0 where
  pub nalus : List (List ℕ)
  pub tail : List ℕ
  pub end : Option Error
  pub whole : src ≡ avcc nalus tail
  pub fit : All Fits nalus
  pub ends : Ends tail end

one_more :
    (n : ℕ) (body : List ℕ)
    → n < 2 ^ 32
    → 0 < n
    → n ≤ length body
    → Units (drop n body)
    → Units (bytes_be 4 n ++ body)
one_more n body small pos there u = record {
  nalus = take n body ∷ u.nalus;
  tail = u.tail;
  end = u.end;
  whole =
      ap₂ (λ (k : ℕ) (b : List ℕ). bytes_be 4 k ++ b) (sym size)
        (sym (take-append-drop n body) ∙ ap (λ (b : List ℕ). take n body ++ b) u.whole);
  fit = ((omega (arith, size), omega (arith, size)), u.fit);
  ends = u.ends;
}
  where
    size : length (take n body) ≡ n
    size = omega (arith, length-take n body)

four_bytes :
    (a b c d : ℕ)
    → a < 256
    → b < 256
    → c < 256
    → d < 256
    → (n : ℕ) × (n < 2 ^ 32) × (a ∷ b ∷ c ∷ d ∷ [] ≡ bytes_be 4 n)
four_bytes a b c d ha hb hc hd = (
  ((a * 256 + b) * 256 + c) * 256 + d,
  omega arith,
  ap₂ (λ (x : ℕ) (r : List ℕ). x ∷ r) (omega arith)
      (ap₂ (λ (x : ℕ) (r : List ℕ). x ∷ r) (omega arith)
        (ap₂ (λ (x y : ℕ). x ∷ y ∷ []) (omega arith) (omega arith))),
)

All-drop : (n : ℕ) (xs : List ℕ) → All IsByte xs → All IsByte (drop n xs)
All-drop zero xs h = h
All-drop (suc n) [] h = h
All-drop (suc n) (x ∷ xs) (h, hs) = All-drop n xs hs

stops_short : (src : List ℕ) → 0 < length src → length src < 4 → Units src
stops_short src pos small = record {
  nalus = [];
  tail = src;
  end = some data_size_not_match;
  whole = refl;
  fit = tt;
  ends = short pos small refl;
}

stops_broken :
    (n : ℕ) (body : List ℕ)
    → n < 2 ^ 32
    → (n ≡ 0) ⊎ (length body < n)
    → Units (bytes_be 4 n ++ body)
stops_broken n body small bad = record {
  nalus = [];
  tail = bytes_be 4 n ++ body;
  end = some nalu_body_len_error;
  whole = refl;
  fit = tt;
  ends = broken n body small bad refl refl;
}

take_one : (n : ℕ) (body : List ℕ) → n < 2 ^ 32 → Units (drop n body) → Units (bytes_be 4 n ++ body)
take_one n body small u = elim (dec_lt 0 n) [
  | no h ↦ stops_broken n body small (inl (omega arith))
  | yes h ↦ elim (dec_le n (length body)) [
    | no k ↦ stops_broken n body small (inr (omega arith))
    | yes k ↦ one_more n body small h k u
  ]
]

units : (n : ℕ) (src : List ℕ) → length src < n → All IsByte src → Units src
units zero src h bs = absurd (omega arith)
units (suc n) [] h bs = record {
  nalus = [];
  tail = [];
  end = none;
  whole = refl;
  fit = tt;
  ends = complete refl refl;
}
units (suc n) (a ∷ b ∷ c ∷ d ∷ body) h (ha, (hb, (hc, (hd, bs)))) =
    let (k, small, e) = four_bytes a b c d ha hb hc hd in
    subst (λ (f : List ℕ). Units (f ++ body)) (sym e)
      (take_one k body small
        (units n (drop k body) (omega (arith, length-drop k body)) (All-drop k body bs)))
units (suc n) src h bs = stops_short src (omega arith) (omega arith)

-- Every picture of at least four bytes is length-prefixed NALUs and an end, so the loop comes to
-- its end on it, and its outcome is that of these NALUs.
pub get_annexb-ends :
    (parser : Parser) (src : List ℕ)
    → All IsByte src
    → 4 ≤ length src
    → (u : Units src) × (get_annexb_h264 parser src
        ≡ some (record {
          parser = record parser { pps = framed is_parameter u.nalus };
          written = nalu_aud ++ byte_stream parser.specific_info u.nalus;
          error = u.end;
        }))
get_annexb-ends parser src bs long =
    let u = units (suc (length src)) src (omega arith) bs in
    (
      u,
      ap (get_annexb_h264 parser) u.whole
          ∙ get_annexb-avcc parser u.nalus u.tail u.end u.fit u.ends
              (omega (arith, ap (λ (b : List ℕ). length b) u.whole)),
    )

-- Parse on a picture: where the first NALU is not of one byte, whose length would look like a start
-- code, it is the conversion above, and what begins with a start code is passed on as it is.
pub parse-picture :
    (parser : Parser) (x : List ℕ) (nalus : List (List ℕ)) (tail b : List ℕ) (e : Option Error)
    → length x ≢ 1
    → All Fits (x ∷ nalus)
    → Ends tail e
    → (parse parser (avcc (x ∷ nalus) tail) false
        ≡ some (record {
          parser = record parser { pps = framed is_parameter (x ∷ nalus) };
          written = nalu_aud ++ byte_stream parser.specific_info (x ∷ nalus);
          error = e;
        }))
      × (parse parser (start_code ++ b) false
          ≡ some (record { parser = parser; written = start_code ++ b; error = none }))
unfolding parse is_nalu_header
parse-picture parser x nalus tail b e other (fit, fits) ends = (
  rw (not_start_code (length x) (x ++ avcc nalus tail) fit.1 other)
      (get_annexb-avcc parser (x ∷ nalus) tail e (fit, fits) ends (omega arith)),
  rw (starts (length b)) refl,
)
  where
    starts : (n : ℕ) → ltb (suc (suc (suc (suc n)))) 4 ≡ false
    starts n = ground arith
