-- ===== src/Amf3/Uint29.antt =====
-- The 29-bit integers of AMF3: what is written for them, and what is read back.
use live.Base.{
  ℕ, suc, ◌+◌, ◌*◌, ◌/◌, ◌%◌, ◌^◌, ◌<◌, ◌≡◌, refl, ap, ap₂, ◌∙◌, inl, inr, bit_and, bit_or,
  bit_and-ones, holds_below_at, ==_iff, Bool, true, false, not, Bool-cases, List, [], ◌∷◌, ◌++◌,
  arith, if◌then◌else◌, ◌==◌, leb, leb→le,
}
use live.Amf.Encoder.{write_bytes}
use live.Amf3.Value.{Refs}
use live.Amf3.Reading.{done, read_byte, u29_loop, decode_u29}
use live.Amf3.Writing.{encode_uint29}

-- The groups of seven bits, the last of four bytes with eight.
abbrev pub groups : ℕ → List ℕ
groups v =
    if leb v 127
    then v ∷ []
    else (if leb v 16383
        then (128 + v / 128) ∷ (v % 128) ∷ []
        else (if leb v 2097151
            then (128 + v / 16384) ∷ (128 + v / 128 % 128) ∷ (v % 128) ∷ []
            else (128 + v / 4194304)
              ∷ (128 + v / 32768 % 128)
              ∷ (128 + v / 256 % 128)
              ∷ (v % 256)
              ∷ []))

high_bit : (x : ℕ) → x < 128 → bit_or x 0x80 ≡ 128 + x
high_bit x h = (==_iff _ _).0 (holds_below_at 128 (λ (x : ℕ). bit_or x 0x80 == 128 + x) x refl h)

flip : (b : Bool) → not b ≡ true → b ≡ false
flip true h = absurd (cc h)
flip false h = refl

stop_bit : (b : ℕ) → b < 128 → (bit_and b 0x80 == 0) ≡ true
stop_bit b h = holds_below_at 128 (λ (x : ℕ). bit_and x 0x80 == 0) b refl h

go_bit : (x : ℕ) → x < 128 → (bit_and (128 + x) 0x80 == 0) ≡ false
go_bit x h = flip _ (holds_below_at 128 (λ (x : ℕ). not (bit_and (128 + x) 0x80 == 0)) x refl h)

encode_uint29-groups : (v : ℕ) → v < 2 ^ 29 → encode_uint29 v ≡ write_bytes (groups v)
unfolding encode_uint29
encode_uint29-groups v h = elim (Bool-cases (leb v 127)) [
  | inl e1 ↦ let b = leb→le v 127 e1 in rw e1 (ap (λ (x : ℕ). write_bytes (x ∷ [])) (omega arith))
  | inr e1 ↦ elim (Bool-cases (leb v 16383)) [
    | inl e2 ↦
        let b = leb→le v 16383 e2 in
        rw (e1, e2, high_bit (v / 2 ^ 7) (omega arith), bit_and-ones 7 v)
          (ap₂ (λ (x y : ℕ). write_bytes (x ∷ y ∷ [])) (omega arith) (omega arith))
    | inr e2 ↦ elim (Bool-cases (leb v 2097151)) [
      | inl e3 ↦
          let b = leb→le v 2097151 e3 in
          rw
            (
              e1,
              e2,
              e3,
              high_bit (v / 2 ^ 14) (omega arith),
              bit_and-ones 7 (v / 2 ^ 7),
              high_bit (v / 2 ^ 7 % 128) (omega arith),
              bit_and-ones 7 v,
            )
            (ap₂ (λ (p : ℕ × ℕ) (z : ℕ). write_bytes (p.0 ∷ p.1 ∷ z ∷ []))
              (ap₂ (λ (x y : ℕ). (x, y)) (omega arith) (omega arith)) (omega arith))
      | inr e3 ↦
          rw
            (
              e1,
              e2,
              e3,
              all_small,
              high_bit (v / 2 ^ 22) (omega arith),
              bit_and-ones 7 (v / 2 ^ 15),
              high_bit (v / 2 ^ 15 % 128) (omega arith),
              bit_and-ones 7 (v / 2 ^ 8),
              high_bit (v / 2 ^ 8 % 128) (omega arith),
            )
            (ap₂ (λ (p q : ℕ × ℕ). write_bytes (p.0 ∷ p.1 ∷ q.0 ∷ q.1 ∷ []))
              (ap₂ (λ (x y : ℕ). (x, y)) (omega arith) (omega arith))
              (ap₂ (λ (x y : ℕ). (x, y)) (omega arith) refl))
    ]
  ]
]
  where
    all_small : leb v 0x1FFFFFFF ≡ true
    all_small = ground arith

u29_loop-more :
    (n acc x : ℕ) (d : Refs) (r : List ℕ)
    → x < 128
    → u29_loop (suc n) acc d ((128 + x) ∷ r) ≡ u29_loop n ((acc * 2 ^ 7 + x) % 2 ^ 32) d r
unfolding u29_loop read_byte
u29_loop-more n acc x d r h =
    rw (go_bit x h, bit_and-ones 7 (128 + x))
      (ap (λ (y : ℕ). u29_loop n ((acc * 2 ^ 7 + y) % 2 ^ 32) d r) (omega arith))

u29_loop-last :
    (n acc x : ℕ) (d : Refs) (r : List ℕ)
    → x < 128
    → u29_loop (suc n) acc d (x ∷ r) ≡ done ((acc * 2 ^ 7 + x) % 2 ^ 32) d r
unfolding u29_loop read_byte
u29_loop-last n acc x d r h =
    rw (stop_bit x h, bit_and-ones 7 x)
      (ap (λ (y : ℕ). done ((acc * 2 ^ 7 + y) % 2 ^ 32) d r) (omega arith))

u29_loop-fourth :
    (acc b : ℕ) (d : Refs) (r : List ℕ)
    → u29_loop 0 acc d (b ∷ r) ≡ done ((acc * 2 ^ 8 + b) % 2 ^ 32) d r
unfolding u29_loop read_byte
u29_loop-fourth acc b d r = refl

pub decode_u29-groups :
    (v : ℕ) (d : Refs) (rest : List ℕ)
    → v < 2 ^ 29
    → decode_u29 d (groups v ++ rest) ≡ done v d rest
unfolding decode_u29
decode_u29-groups v d rest h = elim (Bool-cases (leb v 127)) [
  | inl e1 ↦
      let b = leb→le v 127 e1 in
      rw e1 (u29_loop-last 2 0 v d rest (omega arith) ∙ ap (λ (x : ℕ). done x d rest) (omega arith))
  | inr e1 ↦ elim (Bool-cases (leb v 16383)) [
    | inl e2 ↦
        let b = leb→le v 16383 e2 in
        rw (e1, e2)
          (u29_loop-more 2 0 (v / 128) d ((v % 128) ∷ rest) (omega arith)
            ∙ u29_loop-last 1 ((0 * 2 ^ 7 + v / 128) % 2 ^ 32) (v % 128) d rest (omega arith)
            ∙ ap (λ (x : ℕ). done x d rest) (omega arith))
    | inr e2 ↦ elim (Bool-cases (leb v 2097151)) [
      | inl e3 ↦
          let b = leb→le v 2097151 e3 in
          rw (e1, e2, e3)
            (u29_loop-more 2 0 (v / 16384) d ((128 + v / 128 % 128) ∷ (v % 128) ∷ rest)
                (omega arith)
              ∙ u29_loop-more 1 ((0 * 2 ^ 7 + v / 16384) % 2 ^ 32) (v / 128 % 128) d
                  ((v % 128) ∷ rest) (omega arith)
              ∙ u29_loop-last 0
                  ((((0 * 2 ^ 7 + v / 16384) % 2 ^ 32) * 2 ^ 7 + v / 128 % 128) % 2 ^ 32) (v % 128)
                  d rest (omega arith)
              ∙ ap (λ (x : ℕ). done x d rest) (omega arith))
      | inr e3 ↦
          rw (e1, e2, e3)
            (u29_loop-more 2 0 (v / 4194304) d
                ((128 + v / 32768 % 128) ∷ (128 + v / 256 % 128) ∷ (v % 256) ∷ rest) (omega arith)
              ∙ u29_loop-more 1 ((0 * 2 ^ 7 + v / 4194304) % 2 ^ 32) (v / 32768 % 128) d
                  ((128 + v / 256 % 128) ∷ (v % 256) ∷ rest) (omega arith)
              ∙ u29_loop-more 0
                  ((((0 * 2 ^ 7 + v / 4194304) % 2 ^ 32) * 2 ^ 7 + v / 32768 % 128) % 2 ^ 32)
                  (v / 256 % 128) d ((v % 256) ∷ rest) (omega arith)
              ∙ u29_loop-fourth
                  ((((((0 * 2 ^ 7 + v / 4194304) % 2 ^ 32) * 2 ^ 7 + v / 32768 % 128) % 2 ^ 32)
                        * 2 ^ 7
                      + v / 256 % 128)
                    % 2 ^ 32)
                  (v % 256) d rest
              ∙ ap (λ (x : ℕ). done x d rest) (omega arith))
    ]
  ]
]

-- From what the encoder writes for an integer below 2^29 the decoder gets it back, whatever follows,
-- and leaves that.
pub decode_u29-encode :
    (v : ℕ) (d : Refs) (rest : List ℕ)
    → v < 2 ^ 29
    → (decode_u29 d ((encode_uint29 v).out ++ rest) ≡ done v d rest)
      × ((encode_uint29 v).failed ≡ false)
unfolding write_bytes
decode_u29-encode v d rest h = rw (encode_uint29-groups v h) (decode_u29-groups v d rest h, refl)
