-- ===== src/Ts/Ready.antt =====
-- Where the bytes of the frame start in a packet, and how much of it fits.
use live.Base.{
  ℕ, ◌+◌, ◌-◌, ◌≤◌, ◌<◌, ◌≡◌, refl, ap, sym, ◌∙◌, inl, inr, Bool, true, Bool-cases, min, List, [],
  ◌∷◌, ◌++◌, arith, if◌then◌else◌, ◌==◌, length, take, drop, replicate, length-take, length-drop,
  length-replicate, take-append-drop,
}
use native.Mathlib.Decide.{dec_le}
use live.Ts.Pes.{write_pcr}
use live.Ts.Muxer.{Muxer, Frame, adaptation_buf_init, pid_of}
use live.Ts.Front.{Ready, cc_of, IsFront-plain, IsFront-field, plain_header}
use live.Ts.Prefix.{made, made-full, made-pcr, made-stuffed, has_pcr}

adaptation_split :
    (r : ℕ) (b : List ℕ)
    → 0 < r
    → r ≤ 184
    → length b ≡ 184
    → (a : List ℕ) × (adaptation_buf_init r b ≡ (r - 1) ∷ a) × (length a ≡ 183)
unfolding adaptation_buf_init
adaptation_split r [] h k e = absurd (omega arith)
adaptation_split r (x ∷ []) h k e = absurd (omega arith)
adaptation_split r (x ∷ y ∷ b) h k e = (
  if r == 1 then y ∷ b else 0x00 ∷ replicate (length b) 0xff,
  ap (λ (n : ℕ). n ∷ (if r == 1 then y ∷ b else 0x00 ∷ replicate (length b) 0xff)) (omega arith),
  elim (Bool-cases (r == 1)) [
    | inl one ↦ rw one (omega arith)
    | inr more ↦ rw more (omega (arith, length-replicate {A = ℕ} (length b) 0xff))
  ],
)

module _ (f : Frame) (first : Bool) (c : ℕ) where
  Ready-full :
      (behind : List ℕ)
      → c < 16
      → length behind ≡ 184
      → Ready (pid_of f) first c (record { buf = plain_header f first 16 c ++ behind; i = 4 }) 184
  Ready-full behind h k = record {
    pre = plain_header f first 16 c;
    tail = behind;
    filled = refl;
    at_i = refl;
    there = refl;
    behind = k;
    front = IsFront-plain f first c h;
  }

  Ready-pcr :
      (behind : List ℕ)
      → c < 16
      → length behind ≡ 176
      → Ready
          (pid_of f)
          first
          c
          (record {
            buf = plain_header f first 48 c ++ ((7 ∷ 0x50 ∷ write_pcr f.dts) ++ behind);
            i = 12;
          })
          176
  unfolding write_pcr
  Ready-pcr behind h k = record {
    pre = plain_header f first 48 c ++ (7 ∷ 0x50 ∷ write_pcr f.dts);
    tail = behind;
    filled = refl;
    at_i = refl;
    there = refl;
    behind = k;
    front = IsFront-field f first c (0x50 ∷ write_pcr f.dts) h (omega arith);
  }

  Ready-stuffed :
      (len : ℕ) (b : List ℕ)
      → c < 16
      → length b ≡ 184
      → len < 184
      → Ready
          (pid_of f)
          first
          c
          (record {
            buf = plain_header f first 48 c ++ adaptation_buf_init (184 - len) b;
            i = 4 + (184 - len);
          })
          len
  Ready-stuffed len b h k short =
      let (a, e, l) = adaptation_split (184 - len) b (omega arith) (omega arith) k in
      record {
        pre =
            plain_header f first 48 c ++ (length (take (184 - len - 1) a) ∷ take (184 - len - 1) a);
        tail = drop (184 - len - 1) a;
        filled =
            ap (λ (b : List ℕ). plain_header f first 48 c ++ b)
              (e
                ∙ ap (λ (b : List ℕ). (184 - len - 1) ∷ b)
                    (sym (take-append-drop (184 - len - 1) a))
                ∙ ap (λ (n : ℕ). n ∷ (take (184 - len - 1) a ++ drop (184 - len - 1) a))
                    (omega (arith, length-take (184 - len - 1) a)));
        at_i = omega (arith, length-take (184 - len - 1) a);
        there = omega (arith, length-take (184 - len - 1) a);
        behind = omega (arith, length-drop (184 - len - 1) a);
        front =
            IsFront-field f first c (take (184 - len - 1) a) h
              (omega (arith, length-take (184 - len - 1) a));
      }

-- The room in a packet for `len` bytes.
abbrev pub room : Frame → Bool → ℕ → ℕ
room f first len = if has_pcr f first then 176 else min 184 len

pub made-Ready :
    (f : Frame) (first : Bool) (len : ℕ) (m : Muxer)
    → cc_of f m < 16
    → length m.ts_packet ≡ 188
    → (has_pcr f first ≡ true → 184 ≤ len)
    → Ready (pid_of f) first (cc_of f m) (made f first len m).0 (room f first len)
      × ((made f first len m).1 ≡ room f first len)
made-Ready f first len m h k enough = elim (Bool-cases (has_pcr f first)) [
  | inl pcr ↦
      rw (made-pcr f first len m h k pcr (enough pcr), pcr)
        (
          Ready-pcr f first (cc_of f m) (drop 8 (drop 4 m.ts_packet)) h
              (omega (arith, length-drop 8 (drop 4 m.ts_packet), length-drop 4 m.ts_packet)),
          refl,
        )
  | inr no_pcr ↦ elim (dec_le 184 len) [
    | yes long ↦
        rw (made-full f first len m h k no_pcr long, no_pcr, at_most long)
          (
            Ready-full f first (cc_of f m) (drop 4 m.ts_packet) h
                (omega (arith, length-drop 4 m.ts_packet)),
            refl,
          )
    | no short ↦
        rw (made-stuffed f first len m h k no_pcr (omega arith), no_pcr, all_of short)
          (
            Ready-stuffed f first (cc_of f m) len (drop 4 m.ts_packet) h
                (omega (arith, length-drop 4 m.ts_packet)) (omega arith),
            refl,
          )
  ]
]
  where
    at_most : 184 ≤ len → min 184 len ≡ 184
    at_most long = omega arith

    all_of : ¬ (184 ≤ len) → min 184 len ≡ len
    all_of short = omega arith
