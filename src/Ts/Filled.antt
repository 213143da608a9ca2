-- ===== src/Ts/Filled.antt =====
-- The body of a round of Mux, by what room its packet has left.
use live.Base.{
  ℕ, zero, suc, ◌+◌, ◌-◌, ◌%◌, ◌≤◌, ◌<◌, ◌≡◌, refl, ap, ap₂, sym, ◌∙◌, Bool, true, false, ◌&&◌,
  Option, some, List, [], ◌∷◌, ◌++◌, append-nil, append_assoc, arith, ltb, leb, length, take, drop,
  length-append, length-take, length-drop, take-append, drop-append, drop-all, take-all,
}
use live.Ts.Muxer.{Muxer, Frame, Filling, Loop, copy, copy_at, slice?, put_pes, put_payload}
use live.Ts.Front.{copy-full}

pub copy_at-full :
    (pre tail src : List ℕ)
    → length src ≤ length tail
    → copy_at (length pre) src (pre ++ tail) ≡ (pre ++ src) ++ drop (length src) tail
copy_at-full pre tail src h =
    ap₂ (λ (a b : List ℕ). a ++ copy src b) (take-append (length pre) pre tail refl)
      (drop-append (length pre) pre tail refl)
    ∙ ap (λ (b : List ℕ). pre ++ b) (copy-full src tail h)
    ∙ sym (append_assoc pre src (drop (length src) tail))

pub slice?-within :
    (b : List ℕ) (i n : ℕ) → i + n ≤ length b → slice? b i n ≡ some (take n (drop i b))
slice?-within b i n h = rw fits refl
  where
    fits : leb (i + n) (length b) ≡ true
    fits = ground arith

-- A front with all of its tail overwritten.
pub copy_at-whole :
    (pre tail src : List ℕ)
    → length src ≡ length tail
    → copy_at (length pre) src (pre ++ tail) ≡ pre ++ src
copy_at-whole pre tail src h =
    copy_at-full pre tail src (omega arith)
    ∙ ap (λ (b : List ℕ). (pre ++ src) ++ b) (drop-all (length src) tail (omega arith))
    ∙ append-nil (pre ++ src)

pub no_tail : (tail : List ℕ) → length tail ≡ 0 → tail ≡ []
no_tail [] h = refl
no_tail (x ∷ tail) h = absurd (omega arith)

module _ (f : Frame) (m : Muxer) (pre tail : List ℕ) where
  abbrev passed : Bool → ℕ → ℕ → ℕ → ℕ → List ℕ → Option (Loop × Filling)
  passed first w index left len b = some (
    record {
      muxer = m;
      first = first;
      w_bytes = w;
      pes_index = index;
      pes_header_len = left;
      packet_bytes_len = len;
    },
    record { buf = pre ++ b; i = length pre },
  )

  pub put_payload-at :
      (first : Bool) (w index left len d : ℕ)
      → length tail ≡ d
      → length pre + d ≡ 188
      → w + d ≤ length f.payload
      → put_payload f (
        record {
          muxer = m;
          first = first;
          w_bytes = w;
          pes_index = index;
          pes_header_len = left;
          packet_bytes_len = len;
        },
        record { buf = pre ++ tail; i = length pre },
        d,
      )
        ≡ passed first (w + d) index left (len - d) (take d (drop w f.payload))
  unfolding put_payload
  put_payload-at first w index left len zero ht hp hw = rw (no_room (length pre) hp) (
      ap₂ (λ (n k : ℕ). passed first n index left k tail) (omega arith) (omega arith)
      ∙ ap (passed first (w + 0) index left (len - 0)) (no_tail tail ht))
    where
      no_room : (n : ℕ) → n + 0 ≡ 188 → ltb n 188 ≡ false
      no_room n h = ground arith
  put_payload-at first w index left len (suc d) ht hp hw =
      rw
        (
          rest (length pre) d hp,
          has_room (length pre) d hp,
          enough d,
          slice?-within f.payload w (suc d) hw,
          copy_at-whole pre tail (take (suc d) (drop w f.payload))
              (omega (arith, length-take (suc d) (drop w f.payload), length-drop w f.payload)),
        )
        refl
    where
      rest : (n d : ℕ) → n + suc d ≡ 188 → 188 - n ≡ suc d
      rest n d h = omega arith

      has_room : (n d : ℕ) → n + suc d ≡ 188 → ltb n 188 ≡ true
      has_room n d h = ground arith

      enough : (d : ℕ) → leb (suc d) (suc d) ≡ true
      enough d = ground arith

  abbrev pes_passed : ℕ → ℕ → ℕ → ℕ → ℕ → ℕ → Option (Loop × Filling × ℕ)
  pes_passed w len index left i d = some (
    record {
      muxer = m;
      first = true;
      w_bytes = w;
      pes_index = index;
      pes_header_len = left;
      packet_bytes_len = len;
    },
    record { buf = (pre ++ f.pes) ++ drop (length f.pes) tail; i = i },
    d,
  )

  pub put_pes-first :
      (w len d : ℕ)
      → length tail ≡ d
      → length pre + d ≡ 188
      → 0 < length f.pes
      → length f.pes ≤ d
      → put_pes f
          (record {
            muxer = m;
            first = true;
            w_bytes = w;
            pes_index = 0;
            pes_header_len = length f.pes;
            packet_bytes_len = len;
          })
          (record { buf = pre ++ tail; i = length pre }, d)
        ≡ pes_passed w
            (len - length f.pes)
            (length f.pes)
            0
            (length (pre ++ f.pes))
            (d - length f.pes)
  unfolding put_pes
  put_pes-first w len d ht hp pos fits =
      rw
        (
          whole (length pre) (length f.pes) d hp fits,
          has_room (length pre) (length f.pes) d hp pos fits,
          slice?-within f.pes 0 (length f.pes) (omega arith),
          take-all (length f.pes) f.pes (omega arith),
          copy_at-full pre tail f.pes (omega arith),
        )
        (ap₂
            (λ (n k : ℕ).
              pes_passed w (len - length f.pes) n k ((length pre + length f.pes) % 256)
                ((d + 256 - length f.pes) % 256))
            (omega arith) (omega arith)
          ∙ ap₂ (λ (n k : ℕ). pes_passed w (len - length f.pes) (length f.pes) 0 n k)
              (omega (arith, length-append pre f.pes)) (omega arith))
    where
      whole : (n p d : ℕ) → n + d ≡ 188 → p ≤ d → leb p (188 - n) ≡ true
      whole n p d h k = ground arith

      has_room : (n p d : ℕ) → n + d ≡ 188 → 0 < p → p ≤ d → (ltb n 188 && ltb 0 p) ≡ true
      has_room n p d h k l = ground arith
