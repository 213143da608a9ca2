-- ===== src/Hls/Steady.antt =====
-- The times that `align` gives, and the frames that an audio cache joins.
use live.Base.{
  ℕ, ◌+◌, ◌-◌, ◌*◌, ◌%◌, ◌^◌, ◌≤◌, ◌<◌, ◌≡◌, refl, ap, ap₂, sym, ◌∙◌, inl, inr, true, false,
  Bool-cases, List, [], ◌∷◌, ◌++◌, append_assoc, append-nil, arith, if◌then◌else◌, ◌==◌, leb,
  length, length-append,
}
use live.Hls.Timing.{Align, est_pts, align, AudioCache, reset_if_empty, cache, get_frame, cache_num}

-- The time given is at most 180 ticks from the real one, and the next time that is expected is the
-- one given and the length of a frame. Times and the count of frames are below 2^63.
pub align-steady :
    (a : Align) (dts inc : ℕ)
    → dts < 2 ^ 63
    → a.frame_num < 2 ^ 63
    → inc < 2 ^ 32
    → a.frame_base + (a.frame_num + 1) * inc < 2 ^ 63
    → ((align a dts inc).1 ≤ dts + 180)
      × (dts ≤ (align a dts inc).1 + 180)
      × (est_pts (align a dts inc).0 inc ≡ (align a dts inc).1 + inc)
unfolding align
align-steady a dts inc h k l m =
    elim (Bool-cases (
      leb (if leb dts (est_pts a inc) then est_pts a inc - dts else dts - est_pts a inc)
        (2 * 90))) [
          | inl near ↦ rw near ((close near).0, (close near).1, onward)
          | inr far ↦ rw far (omega arith, omega arith, again)
        ]
  where
    est : ℕ
    est = est_pts a inc

    close :
        leb (if leb dts est then est - dts else dts - est) (2 * 90) ≡ true
        → (est ≤ dts + 180) × (dts ≤ est + 180)
    close near = (ground arith, ground arith)

    product : (a.frame_num + 1) * inc ≡ a.frame_num * inc + inc
    product = omega arith

    counted : (a.frame_num + 1) % 2 ^ 64 ≡ a.frame_num + 1
    counted = omega arith

    onward : (a.frame_base + (a.frame_num + 1) % 2 ^ 64 * inc) % 2 ^ 64 ≡ est + inc
    onward = ap (λ (n : ℕ). (a.frame_base + n * inc) % 2 ^ 64) counted ∙ omega (arith, product)

    again : (dts + 1 * inc) % 2 ^ 64 ≡ dts + inc
    again = omega arith

abbrev pub joined : List (List ℕ × ℕ) → List ℕ
joined [] = []
joined (f ∷ fs) = f.0 ++ joined fs

abbrev pub cache_all : List (List ℕ × ℕ) → AudioCache → AudioCache
cache_all [] a = a
cache_all (f ∷ fs) a = cache_all fs (cache f.0 f.1 a)

cache_started :
    (src : List ℕ) (t n o p : ℕ) (b : List ℕ)
    → 0 < n
    → n < 255
    → cache src t (record { num = n; offset = o; pts = p; buf = b })
      ≡ record { num = n + 1; offset = o + length src; pts = p; buf = b ++ src }
unfolding cache reset_if_empty
cache_started src t n o p b pos small = rw (not_empty n pos) (
    ap (λ (k : ℕ). record { num = k; offset = o + length src; pts = p; buf = b ++ src })
      (omega arith))
  where
    not_empty : (n : ℕ) → 0 < n → (n == 0) ≡ false
    not_empty n pos = ground arith

cache_all-started :
    (fs : List (List ℕ × ℕ)) (n o p : ℕ) (b : List ℕ)
    → 0 < n
    → n + length fs < 256
    → cache_all fs (record { num = n; offset = o; pts = p; buf = b }) ≡ record {
      num = n + length fs;
      offset = o + length (joined fs);
      pts = p;
      buf = b ++ joined fs;
    }
cache_all-started [] n o p b pos small =
    ap₂ (λ (q : ℕ × ℕ) (c : List ℕ). record { num = q.0; offset = q.1; pts = p; buf = c })
      (ap₂ (λ (x y : ℕ). (x, y)) (omega arith) (omega arith)) (sym (append-nil b))
cache_all-started (f ∷ fs) n o p b pos small =
    ap (cache_all fs) (cache_started f.0 f.1 n o p b pos (omega arith))
    ∙ cache_all-started fs (n + 1) (o + length f.0) p (b ++ f.0) (omega arith) (omega arith)
    ∙ ap₂ (λ (q : ℕ × ℕ) (c : List ℕ). record { num = q.0; offset = q.1; pts = p; buf = c })
        (ap₂ (λ (x y : ℕ). (x, y)) (omega arith) (omega (arith, length-append f.0 (joined fs))))
        (append_assoc b f.0 (joined fs))

first_frame :
    (a : AudioCache) (f : List ℕ × ℕ)
    → cache_num a ≡ 0
    → cache f.0 f.1 a ≡ record { num = 1; offset = length f.0; pts = f.1; buf = f.0 }
unfolding cache reset_if_empty cache_num
first_frame a f empty =
    rw empty (ap (λ (n : ℕ). record { num = 1; offset = n; pts = f.1; buf = f.0 }) (omega arith))

-- Up to 255 frames, the first into an empty cache, are counted, and come out joined, with their
-- length and the time of the first; and the cache is empty again.
pub get_frame-cache_all :
    (a : AudioCache) (f : List ℕ × ℕ) (fs : List (List ℕ × ℕ))
    → cache_num a ≡ 0
    → length (f ∷ fs) < 256
    → (cache_num (cache_all (f ∷ fs) a) ≡ length (f ∷ fs))
      × ((get_frame (cache_all (f ∷ fs) a)).1 ≡ (length (joined (f ∷ fs)), (f.1, joined (f ∷ fs))))
      × (cache_num (get_frame (cache_all (f ∷ fs) a)).0 ≡ 0)
unfolding cache_num get_frame
get_frame-cache_all a f fs empty small = rw (all_of) (
  omega arith,
  ap (λ (n : ℕ). (n, (f.1, f.0 ++ joined fs))) (omega (arith, length-append f.0 (joined fs))),
  refl,
)
  where
    all_of : cache_all fs (cache f.0 f.1 a) ≡ record {
      num = 1 + length fs;
      offset = length f.0 + length (joined fs);
      pts = f.1;
      buf = f.0 ++ joined fs;
    }
    all_of =
        ap (cache_all fs) (first_frame a f empty)
        ∙ cache_all-started fs 1 (length f.0) f.1 f.0 (omega arith) (omega arith)
