-- ===== src/H264/Rounds.antt =====
-- The rounds of getAnnexbH264 over length-prefixed NALUs.
use live.Base.{
  ℕ, zero, suc, ◌^◌, ◌<◌, ◌≡◌, refl, ap, ◌∙◌, ◌⊎◌, true, false, ◌&&◌, Option, none, some, List, [],
  ◌∷◌, ◌++◌, arith, ltb, leb, lt→ltb, length, All, length-append, take-append, drop-append,
}
use live.Pio.Format.{bytes_be}
use live.H264.{
  Error, nalu_body_len_error, Progress, nalu_size, nalu_step, go_on, stop, annexb_turn, after_turn,
  annexb_loop,
}
use live.H264.Format.{avcc, Fits, Ends, complete, short, broken}

abbrev pub run : List ℕ → Progress → List (List ℕ) → Progress
run info st [] = st
run info st (x ∷ xs) = run info (nalu_step info x st) xs

nalu_size-be : (n : ℕ) (rest : List ℕ) → n < 2 ^ 32 → nalu_size (bytes_be 4 n ++ rest) ≡ some n
unfolding nalu_size
nalu_size-be n rest h = ap some (omega arith)

nalu_size-nil : nalu_size [] ≡ none
unfolding nalu_size
nalu_size-nil = refl

annexb_turn-nalu :
    (info x rest : List ℕ) (st : Progress)
    → Fits x
    → annexb_turn info (bytes_be 4 (length x) ++ (x ++ rest)) (some (length x)) st
      ≡ go_on rest (nalu_step info x st)
unfolding annexb_turn
annexb_turn-nalu info x rest st (pos, small) =
    rw
      (
        fits,
        lt→ltb 0 (length x) pos,
        take-append (length x) x rest refl,
        drop-append (length x) x rest refl,
      )
      refl
  where
    fits : leb (length x) (length (x ++ rest)) ≡ true
    fits = ground (arith, length-append x rest)

annexb_loop-go_on :
    (n : ℕ) (info src rest : List ℕ) (st st' : Progress) (k : ℕ)
    → nalu_size src ≡ some k
    → annexb_turn info src (some k) st ≡ go_on rest st'
    → annexb_loop (suc n) info src st ≡ annexb_loop n info rest st'
unfolding annexb_loop after_turn
annexb_loop-go_on n info [] rest st st' k size turn = absurd (cc (size, nalu_size-nil))
annexb_loop-go_on n info (b ∷ src) rest st st' k size turn =
    ap (λ (o : Option ℕ). after_turn (annexb_loop n info) (annexb_turn info (b ∷ src) o st)) size
    ∙ ap (after_turn (annexb_loop n info)) turn

annexb_loop-stop :
    (n : ℕ) (info src : List ℕ) (st st' : Progress) (e : Error) (k : ℕ)
    → nalu_size src ≡ some k
    → annexb_turn info src (some k) st ≡ stop st' e
    → annexb_loop (suc n) info src st ≡ some (st', some e)
unfolding annexb_loop after_turn
annexb_loop-stop n info [] st st' e k size turn = absurd (cc (size, nalu_size-nil))
annexb_loop-stop n info (b ∷ src) st st' e k size turn =
    ap (λ (o : Option ℕ). after_turn (annexb_loop n info) (annexb_turn info (b ∷ src) o st)) size
    ∙ ap (after_turn (annexb_loop n info)) turn

annexb_loop-nalu :
    (n : ℕ) (info x rest : List ℕ) (st : Progress)
    → Fits x
    → annexb_loop (suc n) info (bytes_be 4 (length x) ++ (x ++ rest)) st
      ≡ annexb_loop n info rest (nalu_step info x st)
annexb_loop-nalu n info x rest st (pos, small) =
    annexb_loop-go_on n info (bytes_be 4 (length x) ++ (x ++ rest)) rest st (nalu_step info x st)
      (length x) (nalu_size-be (length x) (x ++ rest) small)
      (annexb_turn-nalu info x rest st (pos, small))

annexb_turn-broken :
    (info rest : List ℕ) (st : Progress) (k : ℕ)
    → (k ≡ 0) ⊎ (length rest < k)
    → annexb_turn info (bytes_be 4 k ++ rest) (some k) st ≡ stop st nalu_body_len_error
unfolding annexb_turn
annexb_turn-broken info rest st k bad = rw refused refl
  where
    refused : (leb k (length rest) && ltb 0 k) ≡ false
    refused = ground arith

annexb_loop-end :
    (n : ℕ) (info tail : List ℕ) (st : Progress) (e : Option Error)
    → Ends tail e
    → annexb_loop (suc n) info tail st ≡ some (st, e)
unfolding annexb_loop annexb_turn nalu_size after_turn
annexb_loop-end n info tail st e (complete t ee) = rw (t, ee) refl
annexb_loop-end n info [] st e (short pos small ee) = absurd (omega arith)
annexb_loop-end n info (a ∷ []) st e (short pos small ee) = rw ee refl
annexb_loop-end n info (a ∷ b ∷ []) st e (short pos small ee) = rw ee refl
annexb_loop-end n info (a ∷ b ∷ c ∷ []) st e (short pos small ee) = rw ee refl
annexb_loop-end n info (a ∷ b ∷ c ∷ d ∷ t) st e (short pos small ee) = absurd (omega arith)
annexb_loop-end n info tail st e (broken k rest small bad t ee) =
    rw (t, ee)
      (annexb_loop-stop n info (bytes_be 4 k ++ rest) st st nalu_body_len_error k
        (nalu_size-be k rest small) (annexb_turn-broken info rest st k bad))

pub annexb_loop-avcc :
    (n : ℕ) (info : List ℕ) (nalus : List (List ℕ)) (tail : List ℕ) (st : Progress)
    (e : Option Error)
    → All Fits nalus
    → Ends tail e
    → length (avcc nalus tail) < n
    → annexb_loop n info (avcc nalus tail) st ≡ some (run info st nalus, e)
annexb_loop-avcc zero info nalus tail st e f h lt = absurd (omega arith)
annexb_loop-avcc (suc n) info [] tail st e f h lt = annexb_loop-end n info tail st e h
annexb_loop-avcc (suc n) info (x ∷ xs) tail st e (f, fs) h lt =
    annexb_loop-nalu n info x (avcc xs tail) st f
    ∙ annexb_loop-avcc n info xs tail (nalu_step info x st) e fs h
        (omega (arith, length-append x (avcc xs tail)))
