-- ===== src/H264/Written.antt =====
-- What the rounds of getAnnexbH264 write, and which parameter sets they keep.
use live.Base.{
  ℕ, ◌≡◌, refl, ap, sym, ◌∙◌, inl, inr, Bool, true, false, ◌||◌, Bool-cases, List, [], ◌∷◌, ◌++◌,
  append-nil, append_assoc, if◌then◌else◌,
}
use live.H264.{start_code, Progress, write_nalu, write_sps_pps, keep_sps_pps}
use live.H264.Format.{
  is_idr, is_picture, is_parameter, framed, has_any, before_idr, from_idr, with_sets,
}
use live.H264.Rounds.{run}
use live.H264.Kinds.{
  idr, slice, parameter, other, step-idr, step-slice, step-parameter, step-other, Kind-cases,
  framed-front, run-next, framed-skip,
}

abbrev pub out_of : Progress → List ℕ
out_of st = st.written

abbrev pub sets_in : Progress → List ℕ
sets_in st = st.pps

sent_already :
    (info : List ℕ) (st : Progress) → st.has_write_sps_pps ≡ true → write_sps_pps info st ≡ st
unfolding write_sps_pps
sent_already info st h = rw h refl

-- Once the parameter sets are written the pictures follow.
run-sent :
    (info : List ℕ) (st : Progress) (nalus : List (List ℕ))
    → st.has_write_sps_pps ≡ true
    → out_of (run info st nalus) ≡ st.written ++ framed is_picture nalus
unfolding write_nalu keep_sps_pps
run-sent info st [] sent = sym (append-nil st.written)
run-sent info st (x ∷ xs) sent = elim (Kind-cases x) [
  | idr h k m ↦
      run-next out_of info x st (write_nalu x st) xs
        (step-idr info x st h ∙ ap (write_nalu x) (sent_already info st sent))
        (run-sent info (write_nalu x st) xs sent ∙ framed-front is_picture st.written x xs k)
  | slice h k m ↦
      run-next out_of info x st (write_nalu x st) xs (step-slice info x st h k)
        (run-sent info (write_nalu x st) xs sent ∙ framed-front is_picture st.written x xs k)
  | parameter h k m ↦
      run-next out_of info x st (keep_sps_pps x st) xs (step-parameter info x st m)
        (run-sent info (keep_sps_pps x st) xs sent ∙ framed-skip is_picture st.written x xs k)
  | other h k m ↦
      run-next out_of info x st st xs (step-other info x st k m)
        (run-sent info st xs sent ∙ framed-skip is_picture st.written x xs k)
]

-- The buffer collects every parameter set of the picture.
pub run-sets :
    (info : List ℕ) (st : Progress) (nalus : List (List ℕ))
    → sets_in (run info st nalus) ≡ st.pps ++ framed is_parameter nalus
unfolding write_nalu write_sps_pps keep_sps_pps
run-sets info st [] = sym (append-nil st.pps)
run-sets info st (x ∷ xs) = elim (Kind-cases x) [
  | idr h k m ↦
      run-next sets_in info x st (write_nalu x (write_sps_pps info st)) xs (step-idr info x st h) (
        run-sets info (write_nalu x (write_sps_pps info st)) xs
        ∙ ap (λ (b : List ℕ). b ++ framed is_parameter xs) (kept info st)
        ∙ framed-skip is_parameter st.pps x xs m)
  | slice h k m ↦
      run-next sets_in info x st (write_nalu x st) xs (step-slice info x st h k)
        (run-sets info (write_nalu x st) xs ∙ framed-skip is_parameter st.pps x xs m)
  | parameter h k m ↦
      run-next sets_in info x st (keep_sps_pps x st) xs (step-parameter info x st m)
        (run-sets info (keep_sps_pps x st) xs ∙ framed-front is_parameter st.pps x xs m)
  | other h k m ↦
      run-next sets_in info x st st xs (step-other info x st k m)
        (run-sets info st xs ∙ framed-skip is_parameter st.pps x xs m)
]
  where
    kept : (info : List ℕ) (st : Progress) → (write_sps_pps info st).pps ≡ st.pps
    kept info st = elim (Bool-cases st.has_write_sps_pps) [ inl h ↦ rw h refl | inr h ↦ rw h refl ]

abbrev pub sets_from : Bool → List ℕ → List ℕ → List (List ℕ) → List ℕ
sets_from has pps info nalus =
    if has || has_any is_parameter (before_idr nalus)
    then pps ++ framed is_parameter (before_idr nalus)
    else info

abbrev pub unsent : List ℕ → Progress → List (List ℕ) → List ℕ
unsent info st nalus =
    st.written
    ++ (framed is_picture (before_idr nalus)
        ++ with_sets (sets_from st.has_sps_pps st.pps info nalus) (from_idr nalus))

or_true : (b : Bool) → (b || true) ≡ true
or_true true = refl
or_true false = refl

module _ (info : List ℕ) (st : Progress) (x : List ℕ) (xs : List (List ℕ)) where
  unsent-slice :
      is_idr x ≡ false
      → is_picture x ≡ true
      → is_parameter x ≡ false
      → unsent info (write_nalu x st) xs ≡ unsent info st (x ∷ xs)
  unfolding write_nalu
  unsent-slice h k m =
      rw (h, k, m)
        (append_assoc (st.written ++ start_code) x (shown ++ behind)
          ∙ append_assoc st.written start_code (x ++ (shown ++ behind))
          ∙ ap (λ (b : List ℕ). st.written ++ (start_code ++ b))
              (sym (append_assoc x shown behind)))
    where
      shown : List ℕ
      shown = framed is_picture (before_idr xs)

      behind : List ℕ
      behind = with_sets (sets_from st.has_sps_pps st.pps info xs) (from_idr xs)

  unsent-parameter :
      is_idr x ≡ false
      → is_picture x ≡ false
      → is_parameter x ≡ true
      → unsent info (keep_sps_pps x st) xs ≡ unsent info st (x ∷ xs)
  unfolding keep_sps_pps
  unsent-parameter h k m =
      rw (h, k, m, or_true st.has_sps_pps)
        (ap
          (λ (sets : List ℕ).
            st.written ++ (framed is_picture (before_idr xs) ++ with_sets sets (from_idr xs)))
          (append_assoc (st.pps ++ start_code) x found
            ∙ append_assoc st.pps start_code (x ++ found)))
    where
      found : List ℕ
      found = framed is_parameter (before_idr xs)

  unsent-other :
      is_idr x ≡ false
      → is_picture x ≡ false
      → is_parameter x ≡ false
      → unsent info st xs ≡ unsent info st (x ∷ xs)
  unsent-other h k m = rw (h, k, m) refl

  unsent-idr :
      is_idr x ≡ true
      → is_picture x ≡ true
      → st.has_write_sps_pps ≡ false
      → out_of (write_nalu x (write_sps_pps info st)) ++ framed is_picture xs
        ≡ unsent info st (x ∷ xs)
  unfolding write_nalu write_sps_pps
  unsent-idr h k n = elim (Bool-cases st.has_sps_pps) [
    | inl y ↦
        rw (n, y, h, k)
          (front st.pps
            ∙ ap (λ (b : List ℕ). st.written ++ (b ++ behind)) (sym (append-nil st.pps)))
    | inr y ↦ rw (n, y, h, k) (front info)
  ]
    where
      behind : List ℕ
      behind = start_code ++ (x ++ framed is_picture xs)

      front :
          (sets : List ℕ)
          → (((st.written ++ sets) ++ start_code) ++ x) ++ framed is_picture xs
            ≡ st.written ++ (sets ++ behind)
      front sets =
          append_assoc ((st.written ++ sets) ++ start_code) x (framed is_picture xs)
          ∙ append_assoc (st.written ++ sets) start_code (x ++ framed is_picture xs)
          ∙ append_assoc st.written sets behind

-- Up to the first IDR slice the parameter sets are collected, and there they are written.
pub run-unsent :
    (info : List ℕ) (st : Progress) (nalus : List (List ℕ))
    → st.has_write_sps_pps ≡ false
    → out_of (run info st nalus) ≡ unsent info st nalus
unfolding write_nalu write_sps_pps keep_sps_pps
run-unsent info st [] n = sym (append-nil st.written)
run-unsent info st (x ∷ xs) n = elim (Kind-cases x) [
  | idr h k m ↦
      run-next out_of info x st (write_nalu x (write_sps_pps info st)) xs (step-idr info x st h) (
        run-sent info (write_nalu x (write_sps_pps info st)) xs sent
        ∙ unsent-idr info st x xs h k n)
  | slice h k m ↦
      run-next out_of info x st (write_nalu x st) xs (step-slice info x st h k)
        (run-unsent info (write_nalu x st) xs n ∙ unsent-slice info st x xs h k m)
  | parameter h k m ↦
      run-next out_of info x st (keep_sps_pps x st) xs (step-parameter info x st m)
        (run-unsent info (keep_sps_pps x st) xs n ∙ unsent-parameter info st x xs h k m)
  | other h k m ↦
      run-next out_of info x st st xs (step-other info x st k m)
        (run-unsent info st xs n ∙ unsent-other info st x xs h k m)
]
  where
    sent : (write_sps_pps info st).has_write_sps_pps ≡ true
    sent = rw n refl
