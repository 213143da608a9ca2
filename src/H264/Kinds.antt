-- ===== src/H264/Kinds.antt =====
-- A round of getAnnexbH264, by the kind of its NALU.
use live.Base.{
  ℕ, bit_and-ones, ◌≡◌, refl, ap, ◌∙◌, inl, inr, Bool, true, false, ◌||◌, Bool-cases, List, ◌∷◌,
  ◌++◌, append_assoc, arith, ◌==◌, get_or,
}
use live.H264.{start_code, Progress, nalu_type, nalu_step, write_nalu, write_sps_pps, keep_sps_pps}
use live.H264.Format.{kind, is_idr, is_picture, is_parameter, framed}
use live.H264.Rounds.{run}

-- What a round does, by the kind of the NALU.
module _ (info x : List ℕ) (st : Progress) where
  nalu_type-kind : nalu_type x ≡ kind x
  unfolding nalu_type
  nalu_type-kind = bit_and-ones 5 (get_or x 0 0)

  pub step-idr : is_idr x ≡ true → nalu_step info x st ≡ write_nalu x (write_sps_pps info st)
  unfolding nalu_step
  step-idr h = rw (nalu_type-kind, h) refl

  pub step-slice : is_idr x ≡ false → is_picture x ≡ true → nalu_step info x st ≡ write_nalu x st
  unfolding nalu_step
  step-slice h k = rw (nalu_type-kind, h) (rw (the_rest h k) refl)
    where
      the_rest :
          (kind x == 5) ≡ false
          → (kind x == 5 || (kind x == 1 || kind x == 6)) ≡ true
          → (kind x == 1 || kind x == 6) ≡ true
      the_rest h k = ground arith

  pub step-parameter : is_parameter x ≡ true → nalu_step info x st ≡ keep_sps_pps x st
  unfolding nalu_step
  step-parameter h = rw nalu_type-kind (rw (no_idr h, no_slice h, h) refl)
    where
      no_idr : (kind x == 7 || kind x == 8) ≡ true → (kind x == 5) ≡ false
      no_idr h = ground arith

      no_slice : (kind x == 7 || kind x == 8) ≡ true → (kind x == 1 || kind x == 6) ≡ false
      no_slice h = ground arith

  pub step-other : is_picture x ≡ false → is_parameter x ≡ false → nalu_step info x st ≡ st
  unfolding nalu_step
  step-other h k = rw nalu_type-kind (rw (no_idr h, no_slice h, k) refl)
    where
      no_idr : (kind x == 5 || (kind x == 1 || kind x == 6)) ≡ false → (kind x == 5) ≡ false
      no_idr h = ground arith

      no_slice :
          (kind x == 5 || (kind x == 1 || kind x == 6)) ≡ false
          → (kind x == 1 || kind x == 6) ≡ false
      no_slice h = ground arith

pub data Kind (x : List ℕ) : Type 0 where
  idr : is_idr x ≡ true → is_picture x ≡ true → is_parameter x ≡ false → Kind x
  slice : is_idr x ≡ false → is_picture x ≡ true → is_parameter x ≡ false → Kind x
  parameter : is_idr x ≡ false → is_picture x ≡ false → is_parameter x ≡ true → Kind x
  other : is_idr x ≡ false → is_picture x ≡ false → is_parameter x ≡ false → Kind x

pub Kind-cases : (x : List ℕ) → Kind x
Kind-cases x = elim (Bool-cases (is_idr x)) [
  | inl h ↦ idr h (ground arith) (ground arith)
  | inr h ↦ elim (Bool-cases (is_picture x)) [
    | inl k ↦ slice h k (ground arith)
    | inr k ↦ elim (Bool-cases (is_parameter x)) [ inl m ↦ parameter h k m | inr m ↦ other h k m ]
  ]
]

pub framed-front :
    (p : List ℕ → Bool) (b x : List ℕ) (xs : List (List ℕ))
    → p x ≡ true
    → ((b ++ start_code) ++ x) ++ framed p xs ≡ b ++ framed p (x ∷ xs)
framed-front p b x xs h =
    rw h (
      append_assoc (b ++ start_code) x (framed p xs) ∙ append_assoc b start_code (x ++ framed p xs))

-- The step from one NALU to the next, for what is read off the last state.
pub run-next :
    {A : Type 0} (f : Progress → A) (info x : List ℕ) (st st' : Progress) (xs : List (List ℕ))
    {a : A}
    → nalu_step info x st ≡ st'
    → f (run info st' xs) ≡ a
    → f (run info st (x ∷ xs)) ≡ a
run-next f info x st st' xs e h = ap (λ (s : Progress). f (run info s xs)) e ∙ h

pub framed-skip :
    (p : List ℕ → Bool) (b x : List ℕ) (xs : List (List ℕ))
    → p x ≡ false
    → b ++ framed p xs ≡ b ++ framed p (x ∷ xs)
framed-skip p b x xs h = rw h refl
