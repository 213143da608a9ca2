-- ===== src/Amf/Taken.antt =====
-- What the AMF0 readers take of the bytes that they are given.
use live.Base.{
  ℕ, zero, suc, ◌+◌, ◌*◌, ◌≤◌, ◌≡◌, Bool, true, false, Bool-cases, inl, inr, Option-cases, some,
  ◌==◌, leb, List, [], ◌∷◌, arith, length, length-drop, drop,
}
use live.Pio.Format.{digits_be}
use live.Amf.Decoder.{
  Decoded, done, failed, panic, stuck, ◌>>>◌, read_bytes, read_byte, read_be, assert_marker,
  decode_number, decode_boolean, decode_string, decode_long_string, decode_xml_document,
  decode_date, decode_nothing,
}

-- There is a result that leaves `j` bytes less than `m`, of which `P` holds, or an error.
abbrev pub Within {ℓ} : (List ℕ → Type 0) → {A : Type ℓ} → ℕ → ℕ → Decoded A → Type 0
Within P j m (done a r) = (length r + j ≤ m) × P r
Within P j m failed = Unit
Within P j m panic = 1 ≤ 0
Within P j m stuck = 1 ≤ 0

pub Within-bind :
    (P : List ℕ → Type 0) {A B : Type 0} (j m i k : ℕ) (d : Decoded A) (f : A → List ℕ → Decoded B)
    → Within P j m d
    → ((a : A) (r : List ℕ) → length r + j ≤ m → P r → Within P i k (f a r))
    → Within P i k (d >>> f)
Within-bind P j m i k (done a r) f (h, p) g = g a r h p
Within-bind P j m i k failed f h g = tt
Within-bind P j m i k panic f h g = absurd (omega arith)
Within-bind P j m i k stuck f h g = absurd (omega arith)

-- The same result, counted from more bytes.
pub weaken :
    (P : List ℕ → Type 0) {A : Type 0} (m j k : ℕ) (d : Decoded A)
    → Within P 0 m d
    → m + j ≤ k
    → Within P j k d
weaken P m j k (done a r) (h, p) le = (omega arith, p)
weaken P m j k failed h le = tt
weaken P m j k panic h le = absurd (omega arith)
weaken P m j k stuck h le = absurd (omega arith)

pub relax :
    (P : List ℕ → Type 0) {A : Type 0} (j m : ℕ) (d : Decoded A) → Within P j m d → Within P 0 m d
relax P j m (done a r) (h, p) = (omega arith, p)
relax P j m failed h = tt
relax P j m panic h = h
relax P j m stuck h = h

-- A result that is passed on in a constructor.
pub passed :
    (P : List ℕ → Type 0) {A B : Type 0} (m : ℕ) (d : Decoded A) (f : A → B)
    → Within P 0 m d
    → Within P 0 m (d >>> λ a r. done (f a) r)
passed P m d f h = Within-bind P 0 m 0 m d (λ a r. done (f a) r) h (λ a r le p. (le, p))

-- `P` goes over from an input to what is left of it.
module _ (P : List ℕ → Type 0) (tail : (b : ℕ) (r : List ℕ) → P (b ∷ r) → P r) where
  pub P-drop : (n : ℕ) (r : List ℕ) → P r → P (drop n r)
  P-drop zero r p = p
  P-drop (suc n) [] p = p
  P-drop (suc n) (b ∷ r) p = P-drop n r (tail b r p)

  pub read_byte-Within : (r : List ℕ) → P r → Within P 1 (length r) (read_byte r)
  unfolding read_byte
  read_byte-Within [] p = tt
  read_byte-Within (b ∷ r) p = (omega arith, tail b r p)

  read_bytes-Within : (n : ℕ) (r : List ℕ) → P r → Within P 0 (length r) (read_bytes n r)
  unfolding read_bytes
  read_bytes-Within n [] p = tt
  read_bytes-Within n (b ∷ r) p = elim (Bool-cases (leb n (length (b ∷ r)))) [
    | inl h ↦ rw h (omega (arith, length-drop n (b ∷ r)), P-drop n (b ∷ r) p)
    | inr h ↦ rw h tt
  ]

  -- The bytes of a number are there when it is read.
  digits_be-length : (n acc : ℕ) (r : List ℕ) (v : ℕ) → digits_be n acc r ≡ some v → n ≤ length r
  digits_be-length zero acc r v e = omega arith
  digits_be-length (suc n) acc [] v e = absurd (cc e)
  digits_be-length (suc n) acc (x ∷ r) v e = omega (arith, digits_be-length n (acc * 256 + x) r v e)

  pub read_be-Within : (n : ℕ) (r : List ℕ) → P r → Within P n (length r) (read_be n r)
  unfolding read_be
  read_be-Within n r p = elim (Option-cases (digits_be n 0 r)) [
    | inl e ↦ rw (read_be, e) tt
    | inr (v, e) ↦
        rw (read_be, e) (omega (arith, length-drop n r, digits_be-length n 0 r v e), P-drop n r p)
  ]

  pub assert_marker-Within :
      (b : Bool) (m : ℕ) (r : List ℕ) → P r → Within P 0 (length r) (assert_marker b m r)
  unfolding assert_marker read_byte
  assert_marker-Within false m r p = (omega arith, p)
  assert_marker-Within true m [] p = tt
  assert_marker-Within true m (a ∷ r) p = elim (Bool-cases (a == m)) [
    | inl e ↦ rw e (omega arith, tail a r p)
    | inr e ↦ rw e tt
  ]

  pub decode_string-Within : (r : List ℕ) → P r → Within P 2 (length r) (decode_string false r)
  unfolding decode_string assert_marker
  decode_string-Within r p =
      Within-bind P 2 (length r) 2 (length r) (read_be 2 r) (λ len r2. read_bytes len r2)
        (read_be-Within 2 r p)
        (λ len r2 h q.
          weaken P (length r2) 2 (length r) (read_bytes len r2) (read_bytes-Within len r2 q) h)

  pub decode_long_string-Within :
      (r : List ℕ) → P r → Within P 0 (length r) (decode_long_string false r)
  unfolding decode_long_string assert_marker
  decode_long_string-Within r p =
      Within-bind P 4 (length r) 0 (length r) (read_be 4 r) (λ len r2. read_bytes len r2)
        (read_be-Within 4 r p)
        (λ len r2 h q.
          weaken P (length r2) 0 (length r) (read_bytes len r2) (read_bytes-Within len r2 q)
            (omega arith))

  pub decode_number-Within : (r : List ℕ) → P r → Within P 0 (length r) (decode_number false r)
  unfolding decode_number assert_marker
  decode_number-Within r p = relax P 8 (length r) (read_be 8 r) (read_be-Within 8 r p)

  pub decode_boolean-Within : (r : List ℕ) → P r → Within P 0 (length r) (decode_boolean false r)
  unfolding decode_boolean assert_marker read_byte
  decode_boolean-Within [] p = tt
  decode_boolean-Within (b ∷ r) p = elim (Bool-cases (b == 0)) [
    | inl e ↦ rw e (omega arith, tail b r p)
    | inr e ↦ rw e (elim (Bool-cases (b == 1)) [
      | inl e' ↦ rw e' (omega arith, tail b r p)
      | inr e' ↦ rw e' tt
    ])
  ]

  pub decode_date-Within : (r : List ℕ) → P r → Within P 0 (length r) (decode_date false r)
  unfolding decode_date assert_marker
  decode_date-Within r p =
      Within-bind P 0 (length r) 0 (length r) (decode_number false r)
        (λ x r2. read_bytes 2 r2 >>> λ _ r3. done x r3) (decode_number-Within r p)
        (λ x r2 h q.
          weaken P (length r2) 0 (length r) (read_bytes 2 r2 >>> λ _ r3. done x r3)
            (passed P (length r2) (read_bytes 2 r2) (λ _. x) (read_bytes-Within 2 r2 q))
            (omega arith))

  pub decode_xml_document-Within :
      (r : List ℕ) → P r → Within P 0 (length r) (decode_xml_document false r)
  unfolding decode_xml_document assert_marker
  decode_xml_document-Within r p = decode_long_string-Within r p

  pub decode_nothing-Within :
      (m : ℕ) (r : List ℕ) → P r → Within P 0 (length r) (decode_nothing m false r)
  unfolding decode_nothing assert_marker
  decode_nothing-Within m r p = (omega arith, p)
