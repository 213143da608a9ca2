-- ===== src/Amf3/Leaves.antt =====
-- The values without parts, written and read, and the references to strings.
use live.Base.{
  ℕ, suc, ◌+◌, ◌-◌, ◌*◌, ◌%◌, ◌^◌, ◌≤◌, ◌<◌, ◌≡◌, refl, ap, ◌∙◌, bit_or, bit_and-ones, bit_or-add,
  true, false, Option, some, List, [], ◌∷◌, ◌++◌, append-nil, append_assoc, arith, if◌then◌else◌,
  ◌==◌, ltb, length, replicate, get_elem?, length-append, take-append, drop-append,
}
use live.Amf.Encoder.{Written, write_bytes, then_write}
use live.Amf3.Value.{Refs}
use live.Amf3.Reading.{
  done, assert_marker, read_buf, decode_reference_int, or_panic, ref_at, string_or_ref,
  remember_string, decode_string,
}
use live.Amf3.Writing.{encode_uint29, length_u29, encode_utf8}
use live.Amf3.Uint29.{decode_u29-encode}

length_u29-plain : (n : ℕ) → n < 2 ^ 28 → length_u29 n ≡ n * 2 + 1
length_u29-plain n h = ap (λ (x : ℕ). bit_or x 0x01) even ∙ bit_or-add 1 n 1 (omega arith)
  where
    even : n * 2 % 2 ^ 32 ≡ n * 2
    even = omega arith

-- A length, and a reference, in front of what follows.
module _ (n : ℕ) (d : Refs) (rest : List ℕ) where
  reference_int-length :
      n < 2 ^ 28
      → decode_reference_int d ((encode_uint29 (length_u29 n)).out ++ rest) ≡ done (false, n) d rest
  unfolding decode_reference_int
  reference_int-length h =
      rw
        (
          length_u29-plain n h,
          (decode_u29-encode (n * 2 + 1) d rest (omega arith)).0,
          bit_and-ones 1 (n * 2 + 1),
          odd,
        )
        (ap (λ (x : ℕ). done (false, x) d rest) (omega arith))
    where
      odd : ((n * 2 + 1) % 2 == 0) ≡ false
      odd = ground arith

  reference_int-ref :
      n < 2 ^ 28
      → decode_reference_int d ((encode_uint29 (n * 2)).out ++ rest) ≡ done (true, n) d rest
  unfolding decode_reference_int
  reference_int-ref h =
      rw ((decode_u29-encode (n * 2) d rest (omega arith)).0, bit_and-ones 1 (n * 2), even)
        (ap (λ (x : ℕ). done (true, x) d rest) (omega arith))
    where
      even : (n * 2 % 2 == 0) ≡ true
      even = ground arith

read_buf-append :
    (s : List ℕ) (d : Refs) (rest : List ℕ)
    → 0 < length (s ++ rest)
    → read_buf (length s) d (s ++ rest) ≡ done s d rest
unfolding read_buf
read_buf-append [] d [] h = absurd (omega arith)
read_buf-append [] d (b ∷ rest) h =
    ap (λ (k : ℕ). done (replicate k 0) d (b ∷ rest)) (none_left (length rest))
  where
    none_left : (n : ℕ) → 0 - suc n ≡ 0
    none_left n = omega arith
read_buf-append (a ∷ s) d rest h =
    rw
      (
        take-append (length s) s rest refl,
        drop-append (length s) s rest refl,
        none_left (length s) (length (s ++ rest)) (omega (arith, length-append s rest)),
      )
      (ap (λ (b : List ℕ). done (a ∷ b) d rest) (append-nil s))
  where
    none_left : (n m : ℕ) → n ≤ m → suc n - suc m ≡ 0
    none_left n m h = omega arith

then_write-out :
    (a : Written) (b : List ℕ) → a.failed ≡ false → (then_write a (write_bytes b)).out ≡ a.out ++ b
unfolding then_write write_bytes
then_write-out a b h = rw h refl

length_ok : (n : ℕ) → n < 2 ^ 28 → (encode_uint29 (length_u29 n)).failed ≡ false
length_ok n h =
    rw (length_u29-plain n h)
      (decode_u29-encode (n * 2 + 1)
        (record { string_refs = []; object_refs = []; trait_refs = [] }) [] (omega arith)).1

-- A string as it is, and remembered.
decode_utf8-sent :
    (s : List ℕ) (d : Refs) (rest : List ℕ)
    → length s < 2 ^ 28
    → 0 < length (s ++ rest)
    → decode_string false d ((encode_utf8 s).out ++ rest) ≡ remember_string s d rest
unfolding decode_string assert_marker encode_utf8 string_or_ref
decode_utf8-sent s d rest small more =
    rw
      (
        then_write-out (encode_uint29 (length_u29 (length s))) s (length_ok (length s) small),
        append_assoc (encode_uint29 (length_u29 (length s))).out s rest,
        reference_int-length (length s) d (s ++ rest) small,
        read_buf-append s d rest more,
      )
      refl

get_elem?-last :
    {A : Type 0} (xs : List A) (x : A) → get_elem? (xs ++ (x ∷ [])) (length xs) ≡ some x
get_elem?-last [] x = refl
get_elem?-last (y ∷ xs) x = get_elem?-last xs x

-- A string that is sent once, and not empty, is named by its place among the strings from then on: the
-- decoder gives the string both times, whatever follows.
pub decode_string-twice :
    (b : ℕ) (s : List ℕ) (d : Refs) (rest : List ℕ)
    → length (b ∷ s) < 2 ^ 28
    → length d.string_refs < 2 ^ 28
    → let d' = record d { string_refs = d.string_refs ++ ((b ∷ s) ∷ []) } in
      let reference = (encode_uint29 (length d.string_refs * 2)).out in
      (decode_string false d ((encode_utf8 (b ∷ s)).out ++ (reference ++ rest))
        ≡ done (b ∷ s) d' (reference ++ rest))
      × (decode_string false d' (reference ++ rest) ≡ done (b ∷ s) d' rest)
unfolding remember_string decode_string assert_marker string_or_ref ref_at
decode_string-twice b s d rest small few =
    let d' = record d { string_refs = d.string_refs ++ ((b ∷ s) ∷ []) } in
    let reference = (encode_uint29 (length d.string_refs * 2)).out in
    (
      decode_utf8-sent (b ∷ s) d (reference ++ rest) small (omega arith),
      rw (reference_int-ref (length d.string_refs) d' rest few)
          (ap (λ (o : Option (List ℕ)). or_panic o d' rest) (get_elem?-last d.string_refs (b ∷ s))),
    )

-- An integer of 29 bits: those below 2^28 are themselves, and the others are negative.
abbrev pub signed : ℕ → ℕ
signed v = if ltb v (2 ^ 28) then v else v + 2 ^ 32 - 2 ^ 29
