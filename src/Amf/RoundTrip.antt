-- ===== src/Amf/RoundTrip.antt =====
-- protocol/amf: the AMF0 decoder on the bytes of the format and of the encoder.
use live.Base.{
  ℕ, zero, suc, subst, ◌+◌, ◌*◌, ◌<◌, ◌≤◌, ◌≡◌, refl, ap, sym, ◌∙◌, Bool, true, false, Bool-cases,
  inl, inr, leb, List, [], ◌∷◌, ◌++◌, append_assoc, arith, length, length-append,
}
use live.Pio.Format.{bytes_be}
use live.Amf.Value.{
  Value, null, boolean, number, string, object, array, typed_object, Values, no_values, value,
  Members, no_members, member, snoc, append, count,
}
use live.Amf.Encoder.{write_bytes, encode}
use live.Amf.Decoder.{
  Decoded, done, read_byte, assert_marker, decode_number, decode_boolean, decode_nothing, marker_of,
  decode_object, decode_typed_object, decode_strict_array, route, end_or_value, decode,
  decode_members, decode_values, decode_amf0,
}
use live.Amf.Wire.{
  wire_string, object_end, wire, wire_members, wire_values, nonempty, Apart, Fits, FitsMembers,
  FitsValues, plain, encode-wire,
}
use live.Amf.Pieces.{
  read_be-bytes, decode_string-wire, decode_long_string-wire, put-snoc, append-snoc,
  append-no_members, append-nothing, end_key, or-true, nonempty-append, nonempty-values,
}

-- The steps that a value takes.
unfoldable mutual
  pub size : Value → ℕ
  size null = 1
  size (boolean b) = 1
  size (number x) = 1
  size (string s) = 1
  size (object ms) = 1 + size_members ms
  size (array vs) = 1 + size_values vs
  size (typed_object t ms) = 1 + size_members ms

  pub size_members : Members → ℕ
  size_members no_members = 1
  size_members (member k v ms) = 1 + (size v + size_members ms)

  pub size_values : Values → ℕ
  size_values no_values = 0
  size_values (value v vs) = 1 + (size v + size_values vs)

module _ (amf3 : List ℕ → Decoded Value) where
  mutual
    unfolding decode route end_or_value decode_members decode_values wire Fits size Apart nonempty
        count read_byte marker_of decode_number decode_boolean decode_nothing assert_marker
        decode_object decode_typed_object decode_strict_array

    decode-wire :
        (v : Value) (n : ℕ) (rest : List ℕ)
        → Fits (nonempty rest) v
        → size v ≤ n
        → decode amf3 n (wire v ++ rest) ≡ done v rest
    decode-wire null zero rest h le = absurd (omega arith)
    decode-wire null (suc n) rest h le = refl
    decode-wire (boolean b) zero rest h le = absurd (omega arith)
    decode-wire (boolean true) (suc n) rest h le = refl
    decode-wire (boolean false) (suc n) rest h le = refl
    decode-wire (number x) zero rest h le = absurd (omega arith)
    decode-wire (number x) (suc n) rest h le = rw (read_be-bytes 8 x rest (omega arith)) refl
    decode-wire (string s) zero rest h le = absurd (omega arith)
    decode-wire (string s) (suc n) rest h le = elim (Bool-cases (leb (length s) 65535)) [
      | inl small ↦ rw (small, decode_string-wire s rest (ground arith) h.1) refl
      | inr big ↦ rw (big, decode_long_string-wire s rest h.0 h.1) refl
    ]
    decode-wire (object ms) zero rest h le = absurd (omega arith)
    decode-wire (object ms) (suc n) rest h le =
        rw
          (
            append_assoc (wire_members ms) object_end rest,
            members-wire ms n no_members rest h.1 h.0 (omega arith),
          )
          (ap (λ (m : Members). done (object m) rest) (append-nothing ms))
    decode-wire (array vs) zero rest h le = absurd (omega arith)
    decode-wire (array vs) (suc n) rest h le =
        rw
          (
            append_assoc (bytes_be 4 (count vs)) (wire_values vs) rest,
            read_be-bytes 4 (count vs) (wire_values vs ++ rest) (omega (arith, h.0)),
            values-wire vs n rest h.1 (omega arith),
          )
          refl
    decode-wire (typed_object t ms) zero rest h le = absurd (omega arith)
    decode-wire (typed_object t ms) (suc n) rest h le =
        rw
          (
            append_assoc (wire_string t) (wire_members ms ++ object_end) rest,
            append_assoc (wire_members ms) object_end rest,
            decode_string-wire t (wire_members ms ++ (object_end ++ rest)) h.0 (
                or-true (nonempty t) (nonempty (wire_members ms ++ (object_end ++ rest)))
                  (nonempty-append (wire_members ms) 0 (0 ∷ 0x09 ∷ rest))),
            members-wire ms n no_members rest h.2 h.1 (omega arith),
          )
          (ap (λ (m : Members). done (typed_object t m) rest) (append-nothing ms))

    pub members-wire :
        (ms : Members) (n : ℕ) (before : Members) (rest : List ℕ)
        → FitsMembers ms
        → Apart before ms
        → size_members ms ≤ n
        → decode_members amf3 n before (wire_members ms ++ (object_end ++ rest))
          ≡ done (append before ms) rest
    members-wire no_members zero before rest h apart le = absurd (omega arith)
    members-wire no_members (suc n) before rest h apart le =
        rw (end_key rest) (ap (λ (m : Members). done m rest) (sym (append-no_members before)))
    members-wire (member k v ms) zero before rest h apart le = absurd (omega arith)
    members-wire (member [] v ms) (suc n) before rest h apart le = absurd (cc (h.1))
    members-wire (member (a ∷ k) v ms) (suc n) before rest h apart le =
        rw
          (
            append_assoc (wire_string (a ∷ k)) (wire v ++ wire_members ms) (object_end ++ rest),
            append_assoc (wire v) (wire_members ms) (object_end ++ rest),
            decode_string-wire (a ∷ k) (wire v ++ (wire_members ms ++ (object_end ++ rest))) h.0
                refl,
            decode-wire v n (wire_members ms ++ (object_end ++ rest))
                (subst (λ (more : Bool). Fits more v)
                  (sym (nonempty-append (wire_members ms) 0 (0 ∷ 0x09 ∷ rest))) h.2)
                (omega arith),
            put-snoc (a ∷ k) v before apart.0,
          )
          (members-wire ms n (snoc before (a ∷ k) v) rest h.3 apart.1 (omega arith)
            ∙ ap (λ (m : Members). done m rest) (append-snoc before (a ∷ k) v ms))

    values-wire :
        (vs : Values) (n : ℕ) (rest : List ℕ)
        → FitsValues (nonempty rest) vs
        → size_values vs ≤ n
        → decode_values amf3 n (count vs) (wire_values vs ++ rest) ≡ done vs rest
    values-wire no_values zero rest h le = refl
    values-wire no_values (suc n) rest h le = refl
    values-wire (value v vs) zero rest h le = absurd (omega arith)
    values-wire (value v vs) (suc n) rest h le =
        rw
          (
            append_assoc (wire v) (wire_values vs) rest,
            decode-wire v n (wire_values vs ++ rest)
                (subst (λ (more : Bool). Fits more v) (sym (nonempty-values vs rest)) h.0)
                (omega arith),
            values-wire vs n rest h.1 (omega arith),
          )
          refl

mutual
  unfolding wire wire_string size

  size-wire : (v : Value) → size v < 2 * length (wire v)
  size-wire null = omega arith
  size-wire (boolean b) = omega arith
  size-wire (number x) = omega arith
  size-wire (string s) = elim (Bool-cases (leb (length s) 65535)) [
    | inl small ↦ rw small (omega arith)
    | inr big ↦ rw big (omega arith)
  ]
  size-wire (object ms) =
      omega (arith, size_members-wire ms, length-append (wire_members ms) object_end)
  size-wire (array vs) =
      omega (arith, size_values-wire vs, length-append (bytes_be 4 (count vs)) (wire_values vs))
  size-wire (typed_object t ms) = omega (
    arith,
    size_members-wire ms,
    length-append (wire_string t) (wire_members ms ++ object_end),
    length-append (wire_members ms) object_end,
  )

  pub size_members-wire : (ms : Members) → size_members ms ≤ 2 * length (wire_members ms) + 1
  size_members-wire no_members = omega arith
  size_members-wire (member k v ms) = omega (
    arith,
    size-wire v,
    size_members-wire ms,
    length-append (wire_string k) (wire v ++ wire_members ms),
    length-append (wire v) (wire_members ms),
    length-append (bytes_be 2 (length k)) k,
  )

  size_values-wire : (vs : Values) → size_values vs ≤ 2 * length (wire_values vs)
  size_values-wire no_values = omega arith
  size_values-wire (value v vs) =
      omega (arith, size-wire v, size_values-wire vs, length-append (wire v) (wire_values vs))

-- A value that the format can hold, typed objects included, is decoded from its bytes, whatever bytes
-- follow, and those are left.
pub decode_amf0-wire :
    (amf3 : List ℕ → Decoded Value) (v : Value) (rest : List ℕ)
    → Fits (nonempty rest) v
    → decode_amf0 amf3 (wire v ++ rest) ≡ done v rest
unfolding decode_amf0
decode_amf0-wire amf3 v rest h =
    decode-wire amf3 v (2 * length (wire v ++ rest) + 2) rest h
      (omega (arith, size-wire v, length-append (wire v) rest))

-- A value without typed objects, which the format can hold, is decoded from what the encoder writes
-- for it, whatever bytes follow, and those are left.
pub decode-encode :
    (amf3 : List ℕ → Decoded Value) (v : Value) (rest : List ℕ)
    → plain v ≡ true
    → Fits (nonempty rest) v
    → decode_amf0 amf3 ((encode v).out ++ rest) ≡ done v rest
unfolding write_bytes
decode-encode amf3 v rest p h =
    rw (encode-wire (nonempty rest) v p h) (decode_amf0-wire amf3 v rest h)
