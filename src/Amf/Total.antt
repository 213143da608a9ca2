-- ===== src/Amf/Total.antt =====
-- protocol/amf/decoder_amf0.go: the decoder's fuel against the bytes that it is given.
use live.Base.{
  ℕ, zero, suc, ◌+◌, ◌*◌, ◌≤◌, ◌≡◌, ◌≢◌, refl, ap, Bool, true, false, ◌==◌, All, List, [], ◌∷◌,
  arith, length, length-drop, drop,
}
use live.Amf.Value.{
  Value, typed_object, number, boolean, string, object, array, Values, value, Members, no_members,
  put,
}
use live.Amf.Decoder.{
  Decoded, done, ◌>>>◌, read_byte, read_be, assert_marker, decode_number, decode_boolean,
  decode_string, decode_long_string, decode_xml_document, decode_date, decode_object,
  decode_ecma_array, decode_typed_object, decode_strict_array, Marker, marker_of, route,
  end_or_value, decode, number_marker, boolean_marker, string_marker, object_marker, null_marker,
  undefined_marker, ecma_array_marker, strict_array_marker, date_marker, long_string_marker,
  unsupported_marker, xml_document_marker, typed_object_marker, acmplus_object_marker,
  unknown_marker, decode_members, decode_values, decode_amf0,
}
use live.Amf.Taken.{
  P-drop, Within, Within-bind, weaken, relax, read_be-Within, assert_marker-Within,
  decode_string-Within, passed, decode_long_string-Within, decode_number-Within,
  decode_boolean-Within, decode_date-Within, decode_xml_document-Within, decode_nothing-Within,
}

module _ (P : List ℕ → Type 0) (tail : (b : ℕ) (r : List ℕ) → P (b ∷ r) → P r) where
  -- The loops, where they come to an end on the bytes they are given.
  module _ (members : List ℕ → Decoded Members) (m : ℕ)
      (ends : (r : List ℕ) → length r ≤ m → P r → Within P 0 (length r) (members r)) where
    decode_object-Within :
        (r : List ℕ) → length r ≤ m → P r → Within P 0 (length r) (decode_object members false r)
    unfolding decode_object assert_marker
    decode_object-Within r le p = ends r le p

    decode_ecma_array-Within :
        (r : List ℕ)
        → length r ≤ m
        → P r
        → Within P 0 (length r) (decode_ecma_array members false r)
    unfolding decode_ecma_array assert_marker decode_object
    decode_ecma_array-Within r le p =
        weaken P (length (drop 4 r)) 0 (length r) (members (drop 4 r))
          (ends (drop 4 r) (omega (arith, length-drop 4 r)) (P-drop P tail 4 r p))
          (omega (arith, length-drop 4 r))

    decode_typed_object-Within :
        (r : List ℕ)
        → length r ≤ m
        → P r
        → Within P 0 (length r) (decode_typed_object members false r)
    unfolding decode_typed_object assert_marker decode_object
    decode_typed_object-Within r le p =
        Within-bind P 2 (length r) 0 (length r) (decode_string false r)
          (λ t r2. members r2 >>> λ ms r3. done (typed_object t ms) r3)
          (decode_string-Within P tail r p)
          (λ t r2 h q.
            weaken P (length r2) 0 (length r) (members r2 >>> λ ms r3. done (typed_object t ms) r3)
              (passed P (length r2) (members r2) (typed_object t) (ends r2 (omega arith) q))
              (omega arith))

  decode_strict_array-Within :
      (values : ℕ → List ℕ → Decoded Values) (m : ℕ)
      → ((len : ℕ) (r : List ℕ) → length r ≤ m → P r → Within P 0 (length r) (values len r))
      → (r : List ℕ) → length r ≤ m
      → P r
      → Within P 0 (length r) (decode_strict_array values false r)
  unfolding decode_strict_array assert_marker
  decode_strict_array-Within values m ends r le p =
      Within-bind P 4 (length r) 0 (length r) (read_be 4 r) (λ len r2. values len r2)
        (read_be-Within P tail 4 r p)
        (λ len r2 h q.
          weaken P (length r2) 0 (length r) (values len r2) (ends len r2 (omega arith) q)
            (omega arith))

  end_or_value-Within :
      (ms : Members) (value_of : List ℕ → Decoded Members) (m : ℕ) (key r1 : List ℕ)
      → Within P 0 m (value_of r1)
      → length r1 ≤ m
      → P r1
      → Within P 0 m (end_or_value ms value_of key r1)
  unfolding end_or_value
  end_or_value-Within ms value_of m [] r1 h le p =
      weaken P (length r1) 0 m _
        (passed P (length r1) (assert_marker true 0x09 r1) (λ _. ms)
          (assert_marker-Within P tail true 0x09 r1 p))
        (omega arith)
  end_or_value-Within ms value_of m (k ∷ ks) r1 h le p = h

  route-Within :
      (amf3 : List ℕ → Decoded Value) (members : List ℕ → Decoded Members)
      (values : ℕ → List ℕ → Decoded Values) (m : ℕ)
      → ((r : List ℕ) → length r ≤ m → P r → Within P 0 (length r) (members r))
      → ((len : ℕ) (r : List ℕ) → length r ≤ m → P r → Within P 0 (length r) (values len r))
      → (marker : Marker) (r1 : List ℕ) → length r1 ≤ m
      → P r1
      → (marker ≡ acmplus_object_marker → Within P 0 (length r1) (amf3 r1))
      → Within P 0 (length r1) (route amf3 members values marker r1)
  unfolding route
  route-Within amf3 members values m members_ends values_ends number_marker r1 le p ends =
      passed P (length r1) (decode_number false r1) number (decode_number-Within P tail r1 p)
  route-Within amf3 members values m members_ends values_ends boolean_marker r1 le p ends =
      passed P (length r1) (decode_boolean false r1) boolean (decode_boolean-Within P tail r1 p)
  route-Within amf3 members values m members_ends values_ends string_marker r1 le p ends =
      passed P (length r1) (decode_string false r1) string
        (relax P 2 (length r1) (decode_string false r1) (decode_string-Within P tail r1 p))
  route-Within amf3 members values m members_ends values_ends object_marker r1 le p ends =
      passed P (length r1) (decode_object members false r1) object
        (decode_object-Within members m members_ends r1 le p)
  route-Within amf3 members values m members_ends values_ends null_marker r1 le p ends =
      decode_nothing-Within P tail 0x05 r1 p
  route-Within amf3 members values m members_ends values_ends undefined_marker r1 le p ends =
      decode_nothing-Within P tail 0x06 r1 p
  route-Within amf3 members values m members_ends values_ends ecma_array_marker r1 le p ends =
      passed P (length r1) (decode_ecma_array members false r1) object
        (decode_ecma_array-Within members m members_ends r1 le p)
  route-Within amf3 members values m members_ends values_ends strict_array_marker r1 le p ends =
      passed P (length r1) (decode_strict_array values false r1) array
        (decode_strict_array-Within values m values_ends r1 le p)
  route-Within amf3 members values m members_ends values_ends date_marker r1 le p ends =
      passed P (length r1) (decode_date false r1) number (decode_date-Within P tail r1 p)
  route-Within amf3 members values m members_ends values_ends long_string_marker r1 le p ends =
      passed P (length r1) (decode_long_string false r1) string
        (decode_long_string-Within P tail r1 p)
  route-Within amf3 members values m members_ends values_ends unsupported_marker r1 le p ends =
      decode_nothing-Within P tail 0x0d r1 p
  route-Within amf3 members values m members_ends values_ends xml_document_marker r1 le p ends =
      passed P (length r1) (decode_xml_document false r1) string
        (decode_xml_document-Within P tail r1 p)
  route-Within amf3 members values m members_ends values_ends typed_object_marker r1 le p ends =
      decode_typed_object-Within members m members_ends r1 le p
  route-Within amf3 members values m members_ends values_ends acmplus_object_marker r1 le p ends =
      ends refl
  route-Within amf3 members values m members_ends values_ends unknown_marker r1 le p ends = tt

  module _ (amf3 : List ℕ → Decoded Value)
      (amf3_ends : (b : ℕ) (r : List ℕ)
        → marker_of b ≡ acmplus_object_marker
        → P (b ∷ r)
        → Within P 0 (length r) (amf3 r)) where
    mutual
      unfolding decode decode_members decode_values read_byte

      decode-Within :
          (n : ℕ) (r : List ℕ)
          → 2 * length r + 2 ≤ n
          → P r
          → Within P 1 (length r) (decode amf3 n r)
      decode-Within zero r le p = absurd (omega arith)
      decode-Within (suc n) [] le p = tt
      decode-Within (suc n) (marker ∷ r1) le p =
          weaken P (length r1) 1 (suc (length r1)) _
            (route-Within amf3 (λ r'. decode_members amf3 n no_members r')
              (λ len r'. decode_values amf3 n len r') (length r1)
              (λ r' le' p'. decode_members-Within n no_members r' (omega arith) p')
              (λ len r' le' p'. decode_values-Within n len r' (omega arith) p') (marker_of marker)
              r1 (omega arith) (tail marker r1 p) (λ e. amf3_ends marker r1 e p))
            (omega arith)

      decode_members-Within :
          (n : ℕ) (ms : Members) (r : List ℕ)
          → 2 * length r + 3 ≤ n
          → P r
          → Within P 0 (length r) (decode_members amf3 n ms r)
      decode_members-Within zero ms r le p = absurd (omega arith)
      decode_members-Within (suc n) ms r le p =
          Within-bind P 2 (length r) 0 (length r) (decode_string false r) _
            (decode_string-Within P tail r p)
            (λ key r1 h q.
              end_or_value-Within ms _ (length r) key r1
                (Within-bind P 1 (length r1) 0 (length r) (decode amf3 n r1) _
                  (decode-Within n r1 (omega arith) q)
                  (λ v r2 h2 q2.
                    weaken P (length r2) 0 (length r) _
                      (decode_members-Within n (put key v ms) r2 (omega arith) q2) (omega arith)))
                (omega arith) q)

      decode_values-Within :
          (n k : ℕ) (r : List ℕ)
          → 2 * length r + 3 ≤ n
          → P r
          → Within P 0 (length r) (decode_values amf3 n k r)
      decode_values-Within zero k r le p = absurd (omega arith)
      decode_values-Within (suc n) zero r le p = (omega arith, p)
      decode_values-Within (suc n) (suc k) r le p =
          Within-bind P 1 (length r) 0 (length r) (decode amf3 n r) _
            (decode-Within n r (omega arith) p)
            (λ v r1 h q.
              weaken P (length r1) 0 (length r) _
                (passed P (length r1) (decode_values amf3 n k r1) (value v)
                  (decode_values-Within n k r1 (omega arith) q))
                (omega arith))

-- An input without the byte 0x11.
abbrev pub NoAmf3 : List ℕ → Type 0
NoAmf3 r = All (λ b. (b == 0x11) ≡ false) r

is_amf3 : Marker → Bool
is_amf3 acmplus_object_marker = true
is_amf3 _ = false

is_amf3-marker_of : (b : ℕ) → (b == 0x11) ≡ false → is_amf3 (marker_of b) ≡ false
unfolding marker_of is_amf3
is_amf3-marker_of b h = ground (arith, h)

marker_of-plain : (b : ℕ) → (b == 0x11) ≡ false → marker_of b ≢ acmplus_object_marker
unfolding is_amf3
marker_of-plain b h e = cc (is_amf3-marker_of b h, ap is_amf3 e)

-- On every input without the byte 0x11, which is the marker of AMF3, the decoder comes to an end
-- without a panic, with an error or with a value and fewer bytes left than it was given, whatever
-- DecodeAmf3 does.
pub decode_amf0-Within :
    (amf3 : List ℕ → Decoded Value) (r : List ℕ)
    → NoAmf3 r
    → Within NoAmf3 1 (length r) (decode_amf0 amf3 r)
unfolding decode_amf0
decode_amf0-Within amf3 r h =
    decode-Within NoAmf3 (λ b r h. h.1) amf3 (λ b r e h. absurd (marker_of-plain b h.0 e))
      (2 * length r + 2) r (omega arith) h
