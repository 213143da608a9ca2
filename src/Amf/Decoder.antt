-- ===== src/Amf/Decoder.antt =====
-- protocol/amf/decoder_amf0.go and the readers of util.go, over a `bytes.Reader`, which is the list of
-- the bytes left. `refCache` is only ever appended to, and is left out. DecodeAmf3, which the marker
-- 0x11 calls, is a parameter, for what it does in one run on the bytes left: each call is at another
-- place of the input, so the references that it keeps from call to call are a matter of these bytes.
use live.Base.{
  ℕ, zero, suc, ◌+◌, ◌*◌, Bool, true, false, none, some, List, [], ◌∷◌, if◌then◌else◌, ◌==◌, leb,
  length, take, drop,
}
use live.Pio.Format.{digits_be}
use live.Amf.Value.{
  Value, null, boolean, number, string, object, array, typed_object, Values, no_values, value,
  Members, no_members, put,
}

-- A result with the bytes left, an error, a panic, or fuel that ran out.
pub data Decoded {ℓ} (A : Type ℓ) : Type ℓ where
  done : A → List ℕ → Decoded A
  failed panic stuck : Decoded A

infixl 5 ◌>>>◌
abbrev pub ◌>>>◌ {ℓ κ} :
    {A : Type ℓ} {B : Type κ} → Decoded A → (A → List ℕ → Decoded B) → Decoded B
done a r >>> f = f a r
failed >>> f = failed
panic >>> f = panic
stuck >>> f = stuck

-- `bytes.Reader.Read` at the end of the data is an error, also into an empty slice.
unfoldable pub read_bytes : ℕ → List ℕ → Decoded (List ℕ)
read_bytes n [] = failed
read_bytes n (b ∷ r) =
    if leb n (length (b ∷ r)) then done (take n (b ∷ r)) (drop n (b ∷ r)) else failed

unfoldable pub read_byte : List ℕ → Decoded ℕ
read_byte [] = failed
read_byte (b ∷ r) = done b r

-- `binary.Read` of a big-endian number of `n` bytes.
unfoldable pub read_be : ℕ → List ℕ → Decoded ℕ
read_be n r = elim (digits_be n 0 r) [ some v ↦ done v (drop n r) | none ↦ failed ]

unfoldable pub assert_marker : Bool → ℕ → List ℕ → Decoded Bool
assert_marker check_marker m r =
    if check_marker
    then (read_byte r >>> λ marker r'. if marker == m then done true r' else failed)
    else done true r

unfoldable pub decode_number : Bool → List ℕ → Decoded ℕ
decode_number decode_marker r = assert_marker decode_marker 0x00 r >>> λ _ r'. read_be 8 r'

unfoldable pub decode_boolean : Bool → List ℕ → Decoded Bool
decode_boolean decode_marker r = assert_marker decode_marker 0x01 r >>> λ _ r1.
    read_byte r1 >>> λ b r2.
    if b == 0 then done false r2 else (if b == 1 then done true r2 else failed)

unfoldable pub decode_string : Bool → List ℕ → Decoded (List ℕ)
decode_string decode_marker r =
    assert_marker decode_marker 0x02 r >>> λ _ r1. read_be 2 r1 >>> λ len r2. read_bytes len r2

unfoldable pub decode_long_string : Bool → List ℕ → Decoded (List ℕ)
decode_long_string decode_marker r =
    assert_marker decode_marker 0x0c r >>> λ _ r1. read_be 4 r1 >>> λ len r2. read_bytes len r2

unfoldable pub decode_xml_document : Bool → List ℕ → Decoded (List ℕ)
decode_xml_document decode_marker r =
    assert_marker decode_marker 0x0f r >>> λ _ r1. decode_long_string false r1

unfoldable pub decode_date : Bool → List ℕ → Decoded ℕ
decode_date decode_marker r = assert_marker decode_marker 0x0b r >>> λ _ r1.
    decode_number false r1 >>> λ x r2. read_bytes 2 r2 >>> λ _ r3. done x r3

-- Null, undefined and unsupported, which have no data.
unfoldable pub decode_nothing : ℕ → Bool → List ℕ → Decoded Value
decode_nothing m decode_marker r = assert_marker decode_marker m r >>> λ _ r'. done null r'

-- The cases of the router; the others are errors.
pub data Marker : Type 0 where
  number_marker boolean_marker string_marker object_marker null_marker undefined_marker : Marker
  ecma_array_marker strict_array_marker date_marker long_string_marker unsupported_marker : Marker
  xml_document_marker typed_object_marker acmplus_object_marker unknown_marker : Marker

unfoldable pub marker_of : ℕ → Marker
marker_of m =
    if m == 0x00
    then number_marker
    else if m == 0x01
    then boolean_marker
    else if m == 0x02
    then string_marker
    else if m == 0x03
    then object_marker
    else if m == 0x05
    then null_marker
    else if m == 0x06
    then undefined_marker
    else if m == 0x08
    then ecma_array_marker
    else if m == 0x0a
    then strict_array_marker
    else if m == 0x0b
    then date_marker
    else if m == 0x0c
    then long_string_marker
    else if m == 0x0d
    then unsupported_marker
    else if m == 0x0f
    then xml_document_marker
    else if m == 0x10
    then typed_object_marker
    else if m == 0x11
    then acmplus_object_marker
    else unknown_marker

-- The object forms, around the loop that reads members, and the array, around its loop.
unfoldable pub decode_object : (List ℕ → Decoded Members) → Bool → List ℕ → Decoded Members
decode_object members decode_marker r = assert_marker decode_marker 0x03 r >>> λ _ r'. members r'

-- The length is read, and not used; a failure to read it is ignored.
unfoldable pub decode_ecma_array : (List ℕ → Decoded Members) → Bool → List ℕ → Decoded Members
decode_ecma_array members decode_marker r =
    assert_marker decode_marker 0x08 r >>> λ _ r'. decode_object members false (drop 4 r')

unfoldable pub decode_typed_object : (List ℕ → Decoded Members) → Bool → List ℕ → Decoded Value
decode_typed_object members decode_marker r = assert_marker decode_marker 0x10 r >>> λ _ r1.
    decode_string false r1 >>> λ t r2.
    decode_object members false r2 >>> λ ms r3. done (typed_object t ms) r3

unfoldable pub decode_strict_array : (ℕ → List ℕ → Decoded Values) → Bool → List ℕ → Decoded Values
decode_strict_array values decode_marker r =
    assert_marker decode_marker 0x0a r >>> λ _ r1. read_be 4 r1 >>> λ len r2. values len r2

-- The body of the loop that reads members, behind the key; `value_of` reads the value and goes on.
unfoldable pub end_or_value :
    Members → (List ℕ → Decoded Members) → List ℕ → List ℕ → Decoded Members
end_or_value result value_of [] r1 = assert_marker true 0x09 r1 >>> λ _ r2. done result r2
end_or_value result value_of (k ∷ ks) r1 = value_of r1

module _ (decode_amf3 : List ℕ → Decoded Value) where
  -- The router, behind the marker; the loops of objects and arrays are arguments.
  unfoldable pub route :
      (List ℕ → Decoded Members) → (ℕ → List ℕ → Decoded Values) → Marker → List ℕ → Decoded Value
  route _ _ number_marker r1 = decode_number false r1 >>> λ x r2. done (number x) r2
  route _ _ boolean_marker r1 = decode_boolean false r1 >>> λ b r2. done (boolean b) r2
  route _ _ string_marker r1 = decode_string false r1 >>> λ s r2. done (string s) r2
  route members _ object_marker r1 = decode_object members false r1 >>> λ ms r2. done (object ms) r2
  route _ _ null_marker r1 = decode_nothing 0x05 false r1
  route _ _ undefined_marker r1 = decode_nothing 0x06 false r1
  route members _ ecma_array_marker r1 =
      decode_ecma_array members false r1 >>> λ ms r2. done (object ms) r2
  route _ values strict_array_marker r1 =
      decode_strict_array values false r1 >>> λ vs r2. done (array vs) r2
  route _ _ date_marker r1 = decode_date false r1 >>> λ x r2. done (number x) r2
  route _ _ long_string_marker r1 = decode_long_string false r1 >>> λ s r2. done (string s) r2
  route _ _ unsupported_marker r1 = decode_nothing 0x0d false r1
  route _ _ xml_document_marker r1 = decode_xml_document false r1 >>> λ s r2. done (string s) r2
  route members _ typed_object_marker r1 = decode_typed_object members false r1
  route _ _ acmplus_object_marker r1 = decode_amf3 r1
  route _ _ unknown_marker _ = failed

  unfoldable mutual
    pub decode : ℕ → List ℕ → Decoded Value
    decode zero r = stuck
    decode (suc n) r =
        let members = λ (r' : List ℕ). decode_members n no_members r' in
        let values = λ (len : ℕ) (r' : List ℕ). decode_values n len r' in
        read_byte r >>> λ marker r1. route members values (marker_of marker) r1

    pub decode_members : ℕ → Members → List ℕ → Decoded Members
    decode_members zero result r = stuck
    decode_members (suc n) result r = decode_string false r >>> λ key r1.
        end_or_value result
          (λ (r' : List ℕ). decode n r' >>> λ v r2. decode_members n (put key v result) r2) key r1

    pub decode_values : ℕ → ℕ → List ℕ → Decoded Values
    decode_values zero k r = if k == 0 then done no_values r else stuck
    decode_values (suc n) k r = elim k [
      | zero ↦ done no_values r
      | suc k' ↦ decode n r >>> λ v r1. decode_values n k' r1 >>> λ vs r2. done (value v vs) r2
    ]

  -- A value takes a byte at least, and a member of an object or an array one step more.
  unfoldable pub decode_amf0 : List ℕ → Decoded Value
  decode_amf0 r = decode (2 * length r + 2) r
