-- ===== src/Amf3/Reading.antt =====
-- protocol/amf/decoder_amf3.go: the integers, the references and the values without parts but for dates,
-- which are read by the arithmetic of float64. The reader is a `bytes.Reader`, the list of the bytes
-- left. Behind an error the references are not used again.
use live.Base.{
  ℕ, zero, suc, ◌+◌, ◌-◌, ◌*◌, ◌/◌, ◌%◌, ◌^◌, bit_and, Bool, true, false, Option, none, some, List,
  [], ◌∷◌, ◌++◌, if◌then◌else◌, ◌==◌, ltb, length, get_elem?, take, drop, replicate,
}
use live.Pio.Format.{digits_be}
use live.Amf3.Value.{Value, string, byte_array, Refs}

-- A result with the references and the bytes left, an error, or the panic of an index out of range.
pub data Read {ℓ} (A : Type ℓ) : Type ℓ where
  done : A → Refs → List ℕ → Read A
  failed panic : Read A

infixl 5 ◌>>>◌
abbrev pub ◌>>>◌ {ℓ κ} : {A : Type ℓ} {B : Type κ} → Read A → (A → Refs → List ℕ → Read B) → Read B
done a d r >>> f = f a d r
failed >>> f = failed
panic >>> f = panic

unfoldable pub read_byte : Refs → List ℕ → Read ℕ
read_byte d [] = failed
read_byte d (b ∷ r) = done b d r

unfoldable pub assert_marker : Bool → ℕ → Refs → List ℕ → Read Bool
assert_marker check_marker m d r =
    if check_marker
    then (read_byte d r >>> λ marker d' r'. if marker == m then done true d' r' else failed)
    else done true d r

-- `r.Read(buf)` for a buffer of `n` zeros, whose count is not looked at: what is missing stays zero.
-- At the end of the data it is an error, also for an empty buffer.
unfoldable pub read_buf : ℕ → Refs → List ℕ → Read (List ℕ)
read_buf n d [] = failed
read_buf n d (b ∷ r) = done (take n (b ∷ r) ++ replicate (n - length (b ∷ r)) 0) d (drop n (b ∷ r))

-- `binary.Read` of a big-endian number of eight bytes.
abbrev pub or_fail : Option ℕ → Refs → List ℕ → Read ℕ
or_fail (some v) d r = done v d r
or_fail none d r = failed

unfoldable pub read_double : Refs → List ℕ → Read ℕ
read_double d r = or_fail (digits_be 8 0 r) d (drop 8 r)

-- The loop over the first three bytes, `n` of them left, and the fourth byte.
unfoldable pub u29_loop : ℕ → ℕ → Refs → List ℕ → Read ℕ
u29_loop zero result d r = read_byte d r >>> λ b d' r'. done ((result * 2 ^ 8 + b) % 2 ^ 32) d' r'
u29_loop (suc n) result d r = read_byte d r >>> λ b d' r'.
    let result' = (result * 2 ^ 7 + bit_and b 0x7f) % 2 ^ 32 in
    let rest = u29_loop n result' d' r' in if bit_and b 0x80 == 0 then done result' d' r' else rest

unfoldable pub decode_u29 : Refs → List ℕ → Read ℕ
decode_u29 d r = u29_loop 3 0 d r

-- Whether it is a reference, and its value.
unfoldable pub decode_reference_int : Refs → List ℕ → Read (Bool × ℕ)
decode_reference_int d r =
    decode_u29 d r >>> λ u29 d' r'. done (bit_and u29 0x01 == 0, u29 / 2) d' r'

-- `result > 0xfffffff` in an int32.
unfoldable pub to_int32 : ℕ → ℕ
to_int32 u29 = if ltb 0xfffffff u29 then (u29 + 2 ^ 32 - 0x20000000) % 2 ^ 32 else u29

unfoldable pub decode_integer : Bool → Refs → List ℕ → Read ℕ
decode_integer decode_marker d r = assert_marker decode_marker 0x04 d r >>> λ _ d1 r1.
    decode_u29 d1 r1 >>> λ u29 d2 r2. done (to_int32 u29) d2 r2

unfoldable pub decode_double : Bool → Refs → List ℕ → Read ℕ
decode_double decode_marker d r =
    assert_marker decode_marker 0x05 d r >>> λ _ d1 r1. read_double d1 r1

-- `refs[refVal]`
abbrev pub or_panic : {A : Type 0} → Option A → Refs → List ℕ → Read A
or_panic (some a) d r = done a d r
or_panic none d r = panic

unfoldable pub ref_at : {A : Type 0} → List A → ℕ → Refs → List ℕ → Read A
ref_at refs i d r = or_panic (get_elem? refs i) d r

-- An empty string is not remembered.
unfoldable pub remember_string : List ℕ → Refs → List ℕ → Read (List ℕ)
remember_string [] d r = done [] d r
remember_string (b ∷ s) d r =
    done (b ∷ s) (record d { string_refs = d.string_refs ++ ((b ∷ s) ∷ []) }) r

unfoldable pub string_or_ref : Bool × ℕ → Refs → List ℕ → Read (List ℕ)
string_or_ref (true, ref_val) d r = ref_at d.string_refs ref_val d r
string_or_ref (false, ref_val) d r = read_buf ref_val d r >>> λ s d' r'. remember_string s d' r'

unfoldable pub decode_string : Bool → Refs → List ℕ → Read (List ℕ)
decode_string decode_marker d r = assert_marker decode_marker 0x06 d r >>> λ _ d1 r1.
    decode_reference_int d1 r1 >>> λ ref d2 r2. string_or_ref ref d2 r2

abbrev pub remember : Value → Refs → Refs
remember v d = record d { object_refs = d.object_refs ++ (v ∷ []) }

-- The type assertions on an object reference.
unfoldable pub as_string : Value → Refs → List ℕ → Read (List ℕ)
as_string (string s) d r = done s d r
as_string _ d r = failed

unfoldable pub as_bytes : Value → Refs → List ℕ → Read (List ℕ)
as_bytes (byte_array b) d r = done b d r
as_bytes _ d r = failed

unfoldable pub remember_xml : List ℕ → Refs → List ℕ → Read (List ℕ)
remember_xml [] d r = done [] d r
remember_xml (b ∷ s) d r = done (b ∷ s) (remember (string (b ∷ s)) d) r

unfoldable pub xml_or_ref : Bool × ℕ → Refs → List ℕ → Read (List ℕ)
xml_or_ref (true, ref_val) d r = ref_at d.object_refs ref_val d r >>> λ v d' r'. as_string v d' r'
xml_or_ref (false, ref_val) d r = read_buf ref_val d r >>> λ s d' r'. remember_xml s d' r'

-- Behind the marker, which is one of two.
unfoldable pub decode_xml : Refs → List ℕ → Read (List ℕ)
decode_xml d r = decode_reference_int d r >>> λ ref d' r'. xml_or_ref ref d' r'

unfoldable pub bytes_or_ref : Bool × ℕ → Refs → List ℕ → Read (List ℕ)
bytes_or_ref (true, ref_val) d r = ref_at d.object_refs ref_val d r >>> λ v d' r'. as_bytes v d' r'
bytes_or_ref (false, ref_val) d r =
    read_buf ref_val d r >>> λ b d' r'. done b (remember (byte_array b) d') r'

unfoldable pub decode_byte_array : Bool → Refs → List ℕ → Read (List ℕ)
decode_byte_array decode_marker d r = assert_marker decode_marker 0x0c d r >>> λ _ d1 r1.
    decode_reference_int d1 r1 >>> λ ref d2 r2. bytes_or_ref ref d2 r2
