-- ===== src/Amf/Encoder.antt =====
-- protocol/amf/encoder_amf0.go and the writers of util.go, into a buffer, which takes every byte. Go
-- walks a map in any order: that of the members is one of them.
use live.Base.{
  ℕ, suc, ◌+◌, ◌%◌, ◌^◌, Bool, true, false, List, [], ◌∷◌, ◌++◌, if◌then◌else◌, leb, length,
}
use live.Pio.Format.{bytes_be}
use live.Amf.Value.{
  Value, null, boolean, number, string, object, array, typed_object, Values, no_values, value,
  Members, no_members, member, count,
}

-- What was written, the count that is returned, and whether there was an error.
pub record Written : Type 0 where
  pub out : List ℕ
  pub n : ℕ
  pub failed : Bool

unfoldable pub write_bytes : List ℕ → Written
write_bytes b = record { out = b; n = length b; failed = false }

-- `m, err = ...; if err != nil { return n, err }; n += m`
unfoldable pub then_write : Written → Written → Written
then_write a b =
    if a.failed
    then a
    else record { out = a.out ++ b.out; n = if b.failed then a.n else a.n + b.n; failed = b.failed }

unfoldable pub write_marker : Bool → ℕ → Written
write_marker encode_marker m = if encode_marker then write_bytes (m ∷ []) else write_bytes []

unfoldable pub encode_number : ℕ → Bool → Written
encode_number val encode_marker =
    then_write (write_marker encode_marker 0x00) (write_bytes (bytes_be 8 val))

unfoldable pub encode_boolean : Bool → Bool → Written
encode_boolean val encode_marker =
    then_write (write_marker encode_marker 0x01) (write_bytes ((if val then 1 else 0) ∷ []))

unfoldable pub encode_string : List ℕ → Bool → Written
encode_string val encode_marker =
    then_write
      (then_write (write_marker encode_marker 0x02)
        (write_bytes (bytes_be 2 (length val % 2 ^ 16))))
      (write_bytes val)

unfoldable pub encode_long_string : List ℕ → Bool → Written
encode_long_string val encode_marker =
    then_write
      (then_write (write_marker encode_marker 0x0c)
        (write_bytes (bytes_be 4 (length val % 2 ^ 32))))
      (write_bytes val)

unfoldable pub encode_null : Bool → Written
encode_null encode_marker = write_marker encode_marker 0x05

-- An object and a strict array, around the members and the elements.
unfoldable pub object_around : Written → Bool → Written
object_around members encode_marker =
    then_write
      (then_write (then_write (write_marker encode_marker 0x03) members) (encode_string [] false))
      (write_marker true 0x09)

unfoldable pub strict_array_around : ℕ → Written → Bool → Written
strict_array_around len elements encode_marker =
    then_write
      (then_write (write_marker encode_marker 0x0a) (write_bytes (bytes_be 4 (len % 2 ^ 32))))
      elements

unfoldable mutual
  pub encode : Value → Written
  encode null = encode_null true
  encode (boolean b) = encode_boolean b true
  encode (number x) = encode_number x true
  encode (string s) =
      if leb (length s) 65535 then encode_string s true else encode_long_string s true
  encode (object ms) = object_around (encode_members ms) true
  encode (array vs) = strict_array_around (count vs) (encode_values vs) true
  encode (typed_object t ms) = record { out = []; n = 0; failed = true }

  pub encode_members : Members → Written
  encode_members no_members = write_bytes []
  encode_members (member k v ms) =
      then_write (then_write (encode_string k false) (encode v)) (encode_members ms)

  pub encode_values : Values → Written
  encode_values no_values = write_bytes []
  encode_values (value v vs) = then_write (encode v) (encode_values vs)

unfoldable pub encode_object : Members → Bool → Written
encode_object val encode_marker = object_around (encode_members val) encode_marker

unfoldable pub encode_strict_array : Values → Bool → Written
encode_strict_array val encode_marker =
    strict_array_around (count val) (encode_values val) encode_marker

unfoldable pub members_count : Members → ℕ
members_count no_members = 0
members_count (member k v ms) = suc (members_count ms)

unfoldable pub encode_ecma_array : Members → Bool → Written
encode_ecma_array val encode_marker =
    then_write
      (then_write (write_marker encode_marker 0x08)
        (write_bytes (bytes_be 4 (members_count val % 2 ^ 32))))
      (encode_object val false)

unfoldable pub encode_undefined : Bool → Written
encode_undefined encode_marker = write_marker encode_marker 0x06

unfoldable pub encode_unsupported : Bool → Written
encode_unsupported encode_marker = write_marker encode_marker 0x0d

unfoldable pub encode_amf3_marker : Written
encode_amf3_marker = write_marker true 0x11
