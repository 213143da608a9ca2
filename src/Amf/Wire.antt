-- ===== src/Amf/Wire.antt =====
-- The AMF0 format, described without the encoder and the decoder of protocol/amf, and which values
-- it can hold.
use live.Base.{
  ℕ, ◌%◌, ◌^◌, ◌<◌, ◌≡◌, refl, ap, ◌∙◌, Bool, true, false, ◌&&◌, ◌||◌, List, [], ◌∷◌, ◌++◌,
  append_assoc, Bool-cases, inl, inr, arith, if◌then◌else◌, leb, length, length-append,
}
use native.Mathlib.Nat.{mod-eq_of_lt}
use live.Pio.Format.{bytes_be}
use live.Amf.Value.{
  Value, null, boolean, number, string, object, array, typed_object, Values, no_values, value,
  Members, no_members, member, has_key, snoc, count,
}
use live.Amf.Encoder.{
  write_bytes, then_write, write_marker, encode_number, encode_boolean, encode_string,
  encode_long_string, encode_null, object_around, strict_array_around, encode, encode_members,
  encode_values,
}

-- A string behind a length of two bytes.
unfoldable pub wire_string : List ℕ → List ℕ
wire_string s = bytes_be 2 (length s) ++ s

-- An empty name and the marker 9 end an object.
abbrev pub object_end : List ℕ
object_end = 0 ∷ 0 ∷ 0x09 ∷ []

unfoldable mutual
  pub wire : Value → List ℕ
  wire null = 0x05 ∷ []
  wire (boolean b) = 0x01 ∷ (if b then 1 else 0) ∷ []
  wire (number x) = 0x00 ∷ bytes_be 8 x
  wire (string s) =
      if leb (length s) 65535 then 0x02 ∷ wire_string s else 0x0c ∷ (bytes_be 4 (length s) ++ s)
  wire (object ms) = 0x03 ∷ (wire_members ms ++ object_end)
  wire (array vs) = 0x0a ∷ (bytes_be 4 (count vs) ++ wire_values vs)
  wire (typed_object t ms) = 0x10 ∷ (wire_string t ++ (wire_members ms ++ object_end))

  pub wire_members : Members → List ℕ
  wire_members no_members = []
  wire_members (member k v ms) = wire_string k ++ (wire v ++ wire_members ms)

  pub wire_values : Values → List ℕ
  wire_values no_values = []
  wire_values (value v vs) = wire v ++ wire_values vs

unfoldable pub nonempty : List ℕ → Bool
nonempty [] = false
nonempty (b ∷ bs) = true

unfoldable pub any_value : Values → Bool
any_value no_values = false
any_value (value v vs) = true

-- No name stands in `before` or earlier in the list.
unfoldable pub Apart : Members → Members → Type 0
Apart before no_members = Unit
Apart before (member k v ms) = (has_key k before ≡ false) × Apart (snoc before k v) ms

-- What the lengths of the format can hold. Names are not empty and differ, and an empty string is
-- not the last thing of the data: `more` says whether something follows.
unfoldable mutual
  pub Fits : Bool → Value → Type 0
  Fits more null = Unit
  Fits more (boolean b) = Unit
  Fits more (number x) = x < 2 ^ 64
  Fits more (string s) = (length s < 2 ^ 32) × ((nonempty s || more) ≡ true)
  Fits more (object ms) = Apart no_members ms × FitsMembers ms
  Fits more (array vs) = (count vs < 2 ^ 32) × FitsValues more vs
  Fits more (typed_object t ms) = (length t < 2 ^ 16) × Apart no_members ms × FitsMembers ms

  pub FitsMembers : Members → Type 0
  FitsMembers no_members = Unit
  FitsMembers (member k v ms) =
      (length k < 2 ^ 16) × (nonempty k ≡ true) × Fits true v × FitsMembers ms

  pub FitsValues : Bool → Values → Type 0
  FitsValues more no_values = Unit
  FitsValues more (value v vs) = Fits (any_value vs || more) v × FitsValues more vs

-- No typed object inside: the encoder has none.
unfoldable mutual
  pub plain : Value → Bool
  plain null = true
  plain (boolean b) = true
  plain (number x) = true
  plain (string s) = true
  plain (object ms) = plain_members ms
  plain (array vs) = plain_values vs
  plain (typed_object t ms) = false

  pub plain_members : Members → Bool
  plain_members no_members = true
  plain_members (member k v ms) = plain v && plain_members ms

  pub plain_values : Values → Bool
  plain_values no_values = true
  plain_values (value v vs) = plain v && plain_values vs

pub mod_small : (n m : ℕ) → n < m → n % m ≡ n
mod_small n m h = mod-eq_of_lt h

pub write_bytes-then :
    (a b : List ℕ) → then_write (write_bytes a) (write_bytes b) ≡ write_bytes (a ++ b)
unfolding write_bytes then_write
write_bytes-then a b = rw length-append

encode_string-wire :
    (s : List ℕ) → length s < 2 ^ 16 → encode_string s false ≡ write_bytes (wire_string s)
unfolding encode_string write_marker wire_string
encode_string-wire s h =
    rw (mod_small (length s) (2 ^ 16) h, write_bytes-then [] (bytes_be 2 (length s)))
      (write_bytes-then (bytes_be 2 (length s)) s)

string-wire : (s : List ℕ) → length s < 2 ^ 32 → encode (string s) ≡ write_bytes (wire (string s))
unfolding encode wire encode_string encode_long_string write_marker wire_string
string-wire s h = elim (Bool-cases (leb (length s) 65535)) [
  | inl small ↦
      rw
        (
          small,
          mod_small (length s) (2 ^ 16) (ground arith),
          write_bytes-then (0x02 ∷ []) (bytes_be 2 (length s)),
        )
        (write_bytes-then (0x02 ∷ bytes_be 2 (length s)) s)
  | inr big ↦
      rw
        (big, mod_small (length s) (2 ^ 32) h, write_bytes-then (0x0c ∷ []) (bytes_be 4 (length s)))
        (write_bytes-then (0x0c ∷ bytes_be 4 (length s)) s)
]

end_string : encode_string [] false ≡ write_bytes (0 ∷ 0 ∷ [])
unfolding wire_string
end_string = encode_string-wire [] (omega arith)

pub ended :
    (a : List ℕ)
    → then_write (then_write (write_bytes a) (encode_string [] false)) (write_bytes (0x09 ∷ []))
      ≡ write_bytes (a ++ object_end)
ended a =
    rw (end_string, write_bytes-then a (0 ∷ 0 ∷ []))
      (write_bytes-then (a ++ (0 ∷ 0 ∷ [])) (0x09 ∷ [])
        ∙ ap write_bytes (append_assoc a (0 ∷ 0 ∷ []) (0x09 ∷ [])))

&&-left : (a b : Bool) → (a && b) ≡ true → a ≡ true
&&-left true b h = refl
&&-left false b h = h

&&-right : (a b : Bool) → (a && b) ≡ true → b ≡ true
&&-right true b h = h
&&-right false b h = absurd (cc h)

mutual
  unfolding encode wire Fits plain encode_null write_marker encode_boolean encode_number
      object_around strict_array_around encode_string

  wire_lem :
      (more : Bool) (v : Value) → plain v ≡ true → Fits more v → encode v ≡ write_bytes (wire v)
  wire_lem more null p h = refl
  wire_lem more (boolean b) p h = write_bytes-then (0x01 ∷ []) ((if b then 1 else 0) ∷ [])
  wire_lem more (number x) p h = write_bytes-then (0x00 ∷ []) (bytes_be 8 x)
  wire_lem more (string s) p h = string-wire s h.0
  wire_lem more (object ms) p h =
      rw (encode_members-wire ms p h.1, write_bytes-then (0x03 ∷ []) (wire_members ms))
        (ended (0x03 ∷ wire_members ms))
  wire_lem more (array vs) p h =
      rw
        (
          encode_values-wire more vs p h.1,
          mod_small (count vs) (2 ^ 32) h.0,
          write_bytes-then (0x0a ∷ []) (bytes_be 4 (count vs)),
        )
        (write_bytes-then (0x0a ∷ bytes_be 4 (count vs)) (wire_values vs))
  wire_lem more (typed_object t ms) p h = absurd (cc p)

  pub encode_members-wire :
      (ms : Members)
      → plain_members ms ≡ true
      → FitsMembers ms
      → encode_members ms ≡ write_bytes (wire_members ms)
  encode_members-wire no_members p h = refl
  encode_members-wire (member k v ms) p (small, named, fits, h) =
      rw
        (
          encode_string-wire k small,
          wire_lem true v (&&-left (plain v) (plain_members ms) p) fits,
          encode_members-wire ms (&&-right (plain v) (plain_members ms) p) h,
          write_bytes-then (wire_string k) (wire v),
          write_bytes-then (wire_string k ++ wire v) (wire_members ms),
        )
        (ap write_bytes (append_assoc (wire_string k) (wire v) (wire_members ms)))

  encode_values-wire :
      (more : Bool) (vs : Values)
      → plain_values vs ≡ true
      → FitsValues more vs
      → encode_values vs ≡ write_bytes (wire_values vs)
  encode_values-wire more no_values p h = refl
  encode_values-wire more (value v vs) p h =
      rw
        (
          wire_lem (any_value vs || more) v (&&-left (plain v) (plain_values vs) p) h.0,
          encode_values-wire more vs (&&-right (plain v) (plain_values vs) p) h.1,
        )
        (write_bytes-then (wire v) (wire_values vs))

-- A value without typed objects, which the format can hold, is encoded without error as the format
-- describes it, and the count returned is the number of bytes.
pub encode-wire :
    (more : Bool) (v : Value) → plain v ≡ true → Fits more v → encode v ≡ write_bytes (wire v)
encode-wire more v p h = wire_lem more v p h
