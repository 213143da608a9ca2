-- ===== src/Amf/EcmaArray.antt =====
-- The AMF0 ECMA array, which the encoder has a method for and the decoder reads as an object.
use live.Base.{
  ℕ, suc, ◌+◌, ◌*◌, ◌^◌, ◌<◌, ◌≤◌, ◌≡◌, ap, ◌∙◌, true, List, [], ◌∷◌, ◌++◌, append_assoc, arith,
  length, length-append,
}
use live.Pio.Format.{bytes_be}
use live.Amf.Value.{Value, object, Members, no_members}
use live.Amf.Encoder.{
  write_bytes, write_marker, encode_ecma_array, encode_object, object_around, members_count,
}
use live.Amf.Decoder.{
  Decoded, done, read_byte, assert_marker, marker_of, decode_object, decode_ecma_array, route,
  decode, decode_amf0,
}
use live.Amf.Wire.{
  object_end, wire_members, Apart, FitsMembers, plain_members, mod_small, write_bytes-then, ended,
  encode_members-wire,
}
use live.Amf.Pieces.{append-nothing}
use live.Amf.RoundTrip.{size_members, members-wire, size_members-wire}

ecma_bytes : Members → List ℕ
ecma_bytes ms = 0x08 ∷ (bytes_be 4 (members_count ms) ++ (wire_members ms ++ object_end))

encode_ecma_array-bytes :
    (ms : Members)
    → plain_members ms ≡ true
    → FitsMembers ms
    → members_count ms < 2 ^ 32
    → encode_ecma_array ms true ≡ write_bytes (ecma_bytes ms)
unfolding encode_ecma_array encode_object object_around write_marker ecma_bytes
encode_ecma_array-bytes ms p h few =
    rw
      (
        mod_small (members_count ms) (2 ^ 32) few,
        encode_members-wire ms p h,
        write_bytes-then (0x08 ∷ []) (bytes_be 4 (members_count ms)),
      )
      (rw (write_bytes-then [] (wire_members ms), ended (wire_members ms))
        (write_bytes-then (0x08 ∷ bytes_be 4 (members_count ms)) (wire_members ms ++ object_end)))

decode-ecma_bytes :
    (amf3 : List ℕ → Decoded Value) (ms : Members) (rest : List ℕ) (n : ℕ)
    → FitsMembers ms
    → Apart no_members ms
    → size_members ms ≤ n
    → decode amf3 (suc n) (ecma_bytes ms ++ rest) ≡ done (object ms) rest
unfolding ecma_bytes decode read_byte marker_of route decode_ecma_array decode_object assert_marker
decode-ecma_bytes amf3 ms rest n h apart le =
    rw
      (
        append_assoc (wire_members ms) object_end rest,
        members-wire amf3 ms n no_members rest h apart le,
      )
      (ap (λ (m : Members). done (object m) rest) (append-nothing ms))

length-ecma_bytes : (ms : Members) → length (wire_members ms) ≤ length (ecma_bytes ms)
unfolding ecma_bytes
length-ecma_bytes ms = omega (arith, length-append (wire_members ms) object_end)

-- An object whose members the format can hold, with less than 2^32 of them and no typed objects
-- inside, is decoded from what the encoder writes for it as an ECMA array, whatever bytes follow,
-- and those are left.
pub decode-encode_ecma_array :
    (amf3 : List ℕ → Decoded Value) (ms : Members) (rest : List ℕ)
    → plain_members ms ≡ true
    → FitsMembers ms
    → Apart no_members ms
    → members_count ms < 2 ^ 32
    → decode_amf0 amf3 ((encode_ecma_array ms true).out ++ rest) ≡ done (object ms) rest
unfolding write_bytes decode_amf0
decode-encode_ecma_array amf3 ms rest p h apart few = rw (encode_ecma_array-bytes ms p h few) (
    enough
    ∙ decode-ecma_bytes amf3 ms rest (2 * length (ecma_bytes ms ++ rest) + 1) h apart (
        omega
          (arith, size_members-wire ms, length-ecma_bytes ms, length-append (ecma_bytes ms) rest)))
  where
    enough :
        decode_amf0 amf3 (ecma_bytes ms ++ rest)
        ≡ decode amf3 (suc (2 * length (ecma_bytes ms ++ rest) + 1)) (ecma_bytes ms ++ rest)
    enough = ap (λ (k : ℕ). decode amf3 k (ecma_bytes ms ++ rest)) (omega arith)
