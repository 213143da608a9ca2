-- ===== src/Amf3/Writing.antt =====
-- protocol/amf/encoder_amf3.go: the integers and the values without parts but for dates, into a buffer,
-- which takes every byte.
use live.Base.{
  ℕ, ◌*◌, ◌/◌, ◌%◌, ◌^◌, bit_and, bit_or, Bool, true, List, [], ◌∷◌, if◌then◌else◌, leb, length,
}
use live.Pio.Format.{bytes_be}
use live.Amf.Encoder.{Written, write_bytes, then_write, write_marker}

unfoldable pub encode_uint29 : ℕ → Written
encode_uint29 val =
    if leb val 0x0000007F
    then write_bytes ((val % 256) ∷ [])
    else (if leb val 0x00003FFF
        then write_bytes ((bit_or (val / 2 ^ 7) 0x80 % 256) ∷ (bit_and val 0x7F % 256) ∷ [])
        else (if leb val 0x001FFFFF
            then write_bytes (
                (bit_or (val / 2 ^ 14) 0x80 % 256)
                ∷ (bit_or (bit_and (val / 2 ^ 7) 0x7F) 0x80 % 256)
                ∷ (bit_and val 0x7F % 256)
                ∷ [])
            else (if leb val 0x1FFFFFFF
                then write_bytes (
                    (bit_or (val / 2 ^ 22) 0x80 % 256)
                    ∷ (bit_or (bit_and (val / 2 ^ 15) 0x7F) 0x80 % 256)
                    ∷ (bit_or (bit_and (val / 2 ^ 8) 0x7F) 0x80 % 256)
                    ∷ (val % 256)
                    ∷ [])
                else record { out = []; n = 0; failed = true })))

-- `uint32(length<<1) | 0x01`
abbrev pub length_u29 : ℕ → ℕ
length_u29 len = bit_or (len * 2 % 2 ^ 32) 0x01

unfoldable pub encode_utf8 : List ℕ → Written
encode_utf8 val = then_write (encode_uint29 (length_u29 (length val))) (write_bytes val)

unfoldable pub encode_integer : ℕ → Bool → Written
encode_integer val encode_marker = then_write (write_marker encode_marker 0x04) (encode_uint29 val)

unfoldable pub encode_double : ℕ → Bool → Written
encode_double val encode_marker =
    then_write (write_marker encode_marker 0x05) (write_bytes (bytes_be 8 val))

unfoldable pub encode_string : List ℕ → Bool → Written
encode_string val encode_marker = then_write (write_marker encode_marker 0x06) (encode_utf8 val)

unfoldable pub encode_byte_array : List ℕ → Bool → Written
encode_byte_array val encode_marker =
    then_write
      (then_write (write_marker encode_marker 0x0c) (encode_uint29 (length_u29 (length val))))
      (write_bytes val)
