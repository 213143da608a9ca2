-- ===== src/Examples.antt =====
-- Concrete inputs for the theorems on messages and values, with the test data they share.
mod Parts
mod Codecs
mod Transport
mod Segments
mod Queues
use live.Base.{
  ℕ, ◌+◌, ◌≡◌, ◌≢◌, refl, Bool, true, false, List, [], ◌∷◌, ◌++◌, none, some, arith, length, Option,
}
use live.Rtmp.ReadWriter.{ReadWriter}
use live.Rtmp.ChunkStream.{ChunkStream, Exit, set_csid, write_chunk}
use live.Rtmp.Conn.{Conn, ReadResult, message, stuck, new_conn, empty_chunk, read}
use live.Rtmp.Wire.{
  IsMessage, message_bytes, first_header, next_header, next_chunks, basic_bytes, extended_bytes,
}
use live.Rtmp.Ends.{read-ends}
use live.Rtmp.Wire.Written.{write_chunk-message_bytes}
use live.Rtmp.ReadWriter.Laws.{CanWrite, emit}
use live.Rtmp.RoundTrip.{Agree, Holds, read-write_chunk}
use live.Amf.Value.{
  Value, Members, null, boolean, number, string, object, array, no_values, value, no_members,
  member, has_key, snoc, same_key, count,
}
use live.Amf.Encoder.{Written, write_bytes, encode, encode_ecma_array, members_count}
use live.Amf.Decoder.{
  Decoded, done, failed, panic, read_byte, route, marker_of, decode_string, assert_marker, read_be,
  read_bytes, decode, decode_amf0,
}
use live.Amf.Wire.{wire, plain, Fits, Apart, nonempty, any_value, encode-wire}
use live.Amf.EcmaArray.{decode-encode_ecma_array}
use live.Amf.RoundTrip.{decode-encode, decode_amf0-wire}
use live.Amf.Taken.{Within}
use live.Amf.Total.{NoAmf3, decode_amf0-Within}
use live.Amf.Metadata.{reformed, metadata_reform, reform-add_del}

-- A video message of three bytes, in chunks of two.
abbrev video : ChunkStream
video = record empty_chunk {
  csid = 6;
  timestamp = 40;
  len = 3;
  type_id = 9;
  stream_id = 1;
  payload = 0x17 ∷ 1 ∷ 7 ∷ [];
}

abbrev out_io : ReadWriter
out_io = record { input = []; read_error = none; out = []; room = 100; write_error = none }

abbrev in_io : ReadWriter
in_io = record {
  input = (write_chunk video out_io 2).2.out ++ (9 ∷ 9 ∷ []);
  read_error = none;
  out = [];
  room = 100;
  write_error = none;
}

abbrev conn : Conn
conn = record (new_conn in_io) { remote_chunk_size = 2 }

video-IsMessage : IsMessage (set_csid video)
unfolding set_csid
video-IsMessage = record {
  csid_from = omega arith;
  csid_below = omega arith;
  type_below = omega arith;
  stream_below = omega arith;
  timestamp_below = omega arith;
  len_below = omega arith;
  whole = refl;
}

video-CanWrite : CanWrite out_io (length (message_bytes (set_csid video) 2))
unfolding set_csid message_bytes first_header next_header next_chunks basic_bytes extended_bytes
video-CanWrite = record { working = refl; fits = omega arith }

video-Agree : Agree video out_io 2 conn
video-Agree = record {
  carried = video-IsMessage;
  chunk_pos = omega arith;
  not_empty = omega arith;
  in_pool = omega arith;
  fresh = refl;
  can_write = video-CanWrite;
  same_size = refl;
  no_error = refl;
  between = refl;
}

read-write_chunk_example :
    (cs : ChunkStream) × (conn' : Conn) × ((write_chunk video out_io 2).0 ≡ Exit.done)
    × (read conn ≡ message cs conn')
    × Holds (set_csid video) cs
    × (conn'.io.input ≡ 9 ∷ 9 ∷ [])
read-write_chunk_example =
    read-write_chunk video out_io 2 conn (9 ∷ 9 ∷ []) video-Agree refl (λ e. absurd (omega arith))
      (λ e. absurd (omega arith)) (omega arith) (omega arith)

read-ends_example : read conn ≢ stuck
read-ends_example = read-ends conn

write_chunk-message_bytes_example :
    ((write_chunk video out_io 2).0 ≡ Exit.done)
    × ((write_chunk video out_io 2).2 ≡ emit out_io (message_bytes (set_csid video) 2))
write_chunk-message_bytes_example =
    write_chunk-message_bytes 2 (omega arith) video out_io video-IsMessage (omega arith)
      video-CanWrite

-- An object as the metadata of a stream has it, {"w": 1.0 as its bits, "k": [true, null, ""]}.
abbrev metadata : Value
metadata = object (
    member (119 ∷ []) (number 0x3ff0000000000000) (
      member (107 ∷ []) (array (value (boolean true) (value null (value (string []) no_values))))
        no_members))

-- No AMF3 value is read.
abbrev no_amf3 : List ℕ → Decoded Value
no_amf3 r = failed

metadata-Fits : (more : Bool) → Fits more metadata
unfolding Fits Apart has_key snoc same_key nonempty any_value count
metadata-Fits more = (
  (refl, (refl, tt)),
  (
    omega arith,
    refl,
    omega arith,
    (omega arith, refl, (omega arith, (tt, (tt, ((omega arith, refl), tt)))), tt),
  ),
)

encode-wire_example : encode metadata ≡ write_bytes (wire metadata)
unfolding plain
encode-wire_example = encode-wire true metadata refl (metadata-Fits true)

decode-encode_example :
    decode_amf0 no_amf3 ((encode metadata).out ++ (5 ∷ [])) ≡ done metadata (5 ∷ [])
unfolding plain
decode-encode_example =
    decode-encode no_amf3 metadata (5 ∷ []) refl (metadata-Fits (nonempty (5 ∷ [])))

decode_amf0-wire_example : decode_amf0 no_amf3 (wire metadata ++ []) ≡ done metadata []
decode_amf0-wire_example = decode_amf0-wire no_amf3 metadata [] (metadata-Fits (nonempty []))

-- The members of the metadata.
abbrev members : Members
members = member (119 ∷ []) (number 0x3ff0000000000000) (
    member (107 ∷ []) (array (value (boolean true) (value null (value (string []) no_values))))
      no_members)

decode-encode_ecma_array_example :
    decode_amf0 no_amf3 ((encode_ecma_array members true).out ++ (5 ∷ []))
    ≡ done (object members) (5 ∷ [])
unfolding plain Fits members_count
decode-encode_ecma_array_example =
    decode-encode_ecma_array no_amf3 members (5 ∷ []) refl (metadata-Fits true).1
      (metadata-Fits true).0 (omega arith)

-- {"a": true}, beside a DecodeAmf3 that panics.
abbrev small_object : List ℕ
small_object = 3 ∷ 0 ∷ 1 ∷ 97 ∷ 1 ∷ 1 ∷ 0 ∷ 0 ∷ 9 ∷ []

decode_amf0-Within_example :
    Within NoAmf3 1 (length small_object) (decode_amf0 (λ r. panic) small_object)
decode_amf0-Within_example =
    decode_amf0-Within (λ r. panic) small_object
      (refl, (refl, (refl, (refl, (refl, (refl, (refl, (refl, (refl, tt)))))))))

reform-add_del_example :
    (q : List ℕ) × (metadata_reform no_amf3 (2 ∷ 0 ∷ 1 ∷ 97 ∷ 5 ∷ []) 0 ≡ reformed q)
    × (metadata_reform no_amf3 q 0 ≡ reformed q)
    × (metadata_reform no_amf3 q 3 ≡ reformed (2 ∷ 0 ∷ 1 ∷ 97 ∷ 5 ∷ []))
unfolding decode_amf0 decode same_key read_byte route marker_of decode_string assert_marker read_be
    read_bytes
reform-add_del_example =
    reform-add_del no_amf3 (2 ∷ 0 ∷ 1 ∷ 97 ∷ 5 ∷ []) (97 ∷ []) (5 ∷ []) refl refl
