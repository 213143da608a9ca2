-- ===== src/Amf3.antt =====
-- protocol/amf: AMF3. Amf3/Value is what `interface{}` holds and the references of a decoder, Amf3/Reading
-- and Amf3/Writing are the pieces of decoder_amf3.go and encoder_amf3.go that do not call each other.
pub mod Value
pub mod Reading
pub mod Writing
pub mod Uint29
pub mod Taken
pub mod Leaves
