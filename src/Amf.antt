-- ===== src/Amf.antt =====
-- protocol/amf: the AMF0 values, their encoder and their decoder.
pub mod Value
pub mod Encoder
pub mod Decoder
pub mod Wire
pub mod RoundTrip
pub mod Total
pub mod Metadata
pub mod EcmaArray
pub mod Pieces
pub mod Taken
