-- ===== src/Rtmp.antt =====
-- protocol/rtmp/core: chunk streams over a buffered connection; and the writer of protocol/rtmp/rtmp.go.
pub mod ReadWriter
pub mod Pool
pub mod ChunkStream
pub mod ReadChunk
pub mod Conn
pub mod Wire
pub mod VirWriter
pub mod RoundTrip
pub mod Ends
