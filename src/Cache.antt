-- ===== src/Cache.antt =====
-- protocol/rtmp/cache: what a joining player is sent first.
pub mod Gop
pub mod Stream
