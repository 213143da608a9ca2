-- ===== src/Hls.antt =====
-- protocol/hls: the segments and the times of a stream. Hls/Cache is cache.go and item.go, Hls/Timing is
-- align.go, status.go and audio_cache.go.
pub mod Cache
pub mod Kept
pub mod PlayList
pub mod Timing
pub mod Steady
