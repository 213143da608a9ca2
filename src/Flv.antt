-- ===== src/Flv.antt =====
-- container/flv: tag headers and the demuxer.
pub mod Tag
pub mod Demuxer
pub mod Writer
pub mod Laws
pub mod Written
pub mod Files
