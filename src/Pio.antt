-- ===== src/Pio.antt =====
-- utils/pio: integers in byte slices. The readers are in `Pio/Reader`, the writers in `Pio/Writer`.
pub mod Reader
pub mod Writer
pub mod Format
pub mod RoundTrip
pub mod Signed
