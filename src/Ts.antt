-- ===== src/Ts.antt =====
-- container/ts: MPEG transport streams. Ts/Pes is the PES header, Ts/Muxer the packets of a frame,
-- Ts/Tables the program tables, and Ts/Crc the check sum (crc32.go); the rest is from muxer.go.
pub mod Pes
pub mod Muxer
pub mod Demux
pub mod Front
pub mod Prefix
pub mod Ready
pub mod Filled
pub mod Rounds
pub mod Frames
pub mod Crc
pub mod Polynomial
pub mod Check
pub mod Tables
pub mod Sections
pub mod Times
