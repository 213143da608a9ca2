-- ===== src/Lib.antt =====
-- live, an RTMP, HLS and HTTP-FLV streaming server. A publisher's connection cuts messages out of
-- chunks (protocol/rtmp/core), the demuxer reads the FLV tag in front of each packet (container/flv),
-- a cache keeps what a joining player needs (protocol/rtmp/cache), and packets reach the players
-- through queues and connections again. Metadata and commands are AMF0 values (protocol/amf), and
-- the HLS output turns H.264 pictures into an Annex-B
-- stream, puts ADTS headers before AAC frames (parser), and cuts both into MPEG transport packets
-- (container/ts).
--
-- Which file models what:
--   Pio        utils/pio: U16BE is u16_be, PutU16BE is put_u16_be, and so on; Pio/Format describes
--              the byte order by digits.
--   Rtmp       protocol/rtmp/core: ReadWriter (read_writer.go), ChunkStream and ReadChunk
--              (chunk_stream.go, writing and reading), Conn (conn.go); Rtmp/Pool is utils/pool.
--              Rtmp/Wire describes the chunks of a message, independently of the code.
--              Rtmp/VirWriter is Write and DropPacket of VirWriter in protocol/rtmp/rtmp.go, where
--              SendPacket takes packets off the channel before each step.
--   Av, Flv    av/av.go, and container/flv: Flv/Tag is tag.go, Flv/Demuxer is demuxer.go.
--   Cache      protocol/rtmp/cache: Cache/Gop is gop.go, Cache/Stream is cache.go and special.go.
--   Queue      utils/queue/queue.go.
--   Amf        protocol/amf: Amf/Value (const.go), Amf/Encoder and Amf/Decoder (encoder_amf0.go,
--              decoder_amf0.go and util.go), Amf/Metadata (metadata.go); Amf/Wire describes the
--              format, and which values it can hold.
--   Codec      parser/parser.go, over Aac, H264 and Mp3 (parser/aac, parser/h264, parser/mp3).
--              H264/Format describes a picture and its Annex-B stream.
--   Amf3       protocol/amf: the values of AMF3 without parts but for dates, Amf3/Reading is from decoder_amf3.go
--              and Amf3/Writing from encoder_amf3.go.
--   Flv/Writer container/flv/muxer.go, av/rwbase.go and SendPacket of protocol/httpflv/writer.go;
--              Flv/Written describes a file of tags.
--   Hls        protocol/hls: Hls/Cache is cache.go and item.go; Hls/Timing is align.go, status.go
--              and audio_cache.go.
--   Ts         container/ts: Ts/Pes, Ts/Muxer and Ts/Tables are muxer.go, Ts/Crc is crc32.go.
--              Ts/Demux, Ts/Sections and Ts/Times read packets, tables and headers as the standard
--              lays them out, and Ts/Polynomial has the check sum bit by bit.
--   Base       lists, tests and bits that the parts share; Examples holds concrete inputs.
--
-- Conventions. A number is a natural number, and the wrap-around of its Go type is written out. A
-- slice of bytes is the list of its bytes. State is passed on explicitly; `none`, `panic`, `crash`
-- and `crashed` are a panic of the Go program, but in Rtmp/VirWriter `none` is a wait on a channel;
-- errors are values.
--
-- Bounds and fuel. `Conn.read` runs its loop on one round more than there are bytes of input: every
-- round but the last takes a byte. The AMF0 decoder has two steps for each byte and two more. The
-- writer of a connection takes a given number of bytes, `room`, before it fails. The loops over a
-- picture's NALUs and over a frame's transport packets have a round for each byte and one more.
-- DropPacket has its 940 rounds.
--
-- Not modelled: sockets, files, HTTP handlers, goroutines and timers but for the receives of SendPacket;
-- the dates, arrays, objects and external types of AMF3, for which the AMF0 decoder has a parameter; the
-- table of streams, the HLS source that cuts the segments, the handshake, the command state machine,
-- the relay, the API and the configuration.
pub mod Base
pub mod Pio
pub mod Rtmp
pub mod H264
pub mod Queue
pub mod Flv
pub mod Av
pub mod Cache
pub mod Amf
pub mod Amf3
pub mod Hls
pub mod Aac
pub mod Ts
pub mod Mp3
pub mod Codec
pub mod Examples
