-- ===== src/Cache/Stream.antt =====
-- protocol/rtmp/cache/cache.go and special.go: the last metadata and sequence headers, and the GOP
-- cache. The packet that `init` of special.go encodes is used by no one, and is left out.
pub mod Joined
use live.Base.{
  ℕ, Bool, true, false, Option, none, some, List, [], ◌∷◌, ◌++◌, if◌then◌else◌, ◌==◌, ◌&&◌, ◌>>=◌,
}
use live.Av.{Packet}
use live.Flv.Tag.{Tag, is_seq, sound_aac, aac_seqhdr}
use live.Cache.Gop
use live.Cache.Gop.{GopCache, new_gop_cache}

pub record SpecialCache : Type 0 where
  pub full : Bool
  pub p : Option Packet

abbrev pub new_special_cache : SpecialCache
new_special_cache = record { full = false; p = none }

unfoldable pub special_write : SpecialCache → Packet → SpecialCache
special_write c p = record { full = true; p = some p }

-- What is sent to a writer that takes every packet; a nil packet is passed on by no state.
unfoldable pub special_send : SpecialCache → List Packet
special_send c = if c.full then (elim c.p [ some p ↦ p ∷ [] | none ↦ [] ]) else []

pub record Cache : Type 0 where
  pub gop : GopCache
  pub video_seq : SpecialCache
  pub audio_seq : SpecialCache
  pub metadata : SpecialCache

-- `configure.Config.GetInt("gop_num")` is the argument.
unfoldable pub new_cache : ℕ → Cache
new_cache gop_num = record {
  gop = new_gop_cache gop_num;
  video_seq = new_special_cache;
  audio_seq = new_special_cache;
  metadata = new_special_cache;
}

unfoldable pub write_gop : Cache → Packet → Option Cache
write_gop c p = Gop.write c.gop p >>= λ g. some (record c { gop = g })

-- `none` is a panic of the GOP cache.
unfoldable pub write : Cache → Packet → Option Cache
write c p =
    if p.is_metadata
    then some (record c { metadata = special_write c.metadata p })
    else (if p.is_video
        then (elim p.header [
          | some vh ↦
              if is_seq vh
              then some (record c { video_seq = special_write c.video_seq p })
              else write_gop c p
          | none ↦ some c
        ])
        else (elim p.header [
          | some ah ↦
              if ah.sound_format == sound_aac && ah.aac_packet_type == aac_seqhdr
              then some (record c { audio_seq = special_write c.audio_seq p })
              else some c
          | none ↦ write_gop c p
        ]))

unfoldable pub send : Cache → Option (List Packet)
send c = Gop.send c.gop >>= λ gops.
    some
      (special_send c.metadata ++ (special_send c.video_seq ++ (special_send c.audio_seq ++ gops)))
