-- ===== src/Flv/Demuxer.antt =====
-- container/flv/demuxer.go: a tag header is parsed off the front of a packet.
use live.Base.{
  ℕ, Bool, true, false, Option, none, some, List, [], ◌∷◌, if◌then◌else◌, ◌==◌, get_elem?, drop,
}
use live.Av.{Packet}
use live.Flv.Tag.{new_tag, parsed, invalid, panic, video_h264, parse_media_tag_header}

-- How a call ends, with the packet as it leaves it.
pub data Demuxed : Type 0 where
  ok : Packet → Demuxed
  bad_header : Packet → Demuxed
  avc_end_seq : Packet → Demuxed
  crash : Demuxed

unfoldable pub demux_h : Packet → Demuxed
demux_h p = elim (parse_media_tag_header new_tag p.payload p.is_video) [
  | parsed n tag ↦ ok (record p { header = some tag })
  | invalid n ↦ bad_header p
  | panic ↦ crash
]

-- `p.Data[0] == 0x17 && p.Data[1] == 0x02`; `none` is the panic of an index out of range.
unfoldable pub is_end_of_sequence : List ℕ → Option Bool
is_end_of_sequence (x ∷ b) =
    if x == 0x17
    then (elim (get_elem? b 0) [ some y ↦ some (y == 0x02) | none ↦ none ])
    else some false
is_end_of_sequence [] = none

unfoldable pub demux : Packet → Demuxed
demux p = elim (parse_media_tag_header new_tag p.payload p.is_video) [
  | parsed n tag ↦
      let ends = if tag.codec_id == video_h264 then is_end_of_sequence p.payload else some false in
      elim ends [
        | none ↦ crash
        | some true ↦ avc_end_seq p
        | some false ↦ ok (record p { header = some tag; payload = drop n p.payload })
      ]
  | invalid n ↦ bad_header p
  | panic ↦ crash
]
