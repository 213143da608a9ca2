-- ===== src/Rtmp/VirWriter.antt =====
-- protocol/rtmp/rtmp.go: Write and DropPacket of VirWriter, beside the goroutine of SendPacket, which
-- takes packets off the same channel. DropPacket of protocol/hls/source.go has the same body.
pub mod Kept
pub mod Beside
pub mod Limit
use live.Base.{
  ℕ, zero, suc, Bool, false, Option, none, some, List, [], ◌∷◌, ◌++◌, if◌then◌else◌, ◌||◌, ltb, leb,
  length, take, drop, ◌>>=◌,
}
use live.Av.{Packet}
use live.Flv.Tag.{is_seq, is_key_frame}

abbrev pub max_queue_num : ℕ
max_queue_num = 1024

-- The channel with its packets, the oldest first, and those that SendPacket has taken off. `takes` is
-- how many it takes before each of the next steps of DropPacket, and behind its end it takes none.
pub record Chan : Type 0 where
  pub queue : List Packet
  pub sent : List Packet
  pub takes : List ℕ

abbrev pub taken : List Packet → List Packet → List ℕ → Chan
taken queue sent [] = record { queue = queue; sent = sent; takes = [] }
taken queue sent (n ∷ takes) = record {
  queue = drop n queue;
  sent = sent ++ take n queue;
  takes = takes;
}

abbrev pub send_packet_runs : Chan → Chan
send_packet_runs c = taken c.queue c.sent c.takes

-- `<-pktQue`, `pktQue <- p` and `len(pktQue)`; `none` waits for another goroutine.
abbrev pub received : Chan → List Packet → Option (Packet × Chan)
received c [] = none
received c (p ∷ queue) = some (p, record c { queue = queue })

unfoldable pub receive : Chan → Option (Packet × Chan)
receive c = received (send_packet_runs c) (send_packet_runs c).queue

abbrev pub sent_on : Packet → Chan → Option Chan
sent_on p c =
    if ltb (length c.queue) max_queue_num
    then some (record c { queue = c.queue ++ (p ∷ []) })
    else none

unfoldable pub send : Packet → Chan → Option Chan
send p c = sent_on p (send_packet_runs c)

unfoldable pub skip : Chan → Option Chan
skip c = receive c >>= (λ r. some r.1)

unfoldable pub seq_or_key : Packet → Bool
seq_or_key p = elim p.header [
  | some video_pkt ↦ is_seq video_pkt || is_key_frame video_pkt
  | none ↦ false
]

abbrev pub audio_at : Packet → Chan → Option Chan
audio_at p c = if ltb 1022 (length c.queue) then skip c else send p c

unfoldable pub drop_audio : Packet → Chan → Option Chan
drop_audio p c = if p.is_audio then audio_at p (send_packet_runs c) else some c

abbrev pub skip_at : Chan → Option Chan
skip_at c = if ltb 1014 (length c.queue) then skip c else some c

unfoldable pub skip_above : Chan → Option Chan
skip_above c = skip_at (send_packet_runs c)

unfoldable pub drop_video : Packet → Chan → Option Chan
drop_video p c =
    if p.is_video then ((if seq_or_key p then send p c else some c) >>= skip_above) else some c

unfoldable pub drop_round : Chan → Option Chan
drop_round c = receive c >>= (λ r. drop_audio r.0 r.1 >>= drop_video r.0)

unfoldable pub drop_loop : ℕ → Chan → Option Chan
drop_loop zero c = some c
drop_loop (suc n) c = drop_round c >>= drop_loop n

unfoldable pub drop_packet : Chan → Option Chan
drop_packet c = drop_loop 940 c

pub record VirWriter : Type 0 where
  pub closed : Bool
  pub packet_queue : Chan

-- The error, a wait, or the writer with what is in the channel then.
pub data Put : Type 0 where
  refused blocked : Put
  put : VirWriter → Put

unfoldable pub put_queue : VirWriter → Option Chan → Put
put_queue v none = blocked
put_queue v (some c) = put (record v { packet_queue = c })

-- The channel is that at the test of its length.
unfoldable pub write : VirWriter → Packet → Put
write v p =
    if v.closed
    then refused
    else (if leb 1000 (length v.packet_queue.queue)
        then put_queue v (drop_packet v.packet_queue)
        else put_queue v (send p v.packet_queue))
