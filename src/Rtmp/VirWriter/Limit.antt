-- ===== src/Rtmp/VirWriter/Limit.antt =====
-- Write on a writer at its limit, by what SendPacket takes meanwhile.
use live.Base.{
  ℕ, suc, ◌+◌, ◌≤◌, ◌≡◌, refl, ap, ◌∙◌, true, false, Option, none, some, List, [], ◌∷◌, ◌++◌, arith,
  leb, length, take, drop, drop-all, All,
}
use live.Av.{Packet}
use live.Rtmp.VirWriter.{
  Chan, receive, drop_round, drop_loop, drop_packet, VirWriter, put, blocked, write, put_queue,
}
use live.Rtmp.VirWriter.Kept.{OneKind, all_kept, alone, drop_loop-take}
use live.Rtmp.VirWriter.Beside.{total, After, loop-After}

write-drops :
    (v : VirWriter) (p : Packet)
    → v.closed ≡ false
    → 1000 ≤ length v.packet_queue.queue
    → write v p ≡ put_queue v (drop_packet v.packet_queue)
unfolding write
write-drops v p o l = rw o (rw at_limit refl)
  where
    at_limit : leb 1000 (length v.packet_queue.queue) ≡ true
    at_limit = ground arith

drop_drained :
    (n : ℕ) (queue sent : List Packet)
    → drop_loop (suc n) (record { queue = queue; sent = sent; takes = length queue ∷ [] }) ≡ none
unfolding drop_loop drop_round receive
drop_drained n queue sent = rw (drop-all (length queue) queue (omega arith)) refl

-- A channel that DropPacket comes to an end with, where each packet that is left or was sent has `P`.
abbrev pub Left : (Packet → Type 0) → VirWriter → Packet → Type 0
Left P v p =
    (c : Chan) × (write v p ≡ put (record v { packet_queue = c }))
    × (length c.queue ≤ 1014)
    × All P c.queue
    × All P c.sent

Left-by :
    (P : Packet → Type 0) (v : VirWriter) (p : Packet) (o : Option Chan)
    → After P 0 1014 o
    → write v p ≡ put_queue v o
    → Left P v p
unfolding put_queue
Left-by P v p none h e = absurd (omega arith)
Left-by P v p (some c) (l, b, q, s) e = (c, e, b, q, s)

both :
    (P : Packet → Type 0) (ps : List Packet)
    → All OneKind ps
    → All P ps
    → All (λ p. OneKind p × P p) ps
both P [] h k = tt
both P (p ∷ ps) (h, hs) (k, ks) = ((h, k), both P ps hs ks)

second : (P : Packet → Type 0) (ps : List Packet) → All (λ p. OneKind p × P p) ps → All P ps
second P [] h = tt
second P (p ∷ ps) ((h, k), hs) = (k, second P ps hs)

All-empty : (P : Packet → Type 0) (ps : List Packet) → ps ≡ [] → All P ps
All-empty P [] e = tt
All-empty P (p ∷ ps) e = absurd (cc e)

After-second :
    (P : Packet → Type 0) (n m : ℕ) (o : Option Chan)
    → After (λ p. OneKind p × P p) n m o
    → After P n m o
After-second P n m none h = h
After-second P n m (some c) (l, b, q, s) = (l, b, second P c.queue q, second P c.sent s)

-- Write on an open writer with 1000 to 1014 packets waiting, none of which is both audio and video, by
-- what SendPacket takes from the test of the length on. If it takes so few that 940 would be left,
-- whenever it takes them, Write returns without a wait, 1014 packets are left at most, and each
-- packet that is left or was taken has whatever all the waiting packets had. If it takes none, the
-- first 940 are taken off, and the audio packets, sequence headers and key frames of these go behind
-- the others. If it takes all of them before the first step of DropPacket, Write waits on the empty
-- channel.
pub write-full :
    (P : Packet → Type 0) (v : VirWriter) (p : Packet)
    → v.closed ≡ false
    → 1000 ≤ length v.packet_queue.queue
    → length v.packet_queue.queue ≤ 1014
    → 940 + total v.packet_queue.takes ≤ length v.packet_queue.queue
    → v.packet_queue.sent ≡ []
    → All OneKind v.packet_queue.queue
    → All P v.packet_queue.queue
    → let queue = v.packet_queue.queue in
      Left P v p
      × (write (record v { packet_queue = alone queue [] }) p
          ≡ put
              (record v { packet_queue = alone (drop 940 queue ++ all_kept (take 940 queue)) [] }))
      × (write
            (record v {
              packet_queue = record { queue = queue; sent = []; takes = length queue ∷ [] };
            })
            p
          ≡ blocked)
unfolding drop_packet put_queue
write-full P v p o l m slow none_sent one all = (
  Left-by P v p (drop_packet c) kept_all (write-drops v p o l),
  write-drops alone_v p o l
      ∙ ap (put_queue alone_v) (drop_loop-take 940 c.queue [] (omega arith) m one),
  write-drops drained p o l ∙ ap (put_queue drained) (drop_drained 939 c.queue []),
)
  where
    c : Chan
    c = v.packet_queue

    alone_v : VirWriter
    alone_v = record v { packet_queue = alone c.queue [] }

    drained : VirWriter
    drained = record v {
      packet_queue = record { queue = c.queue; sent = []; takes = length c.queue ∷ [] };
    }

    kept_all : After P 0 1014 (drop_packet c)
    kept_all = After-second P 0 1014 (drop_loop 940 c) (
        loop-After (λ p. OneKind p × P p) (λ p h. h.0) 940 c
          (slow, m, both P c.queue one all, All-empty (λ p. OneKind p × P p) c.sent none_sent))
