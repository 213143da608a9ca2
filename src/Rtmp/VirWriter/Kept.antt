-- ===== src/Rtmp/VirWriter/Kept.antt =====
-- What stays in the channel of a writer at its limit, and where, when SendPacket takes none meanwhile.
use live.Base.{
  ℕ, zero, suc, ◌+◌, ◌≤◌, ◌≡◌, ap, ap₂, sym, ◌∙◌, false, some, List, [], ◌∷◌, ◌++◌, append-nil,
  append_assoc, if◌then◌else◌, ◌&&◌, ◌||◌, arith, length, length-append, take, drop, length-take,
  length-drop, take-append-drop, All,
}
use live.Av.{Packet}
use live.Rtmp.VirWriter.{
  Chan, seq_or_key, receive, send, skip, drop_audio, drop_video, skip_above, drop_round, drop_loop,
}

-- A packet is never both audio and video.
abbrev pub OneKind : Packet → Type 0
OneKind p = (p.is_audio && p.is_video) ≡ false

-- Audio stays, and of the video sequence headers and key frames.
abbrev pub kept : Packet → List Packet
kept p = if p.is_audio || (p.is_video && seq_or_key p) then p ∷ [] else []

abbrev pub all_kept : List Packet → List Packet
all_kept [] = []
all_kept (p ∷ ps) = kept p ++ all_kept ps

-- The channel that SendPacket takes nothing from.
abbrev pub alone : List Packet → List Packet → Chan
alone queue sent = record { queue = queue; sent = sent; takes = [] }

kept_bound : (p : Packet) → length (kept p) ≤ 1
kept_bound p = ground arith

drop_round-kept :
    (p : Packet) (queue sent : List Packet)
    → OneKind p
    → length queue ≤ 1013
    → drop_round (alone (p ∷ queue) sent) ≡ some (alone (queue ++ kept p) sent)
unfolding drop_round drop_audio drop_video skip_above receive send skip
drop_round-kept p queue sent one h = ground (arith, append-nil queue, length-append queue (p ∷ []))

-- The rounds take the packets in front and move those that stay behind the others.
drop_loop-front :
    (front back sent : List Packet)
    → All OneKind front
    → length front + length back ≤ 1014
    → drop_loop (length front) (alone (front ++ back) sent)
      ≡ some (alone (back ++ all_kept front) sent)
unfolding drop_loop
drop_loop-front [] back sent one h =
    ap (λ (q : List Packet). some (alone q sent)) (sym (append-nil back))
drop_loop-front (p ∷ front) back sent (o, one) h =
    rw (drop_round-kept p (front ++ back) sent o (omega (arith, length-append front back))) (
      rw (append_assoc front back (kept p)) (
        drop_loop-front front (back ++ kept p) sent one
          (omega (arith, length-append back (kept p), kept_bound p))
        ∙ ap (λ (q : List Packet). some (alone q sent))
            (append_assoc back (kept p) (all_kept front))))

All-take : (n : ℕ) (ps : List Packet) → All OneKind ps → All OneKind (take n ps)
All-take zero ps h = tt
All-take (suc n) [] h = tt
All-take (suc n) (p ∷ ps) (h, hs) = (h, All-take n ps hs)

pub drop_loop-take :
    (n : ℕ) (queue sent : List Packet)
    → n ≤ length queue
    → length queue ≤ 1014
    → All OneKind queue
    → drop_loop n (alone queue sent) ≡ some (alone (drop n queue ++ all_kept (take n queue)) sent)
drop_loop-take n queue sent l h one =
    sym (
      ap₂ (λ (k : ℕ) (q : List Packet). drop_loop k (alone q sent)) size (take-append-drop n queue))
    ∙ drop_loop-front (take n queue) (drop n queue) sent (All-take n queue one)
        (omega (arith, size, length-drop n queue))
  where
    size : length (take n queue) ≡ n
    size = omega (arith, length-take n queue)
