-- ===== src/Cache/Stream/Joined.antt =====
-- What a player that joins after some packets is sent.
use live.Base.{
  ℕ, ◌≡◌, ◌⊎◌, refl, sym, ap, ◌∙◌, Bool, true, false, Option-cases, inl, inr, Option, none, some,
  List, [], ◌∷◌, ◌++◌, arith, if◌then◌else◌, ◌==◌, ◌&&◌, ◌>>=◌,
}
use live.Av.{Packet}
use live.Flv.Tag.{is_seq, sound_aac, aac_seqhdr}
use live.Cache.Gop
use live.Cache.Gop.{GopCache, new_gop_cache, starts_gop}
use live.Cache.Gop.Groups.{spec_write_all, spec_send, write_all-refines}
use live.Cache.Gop.Groups.{write_all as write_all_gop}
use mathlib.Core.Option.{some-injective}
use live.Cache.Stream.{special_write, special_send, Cache, new_cache, write_gop, write, send}

-- What a packet is to a joining player.
pub data Kind : Type 0 where
  metadata video_seq audio_seq frame dropped : Kind

unfoldable pub kind : Packet → Kind
kind p =
    if p.is_metadata
    then metadata
    else if p.is_video
    then (elim p.header [ some vh ↦ if is_seq vh then video_seq else frame | none ↦ dropped ])
    else (elim p.header [
      | some ah ↦
          if ah.sound_format == sound_aac && ah.aac_packet_type == aac_seqhdr
          then audio_seq
          else dropped
      | none ↦ frame
    ])

abbrev pub is_kind : Kind → Kind → Bool
is_kind metadata metadata = true
is_kind video_seq video_seq = true
is_kind audio_seq audio_seq = true
is_kind frame frame = true
is_kind dropped dropped = true
is_kind _ _ = false

-- The last packet of a kind, or what there was before.
unfoldable pub latest : Kind → List Packet → List Packet → List Packet
latest k old [] = old
latest k old (p ∷ ps) = latest k (if is_kind k (kind p) then p ∷ [] else old) ps

-- The packets that go to the GOP cache.
unfoldable pub frames : List Packet → List Packet
frames [] = []
frames (p ∷ ps) = let rest = frames ps in if is_kind frame (kind p) then p ∷ rest else rest

abbrev pub write_all : Cache → List Packet → Option Cache
write_all c [] = some c
write_all c (p ∷ ps) = write c p >>= λ c'. write_all c' ps

-- A run of the cache, part by part.
Runs : Cache → List Packet → GopCache → Type 0
Runs c ps g =
    (c' : Cache) × (write_all c ps ≡ some c')
    × (c'.gop ≡ g)
    × (special_send c'.metadata ≡ latest metadata (special_send c.metadata) ps)
    × (special_send c'.video_seq ≡ latest video_seq (special_send c.video_seq) ps)
    × (special_send c'.audio_seq ≡ latest audio_seq (special_send c.audio_seq) ps)

Runs-cons :
    (c c' : Cache) (p : Packet) (ps : List Packet) (g : GopCache)
    → write c p ≡ some c'
    → special_send c'.metadata
      ≡ (if is_kind metadata (kind p) then p ∷ [] else special_send c.metadata)
    → special_send c'.video_seq
      ≡ (if is_kind video_seq (kind p) then p ∷ [] else special_send c.video_seq)
    → special_send c'.audio_seq
      ≡ (if is_kind audio_seq (kind p) then p ∷ [] else special_send c.audio_seq)
    → Runs c' ps g
    → Runs c (p ∷ ps) g
unfolding latest Runs
Runs-cons c c' p ps g e hm hv ha (d, r, eg, em, ev, ea) = (
  d,
  rw e r,
  eg,
  em ∙ ap (λ (old : List Packet). latest metadata old ps) hm,
  ev ∙ ap (λ (old : List Packet). latest video_seq old ps) hv,
  ea ∙ ap (λ (old : List Packet). latest audio_seq old ps) ha,
)

-- One write, by what the packet is.
write-kind :
    (c : Cache) (p : Packet)
    → write c p ≡ (elim (kind p) [
      | metadata ↦ some (record c { metadata = special_write c.metadata p })
      | video_seq ↦ some (record c { video_seq = special_write c.video_seq p })
      | audio_seq ↦ some (record c { audio_seq = special_write c.audio_seq p })
      | frame ↦ write_gop c p
      | dropped ↦ some c
    ])
unfolding write kind
write-kind c p = ground arith

frames-cons :
    (p : Packet) (ps : List Packet) (k : Kind)
    → kind p ≡ k
    → frames (p ∷ ps) ≡ (if is_kind frame k then p ∷ frames ps else frames ps)
unfolding frames
frames-cons p ps k e = rw e

Runs-as :
    (k : Kind) (p : Packet) (ps : List Packet) (c : Cache) (g : GopCache)
    → kind p ≡ k
    → ((c' : Cache) → write_all_gop c'.gop (frames ps) ≡ some g → Runs c' ps g)
    → write_all_gop c.gop (if is_kind frame k then p ∷ frames ps else frames ps) ≡ some g
    → Runs c (p ∷ ps) g
unfolding special_send special_write write_gop
Runs-as metadata p ps c g k ih e =
    let c' : Cache = record c { metadata = special_write c.metadata p } in
    Runs-cons c c' p ps g (write-kind c p ∙ rw k) (rw k) (rw k) (rw k) (ih c' e)
Runs-as video_seq p ps c g k ih e =
    let c' : Cache = record c { video_seq = special_write c.video_seq p } in
    Runs-cons c c' p ps g (write-kind c p ∙ rw k) (rw k) (rw k) (rw k) (ih c' e)
Runs-as audio_seq p ps c g k ih e =
    let c' : Cache = record c { audio_seq = special_write c.audio_seq p } in
    Runs-cons c c' p ps g (write-kind c p ∙ rw k) (rw k) (rw k) (rw k) (ih c' e)
Runs-as dropped p ps c g k ih e =
    Runs-cons c c p ps g (write-kind c p ∙ rw k) (rw k) (rw k) (rw k) (ih c e)
Runs-as frame p ps c g k ih e = elim (Option-cases (Gop.write c.gop p)) [
  | inl crash ↦ absurd (cc (rw crash at e))
  | inr (gop, w) ↦
      let c' : Cache = record c { gop = gop } in
      Runs-cons c c' p ps g (write-kind c p ∙ rw (k, w)) (rw k) (rw k) (rw k) (ih c' (rw w at e))
]

write-Runs :
    (ps : List Packet) (c : Cache) (g : GopCache)
    → write_all_gop c.gop (frames ps) ≡ some g
    → Runs c ps g
unfolding frames Runs latest
write-Runs [] c g e = (c, refl, some-injective c.gop g e, refl, refl, refl)
write-Runs (p ∷ ps) c g e =
    Runs-as (kind p) p ps c g refl (λ c' e'. write-Runs ps c' g e')
      (sym (ap (write_all_gop c.gop) (frames-cons p ps (kind p) refl)) ∙ e)

-- For a cache of one or two groups and any packets whose video headers are set, a player that joins is
-- sent, in this order, the last metadata, the last video header, the last AAC header and the frames of
-- the last groups; other audio with a header it is not sent.
pub send-write_all :
    (n : ℕ) (ps : List Packet) (groups : List (List Packet))
    → (n ≡ 1) ⊎ (n ≡ 2)
    → spec_write_all n [] (frames ps) ≡ some groups
    → (write_all (new_cache n) ps >>= send)
      ≡ some (
          latest metadata [] ps
          ++ (latest video_seq [] ps ++ (latest audio_seq [] ps ++ spec_send groups)))
unfolding new_cache send special_send Runs
send-write_all n ps groups h e =
    let (g, run, sent) = write_all-refines n (frames ps) groups h e in
    let (c, r, eg, em, ev, ea) = write-Runs ps (new_cache n) g run in rw (r, eg, sent, em, ev, ea)
