-- ===== src/Ts/Frames.antt =====
-- Whole frames: Mux against the reader of transport packets.
use live.Base.{
  ℕ, zero, suc, ◌+◌, ◌-◌, ◌*◌, ◌%◌, ◌≤◌, ◌<◌, ◌≡◌, refl, ap, ap₂, sym, subst, ◌∙◌, inl, inr, Bool,
  true, false, Bool-cases, min, Option, none, some, List, [], ◌∷◌, ◌++◌, append_assoc, arith, leb,
  length, take, drop, take-append-drop, drop-drop, drop-all, ◌>>=◌,
}
use native.Mathlib.Decide.{dec_le}
use mathlib.Core.Option.{some-injective}
use live.Flv.Tag.{Tag, is_key_frame}
use live.Av.{Packet}
use live.Ts.Pes.{pes_packet, write_ts, has_dts}
use live.Ts.Muxer.{
  pts_of, frame_of, frame_with, mux, Muxer, Frame, Loop, next_cc, count_cc, and_packet, mux_loop,
  mux_frame, pid_of,
}
use live.Ts.Demux.{demux}
use live.Ts.Front.{cc_of}
use live.Ts.Rounds.{
  Sends, at_start, at_later, FitsPcr, first_room, first_part, first_round, later_round,
}

-- The counter of the frame's kind is four bits, and the array holds a packet.
pub record IsValid (f : Frame) (m : Muxer) : Type 0 where
  pub small : cc_of f m < 16
  pub whole : length m.ts_packet ≡ 188

-- Packets that a reader takes for these bytes, and the counter behind them.
pub record Carries (f : Frame) (first : Bool) (m : Muxer) (run : Option (Muxer × List (List ℕ)))
    (bytes : List ℕ) : Type 0 where
  pub muxer : Muxer
  pub packets : List (List ℕ)
  pub runs : run ≡ some (muxer, packets)
  pub reads : demux (pid_of f) first ((cc_of f m + 1) % 16) packets ≡ some bytes
  pub counts : cc_of f muxer ≡ (cc_of f m + length packets) % 16
  pub valid : IsValid f muxer

next_cc-mod : (c : ℕ) → c < 16 → next_cc c ≡ (c + 1) % 16
unfolding next_cc
next_cc-mod c h = ground arith

count_cc-next :
    (f : Frame) (m : Muxer)
    → IsValid f m
    → (cc_of f (count_cc f m) ≡ (cc_of f m + 1) % 16) × ((count_cc f m).ts_packet ≡ m.ts_packet)
unfolding count_cc
count_cc-next f m v = elim (Bool-cases f.is_video) [
  | inl h ↦ let small = v.small in rw h (next_cc-mod m.video_cc (rw h at small), refl)
  | inr h ↦ let small = v.small in rw h (next_cc-mod m.audio_cc (rw h at small), refl)
]

counted : (f : Frame) (m : Muxer) → IsValid f m → cc_of f (count_cc f m) < 16
counted f m v = omega (arith, (count_cc-next f m v).0)

kept : (f : Frame) (m : Muxer) → IsValid f m → length (count_cc f m).ts_packet ≡ 188
kept f m v = ap (λ (b : List ℕ). length b) (count_cc-next f m v).1 ∙ v.whole

-- The muxer behind a packet.
abbrev behind : Frame → Muxer → List ℕ → Muxer
behind f m packet = record (count_cc f m) { ts_packet = packet }

behind-IsValid :
    (f : Frame) (m : Muxer) (packet : List ℕ)
    → IsValid f m
    → length packet ≡ 188
    → IsValid f (behind f m packet)
behind-IsValid f m packet v h = record { small = omega (arith, (count_cc-next f m v).0); whole = h }

one_packet :
    (f : Frame) (n : ℕ) (first : Bool) (m : Muxer) (l : Loop) (chunk rest : List ℕ) (w : ℕ)
    → IsValid f m
    → (s : Sends f first m l chunk w) → leb l.packet_bytes_len 0 ≡ false
    → Carries f false (behind f m s.packet) (mux_loop n f (at_later f (behind f m s.packet) w)) rest
    → Carries f first m (mux_loop (suc n) f l) (chunk ++ rest)
unfolding mux_loop
one_packet f n first m l chunk rest w v s more c =
    let p = s.packet in
    let e = (count_cc-next f m v).0 in
    record {
      muxer = c.muxer;
      packets = p ∷ c.packets;
      runs = rw more (
          ap
            (λ (o : Option (Loop × List ℕ)).
              o >>= (λ (r : Loop × List ℕ). mux_loop n f r.0 >>= and_packet r.1))
            s.runs
          ∙ ap (λ (o : Option (Muxer × List (List ℕ))). o >>= and_packet p) c.runs);
      reads =
          ap (λ (k : ℕ). demux (pid_of f) first k (p ∷ c.packets)) (sym e)
          ∙ ap₂
              (λ (a b : Option (List ℕ)).
                a >>= (λ (x : List ℕ). b >>= (λ (y : List ℕ). some (x ++ y))))
              s.reads c.reads;
      counts = omega (arith, c.counts, e);
      valid = c.valid;
    }

later_loop :
    (n : ℕ) (f : Frame) (m : Muxer) (w : ℕ)
    → IsValid f m
    → w ≤ length f.payload
    → length f.payload - w < n
    → Carries f false m (mux_loop n f (at_later f m w)) (drop w f.payload)
unfolding mux_loop
later_loop zero f m w v h k = absurd (omega arith)
later_loop (suc n) f m w v h k = elim (dec_le (length f.payload) w) [
  | yes over ↦ record {
    muxer = m;
    packets = [];
    runs = rw (ended (length f.payload - w) (omega arith)) refl;
    reads = ap some (sym (drop-all w f.payload over));
    counts = omega (arith, v.small);
    valid = v;
  }
  | no more ↦
      let d = min 184 (length f.payload - w) in
      let s = later_round f m w (counted f m v) (kept f m v) (omega arith) in
      subst (Carries f false m (mux_loop (suc n) f (at_later f m w))) (rejoin d) (
        one_packet f n false m (at_later f m w) (take d (drop w f.payload)) (drop (w + d) f.payload)
          (w + d) v s (going (length f.payload - w) (omega arith))
          (later_loop n f (behind f m s.packet) (w + d) (behind-IsValid f m s.packet v s.size)
            (omega arith) (omega arith)))
]
  where
    ended : (k : ℕ) → k ≡ 0 → leb k 0 ≡ true
    ended k e = ground arith

    going : (k : ℕ) → 0 < k → leb k 0 ≡ false
    going k h = ground arith

    rejoin : (d : ℕ) → take d (drop w f.payload) ++ drop (w + d) f.payload ≡ drop w f.payload
    rejoin d =
        ap (λ (b : List ℕ). take d (drop w f.payload) ++ b)
          (sym (drop-drop d w (w + d) f.payload refl))
        ∙ take-append-drop d (drop w f.payload)

mux_frame-demux :
    (m : Muxer) (f : Frame)
    → IsValid f m
    → 0 < length f.pes
    → length f.pes ≤ 176
    → FitsPcr f
    → Carries f true m (mux_frame m f) (f.pes ++ f.payload)
unfolding mux_frame
mux_frame-demux m f v pos small fits =
    let len = length f.payload + length f.pes in
    let n = first_part f in
    let s = first_round f m (counted f m v) (kept f m v) pos small fits in
    subst (Carries f true m (mux_loop (suc len) f (at_start f m)))
      (append_assoc f.pes (take n f.payload) (drop n f.payload)
        ∙ ap (λ (b : List ℕ). f.pes ++ b) (take-append-drop n f.payload))
      (one_packet f len true m (at_start f m) (f.pes ++ take n f.payload) (drop n f.payload) n v s
        (going len (omega arith))
        (later_loop len f (behind f m s.packet) n (behind-IsValid f m s.packet v s.size)
          (omega (arith, (first_room f small fits).1)) (omega arith)))
  where
    going : (k : ℕ) → 0 < k → leb k 0 ≡ false
    going k h = ground arith

pes_packet-length :
    (v : Bool) (len pts dts : ℕ)
    → (0 < length (pes_packet v len pts dts)) × (length (pes_packet v len pts dts) ≤ 176)
unfolding pes_packet write_ts
pes_packet-length v len pts dts = elim (Bool-cases (has_dts v pts dts)) [
  | inl h ↦ rw h (omega arith, omega arith)
  | inr h ↦ rw h (omega arith, omega arith)
]

frame_with-frame_of :
    (p : Packet) (v : Bool) (header : Option Tag) (f : Frame)
    → frame_with p v header ≡ some f
    → (key : Bool) × (pts : ℕ) × (f ≡ frame_of p key pts)
unfolding frame_with
frame_with-frame_of p false header f e = (false, p.time_stamp * 90, some-injective _ _ (sym e))
frame_with-frame_of p true none f e = absurd (cc e)
frame_with-frame_of p true (some tag) f e =
    (is_key_frame tag, pts_of (p.time_stamp * 90) tag.composition_time, some-injective _ _ (sym e))

-- Mux cuts a frame into packets of 188 bytes of its stream, the first of which starts a unit, with
-- counters that follow on from one frame to the next, and what they carry is the PES header and
-- the payload, whole and in order. Only a frame that needs a clock reference must have 184 bytes
-- or more, header included.
pub mux-demux :
    (m : Muxer) (p : Packet) (f : Frame)
    → frame_with p p.is_video p.header ≡ some f
    → IsValid f m
    → FitsPcr f
    → Carries f true m (mux m p) (f.pes ++ p.payload)
unfolding mux
mux-demux m p f e v fits =
    let (key, pts, is_frame) = frame_with-frame_of p p.is_video p.header f e in
    let sizes = pes_packet-length p.is_video (length p.payload) pts (p.time_stamp * 90) in
    let same = ap (λ (g : Frame). g.pes) is_frame in
    rw e (
      subst (λ (b : List ℕ). Carries f true m (mux_frame m f) (f.pes ++ b))
        (ap (λ (g : Frame). g.payload) is_frame)
        (mux_frame-demux m f v (omega (arith, sizes.0, ap (λ (b : List ℕ). length b) same))
          (omega (arith, sizes.1, ap (λ (b : List ℕ). length b) same)) fits))
