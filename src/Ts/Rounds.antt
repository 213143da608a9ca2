-- ===== src/Ts/Rounds.antt =====
-- One packet of Mux: which bytes of the frame it takes.
use live.Base.{
  ℕ, ◌+◌, ◌-◌, ◌≤◌, ◌<◌, ◌≡◌, ap, ap₂, ◌∙◌, inl, inr, Bool, true, false, Bool-cases, min, Option,
  some, List, ◌++◌, append_assoc, arith, length, take, drop, length-append, length-take,
  length-drop, ◌>>=◌,
}
use live.Ts.Muxer.{
  Muxer, Frame, Filling, Loop, end_round, count_cc, put_pes, put_payload, mux_round, pid_of,
}
use live.Ts.Demux.{read_packet}
use live.Ts.Front.{Ready, cc_of}
use live.Ts.Prefix.{has_pcr}
use live.Ts.Ready.{room, made-Ready}
use live.Ts.Filled.{put_payload-at, put_pes-first}

-- The variables of the loop before its first round and behind it.
abbrev pub at_start : Frame → Muxer → Loop
at_start f m = record {
  muxer = m;
  first = true;
  w_bytes = 0;
  pes_index = 0;
  pes_header_len = length f.pes;
  packet_bytes_len = length f.payload + length f.pes;
}

abbrev pub at_later : Frame → Muxer → ℕ → Loop
at_later f m w = record {
  muxer = m;
  first = false;
  w_bytes = w;
  pes_index = length f.pes;
  pes_header_len = 0;
  packet_bytes_len = length f.payload - w;
}

-- A round that writes a packet with these bytes of the frame, and has `w` bytes of the payload done.
pub record Sends (f : Frame) (first : Bool) (m : Muxer) (l : Loop) (chunk : List ℕ) (w : ℕ)
    : Type 0 where
  pub packet : List ℕ
  pub runs :
      mux_round f l ≡ some (at_later f (record (count_cc f m) { ts_packet = packet }) w, packet)
  pub size : length packet ≡ 188
  pub reads : read_packet (pid_of f) first (cc_of f (count_cc f m)) packet ≡ some chunk

Ready-eta :
    {id : ℕ} {first : Bool} {c : ℕ} {p : Filling × ℕ} {d : ℕ}
    → (r : Ready id first c p.0 d) → p.1 ≡ d
    → p ≡ (record { buf = r.pre ++ r.tail; i = length r.pre }, d)
Ready-eta r e =
    ap₂ (λ (q : Filling) (n : ℕ). (q, n))
      (ap₂ (λ (b : List ℕ) (n : ℕ). record { buf = b; i = n }) r.filled r.at_i) e

pub later_round :
    (f : Frame) (m : Muxer) (w : ℕ)
    → cc_of f (count_cc f m) < 16
    → length (count_cc f m).ts_packet ≡ 188
    → w < length f.payload
    → let d = min 184 (length f.payload - w) in
      Sends f false m (at_later f m w) (take d (drop w f.payload)) (w + d)
unfolding mux_round put_pes
later_round f m w hc ht hw =
    let len = length f.payload - w in
    let d = min 184 len in
    let m1 = count_cc f m in
    let (r, e) = made-Ready f false len m1 hc ht (λ h. absurd (cc h)) in
    let chunk = take d (drop w f.payload) in
    record {
      packet = r.pre ++ chunk;
      runs =
          ap (λ (q : Filling × ℕ). put_pes f (at_later f m w) q >>= put_payload f >>= end_round m1)
            (Ready-eta r e)
          ∙ ap (λ (o : Option (Loop × Filling)). o >>= end_round m1)
              (put_payload-at f m r.pre r.tail false w (length f.pes) 0 len d r.behind r.there
                (omega arith))
          ∙ ap
              (λ (n : ℕ). some (
                record {
                  muxer = record m1 { ts_packet = r.pre ++ chunk };
                  first = false;
                  w_bytes = w + d;
                  pes_index = length f.pes;
                  pes_header_len = 0;
                  packet_bytes_len = n;
                },
                r.pre ++ chunk,
              ))
              (omega arith);
      size = omega (
        arith,
        length-append r.pre chunk,
        r.there,
        length-take d (drop w f.payload),
        length-drop w f.payload,
      );
      reads =
          r.front chunk
            (omega (arith, r.there, length-take d (drop w f.payload), length-drop w f.payload));
    }

-- A frame that is small and needs a clock reference does not fit.
abbrev pub FitsPcr : Frame → Type 0
FitsPcr f = has_pcr f true ≡ true → 184 ≤ length f.payload + length f.pes

abbrev pub first_part : Frame → ℕ
first_part f = room f true (length f.payload + length f.pes) - length f.pes

pub first_room :
    (f : Frame)
    → length f.pes ≤ 176
    → FitsPcr f
    → (length f.pes ≤ room f true (length f.payload + length f.pes))
      × (room f true (length f.payload + length f.pes) ≤ length f.payload + length f.pes)
first_room f small fits = elim (Bool-cases (has_pcr f true)) [
  | inl h ↦ let enough = fits h in rw h (omega arith, omega arith)
  | inr h ↦ rw h (omega arith, omega arith)
]

pub first_round :
    (f : Frame) (m : Muxer)
    → cc_of f (count_cc f m) < 16
    → length (count_cc f m).ts_packet ≡ 188
    → 0 < length f.pes
    → length f.pes ≤ 176
    → FitsPcr f
    → Sends f true m (at_start f m) (f.pes ++ take (first_part f) f.payload) (first_part f)
unfolding mux_round
first_round f m hc ht pos small fits =
    let len = length f.payload + length f.pes in
    let d = room f true len in
    let n = first_part f in
    let m1 = count_cc f m in
    let (r, e) = made-Ready f true len m1 hc ht fits in
    let (low, high) = first_room f small fits in
    let chunk = take n f.payload in
    let pre = r.pre ++ f.pes in
    record {
      packet = pre ++ chunk;
      runs =
          ap (λ (q : Filling × ℕ). put_pes f (at_start f m) q >>= put_payload f >>= end_round m1)
            (Ready-eta r e)
          ∙ ap (λ (o : Option (Loop × Filling × ℕ)). o >>= put_payload f >>= end_round m1)
              (put_pes-first f m r.pre r.tail 0 len d r.behind r.there pos low)
          ∙ ap (λ (o : Option (Loop × Filling)). o >>= end_round m1)
              (put_payload-at f m pre (drop (length f.pes) r.tail) true 0 (length f.pes) 0
                (len - length f.pes) n (omega (arith, length-drop (length f.pes) r.tail, r.behind))
                (omega (arith, length-append r.pre f.pes, r.there)) (omega arith))
          ∙ ap₂
              (λ (w k : ℕ). some (
                record {
                  muxer = record m1 { ts_packet = pre ++ chunk };
                  first = false;
                  w_bytes = w;
                  pes_index = length f.pes;
                  pes_header_len = 0;
                  packet_bytes_len = k;
                },
                pre ++ chunk,
              ))
              (omega arith) (omega arith);
      size = omega (
        arith,
        length-append pre chunk,
        length-append r.pre f.pes,
        r.there,
        length-take n f.payload,
      );
      reads =
          ap (read_packet (pid_of f) true (cc_of f m1)) (append_assoc r.pre f.pes chunk)
          ∙ r.front (f.pes ++ chunk)
              (omega (arith, length-append f.pes chunk, r.there, length-take n f.payload));
    }
