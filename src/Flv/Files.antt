-- ===== src/Flv/Files.antt =====
-- Whole FLV files and streams: packets one after the other, and the reader over them.
use live.Base.{
  ℕ, zero, suc, ◌+◌, ◌/◌, ◌%◌, ◌==◌, ◌^◌, ◌<◌, ◌≡◌, refl, ap, ap₂, ◌∙◌, Bool-cases, inl, inr,
  Option, none, some, List, [], ◌∷◌, ◌++◌, map, append_assoc, arith, length, replicate, ◌>>=◌,
}
use live.Av.{Packet}
use live.Amf.Value.{Value}
use live.Amf.Decoder.{Decoded}
use live.Amf.Metadata.{Reformed, reformed}
use live.Pio.Writer.{put_i32_be, low_byte}
use live.Flv.Writer.{
  RwBaser, FlvWriter, flv_header, new_flv_writer, rec_time_stamp, type_id, put_tag, Outcome, failed,
  panic, wrote, finish, write_data, data_of, set_data, write, SendEnd, closed, send_on, send_packet,
}
use live.Flv.Written.{FlvTag, read_tag, put_tag-plain, read_tag-plain, left_over, plain_tag}

-- The buffer of the header: the last bytes of it stay 0.
pub record IsClean (buf : List ℕ) : Type 0 where
  pub b0 : ℕ
  pub b1 : ℕ
  pub b2 : ℕ
  pub b3 : ℕ
  pub b4 : ℕ
  pub b5 : ℕ
  pub b6 : ℕ
  pub b7 : ℕ
  pub shape : buf ≡ b0 ∷ b1 ∷ b2 ∷ b3 ∷ b4 ∷ b5 ∷ b6 ∷ b7 ∷ 0 ∷ 0 ∷ 0 ∷ []

abbrev pub stamp : FlvWriter → Packet → ℕ
stamp w p = (p.time_stamp + w.base.base_timestamp) % 2 ^ 32

-- Packets in order; `none` if one of them is an error or a panic.
abbrev pub continue :
    (FlvWriter → Option (FlvWriter × List ℕ)) → Outcome → Option (FlvWriter × List ℕ)
continue next failed = none
continue next panic = none
continue next (wrote w out) = next w >>= (λ r. some (r.0, out ++ r.1))

abbrev pub read_tags : ℕ → List ℕ → Option (List FlvTag × List ℕ)
read_tags zero b = some ([], b)
read_tags (suc n) b = read_tag b >>= (λ r. read_tags n r.1 >>= (λ s. some (r.0 ∷ s.0, s.1)))

module _ (decode_amf3 : List ℕ → Decoded Value) where
  abbrev pub write_all : List Packet → FlvWriter → Option (FlvWriter × List ℕ)
  write_all [] w = some (w, [])
  write_all (p ∷ ps) w = continue (write_all ps) (write decode_amf3 w p).0

  -- The tag that a packet should be, with the time from the base of the writer.
  abbrev pub tag_of : ℕ → Packet → List ℕ → FlvTag
  tag_of base p body = record {
    kind = type_id p;
    timestamp = (p.time_stamp + base) % 2 ^ 32;
    body = body;
  }

  -- The bodies of the packets: metadata without its frame, which has to be well-formed, the others as they are.
  pub data Bodies (base : ℕ) : List Packet → List FlvTag → Type 0 where
    no_bodies : Bodies base [] []
    body :
        (p : Packet) (b : List ℕ) (ps : List Packet) (tags : List FlvTag)
        → data_of decode_amf3 p ≡ reformed b
        → length b < 2 ^ 24
        → Bodies base ps tags
        → Bodies base (p ∷ ps) (tag_of base p b ∷ tags)

  -- A packet with this body gives a tag, and leaves a writer for the next one.
  pub record Puts (w : FlvWriter) (p : Packet) (b : List ℕ) : Type 0 where
    pub writer : FlvWriter
    pub runs : (write decode_amf3 w p).0 ≡ wrote writer (plain_tag (type_id p) (stamp w p) b)
    pub base : writer.base.base_timestamp ≡ w.base.base_timestamp
    pub still : IsClean writer.buf

  rec_base :
      (t ty : ℕ) (rw' : RwBaser) → (rec_time_stamp t ty rw').base_timestamp ≡ rw'.base_timestamp
  unfolding rec_time_stamp
  rec_base t ty rw' = elim (Bool-cases (ty == 9)) [
    | inl v ↦ rw v refl
    | inr o ↦ elim (Bool-cases (ty == 8)) [ inl a ↦ rw (o, a) refl | inr n ↦ rw (o, n) refl ]
  ]

  type_small : (p : Packet) → type_id p < 256
  unfolding type_id
  type_small p = elim (Bool-cases p.is_video) [
    | inl v ↦ rw v (omega arith)
    | inr o ↦ elim (Bool-cases p.is_metadata) [
      | inl m ↦ rw (o, m) (omega arith)
      | inr n ↦ rw (o, n) (omega arith)
    ]
  ]

  left_over-IsClean : (t n : ℕ) → IsClean (left_over t n)
  left_over-IsClean t n = record {
    b0 = n / 16777216 % 256;
    b1 = n / 65536 % 256;
    b2 = n / 256 % 256;
    b3 = n % 256;
    b4 = t / 65536 % 256;
    b5 = t / 256 % 256;
    b6 = t % 256;
    b7 = t / 16777216 % 256;
    shape = refl;
  }

  write-Puts :
      (w : FlvWriter) (p : Packet) (b : List ℕ)
      → IsClean w.buf
      → data_of decode_amf3 p ≡ reformed b
      → length b < 2 ^ 24
      → Puts w p b
  unfolding write write_data finish
  write-Puts w p b c e small = record {
    writer = record {
      base = rec_time_stamp (stamp w p) (type_id p) w.base;
      buf = left_over (stamp w p) (length b + 11);
    };
    runs =
        ap (write_data w p) e
        ∙ ap (finish (rec_time_stamp (stamp w p) (type_id p) w.base)) (
            ap (put_tag (type_id p) (stamp w p) b) c.shape
            ∙ put_tag-plain (type_id p) (stamp w p) b c.b0 c.b1 c.b2 c.b3 c.b4 c.b5 c.b6 c.b7
                (type_small p) (omega arith) small);
    base = rec_base (stamp w p) (type_id p) w.base;
    still = left_over-IsClean (stamp w p) (length b + 11);
  }

  -- What is written for the packets, and the reader on it.
  pub record Reads (ps : List Packet) (w : FlvWriter) (tags : List FlvTag) (rest : List ℕ)
      : Type 0 where
    pub writer : FlvWriter
    pub out : List ℕ
    pub runs : write_all ps w ≡ some (writer, out)
    pub sends : send_packet decode_amf3 ps w ≡ (out, closed)
    pub reads : read_tags (length ps) (out ++ rest) ≡ some (tags, rest)
    pub still : IsClean writer.buf
    pub left :
        map (λ (p : Packet). (set_data p (data_of decode_amf3 p)).payload) ps
        ≡ map (λ (t : FlvTag). t.body) tags

  data_left :
      (p : Packet) (b : List ℕ)
      → data_of decode_amf3 p ≡ reformed b
      → (set_data p (data_of decode_amf3 p)).payload ≡ b
  unfolding set_data
  data_left p b e = ap (λ (o : Reformed). (set_data p o).payload) e

  write_from :
      (base : ℕ) (w : FlvWriter) (ps : List Packet) (tags : List FlvTag) (rest : List ℕ)
      → w.base.base_timestamp ≡ base
      → IsClean w.buf
      → Bodies base ps tags
      → Reads ps w tags rest
  unfolding send_packet send_on
  write_from base w _ _ rest same c no_bodies = record {
    writer = w;
    out = [];
    runs = refl;
    sends = refl;
    reads = refl;
    still = c;
    left = refl;
  }
  write_from base w _ _ rest same c (body p b ps tags e small bs) =
      let h = write-Puts w p b c e small in
      let r = write_from base h.writer ps tags rest (h.base ∙ same) h.still bs in
      let first = plain_tag (type_id p) (stamp w p) b in
      record {
        writer = r.writer;
        out = first ++ r.out;
        runs =
            ap (continue (write_all ps)) h.runs
            ∙ ap (λ (o : Option (FlvWriter × List ℕ)). o >>= (λ s. some (s.0, first ++ s.1)))
                r.runs;
        sends =
            ap (send_on (send_packet decode_amf3 ps)) h.runs
            ∙ ap (λ (s : List ℕ × SendEnd). (first ++ s.0, s.1)) r.sends;
        reads =
            ap (read_tags (suc (length ps))) (append_assoc first r.out rest)
            ∙ ap
                (λ (o : Option (FlvTag × List ℕ)).
                  o >>= (λ s. read_tags (length ps) s.1 >>= (λ q. some (s.0 ∷ q.0, q.1))))
                (read_tag-plain (type_id p) (stamp w p) b (r.out ++ rest) (omega arith) small)
            ∙ ap₂
                (λ (k : ℕ) (o : Option (List FlvTag × List ℕ)).
                  o >>= (λ q. some (tag_of k p b ∷ q.0, q.1)))
                same r.reads;
        still = r.still;
        left = ap₂ (λ (x : List ℕ) (xs : List (List ℕ)). x ∷ xs) (data_left p b e) r.left;
      }

  -- Packets whose data has less than 2^24 bytes, behind a buffer that is as the writer leaves it, are
  -- written as tags of their kind, with all 32 bits of their times, their data and the size behind
  -- it, which a reader gets back in order, whatever follows; and the buffer is left the same way.
  -- SendPacket writes the same for them, until the queue is closed. The packets keep the bodies that
  -- were written as their data.
  pub write_all-read :
      (w : FlvWriter) (ps : List Packet) (tags : List FlvTag) (rest : List ℕ)
      → IsClean w.buf
      → Bodies w.base.base_timestamp ps tags
      → Reads ps w tags rest
  write_all-read w ps tags rest c bs = write_from w.base.base_timestamp w ps tags rest refl c bs

-- The writer that is made has such a buffer, and begins the file with the header of the format and the
-- size 0.
pub new_flv_writer-IsClean :
    (w : FlvWriter) × (new_flv_writer ≡ some (w, flv_header ++ (0 ∷ 0 ∷ 0 ∷ 0 ∷ [])))
    × IsClean w.buf
unfolding new_flv_writer put_i32_be low_byte
new_flv_writer-IsClean = (
  record {
    base = record { base_timestamp = 0; last_video_timestamp = 0; last_audio_timestamp = 0 };
    buf = replicate 11 0;
  },
  refl,
  record { b0 = 0; b1 = 0; b2 = 0; b3 = 0; b4 = 0; b5 = 0; b6 = 0; b7 = 0; shape = refl },
)
