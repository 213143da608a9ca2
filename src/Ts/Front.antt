-- ===== src/Ts/Front.antt =====
-- The front of a packet: its header, and the adaptation field when it has one.
use live.Base.{
  ℕ, suc, ◌+◌, ◌*◌, ◌/◌, ◌%◌, ◌^◌, ◌≤◌, ◌<◌, ◌≡◌, refl, ap, ◌∙◌, bit_and, bit_or, holds_below_at,
  ==_iff, Bool, true, false, ◌&&◌, some, List, [], ◌∷◌, ◌++◌, arith, if◌then◌else◌, ◌==◌, length,
  drop, length-append, drop-append,
}
use live.Ts.Muxer.{Muxer, Frame, Filling, copy, copy_at, pid_of, ts_header}
use live.Ts.Demux.{read_packet, same}

abbrev pub cc_of : Frame → Muxer → ℕ
cc_of f m = if f.is_video then m.video_cc else m.audio_cc

-- `pre` is the front of a packet that the reader takes off.
abbrev pub IsFront : ℕ → Bool → ℕ → List ℕ → Type 0
IsFront id first cc pre =
    (body : List ℕ)
    → length pre + length body ≡ 188
    → read_packet id first cc (pre ++ body) ≡ some body

-- A packet that is filled up to `i`, with room for `room` bytes.
pub record Ready (id : ℕ) (first : Bool) (cc : ℕ) (p : Filling) (room : ℕ) : Type 0 where
  pub pre : List ℕ
  pub tail : List ℕ
  pub filled : p.buf ≡ pre ++ tail
  pub at_i : p.i ≡ length pre
  pub there : length pre + room ≡ 188
  pub behind : length tail ≡ room
  pub front : IsFront id first cc pre

pub copy-full : (src b : List ℕ) → length src ≤ length b → copy src b ≡ src ++ drop (length src) b
copy-full [] b h = refl
copy-full (x ∷ src) [] h = absurd (omega arith)
copy-full (x ∷ src) (y ∷ b) h = ap (◌∷◌ x) (copy-full src b (omega arith))

abbrev pub start_byte : Bool → ℕ
start_byte first = if first then 0x41 else 0x01

-- The header without its bit operations.
abbrev pub plain_header : Frame → Bool → ℕ → ℕ → List ℕ
plain_header f first control cc = 0x47 ∷ start_byte first ∷ (pid_of f % 256) ∷ (control + cc) ∷ []

pub control_byte : (cc : ℕ) → cc < 16 → bit_or 0x10 (bit_and cc 0x0f) ≡ 16 + cc
control_byte cc h =
    (==_iff _ _).0 (holds_below_at 16 (λ c. bit_or 0x10 (bit_and c 0x0f) == 16 + c) cc refl h)

pub control_byte_adaptation : (cc : ℕ) → cc < 16 → bit_or (16 + cc) 0x20 ≡ 48 + cc
control_byte_adaptation cc h =
    (==_iff _ _).0 (holds_below_at 16 (λ c. bit_or (16 + c) 0x20 == 48 + c) cc refl h)

pub ts_header-plain :
    (f : Frame) (first : Bool) (m : Muxer)
    → cc_of f m < 16
    → ts_header f first m ≡ plain_header f first 16 (cc_of f m)
unfolding ts_header
ts_header-plain f first m h =
    rw (control_byte (cc_of f m) h)
      (ap (λ (b : ℕ). 0x47 ∷ b ∷ (pid_of f % 256) ∷ (16 + cc_of f m) ∷ []) (start f.is_video first))
  where
    start :
        (v first : Bool)
        → (let high = (if v then 0x100 else 0x101) / 2 ^ 8 % 256 in
            if first then bit_or high 0x40 else high)
          ≡ start_byte first
    start true true = refl
    start true false = refl
    start false true = refl
    start false false = refl

abbrev pub id_of : Bool → ℕ
id_of v = if v then 0x100 else 0x101

pub accepted :
    (v first : Bool) (control c n : ℕ)
    → n ≡ 188
    → c < 16
    → control % 16 ≡ 0
    → (n == 188
        && (0x47 == 0x47
            && (same first (start_byte first / 64 % 2 == 1)
                && ((start_byte first % 32 * 256 + id_of v % 256) == id_of v
                    && (control + c) % 16 == c))))
      ≡ true
accepted true true control c n e h k = ground arith
accepted true false control c n e h k = ground arith
accepted false true control c n e h k = ground arith
accepted false false control c n e h k = ground arith

-- A front of four bytes.
pub IsFront-plain :
    (f : Frame) (first : Bool) (c : ℕ)
    → c < 16
    → IsFront (pid_of f) first c (plain_header f first 16 c)
IsFront-plain f first c h body len =
    rw
      (
        accepted f.is_video first 16 c (suc (suc (suc (suc (length body))))) (omega arith) h refl,
        none_there,
      )
      refl
  where
    none_there : ((16 + c) / 32 % 2 == 1) ≡ false
    none_there = ground arith

-- A front with an adaptation field.
pub IsFront-field :
    (f : Frame) (first : Bool) (c : ℕ) (field : List ℕ)
    → c < 16
    → length field < 256
    → IsFront (pid_of f) first c (plain_header f first 48 c ++ (length field ∷ field))
IsFront-field f first c field h small body len =
    rw
      (
        accepted f.is_video first 48 c (suc (suc (suc (suc (suc (length (field ++ body)))))))
            (omega (arith, length-append field body)) h refl,
        there,
      )
      (ap some (
        ap (λ (k : ℕ). drop k (plain_header f first 48 c ++ (length field ∷ (field ++ body))))
          (five (length field))
        ∙ drop-append (length field) field body refl))
  where
    there : ((48 + c) / 32 % 2 == 1) ≡ true
    there = ground arith

    five : (n : ℕ) → 5 + n ≡ suc (suc (suc (suc (suc n))))
    five n = omega arith

pub header_written :
    (h0 h1 h2 h3 : ℕ) (buf : List ℕ)
    → length buf ≡ 188
    → copy_at 0 (h0 ∷ h1 ∷ h2 ∷ h3 ∷ []) buf ≡ h0 ∷ h1 ∷ h2 ∷ h3 ∷ drop 4 buf
header_written h0 h1 h2 h3 (b0 ∷ b1 ∷ b2 ∷ b3 ∷ buf) h = refl
header_written h0 h1 h2 h3 buf h = absurd (omega arith)
