-- ===== src/Rtmp/ReadWriter/Sticky.antt =====
-- What every read keeps of a connection: bytes are only taken, and an error stays.
use live.Base.{
  ℕ, zero, suc, ◌+◌, ◌*◌, ◌%◌, ◌^◌, ◌≤◌, ◌≡◌, refl, Option-cases, none, inl, inr, List, [], ◌∷◌,
  arith, length, length-drop,
}
use live.Rtmp.ReadWriter.{
  ReadWriter, read_be_loop, read_le_loop, read_uint_be, read_uint_le, read, discard,
}

pub record Reads (io io' : ReadWriter) : Type 0 where
  pub taken : length io'.input ≤ length io.input
  pub sticky : io'.read_error ≡ none → io.read_error ≡ none

pub Reads-same : {io : ReadWriter} → Reads io io
Reads-same = record { taken = omega arith; sticky = λ e. e }

pub Reads-then : {io io1 io2 : ReadWriter} → Reads io io1 → Reads io1 io2 → Reads io io2
Reads-then r s = record {
  taken = omega (arith, r.taken, s.taken);
  sticky = λ e. r.sticky (s.sticky e);
}

be_loop_taken :
    (n ret : ℕ) (input : List ℕ) (io : ReadWriter)
    → length (read_be_loop n ret input io).1.input ≤ length input
unfolding read_be_loop
be_loop_taken zero ret input io = omega arith
be_loop_taken (suc n) ret [] io = omega arith
be_loop_taken (suc n) ret (b ∷ input) io =
    omega (arith, be_loop_taken n ((ret * 256 % 2 ^ 32 + b) % 2 ^ 32) input io)

le_loop_taken :
    (n i ret : ℕ) (input : List ℕ) (io : ReadWriter)
    → length (read_le_loop n i ret input io).1.input ≤ length input
unfolding read_le_loop
le_loop_taken zero i ret input io = omega arith
le_loop_taken (suc n) i ret [] io = omega arith
le_loop_taken (suc n) i ret (b ∷ input) io =
    omega (arith, le_loop_taken n (i + 1) ((ret + b * 256 ^ i % 2 ^ 32) % 2 ^ 32) input io)

pub read_uint_be-Reads : (io : ReadWriter) (n : ℕ) → Reads io (read_uint_be io n).1
unfolding read_uint_be
read_uint_be-Reads io n = elim (Option-cases io.read_error) [
  | inl e ↦ record { taken = rw (read_uint_be, e) (be_loop_taken n 0 io.input io); sticky = λ _. e }
  | inr (x, e) ↦ record { taken = ground arith; sticky = ground arith }
]

pub read_uint_le-Reads : (io : ReadWriter) (n : ℕ) → Reads io (read_uint_le io n).1
unfolding read_uint_le
read_uint_le-Reads io n = elim (Option-cases io.read_error) [
  | inl e ↦ record {
    taken = rw (read_uint_le, e) (le_loop_taken n 0 0 io.input io);
    sticky = λ _. e;
  }
  | inr (x, e) ↦ record { taken = ground arith; sticky = ground arith }
]

byte_taken :
    (io : ReadWriter) (input : List ℕ)
    → io.input ≡ input
    → (read_uint_be io 1).1.read_error ≡ none
    → length (read_uint_be io 1).1.input + 1 ≤ length io.input
unfolding read_uint_be read_be_loop
byte_taken io [] hi h = ground arith
byte_taken io (b ∷ input) hi h = ground arith

-- A byte that is read without an error is taken.
pub read_byte_taken :
    (io : ReadWriter)
    → (read_uint_be io 1).1.read_error ≡ none
    → length (read_uint_be io 1).1.input + 1 ≤ length io.input
unfolding read_uint_be read_be_loop
read_byte_taken io h = byte_taken io io.input refl h

pub read-Reads : (io : ReadWriter) (n : ℕ) → Reads io (read io n).2
unfolding read
read-Reads io n = record { taken = ground (arith, length-drop n io.input); sticky = ground arith }

pub discard-Reads : (io : ReadWriter) (n : ℕ) → Reads io (discard io n)
unfolding discard
discard-Reads io n = record { taken = omega (arith, length-drop n io.input); sticky = λ e. e }

-- A read that returns no error leaves none.
pub read-none : (io : ReadWriter) (n : ℕ) → (read io n).1 ≡ none → (read io n).2.read_error ≡ none
unfolding read
read-none io n h = ground arith
