-- ===== src/Rtmp/ReadWriter/Laws.antt =====
-- What the integer readers and writers of a connection do while it works.
use live.Base.{
  ℕ, zero, suc, ◌+◌, ◌-◌, ◌*◌, ◌/◌, ◌%◌, ◌^◌, ◌≤◌, ◌<◌, ◌≡◌, sym, ap, ◌∙◌, none, List, [], ◌∷◌,
  ◌++◌, arith, bit_and, bit_and-ones, mod-mul, append-nil, append_assoc, length, length-append,
}
use native.Mathlib.Nat.{pow-suc, mul_comm, mod-lt}
use native.Mathlib.Numerals.{add-one}
use live.Pio.Format.{bytes_be, pow256_pos}
use live.Rtmp.ReadWriter.{
  ReadWriter, read_be_loop, read_le_loop, read_uint_be, read_uint_le, write_byte, write_be_loop,
  write_le_loop, write_uint_be, write_uint_le,
}

-- The `n` low digits of `v`, lowest first.
abbrev pub bytes_le : ℕ → ℕ → List ℕ
bytes_le zero v = []
bytes_le (suc n) v = (v % 256) ∷ bytes_le n (v / 256)

byte_mask : (v : ℕ) → bit_and (v % 256) 0xff ≡ v % 256
byte_mask v = bit_and-ones 8 (v % 256) ∙ omega arith

-- The state after the bytes `bs` have been written.
abbrev pub emit : ReadWriter → List ℕ → ReadWriter
emit io bs = record io { out = io.out ++ bs; room = io.room - length bs }

-- `n` more bytes can be written.
pub record CanWrite (io : ReadWriter) (n : ℕ) : Type 0 where
  pub working : io.write_error ≡ none
  pub fits : n ≤ io.room

pub emit-nil : (io : ReadWriter) → emit io [] ≡ io
emit-nil io = ground (arith, append-nil io.out)

pub emit-emit : (io : ReadWriter) (p q : List ℕ) → emit (emit io p) q ≡ emit io (p ++ q)
emit-emit io p q = ground (arith, append_assoc io.out p q, length-append p q)

write_byte-emit : (io : ReadWriter) (b : ℕ) → 0 < io.room → write_byte io b ≡ emit io (b ∷ [])
unfolding write_byte
write_byte-emit io b h = ground arith

write_be_loop-emit :
    (k v : ℕ) (io : ReadWriter) → CanWrite io k → write_be_loop k v io ≡ emit io (bytes_be k v)
unfolding write_be_loop
write_be_loop-emit zero v io c = sym (emit-nil io)
write_be_loop-emit (suc k) v io c = ground (
  arith,
  byte_mask (v / 256 ^ k),
  write_byte-emit io (v / 256 ^ k % 256),
  write_be_loop-emit k v (emit io ((v / 256 ^ k % 256) ∷ [])),
  emit-emit io ((v / 256 ^ k % 256) ∷ []) (bytes_be k v),
)

write_le_loop-emit :
    (k v : ℕ) (io : ReadWriter) → CanWrite io k → write_le_loop k v io ≡ emit io (bytes_le k v)
unfolding write_le_loop
write_le_loop-emit zero v io c = sym (emit-nil io)
write_le_loop-emit (suc k) v io c = ground (
  arith,
  byte_mask v,
  write_byte-emit io (v % 256),
  write_le_loop-emit k (v / 256) (emit io ((v % 256) ∷ [])),
  emit-emit io ((v % 256) ∷ []) (bytes_le k (v / 256)),
)

pub write_uint_be-emit :
    (io : ReadWriter) (v n : ℕ) → CanWrite io n → write_uint_be io v n ≡ emit io (bytes_be n v)
unfolding write_uint_be
write_uint_be-emit io v n c = ground (arith, write_be_loop-emit n v io c)

pub write_uint_le-emit :
    (io : ReadWriter) (v n : ℕ) → CanWrite io n → write_uint_le io v n ≡ emit io (bytes_le n v)
unfolding write_uint_le
write_uint_le-emit io v n c = ground (arith, write_le_loop-emit n v io c)

pow256-le : (n : ℕ) → n ≤ 4 → 256 ^ n ≤ 2 ^ 32
pow256-le zero h = omega arith
pow256-le (suc zero) h = omega arith
pow256-le (suc (suc zero)) h = omega arith
pow256-le (suc (suc (suc zero))) h = omega arith
pow256-le (suc (suc (suc (suc zero)))) h = omega arith
pow256-le (suc (suc (suc (suc (suc n))))) h = absurd (omega arith)

le-mul_pos : (x p : ℕ) → 0 < p → x ≤ x * p
le-mul_pos x p h = grind arith

read_be_loop-bytes :
    (k acc v : ℕ) (rest : List ℕ) (io : ReadWriter)
    → acc * 256 ^ k + v % 256 ^ k < 2 ^ 32
    → read_be_loop k acc (bytes_be k v ++ rest) io
      ≡ (acc * 256 ^ k + v % 256 ^ k, record io { input = rest })
unfolding read_be_loop
read_be_loop-bytes zero acc v rest io h = ground arith
read_be_loop-bytes (suc k) acc v rest io h =
    ap (λ (t : ℕ). read_be_loop k t (bytes_be k v ++ rest) io) no_wrap
    ∙ read_be_loop-bytes k (acc * 256 + digit) v rest io (omega (arith, whole))
    ∙ ap (λ (t : ℕ). (t, record io { input = rest })) (sym whole)
  where
    digit : ℕ
    digit = v / 256 ^ k % 256

    whole : acc * 256 ^ suc k + v % 256 ^ suc k ≡ (acc * 256 + digit) * 256 ^ k + v % 256 ^ k
    whole = rw pow-suc (omega (arith, mod-mul v (256 ^ k) 256 (pow256_pos k) (omega arith)))

    bound : acc * 256 + digit ≤ (acc * 256 + digit) * 256 ^ k
    bound = le-mul_pos (acc * 256 + digit) (256 ^ k) (pow256_pos k)

    no_wrap : (acc * 256 % 2 ^ 32 + digit) % 2 ^ 32 ≡ acc * 256 + digit
    no_wrap = omega (arith, whole, bound)

read_le_loop-bytes :
    (k i ret v : ℕ) (rest : List ℕ) (io : ReadWriter)
    → i + k ≤ 4
    → ret < 256 ^ i
    → read_le_loop k i ret (bytes_le k v ++ rest) io
      ≡ (ret + v % 256 ^ k * 256 ^ i, record io { input = rest })
unfolding read_le_loop
read_le_loop-bytes zero i ret v rest io hk hr = ground arith
read_le_loop-bytes (suc k) i ret v rest io hk hr =
    ap (λ (t : ℕ). read_le_loop k (i + 1) t (bytes_le k (v / 256) ++ rest) io) no_wrap
    ∙ read_le_loop-bytes k (i + 1) (ret + v % 256 * 256 ^ i) (v / 256) rest io (omega arith) below
    ∙ ap (λ (t : ℕ). (t, record io { input = rest })) whole
  where
    next : 256 ^ (i + 1) ≡ 256 ^ i * 256
    next = rw add-one (pow-suc 256 i)

    below : ret + v % 256 * 256 ^ i < 256 ^ (i + 1)
    below = rw next (grind arith)

    small : 256 ^ (i + 1) ≤ 2 ^ 32
    small = pow256-le (i + 1) (omega arith)

    no_wrap : (ret + v % 256 * 256 ^ i % 2 ^ 32) % 2 ^ 32 ≡ ret + v % 256 * 256 ^ i
    no_wrap = omega (arith, below, small)

    whole :
        ret + v % 256 * 256 ^ i + v / 256 % 256 ^ k * 256 ^ (i + 1)
        ≡ ret + v % 256 ^ suc k * 256 ^ i
    whole =
        rw
          (
            next,
            pow-suc,
            mul_comm (256 ^ k) 256,
            mod-mul v 256 (256 ^ k) (omega arith) (pow256_pos k),
          )
          (omega arith)

pub read_uint_be-bytes :
    (n v : ℕ) (rest : List ℕ) (io : ReadWriter)
    → n ≤ 4
    → io.read_error ≡ none
    → io.input ≡ bytes_be n v ++ rest
    → read_uint_be io n ≡ (v % 256 ^ n, record io { input = rest })
unfolding read_uint_be
read_uint_be-bytes n v rest io hn he hi =
    ground (arith, mod-lt v (pow256_pos n), pow256-le n hn, read_be_loop-bytes n 0 v rest io)

pub read_uint_le-bytes :
    (n v : ℕ) (rest : List ℕ) (io : ReadWriter)
    → n ≤ 4
    → io.read_error ≡ none
    → io.input ≡ bytes_le n v ++ rest
    → read_uint_le io n ≡ (v % 256 ^ n, record io { input = rest })
unfolding read_uint_le
read_uint_le-bytes n v rest io hn he hi =
    ground (arith, read_le_loop-bytes n 0 0 v rest io (omega arith) (omega arith))
