-- ===== src/Flv/Written.antt =====
-- A reader of FLV tags, as the format lays them out, against the writer.
use live.Base.{
  ℕ, zero, suc, ◌+◌, ◌*◌, ◌/◌, ◌%◌, ◌^◌, ◌<◌, ◌≡◌, refl, ap, ap₂, bit_and-ones, true, ◌&&◌, Option,
  none, some, List, [], ◌∷◌, ◌++◌, append_assoc, arith, if◌then◌else◌, ◌==◌, leb, length, get_or,
  take, drop, take-append, drop-append, length-append,
}
use live.Pio.Writer.{put_u8, put_i24_be, put_i32_be, low_byte}
use live.Flv.Writer.{put_tag}

pub record FlvTag : Type 0 where
  pub kind : ℕ
  pub timestamp : ℕ
  pub body : List ℕ

abbrev pub number_at : ℕ → ℕ → List ℕ → ℕ
number_at zero i b = 0
number_at (suc n) i b = number_at n i b * 256 + get_or b (i + n) 0

-- The size of the tag follows it. The stream of a tag is always 0.
abbrev pub read_tag : List ℕ → Option (FlvTag × List ℕ)
read_tag b =
    let size = number_at 3 1 b in
    let behind = drop size (drop 11 b) in
    if leb (15 + size) (length b) && (number_at 3 8 b == 0 && number_at 4 0 behind == 11 + size)
    then some (
      record {
        kind = get_or b 0 0;
        timestamp = get_or b 7 0 * 2 ^ 24 + number_at 3 4 b;
        body = take size (drop 11 b);
      },
      drop 4 behind,
    )
    else none

abbrev size_bytes : ℕ → List ℕ
size_bytes n = (n / 16777216 % 256) ∷ (n / 65536 % 256) ∷ (n / 256 % 256) ∷ (n % 256) ∷ []

-- The bytes of a tag.
abbrev pub plain_tag : ℕ → ℕ → List ℕ → List ℕ
plain_tag ty t body =
    let n = length body in
    ty
    ∷ (n / 65536 % 256)
    ∷ (n / 256 % 256)
    ∷ (n % 256)
    ∷ (t / 65536 % 256)
    ∷ (t / 256 % 256)
    ∷ (t % 256)
    ∷ (t / 16777216 % 256)
    ∷ 0
    ∷ 0
    ∷ 0
    ∷ (body ++ size_bytes (n + 11))

cons : {x y : ℕ} {xs ys : List ℕ} → x ≡ y → xs ≡ ys → ◌≡◌ {A = List ℕ} (x ∷ xs) (y ∷ ys)
cons p q = ap₂ (λ (x : ℕ) (xs : List ℕ). x ∷ xs) p q

abbrev header : ℕ → ℕ → ℕ → List ℕ
header ty t n =
    ty
    ∷ (n / 65536 % 256)
    ∷ (n / 256 % 256)
    ∷ (n % 256)
    ∷ (t / 65536 % 256)
    ∷ (t / 256 % 256)
    ∷ (t % 256)
    ∷ (t / 16777216 % 256)
    ∷ 0
    ∷ 0
    ∷ 0
    ∷ []

-- The buffer behind a tag: its first four bytes have held the size, and the last three are never
-- written.
abbrev pub left_over : ℕ → ℕ → List ℕ
left_over t n =
    (n / 16777216 % 256)
    ∷ (n / 65536 % 256)
    ∷ (n / 256 % 256)
    ∷ (n % 256)
    ∷ (t / 65536 % 256)
    ∷ (t / 256 % 256)
    ∷ (t % 256)
    ∷ (t / 16777216 % 256)
    ∷ 0
    ∷ 0
    ∷ 0
    ∷ []

pub put_tag-plain :
    (ty t : ℕ) (body : List ℕ) (b0 b1 b2 b3 b4 b5 b6 b7 : ℕ)
    → ty < 256
    → t < 2 ^ 32
    → length body < 2 ^ 24
    → put_tag ty t body (b0 ∷ b1 ∷ b2 ∷ b3 ∷ b4 ∷ b5 ∷ b6 ∷ b7 ∷ 0 ∷ 0 ∷ 0 ∷ [])
      ≡ some (left_over t (length body + 11), plain_tag ty t body)
unfolding put_tag put_u8 put_i24_be put_i32_be low_byte
put_tag-plain ty t body b0 b1 b2 b3 b4 b5 b6 b7 hty ht hn =
    rw (bit_and-ones 24 t, bit_and-ones 8 (t / 2 ^ 24))
      (ap₂ (λ (a b : List ℕ). some (a, b)) buffer
        (ap₂ (λ (a b : List ℕ). a ++ (body ++ b)) front end))
  where
    n : ℕ
    n = length body

    buffer :
        (n + 11) % 2 ^ 32 / 2 ^ 24 % 256
          ∷ (n + 11) % 2 ^ 32 / 2 ^ 16 % 256
          ∷ (n + 11) % 2 ^ 32 / 2 ^ 8 % 256
          ∷ (n + 11) % 2 ^ 32 % 256
          ∷ t % 2 ^ 24 / 2 ^ 16 % 256
          ∷ t % 2 ^ 24 / 2 ^ 8 % 256
          ∷ t % 2 ^ 24 % 256
          ∷ t / 2 ^ 24 % 2 ^ 8 % 256
          ∷ 0
          ∷ 0
          ∷ 0
          ∷ []
        ≡ left_over t (n + 11)
    buffer = cons (omega arith) (
        cons (omega arith) (
          cons (omega arith) (
            cons (omega arith) (
              cons (omega arith)
                (cons (omega arith) (cons (omega arith) (cons (omega arith) refl)))))))

    front :
        ty % 256
          ∷ n % 2 ^ 32 / 2 ^ 16 % 256
          ∷ n % 2 ^ 32 / 2 ^ 8 % 256
          ∷ n % 2 ^ 32 % 256
          ∷ t % 2 ^ 24 / 2 ^ 16 % 256
          ∷ t % 2 ^ 24 / 2 ^ 8 % 256
          ∷ t % 2 ^ 24 % 256
          ∷ t / 2 ^ 24 % 2 ^ 8 % 256
          ∷ 0
          ∷ 0
          ∷ 0
          ∷ []
        ≡ header ty t n
    front = cons (omega arith) (
        cons (omega arith) (
          cons (omega arith) (
            cons (omega arith) (
              cons (omega arith)
                (cons (omega arith) (cons (omega arith) (cons (omega arith) refl)))))))

    end :
        (n + 11) % 2 ^ 32 / 2 ^ 24 % 256
          ∷ (n + 11) % 2 ^ 32 / 2 ^ 16 % 256
          ∷ (n + 11) % 2 ^ 32 / 2 ^ 8 % 256
          ∷ (n + 11) % 2 ^ 32 % 256
          ∷ []
        ≡ (n + 11) / 16777216 % 256
          ∷ (n + 11) / 65536 % 256
          ∷ (n + 11) / 256 % 256
          ∷ (n + 11) % 256
          ∷ []
    end = cons (omega arith) (cons (omega arith) (cons (omega arith) (cons (omega arith) refl)))

pub read_tag-plain :
    (ty t : ℕ) (body rest : List ℕ)
    → t < 2 ^ 32
    → length body < 2 ^ 24
    → read_tag (plain_tag ty t body ++ rest)
      ≡ some (record { kind = ty; timestamp = t; body = body }, rest)
read_tag-plain ty t body rest ht hn =
    rw (size_back, append_assoc body (size_bytes (length body + 11)) rest)
      (rw
        (
          take-append (length body) body (size_bytes (length body + 11) ++ rest) refl,
          drop-append (length body) body (size_bytes (length body + 11) ++ rest) refl,
          good,
        )
        (ap (λ (x : ℕ). some (record { kind = ty; timestamp = x; body = body }, rest))
          (omega arith)))
  where
    size_back :
        ((0 * 256 + length body / 65536 % 256) * 256 + length body / 256 % 256) * 256
          + length body % 256
        ≡ length body
    size_back = omega arith

    behind : List ℕ
    behind = size_bytes (length body + 11) ++ rest

    good :
        (leb (15 + length body) (
            suc
              (suc (suc (suc (suc (suc (suc (suc (suc (suc (suc (length (body ++ behind)))))))))))))
          && number_at 4 0 behind == 11 + length body)
        ≡ true
    good = ground (arith, length-append body behind)
