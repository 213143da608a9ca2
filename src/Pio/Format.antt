-- ===== src/Pio/Format.antt =====
-- The byte order that utils/pio stands for, described without its shifts: big-endian numbers as
-- digits to the base 256.
use live.Base.{
  ℕ, zero, suc, ◌+◌, ◌*◌, ◌/◌, ◌%◌, ◌^◌, ◌<◌, ◌≡◌, refl, ap, ◌∙◌, Option, none, some, List, [], ◌∷◌,
  ◌++◌, arith, leb, if◌then◌else◌, length, drop, mod-mul,
}
use native.Mathlib.Nat.{pow-suc}

-- The number that the next `n` bytes spell, after the digits read so far; `none` if there are fewer.
abbrev pub digits_be : ℕ → ℕ → List ℕ → Option ℕ
digits_be zero acc b = some acc
digits_be (suc n) acc [] = none
digits_be (suc n) acc (x ∷ b) = digits_be n (acc * 256 + x) b

-- The `n` low digits of `v`.
abbrev pub bytes_be : ℕ → ℕ → List ℕ
bytes_be zero v = []
bytes_be (suc n) v = (v / 256 ^ n % 256) ∷ bytes_be n v

-- A slice with its first bytes replaced; `none` if it is shorter.
abbrev pub overwrite : List ℕ → List ℕ → Option (List ℕ)
overwrite front b =
    if leb (length front) (length b) then some (front ++ drop (length front) b) else none

pub pow256_pos : (n : ℕ) → 0 < 256 ^ n
pow256_pos zero = omega arith
pow256_pos (suc n) = omega (arith, pow-suc 256 n, pow256_pos n)

pub digits_be-bytes_be :
    (n acc v : ℕ) (rest : List ℕ)
    → digits_be n acc (bytes_be n v ++ rest) ≡ some (acc * 256 ^ n + v % 256 ^ n)
digits_be-bytes_be zero acc v rest = ap some (omega arith)
digits_be-bytes_be (suc n) acc v rest =
    digits_be-bytes_be n (acc * 256 + v / 256 ^ n % 256) v rest
    ∙ ap some (rw pow-suc (omega (arith, mod-mul v (256 ^ n) 256 (pow256_pos n) (omega arith))))

pub length-bytes_be : (n v : ℕ) → length (bytes_be n v) ≡ n
length-bytes_be zero v = refl
length-bytes_be (suc n) v = ap suc (length-bytes_be n v)
