-- ===== src/H264/Format.antt =====
-- Pictures of length-prefixed NALUs, and the Annex-B byte stream of one, described without the loop.
use live.Base.{
  ℕ, ◌%◌, ◌^◌, ◌<◌, ◌≡◌, ◌⊎◌, Bool, false, ◌||◌, Option, none, some, List, [], ◌∷◌, ◌++◌,
  if◌then◌else◌, ◌==◌, length, get_or,
}
use live.Pio.Format.{bytes_be}
use live.H264.{Error, data_size_not_match, nalu_body_len_error, start_code}

-- The NALUs with their lengths in front, and what follows them.
abbrev pub avcc : List (List ℕ) → List ℕ → List ℕ
avcc [] tail = tail
avcc (x ∷ xs) tail = bytes_be 4 (length x) ++ (x ++ avcc xs tail)

abbrev pub Fits : List ℕ → Type 0
Fits x = (0 < length x) × (length x < 2 ^ 32)

-- What the loop stops at, and with which error.
pub data Ends (tail : List ℕ) (e : Option Error) : Type 0 where
  complete : tail ≡ [] → e ≡ none → Ends tail e
  short : 0 < length tail → length tail < 4 → e ≡ some data_size_not_match → Ends tail e
  broken :
      (n : ℕ) (rest : List ℕ)
      → n < 2 ^ 32
      → (n ≡ 0) ⊎ (length rest < n)
      → tail ≡ bytes_be 4 n ++ rest
      → e ≡ some nalu_body_len_error
      → Ends tail e

abbrev pub kind : List ℕ → ℕ
kind nalu = get_or nalu 0 0 % 32

abbrev pub is_idr : List ℕ → Bool
is_idr nalu = kind nalu == 5

-- IDR and other slices, and supplemental information.
abbrev pub is_picture : List ℕ → Bool
is_picture nalu = kind nalu == 5 || (kind nalu == 1 || kind nalu == 6)

abbrev pub is_parameter : List ℕ → Bool
is_parameter nalu = kind nalu == 7 || kind nalu == 8

-- The chosen NALUs, each behind a start code.
abbrev pub framed : (List ℕ → Bool) → List (List ℕ) → List ℕ
framed p [] = []
framed p (x ∷ xs) = if p x then start_code ++ (x ++ framed p xs) else framed p xs

abbrev pub has_any : (List ℕ → Bool) → List (List ℕ) → Bool
has_any p [] = false
has_any p (x ∷ xs) = p x || has_any p xs

abbrev pub before_idr : List (List ℕ) → List (List ℕ)
before_idr [] = []
before_idr (x ∷ xs) = if is_idr x then [] else x ∷ before_idr xs

abbrev pub from_idr : List (List ℕ) → List (List ℕ)
from_idr [] = []
from_idr (x ∷ xs) = if is_idr x then x ∷ xs else from_idr xs

-- The parameter sets go in front of the first IDR slice, if there is one.
abbrev pub with_sets : List ℕ → List (List ℕ) → List ℕ
with_sets sets [] = []
with_sets sets (x ∷ xs) = sets ++ framed is_picture (x ∷ xs)

-- The parameter sets that precede the first IDR slice in the picture, or else the configured ones.
abbrev pub sets_of : List ℕ → List (List ℕ) → List ℕ
sets_of info nalus =
    if has_any is_parameter (before_idr nalus) then framed is_parameter (before_idr nalus) else info

abbrev pub byte_stream : List ℕ → List (List ℕ) → List ℕ
byte_stream info nalus =
    framed is_picture (before_idr nalus) ++ with_sets (sets_of info nalus) (from_idr nalus)
