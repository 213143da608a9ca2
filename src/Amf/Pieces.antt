-- ===== src/Amf/Pieces.antt =====
-- The AMF0 readers on the pieces of the format.
use live.Base.{
  ℕ, suc, ◌^◌, ◌<◌, ◌≡◌, refl, ap, ◌∙◌, Bool, true, false, Bool-cases, inl, inr, ◌||◌, leb, some,
  List, [], ◌∷◌, ◌++◌, append_assoc, arith, length, take-append, drop-append, length-append,
}
use live.Pio.Format.{digits_be, bytes_be, digits_be-bytes_be, length-bytes_be}
use live.Amf.Value.{
  Value, null, boolean, number, string, object, array, typed_object, Values, no_values, value,
  Members, no_members, member, same_key, put, has_key, snoc, append,
}
use live.Amf.Decoder.{done, read_bytes, read_be, assert_marker, decode_string, decode_long_string}
use live.Amf.Wire.{wire_string, wire, wire_values, nonempty, any_value, mod_small}

pub read_be-bytes :
    (n v : ℕ) (rest : List ℕ) → v < 256 ^ n → read_be n (bytes_be n v ++ rest) ≡ done v rest
unfolding read_be
read_be-bytes n v rest h =
    rw (read_be, spelled)
      (ap (λ (r : List ℕ). done v r) (drop-append n (bytes_be n v) rest (length-bytes_be n v)))
  where
    spelled : digits_be n 0 (bytes_be n v ++ rest) ≡ some v
    spelled = digits_be-bytes_be n 0 v rest ∙ ap some (omega (arith, mod_small v (256 ^ n) h))

read_bytes-append :
    (s rest : List ℕ)
    → (nonempty s || nonempty rest) ≡ true
    → read_bytes (length s) (s ++ rest) ≡ done s rest
unfolding read_bytes nonempty
read_bytes-append [] [] h = absurd (cc h)
read_bytes-append [] (b ∷ rest) h = ground arith
read_bytes-append (a ∷ s) rest h =
    rw (fits, take-append (length s) s rest refl, drop-append (length s) s rest refl) refl
  where
    fits : leb (suc (length s)) (suc (length (s ++ rest))) ≡ true
    fits = ground (arith, length-append s rest)

pub decode_string-wire :
    (s rest : List ℕ)
    → length s < 2 ^ 16
    → (nonempty s || nonempty rest) ≡ true
    → decode_string false (wire_string s ++ rest) ≡ done s rest
unfolding decode_string wire_string assert_marker
decode_string-wire s rest h more =
    rw
      (
        append_assoc (bytes_be 2 (length s)) s rest,
        read_be-bytes 2 (length s) (s ++ rest) (omega arith),
      )
      (read_bytes-append s rest more)

pub decode_long_string-wire :
    (s rest : List ℕ)
    → length s < 2 ^ 32
    → (nonempty s || nonempty rest) ≡ true
    → decode_long_string false ((bytes_be 4 (length s) ++ s) ++ rest) ≡ done s rest
unfolding decode_long_string assert_marker
decode_long_string-wire s rest h more =
    rw
      (
        append_assoc (bytes_be 4 (length s)) s rest,
        read_be-bytes 4 (length s) (s ++ rest) (omega arith),
      )
      (read_bytes-append s rest more)

pub put-snoc :
    (k : List ℕ) (v : Value) (ms : Members) → has_key k ms ≡ false → put k v ms ≡ snoc ms k v
unfolding put has_key snoc
put-snoc k v no_members h = refl
put-snoc k v (member l w ms) h = elim (Bool-cases (same_key l k)) [
  | inl e ↦ absurd (cc (rw e at h))
  | inr e ↦ rw e (ap (member l w) (put-snoc k v ms (rw e at h)))
]

pub append-snoc :
    (before : Members) (k : List ℕ) (v : Value) (ms : Members)
    → append (snoc before k v) ms ≡ append before (member k v ms)
unfolding append snoc
append-snoc no_members k v ms = refl
append-snoc (member l w before) k v ms = ap (member l w) (append-snoc before k v ms)

pub append-no_members : (ms : Members) → append ms no_members ≡ ms
unfolding append
append-no_members no_members = refl
append-no_members (member l w ms) = ap (member l w) (append-no_members ms)

pub append-nothing : (ms : Members) → append no_members ms ≡ ms
unfolding append
append-nothing ms = refl

pub end_key : (rest : List ℕ) → decode_string false (0 ∷ 0 ∷ 0x09 ∷ rest) ≡ done [] (0x09 ∷ rest)
unfolding wire_string nonempty
end_key rest = decode_string-wire [] (0x09 ∷ rest) (omega arith) refl

pub or-true : (a b : Bool) → b ≡ true → (a || b) ≡ true
or-true true b h = refl
or-true false b h = h

pub nonempty-append : (a : List ℕ) (b : ℕ) (c : List ℕ) → nonempty (a ++ (b ∷ c)) ≡ true
unfolding nonempty
nonempty-append [] b c = refl
nonempty-append (x ∷ a) b c = refl

nonempty-wire : (v : Value) (rest : List ℕ) → nonempty (wire v ++ rest) ≡ true
unfolding nonempty wire
nonempty-wire null rest = refl
nonempty-wire (boolean b) rest = refl
nonempty-wire (number x) rest = refl
nonempty-wire (string s) rest = elim (Bool-cases (leb (length s) 65535)) [
  | inl e ↦ rw e refl
  | inr e ↦ rw e refl
]
nonempty-wire (object ms) rest = refl
nonempty-wire (array vs) rest = refl
nonempty-wire (typed_object t ms) rest = refl

pub nonempty-values :
    (vs : Values) (rest : List ℕ)
    → nonempty (wire_values vs ++ rest) ≡ (any_value vs || nonempty rest)
unfolding wire any_value
nonempty-values no_values rest = refl
nonempty-values (value v vs) rest =
    rw (append_assoc (wire v) (wire_values vs) rest) (nonempty-wire v (wire_values vs ++ rest))
