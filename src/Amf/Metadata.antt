-- ===== src/Amf/Metadata.antt =====
-- protocol/amf/metadata.go: the metadata with and without its "@setDataFrame" in front.
use live.Base.{
  ℕ, ◌≡◌, refl, ap, true, false, List, [], ◌∷◌, ◌++◌, arith, if◌then◌else◌, ◌==◌, length, drop,
  drop-append,
}
use live.Amf.Value.{Value, string, same_key}
use live.Amf.Encoder.{encode}
use live.Amf.Decoder.{Decoded, done, failed, panic, stuck, decode_amf0}
use live.Amf.Wire.{plain, Fits, nonempty}
use live.Amf.RoundTrip.{decode-encode}

-- "@setDataFrame"
abbrev pub set_data_frame : List ℕ
set_data_frame = 64 ∷ 115 ∷ 101 ∷ 116 ∷ 68 ∷ 97 ∷ 116 ∷ 97 ∷ 70 ∷ 114 ∷ 97 ∷ 109 ∷ 101 ∷ []

unfoldable pub set_frame_frame : List ℕ
set_frame_frame = (encode (string set_data_frame)).out

-- The bytes, an error or a panic.
pub data Reformed : Type 0 where
  reformed : List ℕ → Reformed
  reform_error reform_panic : Reformed

unfoldable pub add_frame : List ℕ → Value → Reformed
add_frame p (string vv) =
    if same_key vv set_data_frame then reformed p else reformed (set_frame_frame ++ p)
add_frame p _ = reform_error

-- The string takes the bytes of its name and three more at least, so there is enough to cut.
unfoldable pub del_frame : List ℕ → Value → Reformed
del_frame p (string vv) =
    if same_key vv set_data_frame then reformed (drop (length set_frame_frame) p) else reformed p
del_frame p _ = reform_error

-- The first value. Where the decoder is out of fuel nothing is returned either, as for a panic.
unfoldable pub reform_with : (Value → Reformed) → Decoded Value → Reformed
reform_with f (done v r) = f v
reform_with f failed = reform_error
reform_with f panic = reform_panic
reform_with f stuck = reform_panic

unfoldable pub metadata_reform : (List ℕ → Decoded Value) → List ℕ → ℕ → Reformed
metadata_reform decode_amf3 p flag =
    if flag == 0
    then reform_with (add_frame p) (decode_amf0 decode_amf3 p)
    else (if flag == 3 then reform_with (del_frame p) (decode_amf0 decode_amf3 p) else reform_error)

same_key_refl : (k : List ℕ) → same_key k k ≡ true
unfolding same_key
same_key_refl [] = refl
same_key_refl (a ∷ k) = ground (arith, same_key_refl k)

framed :
    (amf3 : List ℕ → Decoded Value) (p : List ℕ)
    → decode_amf0 amf3 (set_frame_frame ++ p) ≡ done (string set_data_frame) p
unfolding set_frame_frame plain Fits nonempty
framed amf3 p = decode-encode amf3 (string set_data_frame) p refl (omega arith, refl)

-- Metadata that begins with another string gets its frame, once, and taking it off gives the
-- metadata back.
pub reform-add_del :
    (amf3 : List ℕ → Decoded Value) (p s rest : List ℕ)
    → decode_amf0 amf3 p ≡ done (string s) rest
    → same_key s set_data_frame ≡ false
    → (q : List ℕ) × (metadata_reform amf3 p 0 ≡ reformed q)
      × (metadata_reform amf3 q 0 ≡ reformed q)
      × (metadata_reform amf3 q 3 ≡ reformed p)
unfolding metadata_reform reform_with add_frame del_frame
reform-add_del amf3 p s rest e other = (
  set_frame_frame ++ p,
  rw (e, other) refl,
  rw (framed amf3 p, same_key_refl set_data_frame) refl,
  rw (framed amf3 p, same_key_refl set_data_frame)
      (ap reformed (drop-append (length set_frame_frame) set_frame_frame p refl)),
)
