-- ===== src/Cache/Gop.antt =====
-- protocol/rtmp/cache/gop.go: the last groups of pictures, in a ring of arrays.
pub mod Groups
use live.Base.{
  ℕ, zero, suc, ◌+◌, ◌-◌, ◌*◌, ◌/◌, ◌%◌, Bool, true, false, Option, none, some, List, [], ◌∷◌, ◌++◌,
  if◌then◌else◌, leb, ltb, ◌==◌, ◌&&◌, ◌||◌, not, length, get_elem?, set, take, replicate, ◌>>=◌,
}
use live.Av.{Packet}
use live.Flv.Tag.{Tag, is_key_frame, is_seq}

abbrev pub max_gop_cap : ℕ
max_gop_cap = 1024

-- `index` counts the packets that are sent.
pub record Array : Type 0 where
  pub index : ℕ
  pub packets : List Packet

abbrev pub new_array : Array
new_array = record { index = 0; packets = [] }

unfoldable pub reset : Array → Array
reset a = record { index = 0; packets = [] }

-- Beyond the bound a packet is refused, with an error that `writeToArray` does not look at.
unfoldable pub array_write : Array → Packet → Array
array_write a p =
    if leb max_gop_cap a.index
    then a
    else record { index = a.index + 1; packets = a.packets ++ p ∷ [] }

-- A nil array in the ring is `none`.
pub record GopCache : Type 0 where
  pub start : Bool
  pub num : ℕ
  pub count : ℕ
  pub next_index : ℕ
  pub gops : List (Option Array)

unfoldable pub new_gop_cache : ℕ → GopCache
new_gop_cache num = record {
  start = false;
  num = 0;
  count = num;
  next_index = 0;
  gops = replicate num none;
}

-- `none` is a panic: an index out of range, a remainder by zero, or a method of a nil array.
unfoldable pub write_new : GopCache → Packet → Option GopCache
write_new c p = get_elem? c.gops c.next_index >>= λ slot.
    let ginc : Array = elim slot [ none ↦ new_array | some a ↦ reset a ] in
    let num : ℕ = elim slot [ none ↦ c.num + 1 | some a ↦ c.num ] in
    if c.count == 0
    then none
    else some (record c {
      num = num;
      next_index = (c.next_index + 1) % c.count;
      gops = set c.gops c.next_index (some (array_write ginc p));
    })

unfoldable pub write_current : GopCache → Packet → Option GopCache
write_current c p =
    if c.count == 0
    then none
    else let i = (c.next_index + 1) % c.count in
      get_elem? c.gops i >>= λ slot.
      slot >>= λ ginc. some (record c { gops = set c.gops i (some (array_write ginc p)) })

unfoldable pub write_to_array : GopCache → Packet → Bool → Option GopCache
write_to_array c p start_new = if start_new then write_new c p else write_current c p

-- Whether a packet starts a group; `none` is the panic of the type assertion on a header not set.
unfoldable pub starts_gop : Packet → Option Bool
starts_gop p =
    if p.is_video
    then (p.header >>= λ vh. some (is_key_frame vh && not (is_seq vh)))
    else some false

unfoldable pub write : GopCache → Packet → Option GopCache
write c p = starts_gop p >>= λ ok.
    if ok || c.start then write_to_array (record c { start = true }) p ok else some c

-- What a player is sent, in order, by a writer that takes every packet. `int` arithmetic: the index
-- is below zero where `pos + 1 + i` is below `num`.
unfoldable pub array_send : Array → Option (List Packet)
array_send a = if leb a.index (length a.packets) then some (take a.index a.packets) else none

unfoldable pub send_loop : ℕ → ℕ → ℕ → GopCache → Option (List Packet)
send_loop zero pos i c = some []
send_loop (suc k) pos i c =
    let index =
      if ltb (pos + 1 + i) c.num then pos + 1 + i + c.count - c.num else pos + 1 + i - c.num in
    let rest = send_loop k pos (i + 1) c in
    get_elem? c.gops index >>= λ slot.
    slot >>= λ g. array_send g >>= λ sent. rest >>= λ later. some (sent ++ later)

unfoldable pub send : GopCache → Option (List Packet)
send c = if c.count == 0 then none else send_loop c.num ((c.next_index + 1) % c.count) 0 c
