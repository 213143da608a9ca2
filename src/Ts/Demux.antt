-- ===== src/Ts/Demux.antt =====
-- A reader of transport packets, as ISO/IEC 13818-1 lays them out: the counterpart of Mux.
use live.Base.{
  ℕ, ◌+◌, ◌*◌, ◌/◌, ◌%◌, Bool, true, false, ◌&&◌, Option, none, some, List, [], ◌∷◌, ◌++◌,
  if◌then◌else◌, ◌==◌, length, get_or, drop, ◌>>=◌,
}

abbrev pub unit_start : List ℕ → Bool
unit_start p = get_or p 1 0 / 64 % 2 == 1

abbrev pub pid : List ℕ → ℕ
pid p = get_or p 1 0 % 32 * 256 + get_or p 2 0

abbrev pub counter : List ℕ → ℕ
counter p = get_or p 3 0 % 16

abbrev pub has_adaptation : List ℕ → Bool
has_adaptation p = get_or p 3 0 / 32 % 2 == 1

-- What follows the adaptation field, whose length its first byte says.
abbrev pub payload_of : List ℕ → List ℕ
payload_of p = if has_adaptation p then drop (5 + get_or p 4 0) p else drop 4 p

abbrev pub same : Bool → Bool → Bool
same true b = b
same false true = false
same false false = true

-- A packet of the stream `id`, with this counter, which starts a PES packet or goes on with it.
abbrev pub read_packet : ℕ → Bool → ℕ → List ℕ → Option (List ℕ)
read_packet id first cc p =
    if length p == 188
      && (get_or p 0 0 == 0x47 && (same first (unit_start p) && (pid p == id && counter p == cc)))
    then some (payload_of p)
    else none

-- The PES packet that the packets carry, if no packet is lost.
abbrev pub demux : ℕ → Bool → ℕ → List (List ℕ) → Option (List ℕ)
demux id first cc [] = some []
demux id first cc (p ∷ packets) =
    read_packet id first cc p
    >>= (λ b. demux id false ((cc + 1) % 16) packets >>= (λ rest. some (b ++ rest)))
