-- ===== src/Cache/Gop/Groups.antt =====
-- The GOP cache against its purpose: the last groups of pictures, newest first.
use live.Base.{
  ℕ, zero, suc, ◌≤◌, ◌≡◌, refl, sym, ◌⊎◌, inl, inr, subst, Option-cases, Bool, true, false, Option,
  none, some, List, [], ◌∷◌, ◌++◌, arith, append-nil, if◌then◌else◌, leb, length, length-append,
  take, take-all, replicate, ◌>>=◌,
}
use mathlib.Core.Option.{some-injective}
use native.Mathlib.Nat.{mod-eq_of_lt}
use live.Av.{Packet}
use live.Cache.Gop.{
  Array, GopCache, max_gop_cap, new_gop_cache, array_write, reset, write_new, write_current,
  write_to_array, starts_gop, write, array_send, send_loop, send,
}

-- A group takes packets up to the bound of its array.
abbrev pub grow : List Packet → Packet → List Packet
grow ps p = if leb max_gop_cap (length ps) then ps else ps ++ p ∷ []

-- A packet starts a group, of which `count` are kept, or joins the newest; before the first group it
-- is dropped.
unfoldable pub spec_write : ℕ → List (List Packet) → Packet → Bool → List (List Packet)
spec_write count recent p true = take count ((p ∷ []) ∷ recent)
spec_write count [] p false = []
spec_write count (g ∷ recent) p false = grow g p ∷ recent

-- Oldest group first.
unfoldable pub spec_send : List (List Packet) → List Packet
spec_send [] = []
spec_send (g ∷ recent) = spec_send recent ++ g

abbrev filled : List Packet → Array
filled ps = record { index = length ps; packets = ps }

abbrev ring : Bool → ℕ → ℕ → ℕ → List (Option Array) → GopCache
ring start num count next_index gops = record {
  start = start;
  num = num;
  count = count;
  next_index = next_index;
  gops = gops;
}

-- The states that a ring of one or two arrays reaches, with the groups that they stand for.
data Shows : ℕ → GopCache → List (List Packet) → Type 0 where
  empty_1 : Shows 1 (ring false 0 1 0 (none ∷ [])) []
  empty_2 : Shows 2 (ring false 0 2 0 (none ∷ none ∷ [])) []
  only : (a : List Packet) → Shows 1 (ring true 1 1 0 (some (filled a) ∷ [])) (a ∷ [])
  first : (a : List Packet) → Shows 2 (ring true 1 2 1 (some (filled a) ∷ none ∷ [])) (a ∷ [])
  front :
      (a b : List Packet)
      → Shows 2 (ring true 2 2 1 (some (filled a) ∷ some (filled b) ∷ [])) (a ∷ b ∷ [])
  back :
      (a b : List Packet)
      → Shows 2 (ring true 2 2 0 (some (filled a) ∷ some (filled b) ∷ [])) (b ∷ a ∷ [])

array_write-filled : (a : List Packet) (p : Packet) → array_write (filled a) p ≡ filled (grow a p)
unfolding array_write
array_write-filled a p = ground (arith, length-append a (p ∷ []))

-- One write keeps the ring and the groups together.
abbrev Steps : ℕ → GopCache → List (List Packet) → Packet → Bool → Type 0
Steps n c g p ok = (c' : GopCache) × (write c p ≡ some c') × Shows n c' (spec_write n g p ok)

write-Shows :
    {n : ℕ} {c : GopCache} {g : List (List Packet)} (p : Packet) (ok : Bool)
    → Shows n c g
    → starts_gop p ≡ some ok
    → Steps n c g p ok
unfolding write write_to_array write_new write_current spec_write array_write reset
write-Shows p true empty_1 e = (ring true 1 1 0 (some (filled (p ∷ [])) ∷ []), rw e, only (p ∷ []))
write-Shows p false empty_1 e = (ring false 0 1 0 (none ∷ []), rw e, empty_1)
write-Shows p true empty_2 e =
    (ring true 1 2 1 (some (filled (p ∷ [])) ∷ none ∷ []), rw e, first (p ∷ []))
write-Shows p false empty_2 e = (ring false 0 2 0 (none ∷ none ∷ []), rw e, empty_2)
write-Shows p true (only a) e = (ring true 1 1 0 (some (filled (p ∷ [])) ∷ []), rw e, only (p ∷ []))
write-Shows p false (only a) e = (
  ring true 1 1 0 (some (filled (grow a p)) ∷ []),
  ground (arith, length-append a (p ∷ [])),
  only (grow a p),
)
write-Shows p true (first a) e =
    (ring true 2 2 0 (some (filled a) ∷ some (filled (p ∷ [])) ∷ []), rw e, back a (p ∷ []))
write-Shows p false (first a) e = (
  ring true 1 2 1 (some (filled (grow a p)) ∷ none ∷ []),
  ground (arith, length-append a (p ∷ [])),
  first (grow a p),
)
write-Shows p true (front a b) e =
    (ring true 2 2 0 (some (filled a) ∷ some (filled (p ∷ [])) ∷ []), rw e, back a (p ∷ []))
write-Shows p false (front a b) e = (
  ring true 2 2 1 (some (filled (grow a p)) ∷ some (filled b) ∷ []),
  ground (arith, length-append a (p ∷ [])),
  front (grow a p) b,
)
write-Shows p true (back a b) e =
    (ring true 2 2 1 (some (filled (p ∷ [])) ∷ some (filled b) ∷ []), rw e, front (p ∷ []) b)
write-Shows p false (back a b) e = (
  ring true 2 2 0 (some (filled a) ∷ some (filled (grow b p)) ∷ []),
  ground (arith, length-append b (p ∷ [])),
  back a (grow b p),
)

send-Shows :
    {n : ℕ} {c : GopCache} {g : List (List Packet)} → Shows n c g → send c ≡ some (spec_send g)
unfolding send send_loop spec_send array_send
send-Shows empty_1 = refl
send-Shows empty_2 = refl
send-Shows (only a) = ground (arith, take-all (length a) a, append-nil a)
send-Shows (first a) = ground (arith, take-all (length a) a, append-nil a)
send-Shows (front a b) =
    ground (arith, take-all (length a) a, take-all (length b) b, append-nil a, append-nil b)
send-Shows (back a b) =
    ground (arith, take-all (length a) a, take-all (length b) b, append-nil a, append-nil b)

-- A run of the cache over packets, and that of the specification.
abbrev pub write_all : GopCache → List Packet → Option GopCache
write_all c [] = some c
write_all c (p ∷ ps) = write c p >>= λ c'. write_all c' ps

-- `none` if a video packet has no header.
unfoldable pub spec_write_all : ℕ → List (List Packet) → List Packet → Option (List (List Packet))
spec_write_all n g [] = some g
spec_write_all n g (p ∷ ps) = starts_gop p >>= λ ok. spec_write_all n (spec_write n g p ok) ps

write_all-Shows :
    (ps : List Packet) (n : ℕ) (c : GopCache) (g g' : List (List Packet))
    → Shows n c g
    → spec_write_all n g ps ≡ some g'
    → (c' : GopCache) × (write_all c ps ≡ some c') × Shows n c' g'
unfolding spec_write_all
write_all-Shows [] n c g g' s e = (c, refl, subst (Shows n c) (some-injective g g' e) s)
write_all-Shows (p ∷ ps) n c g g' s e = elim (Option-cases (starts_gop p)) [
  | inl missing ↦ absurd (cc (rw missing at e))
  | inr (ok, h) ↦
      let (c1, e1, s1) = write-Shows p ok s h in
      let (c2, e2, s2) = write_all-Shows ps n c1 (spec_write n g p ok) g' s1 (rw h at e) in
      (c2, rw e1 e2, s2)
]

-- A cache of one or two groups, run on any packets whose video headers are set, never panics, and
-- sends exactly the packets of the last groups, oldest group first, each group cut at its bound.
pub write_all-refines :
    (n : ℕ) (ps : List Packet) (g : List (List Packet))
    → (n ≡ 1) ⊎ (n ≡ 2)
    → spec_write_all n [] ps ≡ some g
    → (c : GopCache) × (write_all (new_gop_cache n) ps ≡ some c) × (send c ≡ some (spec_send g))
write_all-refines n ps g h e =
    let (c, r, s) = write_all-Shows ps n (new_gop_cache n) [] g (start n h) e in
    (c, r, send-Shows s)
  where
    start : (n : ℕ) → (n ≡ 1) ⊎ (n ≡ 2) → Shows n (new_gop_cache n) []
    start n (inl one) =
        subst (λ (k : ℕ). Shows k (new_gop_cache k) []) (sym one) (unfold new_gop_cache in empty_1)
    start n (inr two) =
        subst (λ (k : ℕ). Shows k (new_gop_cache k) []) (sym two) (unfold new_gop_cache in empty_2)

-- A ring with the first group begun and two slots or more behind it.
abbrev begun : ℕ → Packet → GopCache
begun n p =
    ring true 1 (suc (suc (suc n))) 1 (some (filled (p ∷ [])) ∷ none ∷ none ∷ replicate n none)

first_key :
    (n : ℕ) (p : Packet)
    → starts_gop p ≡ some true
    → write (new_gop_cache (suc (suc (suc n)))) p ≡ some (begun n p)
unfolding new_gop_cache write write_to_array write_new array_write
first_key n p h = ground (arith, mod-eq_of_lt {n = 1} {m = suc (suc (suc n))})

next_inter : (n : ℕ) (p q : Packet) → starts_gop q ≡ some false → write (begun n p) q ≡ none
unfolding write write_to_array write_current
next_inter n p q h = ground (arith, mod-eq_of_lt {n = 2} {m = suc (suc (suc n))})

-- With room for three groups or more, the first packet behind the first key frame is written through
-- a nil array: the cache panics.
pub write-three_crash :
    (n : ℕ) (p q : Packet)
    → 3 ≤ n
    → starts_gop p ≡ some true
    → starts_gop q ≡ some false
    → write_all (new_gop_cache n) (p ∷ q ∷ []) ≡ none
write-three_crash zero p q h hp hq = absurd (omega arith)
write-three_crash (suc zero) p q h hp hq = absurd (omega arith)
write-three_crash (suc (suc zero)) p q h hp hq = absurd (omega arith)
write-three_crash (suc (suc (suc n))) p q h hp hq = rw (first_key n p hp, next_inter n p q hq)
