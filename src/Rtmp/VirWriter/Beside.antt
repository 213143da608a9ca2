-- ===== src/Rtmp/VirWriter/Beside.antt =====
-- DropPacket while SendPacket takes packets off the same channel: when it waits.
use live.Base.{
  ℕ, zero, suc, ◌+◌, ◌≤◌, ◌<◌, ◌≡◌, refl, Bool, true, false, Option, none, some, List, [], ◌∷◌,
  ◌++◌, if◌then◌else◌, ◌&&◌, arith, ltb, length, length-append, length-drop, take, drop, All, ◌>>=◌,
}
use live.Av.{Packet}
use live.Rtmp.VirWriter.{
  Chan, taken, send_packet_runs, received, receive, sent_on, send, seq_or_key, audio_at, drop_audio,
  skip_above, drop_video, drop_round, drop_loop,
}
use live.Rtmp.VirWriter.Kept.{OneKind}

abbrev pub total : List ℕ → ℕ
total [] = 0
total (n ∷ ns) = n + total ns

-- There are `n` packets more than SendPacket will take, and `m` at most, and `P` holds of the packets
-- there and of those that were sent.
abbrev pub Has : (Packet → Type 0) → ℕ → ℕ → Chan → Type 0
Has P n m c =
    (n + total c.takes ≤ length c.queue) × (length c.queue ≤ m) × All P c.queue × All P c.sent

abbrev pub After : (Packet → Type 0) → ℕ → ℕ → Option Chan → Type 0
After P n m none = 1 ≤ 0
After P n m (some c) = Has P n m c

abbrev Received : (Packet → Type 0) → ℕ → ℕ → Option (Packet × Chan) → Type 0
Received P n m none = 1 ≤ 0
Received P n m (some (p, c)) = P p × Has P n m c

if-After :
    (P : Packet → Type 0) (n m : ℕ) (b : Bool) (x y : Option Chan)
    → (b ≡ true → After P n m x)
    → (b ≡ false → After P n m y)
    → After P n m (if b then x else y)
if-After P n m true x y h k = h refl
if-After P n m false x y h k = k refl

After-bind :
    (P : Packet → Type 0) (n m k l : ℕ) (o : Option Chan) (f : Chan → Option Chan)
    → After P n m o
    → ((c : Chan) → Has P n m c → After P k l (f c))
    → After P k l (o >>= f)
After-bind P n m k l none f h g = absurd (omega arith)
After-bind P n m k l (some c) f h g = g c h

module _ (P : Packet → Type 0) where
  All-append : (xs ys : List Packet) → All P xs → All P ys → All P (xs ++ ys)
  All-append [] ys h k = k
  All-append (x ∷ xs) ys (h, hs) k = (h, All-append xs ys hs k)

  All-drop : (n : ℕ) (xs : List Packet) → All P xs → All P (drop n xs)
  All-drop zero xs h = h
  All-drop (suc n) [] h = tt
  All-drop (suc n) (x ∷ xs) (h, hs) = All-drop n xs hs

  All-take : (n : ℕ) (xs : List Packet) → All P xs → All P (take n xs)
  All-take zero xs h = tt
  All-take (suc n) [] h = tt
  All-take (suc n) (x ∷ xs) (h, hs) = (h, All-take n xs hs)

  runs-Has :
      (n m : ℕ) (queue sent : List Packet) (takes : List ℕ)
      → Has P n m (record { queue = queue; sent = sent; takes = takes })
      → Has P n m (taken queue sent takes)
  runs-Has n m queue sent [] h = h
  runs-Has n m queue sent (k ∷ takes) (l, b, q, s) = (
    omega (arith, length-drop k queue),
    omega (arith, length-drop k queue),
    All-drop k queue q,
    All-append sent (take k queue) s (All-take k queue q),
  )

  received-Received :
      (n m : ℕ) (c : Chan) (queue : List Packet)
      → Has P (suc n) (suc m) (record c { queue = queue })
      → Received P n m (received c queue)
  received-Received n m c [] (l, b, q, s) = absurd (omega arith)
  received-Received n m c (p ∷ queue) (l, b, (h, hs), s) = (h, (omega arith, omega arith, hs, s))

  receive-Received : (n m : ℕ) (c : Chan) → Has P (suc n) (suc m) c → Received P n m (receive c)
  unfolding receive
  receive-Received n m c h =
      received-Received n m (send_packet_runs c) (send_packet_runs c).queue
        (runs-Has (suc n) (suc m) c.queue c.sent c.takes h)

  sent_on-After :
      (n m : ℕ) (p : Packet) (c : Chan)
      → P p
      → m < 1024
      → Has P n m c
      → After P n (suc m) (sent_on p c)
  sent_on-After n m p c h small (l, b, q, s) = rw room (
    omega (arith, length-append c.queue (p ∷ [])),
    omega (arith, length-append c.queue (p ∷ [])),
    All-append c.queue (p ∷ []) q (h, tt),
    s,
  )
    where
      room : ltb (length c.queue) 1024 ≡ true
      room = ground arith

  send-After :
      (n m : ℕ) (p : Packet) (c : Chan)
      → P p
      → m < 1024
      → Has P n m c
      → After P n (suc m) (send p c)
  unfolding send
  send-After n m p c h small k =
      sent_on-After n m p (send_packet_runs c) h small (runs-Has n m c.queue c.sent c.takes k)

  more : (n m : ℕ) (c : Chan) → Has P n m c → Has P n (suc m) c
  more n m c (l, b, q, s) = (l, omega arith, q, s)

  audio_at-After :
      (n : ℕ) (p : Packet) (c : Chan) → P p → Has P n 1013 c → After P n 1014 (audio_at p c)
  audio_at-After n p c h k = rw few (send-After n 1013 p c h (omega arith) k)
    where
      few : ltb 1022 (length c.queue) ≡ false
      few = ground (arith, k.1)

  skip_above-After : (n : ℕ) (c : Chan) → Has P n 1014 c → After P n 1014 (skip_above c)
  unfolding skip_above
  skip_above-After n c h = rw few h'
    where
      h' : Has P n 1014 (send_packet_runs c)
      h' = runs-Has n 1014 c.queue c.sent c.takes h

      few : ltb 1014 (length (send_packet_runs c).queue) ≡ false
      few = ground (arith, h'.1)

  video-After :
      (v s : Bool) (n : ℕ) (p : Packet) (c : Chan)
      → P p
      → Has P n 1013 c
      → After P n 1014 (if v then ((if s then send p c else some c) >>= skip_above) else some c)
  video-After v s n p c h k =
      if-After P n 1014 v _ _
        (λ _.
          After-bind P n 1014 n 1014 _ skip_above
            (if-After P n 1014 s (send p c) (some c) (λ _. send-After n 1013 p c h (omega arith) k)
              (λ _. more n 1013 c k))
            (skip_above-After n))
        (λ _. more n 1013 c k)

  module _ (one : (p : Packet) → P p → OneKind p) where
    kinds-After :
        (n : ℕ) (p : Packet) (c : Chan)
        → P p
        → Has P n 1013 c
        → After P n 1014 (drop_audio p c >>= drop_video p)
    unfolding drop_audio drop_video
    kinds-After n p c h k = by_audio p.is_audio p.is_video (seq_or_key p) (one p h)
      where
        by_audio :
            (a v s : Bool)
            → (a && v) ≡ false
            → After P n 1014 (
                (if a then audio_at p (send_packet_runs c) else some c) >>= (λ c'.
                  if v then ((if s then send p c' else some c') >>= skip_above) else some c'))
        by_audio true true s e = absurd (cc e)
        by_audio true false s e =
            After-bind P n 1014 n 1014 (audio_at p (send_packet_runs c)) some
              (audio_at-After n p (send_packet_runs c) h (runs-Has n 1013 c.queue c.sent c.takes k))
              (λ c' h'. h')
        by_audio false v s e = video-After v s n p c h k

    Received-After :
        (n : ℕ) (o : Option (Packet × Chan))
        → Received P n 1013 o
        → After P n 1014 (o >>= (λ r. drop_audio r.0 r.1 >>= drop_video r.0))
    Received-After n none h = h
    Received-After n (some (p, c)) (h, k) = kinds-After n p c h k

    round-After : (n : ℕ) (c : Chan) → Has P (suc n) 1014 c → After P n 1014 (drop_round c)
    unfolding drop_round
    round-After n c h = Received-After n (receive c) (receive-Received n 1013 c h)

    pub loop-After : (n : ℕ) (c : Chan) → Has P n 1014 c → After P 0 1014 (drop_loop n c)
    unfolding drop_loop
    loop-After zero c h = h
    loop-After (suc n) c h =
        After-bind P n 1014 0 1014 (drop_round c) (drop_loop n) (round-After n c h) (loop-After n)
