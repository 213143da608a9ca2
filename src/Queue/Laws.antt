-- ===== src/Queue/Laws.antt =====
-- utils/queue/queue.go: pushes and pops on the packet queue.
use live.Base.{
  ℕ, zero, suc, ◌-◌, ◌≤◌, ◌<◌, ◌≡◌, refl, Option, none, some, List, [], ◌∷◌, ◌++◌, arith,
  if◌then◌else◌, ◌==◌, Bool-cases, inl, inr, length, length-append, length-take, get_elem?, take,
  take-append, ◌>>=◌,
}
use live.Queue.{Queue, new_queue, pop_last, push, pop}

module _ {ℓ} {A : Type ℓ} where
  get_elem?-last :
      (xs : List A) (x : A) (n : ℕ) → n ≡ length xs → get_elem? (xs ++ x ∷ []) n ≡ some x
  get_elem?-last [] x zero e = refl
  get_elem?-last [] x (suc n) e = absurd (omega arith)
  get_elem?-last (y ∷ xs) x zero e = absurd (omega arith)
  get_elem?-last (y ∷ xs) x (suc n) e = get_elem?-last xs x n (omega arith)

  pop_last-append :
      (q : Queue A) (xs : List A) (x : A)
      → q.list ≡ xs ++ x ∷ []
      → pop_last q ≡ some (x, record q { list = xs })
  unfolding pop_last
  pop_last-append q xs x e = ground (
    arith,
    length-append xs (x ∷ []),
    get_elem?-last xs x (length xs),
    take-append (length xs) xs (x ∷ []) refl,
  )

  -- A push on a queue that is not empty puts the message on top below the bound, and at the bound first
  -- throws the newest message away, and keeps the older ones.
  pub push_cases :
      (q : Queue A) (xs : List A) (x y : A)
      → q.list ≡ xs ++ x ∷ []
      → push q y ≡ (
          if length q.list == q.max_size
          then some (record q { list = xs ++ y ∷ [] })
          else some (record q { list = q.list ++ y ∷ [] }))
  unfolding push
  push_cases q xs x y e = ground (arith, pop_last-append q xs x e)

  -- Under the bound, `Pop` gives back the message that was pushed last, and the queue as it was
  -- before: the queue is last in, first out, where its comments say FIFO and first to last order.
  pub pop-push :
      (q : Queue A) (x : A) → length q.list < q.max_size → (push q x >>= pop) ≡ some (some x, q)
  unfolding push pop
  pop-push q x h = ground (
    arith,
    length-append q.list (x ∷ []),
    pop_last-append (record q { list = q.list ++ x ∷ [] }) q.list x refl,
  )

  -- No sequence of pushes grows the queue past its bound, if it has one.
  abbrev pub push_all : Queue A → List A → Option (Queue A)
  push_all q [] = some q
  push_all q (x ∷ xs) = push q x >>= λ q'. push_all q' xs

  Option-value : (n : ℕ) (xs : List A) → n < length xs → (x : A) × (get_elem? xs n ≡ some x)
  Option-value n [] h = absurd (omega arith)
  Option-value zero (x ∷ xs) h = (x, refl)
  Option-value (suc n) (x ∷ xs) h = Option-value n xs (omega arith)

  push_total :
      (q : Queue A) (x : A)
      → 0 < q.max_size
      → length q.list ≤ q.max_size
      → (q' : Queue A) × (push q x ≡ some q')
        × (q'.max_size ≡ q.max_size)
        × (length q'.list ≤ q.max_size)
  unfolding push pop_last
  push_total q x hm hl = elim (Bool-cases (length q.list == q.max_size)) [
    | inl full ↦
        let (msg, e) = Option-value (length q.list - 1) q.list (ground arith) in
        (
          record q { list = take (length q.list - 1) q.list ++ x ∷ [] },
          ground (arith, e),
          refl,
          ground (
            arith,
            length-append (take (length q.list - 1) q.list) (x ∷ []),
            length-take (length q.list - 1) q.list,
          ),
        )
    | inr room ↦ (
      record q { list = q.list ++ x ∷ [] },
      ground arith,
      refl,
      ground (arith, length-append q.list (x ∷ [])),
    )
  ]

  -- With a bound above zero, no sequence of pushes on a queue within its bound panics or grows past the
  -- bound.
  pub push_all-bounded :
      (xs : List A) (q : Queue A)
      → 0 < q.max_size
      → length q.list ≤ q.max_size
      → (q' : Queue A) × (push_all q xs ≡ some q') × (length q'.list ≤ q.max_size)
  push_all-bounded [] q hm hl = (q, refl, hl)
  push_all-bounded (x ∷ xs) q hm hl =
      let (q1, e1, s1, l1) = push_total q x hm hl in
      let (q2, e2, l2) = push_all-bounded xs q1 (omega (arith, s1)) (omega (arith, s1)) in
      (q2, rw e1 e2, omega (arith, s1))

  -- A queue with the bound 0 panics on its first push.
  pub push-new_queue_zero : (x : A) → push (new_queue 0) x ≡ none
  unfolding push pop_last new_queue
  push-new_queue_zero x = refl
