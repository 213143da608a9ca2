-- ===== src/Queue.antt =====
-- utils/queue/queue.go: the packet queue. Each method holds the mutex from its start to its end, so a
-- run of the program is a sequence of whole calls. The list is `list`, its last element the newest.
use live.Base.{
  ℕ, zero, suc, ◌+◌, ◌-◌, ◌≤◌, ◌<◌, ◌≡◌, ◌≢◌, refl, sym, ap, ◌∙◌, Bool, true, false, Option, none,
  some, List, [], ◌∷◌, ◌++◌, arith, append-nil, if◌then◌else◌, ◌==◌, length, length-append,
  get_elem?, take, take-append, ◌>>=◌,
}
pub mod Laws

pub record Queue {ℓ} (A : Type ℓ) : Type ℓ where
  pub max_size : ℕ
  pub list : List A

module _ {ℓ} {A : Type ℓ} where
  pub new_queue : ℕ → Queue A
  new_queue max_size = record { max_size = max_size; list = [] }

  -- The unexported `pop`: `none` is the panic of the index -1 on an empty list.
  pub pop_last : Queue A → Option (A × Queue A)
  pop_last q =
      if length q.list == 0
      then none
      else (get_elem? q.list (length q.list - 1) >>= λ msg.
          some (msg, record q { list = take (length q.list - 1) q.list }))

  pub push : Queue A → A → Option (Queue A)
  push q msg =
      if length q.list == q.max_size
      then (pop_last q >>= λ r. some (record q { list = r.1.list ++ msg ∷ [] }))
      else some (record q { list = q.list ++ msg ∷ [] })

  -- The outer option is a panic, the inner one nil.
  pub pop : Queue A → Option (Option A × Queue A)
  pop q = if length q.list == 0 then some (none, q) else (pop_last q >>= λ r. some (some r.0, r.1))

  pub len : Queue A → ℕ
  len q = length q.list

  pub all : Queue A → List A × Queue A
  all q = (q.list, record q { list = [] })
