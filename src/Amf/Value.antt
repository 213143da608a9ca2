-- ===== src/Amf/Value.antt =====
-- protocol/amf/const.go: what `interface{}` holds of AMF0. A string is its bytes, a float64 its 64
-- bits, and an `Object` its members in the order in which the map is walked.
use live.Base.{ℕ, suc, Bool, true, false, List, [], ◌∷◌, ◌==◌, ◌&&◌, if◌then◌else◌}

mutual
  pub data Value : Type 0 where
    null : Value
    boolean : Bool → Value
    number : ℕ → Value
    string : List ℕ → Value
    object : Members → Value
    array : Values → Value
    typed_object : List ℕ → Members → Value

  pub data Values : Type 0 where
    no_values : Values
    value : Value → Values → Values

  pub data Members : Type 0 where
    no_members : Members
    member : List ℕ → Value → Members → Members

unfoldable pub same_key : List ℕ → List ℕ → Bool
same_key [] [] = true
same_key (a ∷ k) (b ∷ l) = a == b && same_key k l
same_key _ _ = false

-- `result[key] = value`
unfoldable pub put : List ℕ → Value → Members → Members
put k v no_members = member k v no_members
put k v (member l w ms) = if same_key l k then member l v ms else member l w (put k v ms)

unfoldable pub has_key : List ℕ → Members → Bool
has_key k no_members = false
has_key k (member l w ms) = if same_key l k then true else has_key k ms

-- One member more, behind the others.
unfoldable pub snoc : Members → List ℕ → Value → Members
snoc no_members k v = member k v no_members
snoc (member l w ms) k v = member l w (snoc ms k v)

unfoldable pub append : Members → Members → Members
append no_members ns = ns
append (member l w ms) ns = member l w (append ms ns)

unfoldable pub count : Values → ℕ
count no_values = 0
count (value v vs) = suc (count vs)
