-- ===== src/Hls/PlayList.antt =====
-- The play list of the segments that are kept.
use live.Base.{
  ℕ, suc, ◌+◌, ◌-◌, ◌/◌, ◌≤◌, ◌<◌, ◌≡◌, refl, ap, ap₂, sym, ◌∙◌, inl, inr, true, false, Bool-cases,
  Option, some, List, [], ◌∷◌, ◌++◌, append-nil, append_assoc, map, max, arith, if◌then◌else◌, ◌==◌,
  ltb, length, drop, All, length-append, length-drop,
}
use live.Hls.Cache.{
  TsItem, new_ts_cache_item, lookup, PlayList, Listing, list_item, list_loop, gen_m3u8_play_list,
}
use live.Hls.Kept.{
  Entry, key_of, Fresh, Distinct, keep, keep_all, set_all, same_key_refl, cache_of,
  set_all-keep_all, keep_all-Distinct,
}

-- The play list of segments.
abbrev pub longest : List Entry → ℕ
longest [] = 0
longest (e ∷ entries) = max e.1.duration (longest entries)

abbrev pub first_seq : List Entry → ℕ
first_seq [] = 0
first_seq (e ∷ entries) = e.1.seq_num

abbrev pub play_list : List Entry → PlayList
play_list entries = record {
  target_duration = longest entries / 1000 + 1;
  media_sequence = first_seq entries;
  segments = map (λ (e : Entry). (e.1.duration, e.1.name)) entries;
}

-- Every segment of `b` is found in the map.
abbrev Found : List Entry → List Entry → Type 0
Found lm b = All (λ (e : Entry). lookup e.0 lm ≡ some e.1) b

Found-behind :
    (k : List ℕ) (v : TsItem) (lm b : List Entry) → Fresh k b → Found lm b → Found ((k, v) ∷ lm) b
unfolding lookup
Found-behind k v lm [] f h = tt
Found-behind k v lm (e ∷ b) ((n, n'), f) (h, hs) = (rw n' h, Found-behind k v lm b f hs)

all-Found : (entries : List Entry) → Distinct entries → Found entries entries
unfolding lookup
all-Found [] d = tt
all-Found ((k, v) ∷ entries) (f, d) =
    (rw (same_key_refl k) refl, Found-behind k v entries entries f (all-Found entries d))

abbrev shown : Entry → ℕ × List ℕ
shown e = (e.1.duration, e.1.name)

-- The variables of the loop behind the first segment.
abbrev listed : ℕ → ℕ → List (ℕ × List ℕ) → Listing
listed seq longest body = record { seq = seq; get_seq = true; max_duration = longest; body = body }

list_loop-Found :
    (lm b : List Entry) (seq m : ℕ) (body : List (ℕ × List ℕ))
    → Found lm b
    → list_loop lm (map key_of b) (listed seq m body)
      ≡ listed seq (max m (longest b)) (body ++ map shown b)
unfolding list_loop list_item
list_loop-Found lm [] seq m body h = ap₂ (listed seq) (omega arith) (sym (append-nil body))
list_loop-Found lm (e ∷ b) seq m body (h, hs) =
    ap (λ (o : Option TsItem). list_loop lm (map key_of b) (list_item o (listed seq m body))) h
    ∙ list_loop-Found lm b seq (if ltb m e.1.duration then e.1.duration else m)
        (body ++ (shown e ∷ [])) hs
    ∙ ap₂ (listed seq) (larger m e.1.duration (longest b))
        (append_assoc body (shown e ∷ []) (map shown b))
  where
    larger : (m d n : ℕ) → max (if ltb m d then d else m) n ≡ max m (max d n)
    larger m d n = ground arith

gen_m3u8-play_list :
    (id : List ℕ) (num : ℕ) (entries : List Entry)
    → Distinct entries
    → gen_m3u8_play_list (cache_of id num entries) ≡ play_list entries
unfolding gen_m3u8_play_list list_loop list_item
gen_m3u8-play_list id num [] d = refl
gen_m3u8-play_list id num (e ∷ b) d =
    let (h, hs) = all-Found (e ∷ b) d in
    ap finish (
      ap (λ (o : Option TsItem). list_loop (e ∷ b) (map key_of b) (list_item o fresh)) h
      ∙ list_loop-Found (e ∷ b) b e.1.seq_num (if ltb 0 e.1.duration then e.1.duration else 0)
          (shown e ∷ []) hs)
    ∙ ap
        (λ (n : ℕ). record {
          target_duration = n / 1000 + 1;
          media_sequence = e.1.seq_num;
          segments = map shown (e ∷ b);
        })
        (larger e.1.duration (longest b))
  where
    fresh : Listing
    fresh = record { seq = 0; get_seq = false; max_duration = 0; body = [] }

    finish : Listing → PlayList
    finish l = record {
      target_duration = l.max_duration / 1000 + 1;
      media_sequence = l.seq;
      segments = l.body;
    }

    larger : (d n : ℕ) → max (if ltb 0 d then d else 0) n ≡ max d n
    larger d n = ground arith

-- The last `n` of a list.
abbrev pub last : ℕ → List Entry → List Entry
last n es = drop (length es - n) es

-- A first segment that is not among the last does not matter.
last-behind : (n : ℕ) (x : Entry) (es : List Entry) → n ≤ length es → last n (x ∷ es) ≡ last n es
last-behind n x es h = ap (λ (k : ℕ). drop k (x ∷ es)) one_more
  where
    one_more : suc (length es) - n ≡ suc (length es - n)
    one_more = omega arith

last-keep :
    (n : ℕ) (es : List Entry) (e : Entry) (rest : List Entry)
    → 0 < n
    → length es ≤ n
    → last n (keep n es e ++ rest) ≡ last n (es ++ (e ∷ rest))
last-keep n [] e rest pos h = rw (empty n pos) refl
  where
    empty : (n : ℕ) → 0 < n → (0 == n) ≡ false
    empty n pos = ground arith
last-keep n (x ∷ es) e rest pos h = elim (Bool-cases (length (x ∷ es) == n)) [
  | inl full ↦ rw full (
      ap (last n) (append_assoc es (e ∷ []) rest)
      ∙ sym (last-behind n x (es ++ (e ∷ rest)) (long full)))
  | inr room ↦ rw room (ap (last n) (append_assoc (x ∷ es) (e ∷ []) rest))
]
  where
    long : (suc (length es) == n) ≡ true → n ≤ length (es ++ (e ∷ rest))
    long full = ground (arith, length-append es (e ∷ rest))

length-keep :
    (n : ℕ) (es : List Entry) (e : Entry) → 0 < n → length es ≤ n → length (keep n es e) ≤ n
length-keep n es e pos h = elim (Bool-cases (length es == n)) [
  | inl full ↦ rw full (omega (arith, length-append (drop 1 es) (e ∷ []), length-drop 1 es))
  | inr room ↦ rw room (smaller room)
]
  where
    smaller : (length es == n) ≡ false → length (es ++ (e ∷ [])) ≤ n
    smaller room = ground (arith, length-append es (e ∷ []))

keep-drop :
    (n : ℕ) (es rest : List Entry)
    → 0 < n
    → length es ≤ n
    → keep_all n es rest ≡ last n (es ++ rest)
keep-drop n es [] pos h = sym (ap (last n) (append-nil es) ∙ ap (λ (k : ℕ). drop k es) none_over)
  where
    none_over : length es - n ≡ 0
    none_over = omega arith
keep-drop n es (e ∷ rest) pos h =
    keep-drop n (keep n es e) rest pos (length-keep n es e pos h) ∙ last-keep n es e rest pos h

keep_all-last : (es : List Entry) → keep_all 3 [] es ≡ last 3 es
keep_all-last es = keep-drop 3 [] es (omega arith) (omega arith)

-- The play list of a stream whose segments have different keys is that of the last three of them, in
-- order, with the sequence number of the first and a target duration from the longest.
pub gen_m3u8-set_all :
    (id : List ℕ) (es : List Entry)
    → Distinct es
    → gen_m3u8_play_list (set_all es (new_ts_cache_item id)) ≡ play_list (last 3 es)
unfolding new_ts_cache_item
gen_m3u8-set_all id es d =
    ap gen_m3u8_play_list (set_all-keep_all id 3 [] es d)
    ∙ gen_m3u8-play_list id 3 (keep_all 3 [] es) (keep_all-Distinct 3 [] es d)
    ∙ ap play_list (keep_all-last es)
