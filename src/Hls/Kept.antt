-- ===== src/Hls/Kept.antt =====
-- Which segments the cache keeps, as a list.
use live.Base.{
  ℕ, suc, ◌≡◌, refl, ap, ap₂, sym, subst, ◌∙◌, inl, inr, true, false, Bool-cases, List, [], ◌∷◌,
  ◌++◌, append-nil, append_assoc, map, arith, if◌then◌else◌, ◌==◌, length, drop, All,
}
use live.Amf.Value.{same_key}
use live.Hls.Cache.{TsItem, TsCacheItem, insert, delete, evict, set_item}

abbrev pub Entry : Type 0
Entry = List ℕ × TsItem

abbrev pub key_of : Entry → List ℕ
key_of e = e.0

-- No two keys are the same.
abbrev pub Fresh : List ℕ → List Entry → Type 0
Fresh k entries = All (λ (e : Entry). (same_key e.0 k ≡ false) × (same_key k e.0 ≡ false)) entries

abbrev pub Distinct : List Entry → Type 0
Distinct [] = Unit
Distinct (e ∷ entries) = Fresh e.0 entries × Distinct entries

-- One segment more, and the oldest one less if there are `num`.
abbrev pub keep : ℕ → List Entry → Entry → List Entry
keep num entries e = (if length entries == num then drop 1 entries else entries) ++ (e ∷ [])

abbrev pub keep_all : ℕ → List Entry → List Entry → List Entry
keep_all num entries [] = entries
keep_all num entries (e ∷ es) = keep_all num (keep num entries e) es

abbrev pub set_all : List Entry → TsCacheItem → TsCacheItem
set_all [] c = c
set_all (e ∷ es) c = set_all es (set_item e.0 e.1 c)

insert-Fresh :
    (k : List ℕ) (v : TsItem) (entries : List Entry)
    → Fresh k entries
    → insert k v entries ≡ entries ++ ((k, v) ∷ [])
unfolding insert
insert-Fresh k v [] f = refl
insert-Fresh k v ((l, w) ∷ entries) ((h, h'), f) =
    rw h (ap (λ (es : List Entry). (l, w) ∷ es) (insert-Fresh k v entries f))

pub same_key_refl : (k : List ℕ) → same_key k k ≡ true
unfolding same_key
same_key_refl [] = refl
same_key_refl (a ∷ k) = ground (arith, same_key_refl k)

-- A cache that holds these segments.
abbrev pub cache_of : List ℕ → ℕ → List Entry → TsCacheItem
cache_of id num entries = record { id = id; num = num; ll = map key_of entries; lm = entries }

length-map : (entries : List Entry) → length (map key_of entries) ≡ length entries
length-map [] = refl
length-map (e ∷ entries) = ap suc (length-map entries)

map-append : (a b : List Entry) → map key_of (a ++ b) ≡ map key_of a ++ map key_of b
map-append [] b = refl
map-append (e ∷ a) b = ap (λ (ks : List (List ℕ)). e.0 ∷ ks) (map-append a b)

Fresh-drop : (k : List ℕ) (entries : List Entry) → Fresh k entries → Fresh k (drop 1 entries)
Fresh-drop k [] f = f
Fresh-drop k (e ∷ entries) (h, f) = f

evict-drop :
    (id : List ℕ) (num : ℕ) (entries : List Entry)
    → evict (cache_of id num entries) (map key_of entries) ≡ cache_of id num (drop 1 entries)
unfolding evict delete
evict-drop id num [] = refl
evict-drop id num ((k, v) ∷ entries) = rw (same_key_refl k) refl

set_item-keep :
    (id : List ℕ) (num : ℕ) (entries : List Entry) (k : List ℕ) (v : TsItem)
    → Fresh k entries
    → set_item k v (cache_of id num entries) ≡ cache_of id num (keep num entries (k, v))
unfolding set_item
set_item-keep id num entries k v f = elim (Bool-cases (length entries == num)) [
  | inl full ↦
      rw (length-map entries, full, evict-drop id num entries)
        (added (drop 1 entries) (Fresh-drop k entries f))
  | inr room ↦ rw (length-map entries, room) (added entries f)
]
  where
    added :
        (es : List Entry)
        → Fresh k es
        → ◌≡◌ {A = TsCacheItem}
            (record { id = id; num = num; ll = map key_of es ++ (k ∷ []); lm = insert k v es })
            (cache_of id num (es ++ ((k, v) ∷ [])))
    added es f =
        ap₂
          (λ (ll : List (List ℕ)) (lm : List Entry). record {
            id = id;
            num = num;
            ll = ll;
            lm = lm;
          })
          (sym (map-append es ((k, v) ∷ []))) (insert-Fresh k v es f)

Fresh-front : (k : List ℕ) (a b : List Entry) → Fresh k (a ++ b) → Fresh k a
Fresh-front k [] b f = tt
Fresh-front k (e ∷ a) b (h, f) = (h, Fresh-front k a b f)

Fresh-at :
    (k : List ℕ) (a : List Entry) (e : Entry) (b : List Entry)
    → Fresh k (a ++ (e ∷ b))
    → (same_key e.0 k ≡ false) × (same_key k e.0 ≡ false)
Fresh-at k [] e b (h, f) = h
Fresh-at k (x ∷ a) e b (h, f) = Fresh-at k a e b f

Distinct-middle :
    (a : List Entry) (e : Entry) (b : List Entry) → Distinct (a ++ (e ∷ b)) → Fresh e.0 a
Distinct-middle [] e b d = tt
Distinct-middle (x ∷ a) e b (f, d) =
    let (h, h') = Fresh-at x.0 a e b f in ((h', h), Distinct-middle a e b d)

Distinct-drop : (a b : List Entry) → Distinct (a ++ b) → Distinct (drop 1 a ++ b)
Distinct-drop [] b d = d
Distinct-drop (x ∷ a) b (f, d) = d

Distinct-keep :
    (num : ℕ) (a : List Entry) (e : Entry) (b : List Entry)
    → Distinct (a ++ (e ∷ b))
    → Distinct (keep num a e ++ b)
Distinct-keep num a e b d = elim (Bool-cases (length a == num)) [
  | inl full ↦ rw (full, append_assoc (drop 1 a) (e ∷ []) b) (Distinct-drop a (e ∷ b) d)
  | inr room ↦ rw (room, append_assoc a (e ∷ []) b) d
]

pub set_all-keep_all :
    (id : List ℕ) (num : ℕ) (entries es : List Entry)
    → Distinct (entries ++ es)
    → set_all es (cache_of id num entries) ≡ cache_of id num (keep_all num entries es)
set_all-keep_all id num entries [] d = refl
set_all-keep_all id num entries (e ∷ es) d =
    ap (set_all es) (set_item-keep id num entries e.0 e.1 (Distinct-middle entries e es d))
    ∙ set_all-keep_all id num (keep num entries e) es (Distinct-keep num entries e es d)

pub keep_all-Distinct :
    (num : ℕ) (entries es : List Entry)
    → Distinct (entries ++ es)
    → Distinct (keep_all num entries es)
keep_all-Distinct num entries [] d = subst Distinct (append-nil entries) d
keep_all-Distinct num entries (e ∷ es) d =
    keep_all-Distinct num (keep num entries e) es (Distinct-keep num entries e es d)
