-- ===== src/Hls/Cache.antt =====
-- protocol/hls/cache.go and item.go: the segments that players can fetch. A map is a list of keys and
-- values, a key at most once. The text of a play list is written by Fprintf from the values that stand
-- in a PlayList here; durations are milliseconds.
use live.Base.{
  ℕ, ◌+◌, ◌/◌, Bool, true, false, Option, none, some, List, [], ◌∷◌, ◌++◌, if◌then◌else◌, ◌==◌, ltb,
  length,
}
use live.Amf.Value.{same_key}

pub record TsItem : Type 0 where
  pub name : List ℕ
  pub seq_num : ℕ
  pub duration : ℕ
  pub payload : List ℕ

pub record TsCacheItem : Type 0 where
  pub id : List ℕ
  pub num : ℕ
  pub ll : List (List ℕ)
  pub lm : List (List ℕ × TsItem)

unfoldable pub new_ts_cache_item : List ℕ → TsCacheItem
new_ts_cache_item id = record { id = id; num = 3; ll = []; lm = [] }

-- `lm[key]`, `lm[key] = item` and `delete(lm, key)`
unfoldable pub lookup : List ℕ → List (List ℕ × TsItem) → Option TsItem
lookup k [] = none
lookup k ((l, v) ∷ lm) = if same_key l k then some v else lookup k lm

unfoldable pub insert : List ℕ → TsItem → List (List ℕ × TsItem) → List (List ℕ × TsItem)
insert k v [] = (k, v) ∷ []
insert k v ((l, w) ∷ lm) = if same_key l k then (l, v) ∷ lm else (l, w) ∷ insert k v lm

unfoldable pub delete : List ℕ → List (List ℕ × TsItem) → List (List ℕ × TsItem)
delete k [] = []
delete k ((l, w) ∷ lm) = if same_key l k then lm else (l, w) ∷ delete k lm

-- Removing the front of an empty list panics: `num` is 3, so it is never empty then.
unfoldable pub evict : TsCacheItem → List (List ℕ) → TsCacheItem
evict c [] = c
evict c (k ∷ ll) = record c { ll = ll; lm = delete k c.lm }

unfoldable pub set_item : List ℕ → TsItem → TsCacheItem → TsCacheItem
set_item key item c =
    let c' = if length c.ll == c.num then evict c c.ll else c in
    record c' { lm = insert key item c'.lm; ll = c'.ll ++ (key ∷ []) }

-- `none` is ErrNoKey.
unfoldable pub get_item : List ℕ → TsCacheItem → Option TsItem
get_item key c = lookup key c.lm

pub record PlayList : Type 0 where
  pub target_duration : ℕ
  pub media_sequence : ℕ
  pub segments : List (ℕ × List ℕ)

-- The variables of the loop.
pub record Listing : Type 0 where
  pub seq : ℕ
  pub get_seq : Bool
  pub max_duration : ℕ
  pub body : List (ℕ × List ℕ)

unfoldable pub list_item : Option TsItem → Listing → Listing
list_item none l = l
list_item (some v) l = record {
  max_duration = if ltb l.max_duration v.duration then v.duration else l.max_duration;
  get_seq = true;
  seq = if l.get_seq then l.seq else v.seq_num;
  body = l.body ++ ((v.duration, v.name) ∷ []);
}

unfoldable pub list_loop : List (List ℕ × TsItem) → List (List ℕ) → Listing → Listing
list_loop lm [] l = l
list_loop lm (key ∷ ll) l = list_loop lm ll (list_item (lookup key lm) l)

unfoldable pub gen_m3u8_play_list : TsCacheItem → PlayList
gen_m3u8_play_list c =
    let l =
      list_loop c.lm c.ll (record { seq = 0; get_seq = false; max_duration = 0; body = [] }) in
    record {
      target_duration = l.max_duration / 1000 + 1;
      media_sequence = l.seq;
      segments = l.body;
    }
