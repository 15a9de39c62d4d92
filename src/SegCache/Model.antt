-- ===== src/SegCache/Model.antt =====
-- `segCache` of internal/streamproxy/cache.go. `lru` is its list, the most recently used entry first;
-- `items` tells which keys the map has, the element of a key being the entry of the list with that
-- key. A key and a header stand for themselves as numbers, `now` is the time that `time.Now` returned.
use stremio_server_go.Common.{
  ℕ, zero, suc, ◌+◌, ◌-◌, Bool, true, false, ◌||◌, ◌&&◌, not, List, [], ◌∷◌, Option, none, some,
  ltb, leb, ◌==◌, if◌then◌else◌, length,
}

pub record CacheEntry : Type 0 where
  pub key : ℕ
  pub val : List ℕ
  pub hdr : ℕ
  pub status : ℕ
  pub expires_at : ℕ
  pub size : ℕ

pub record SegCache : Type 0 where
  pub ttl : ℕ
  pub max_entries : ℕ
  pub max_bytes : ℕ
  pub total_bytes : ℕ
  pub items : ℕ → Bool
  pub lru : List CacheEntry

unfoldable pub default_cache_max_bytes : ℕ
default_cache_max_bytes = 268435456

unfoldable pub new_seg_cache : ℕ → ℕ → SegCache
new_seg_cache ttl max_entries = record {
  ttl = ttl;
  max_entries = max_entries;
  max_bytes = default_cache_max_bytes;
  total_bytes = 0;
  items = λ k. false;
  lru = [];
}

unfoldable pub find : ℕ → List CacheEntry → Option CacheEntry
find k [] = none
find k (e ∷ es) = if e.key == k then some e else find k es

-- `list.Remove` of the element with key `k`.
unfoldable pub remove : ℕ → List CacheEntry → List CacheEntry
remove k [] = []
remove k (e ∷ es) = if e.key == k then es else e ∷ remove k es

unfoldable pub back : List CacheEntry → Option CacheEntry
back [] = none
back (e ∷ es) = elim (back es) [ none ↦ some e | some f ↦ some f ]

-- `c.items[key]`, and the entry of the element.
unfoldable pub lookup : SegCache → ℕ → Option CacheEntry
lookup c k = if c.items k then find k c.lru else none

-- `items[k] = …` and `delete(items, k)`.
abbrev pub set_item : (ℕ → Bool) → ℕ → Bool → ℕ → Bool
set_item items k b j = if j == k then b else items j

unfoldable pub remove_locked : SegCache → CacheEntry → SegCache
remove_locked c e = record c {
  total_bytes = c.total_bytes - e.size;
  items = set_item c.items e.key false;
  lru = remove e.key c.lru;
}

-- The eviction loop after a replacement, which spares the entry `k`.
unfoldable pub shrink : ℕ → SegCache → ℕ → SegCache
shrink zero c k = c
shrink (suc fuel) c k = elim (back c.lru) [
  | none ↦ c
  | some e ↦
      let rest = shrink fuel (remove_locked c e) k in
      if ltb c.max_bytes c.total_bytes && not (e.key == k) then rest else c
]

-- The eviction loop before an insertion of `need` bytes.
unfoldable pub make_room : ℕ → SegCache → ℕ → SegCache
make_room zero c need = c
make_room (suc fuel) c need = elim (back c.lru) [
  | none ↦ c
  | some e ↦
      let rest = make_room fuel (remove_locked c e) need in
      if leb c.max_entries (length c.lru) || ltb c.max_bytes (c.total_bytes + need) then rest else c
]

-- An entry of the cache is replaced, at the front.
unfoldable pub replaced : SegCache → CacheEntry → CacheEntry → SegCache
replaced c e f = record c {
  total_bytes = (c.total_bytes - e.size) + f.size;
  lru = f ∷ remove e.key c.lru;
}

unfoldable pub replace : SegCache → CacheEntry → CacheEntry → SegCache
replace c e f = let d = replaced c e f in shrink (suc (length d.lru)) d f.key

-- A new entry is pushed to the front.
unfoldable pub push : SegCache → CacheEntry → SegCache
push c f = record c {
  total_bytes = c.total_bytes + f.size;
  items = set_item c.items f.key true;
  lru = f ∷ c.lru;
}

unfoldable pub insert : SegCache → CacheEntry → SegCache
insert c f = push (make_room (suc (length c.lru)) c f.size) f

-- The entry is too large to be stored.
unfoldable pub refuse : SegCache → ℕ → SegCache
refuse c k = elim (lookup c k) [ none ↦ c | some e ↦ remove_locked c e ]

unfoldable pub store : SegCache → CacheEntry → SegCache
store c f = elim (lookup c f.key) [ none ↦ insert c f | some e ↦ replace c e f ]

unfoldable pub put_full : SegCache → ℕ → ℕ → List ℕ → ℕ → ℕ → SegCache
put_full c now key val hdr status =
    if ltb c.max_bytes (length val)
    then refuse c key
    else store c (record {
      key = key;
      val = val;
      hdr = hdr;
      status = status;
      expires_at = now + c.ttl;
      size = length val;
    })

unfoldable pub get_full : SegCache → ℕ → ℕ → SegCache × Option CacheEntry
get_full c now key = elim (lookup c key) [
  | none ↦ (c, none)
  | some e ↦
      if ltb e.expires_at now
      then (remove_locked c e, none)
      else (record c { lru = e ∷ remove e.key c.lru }, some e)
]

-- The walk of `sweep` from the back to the front of the elements that the list had.
unfoldable pub sweep_from : SegCache → ℕ → List CacheEntry → SegCache
sweep_from c now [] = c
sweep_from c now (e ∷ es) =
    let d = sweep_from c now es in if ltb e.expires_at now then remove_locked d e else d

unfoldable pub sweep : SegCache → ℕ → SegCache
sweep c now = sweep_from c now c.lru
