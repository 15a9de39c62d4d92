-- ===== src/SegCache/Invariant.antt =====
-- The account, the index and the bounds of the cache of internal/streamproxy/cache.go.
use stremio_server_go.Common.{
  ℕ, ◌≡◌, ◌≤◌, refl, sym, ap, ◌∙◌, Bool, true, false, List, [], ◌∷◌, ◌++◌, Option, none, some, ◌==◌,
  length, Bool-cases, Option-cases, inl, inr, arith, max,
}
use mathlib.Core.List.{append_assoc, append-nil}
use stremio_server_go.Common.Weigh.{weigh, All}
use stremio_server_go.SegCache.Model.{CacheEntry, SegCache, find, back, lookup, remove_locked}
use stremio_server_go.SegCache.Entries.{
  size_of, Distinct, weigh-remove, length-remove, All-remove, Distinct-remove, find-remove_self,
  find-remove_other, remove-back,
}

abbrev pub holds : Option CacheEntry → Bool
holds none = false
holds (some e) = true

abbrev pub Sized : CacheEntry → Type 0
Sized e = e.size ≡ length e.val

pub record Inv (c : SegCache) : Type 0 where
  pub accounts : c.total_bytes ≡ weigh size_of c.lru
  pub sized : All Sized c.lru
  pub distinct : Distinct c.lru
  pub indexed : (k : ℕ) → c.items k ≡ holds (find k c.lru)

-- The bounds of the cache; a cache for no entries still keeps the last one stored.
pub record Bounded (c : SegCache) : Type 0 where
  pub bytes : c.total_bytes ≤ c.max_bytes
  pub entries : length c.lru ≤ max c.max_entries 1

pub lookup-find : (c : SegCache) (k : ℕ) → Inv c → lookup c k ≡ find k c.lru
unfolding lookup
lookup-find c k v = elim (Option-cases (find k c.lru)) [
  | inl e ↦ ground (arith, v.indexed k)
  | inr (f, e) ↦ ground (arith, v.indexed k)
]

pub remove_locked-Inv :
    (c : SegCache) (e : CacheEntry) → find e.key c.lru ≡ some e → Inv c → Inv (remove_locked c e)
unfolding remove_locked
remove_locked-Inv c e h v = record {
  accounts = omega (arith, weigh-remove e.key c.lru e h, v.accounts);
  sized = All-remove Sized e.key c.lru v.sized;
  distinct = Distinct-remove e.key c.lru v.distinct;
  indexed = λ k. elim (Bool-cases (k == e.key)) [
    | inl same ↦ ground (arith, find-remove_self e.key c.lru v.distinct)
    | inr other ↦ ground (arith, find-remove_other k e.key c.lru other, v.indexed k)
  ];
}

pub remove_locked-Bounded :
    (c : SegCache) (e : CacheEntry)
    → find e.key c.lru ≡ some e
    → Bounded c
    → Bounded (remove_locked c e)
unfolding remove_locked
remove_locked-Bounded c e h b = record {
  bytes = omega arith;
  entries = omega (arith, length-remove e.key c.lru e h);
}

-- The entries from some place of the list on are evicted.
pub record Trimmed (c d : SegCache) : Type 0 where
  pub inv : Inv d
  pub same_max_bytes : d.max_bytes ≡ c.max_bytes
  pub same_max_entries : d.max_entries ≡ c.max_entries
  pub evicted : List CacheEntry
  pub rest : c.lru ≡ d.lru ++ evicted

pub stay-Trimmed : (c : SegCache) → Inv c → Trimmed c c
stay-Trimmed c v = record {
  inv = v;
  same_max_bytes = refl;
  same_max_entries = refl;
  evicted = [];
  rest = sym (append-nil c.lru);
}

pub back-Trimmed :
    (c d : SegCache) (e : CacheEntry)
    → Inv c
    → back c.lru ≡ some e
    → Trimmed (remove_locked c e) d
    → Trimmed c d
unfolding remove_locked
back-Trimmed c d e v b h = record {
  inv = h.inv;
  same_max_bytes = h.same_max_bytes;
  same_max_entries = h.same_max_entries;
  evicted = h.evicted ++ (e ∷ []);
  rest =
      remove-back c.lru e v.distinct b
      ∙ (ap (λ l. l ++ (e ∷ [])) h.rest ∙ append_assoc d.lru h.evicted (e ∷ []));
}
