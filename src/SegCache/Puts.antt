-- ===== src/SegCache/Puts.antt =====
-- `putFull` of internal/streamproxy/cache.go, with an entry that fits the cache or does not.
use stremio_server_go.Common.{
  ℕ, ◌+◌, ◌≡◌, ◌≤◌, ◌<◌, refl, sym, ◌∙◌, subst, true, false, List, none, some, ltb, length,
  Bool-cases, Option-cases, inl, inr, ◌⊎◌, arith,
}
use stremio_server_go.SegCache.Model.{
  CacheEntry, SegCache, find, lookup, remove_locked, refuse, store, put_full,
}
use stremio_server_go.SegCache.Entries.{find-key, find-remove_self}
use stremio_server_go.SegCache.Invariant.{
  Inv, lookup-find, remove_locked-Inv, remove_locked-Bounded,
}
use stremio_server_go.SegCache.Stores.{Good, IsStored, store-IsStored}

-- An entry that is found is removed.
pub remove_locked-Good :
    (c : SegCache) (k : ℕ) (e : CacheEntry)
    → lookup c k ≡ some e
    → Good c
    → Good (remove_locked c e)
remove_locked-Good c k e h g =
    let found : find k c.lru ≡ some e = sym (lookup-find c k g.inv) ∙ h in
    let own : find e.key c.lru ≡ some e =
      subst (λ j. find j c.lru ≡ some e) (sym (find-key k c.lru e found)) found in
    record {
      inv = remove_locked-Inv c e own g.inv;
      bounded = remove_locked-Bounded c e own g.bounded;
    }

refuse-Good : (c : SegCache) (k : ℕ) → Good c → Good (refuse c k)
unfolding refuse
refuse-Good c k g = elim (Option-cases (lookup c k)) [
  | inl e ↦ subst Good (sym (absent e)) g
  | inr (x, e) ↦ subst Good (sym (present x e)) (remove_locked-Good c k x e g)
]
  where
    absent : lookup c k ≡ none → refuse c k ≡ c
    absent e = ground arith

    present : (x : CacheEntry) → lookup c k ≡ some x → refuse c k ≡ remove_locked c x
    present x e = ground arith

refuse-find : (c : SegCache) (k : ℕ) → Inv c → find k (refuse c k).lru ≡ none
unfolding refuse remove_locked
refuse-find c k v = elim (Option-cases (find k c.lru)) [
  | inl e ↦ ground (arith, lookup-find c k v)
  | inr (x, e) ↦
      ground (arith, lookup-find c k v, find-key k c.lru x e, find-remove_self k c.lru v.distinct)
]

-- The entry that `putFull` makes.
unfoldable pub made : SegCache → ℕ → ℕ → List ℕ → ℕ → ℕ → CacheEntry
made c now key val hdr status = record {
  key = key;
  val = val;
  hdr = hdr;
  status = status;
  expires_at = now + c.ttl;
  size = length val;
}

-- On a good cache, `putFull` of a segment within the byte budget leaves a good cache with that
-- segment as its most recently used entry; of a larger one, a good cache without the key.
pub put_full-cases :
    (c : SegCache) (now key : ℕ) (val : List ℕ) (hdr status : ℕ)
    → Good c
    → ((length val ≤ c.max_bytes)
        × IsStored (made c now key val hdr status) (put_full c now key val hdr status))
      ⊎ ((c.max_bytes < length val)
          × Good (put_full c now key val hdr status)
          × (find key (put_full c now key val hdr status).lru ≡ none))
unfolding put_full made
put_full-cases c now key val hdr status g = elim (Bool-cases (ltb c.max_bytes (length val))) [
  | inl large ↦ inr (
      subst Refused (sym (refused large))
        (ground arith, refuse-Good c key g, refuse-find c key g.inv))
  | inr fits ↦ inl (
    ground arith,
    subst (IsStored f) (sym (stored fits)) (store-IsStored c f refl (ground arith) g),
  )
]
  where
    f : CacheEntry
    f = made c now key val hdr status

    Refused : SegCache → Type 0
    Refused d = (c.max_bytes < length val) × Good d × (find key d.lru ≡ none)

    refused : ltb c.max_bytes (length val) ≡ true → put_full c now key val hdr status ≡ refuse c key
    refused h = ground arith

    stored : ltb c.max_bytes (length val) ≡ false → put_full c now key val hdr status ≡ store c f
    stored h = ground arith
