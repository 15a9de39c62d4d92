-- ===== src/SegCache/System.antt =====
-- The segment cache of internal/streamproxy/cache.go under any sequence of its operations.
use stremio_server_go.Common.{
  ℕ, ◌+◌, ◌-◌, ◌≡◌, ◌≤◌, refl, sym, ap, ◌∙◌, subst, true, false, List, [], ◌∷◌, none, some, ltb,
  ◌==◌, if◌then◌else◌, length, Bool-cases, Option-cases, inl, inr, arith,
}
use stremio_server_go.Common.Weigh.{All}
use stremio_server_go.SegCache.Model.{
  CacheEntry, SegCache, find, remove, lookup, remove_locked, replaced, put_full, get_full,
  sweep_from, sweep, new_seg_cache,
}
use stremio_server_go.SegCache.Entries.{
  Fresh, Distinct, find-key, weigh-remove, length-remove, find-remove_other, find_first, All-find,
  find_each,
}
use stremio_server_go.SegCache.Invariant.{Sized, Inv, lookup-find}
use stremio_server_go.SegCache.Stores.{Good, replaced-Inv}
use stremio_server_go.SegCache.Puts.{remove_locked-Good, put_full-cases, made}

-- An entry that is read moves to the front.
touch-Good :
    (c : SegCache) (k : ℕ) (e : CacheEntry)
    → lookup c k ≡ some e
    → Good c
    → Good (record c { lru = e ∷ remove e.key c.lru })
unfolding replaced
touch-Good c k e h g =
    let found : find k c.lru ≡ some e = sym (lookup-find c k g.inv) ∙ h in
    let own : find e.key c.lru ≡ some e =
      subst (λ j. find j c.lru ≡ some e) (sym (find-key k c.lru e found)) found in
    let kept : c.total_bytes - e.size + e.size ≡ c.total_bytes =
      omega (arith, g.inv.accounts, weigh-remove e.key c.lru e own) in
    record {
      inv =
          subst (λ t. Inv (record c { total_bytes = t; lru = e ∷ remove e.key c.lru })) kept
            (replaced-Inv c e e own (All-find Sized k c.lru e g.inv.sized found) g.inv);
      bounded = record {
        bytes = g.bounded.bytes;
        entries = omega (arith, g.bounded.entries, length-remove e.key c.lru e own);
      };
    }

pub get_full-Good : (c : SegCache) (now k : ℕ) → Good c → Good (get_full c now k).0
unfolding get_full
get_full-Good c now k g = elim (Option-cases (lookup c k)) [
  | inl e ↦ subst (λ r. Good r.0) (sym (absent e)) g
  | inr (x, e) ↦ elim (Bool-cases (ltb x.expires_at now)) [
    | inl old ↦ subst (λ r. Good r.0) (sym (expired x e old)) (remove_locked-Good c k x e g)
    | inr fresh ↦ subst (λ r. Good r.0) (sym (current x e fresh)) (touch-Good c k x e g)
  ]
]
  where
    absent : lookup c k ≡ none → get_full c now k ≡ (c, none)
    absent e = ground arith

    expired :
        (x : CacheEntry)
        → lookup c k ≡ some x
        → ltb x.expires_at now ≡ true
        → get_full c now k ≡ (remove_locked c x, none)
    expired x e h = ground arith

    current :
        (x : CacheEntry)
        → lookup c k ≡ some x
        → ltb x.expires_at now ≡ false
        → get_full c now k ≡ (record c { lru = x ∷ remove x.key c.lru }, some x)
    current x e h = ground arith

-- On a good cache, a segment within the byte budget that `putFull` stores is what `getFull` of its key
-- returns, with its header and status, up to the end of its time to live; after that `getFull`
-- returns nothing.
pub get_full-put_full :
    (c : SegCache) (now later key : ℕ) (val : List ℕ) (hdr status : ℕ)
    → Good c
    → length val ≤ c.max_bytes
    → (get_full (put_full c now key val hdr status) later key).1
      ≡ (if ltb (now + c.ttl) later then none else some (made c now key val hdr status))
unfolding get_full made
get_full-put_full c now later key val hdr status g l =
    elim (put_full-cases c now key val hdr status g) [
      | inl (m, s) ↦
          let d : SegCache = put_full c now key val hdr status in
          let f : CacheEntry = made c now key val hdr status in
          let there : lookup d key ≡ some f =
            lookup-find d key s.good.inv
            ∙ (ap (λ m. find key m) s.front ∙ find_first f s.others key (ground arith)) in
          elim (Bool-cases (ltb (now + c.ttl) later)) [
            | inl old ↦ ground arith
            | inr fresh ↦ ground arith
          ]
      | inr (m, s, r) ↦ absurd (omega arith)
    ]

remove_locked_other :
    (c : SegCache) (e : CacheEntry) (k : ℕ)
    → (e.key == k) ≡ false
    → find k (remove_locked c e).lru ≡ find k c.lru
unfolding remove_locked
remove_locked_other c e k h = find-remove_other k e.key c.lru (ground arith)

sweep_from-Good :
    (c : SegCache) (now : ℕ) (es : List CacheEntry)
    → Distinct es
    → All (λ e. find e.key c.lru ≡ some e) es
    → Good c
    → Good (sweep_from c now es)
      × ((k : ℕ) → Fresh k es → find k (sweep_from c now es).lru ≡ find k c.lru)
unfolding sweep_from
sweep_from-Good c now [] d h g = (g, λ k f. refl)
sweep_from-Good c now (e ∷ es) d h g =
    let (s, keeps) = sweep_from-Good c now es d.1 h.1 g in
    let found : find e.key (sweep_from c now es).lru ≡ some e = keeps e.key d.0 ∙ h.0 in
    elim (Bool-cases (ltb e.expires_at now)) [
      | inl old ↦ subst Swept (sym (dropped old)) (
        remove_locked-Good (sweep_from c now es) e.key e
            (lookup-find (sweep_from c now es) e.key s.inv ∙ found) s,
        λ k f. remove_locked_other (sweep_from c now es) e k f.0 ∙ keeps k f.1,
      )
      | inr fresh ↦ subst Swept (sym (stays fresh)) (s, λ k f. keeps k f.1)
    ]
  where
    Swept : SegCache → Type 0
    Swept b = Good b × ((k : ℕ) → Fresh k (e ∷ es) → find k b.lru ≡ find k c.lru)

    dropped :
        ltb e.expires_at now ≡ true
        → sweep_from c now (e ∷ es) ≡ remove_locked (sweep_from c now es) e
    dropped h = ground arith

    stays : ltb e.expires_at now ≡ false → sweep_from c now (e ∷ es) ≡ sweep_from c now es
    stays h = ground arith

sweep-Good : (c : SegCache) (now : ℕ) → Good c → Good (sweep c now)
unfolding sweep
sweep-Good c now g =
    (sweep_from-Good c now c.lru g.inv.distinct (find_each c.lru g.inv.distinct) g).0

put_full-Good :
    (c : SegCache) (now key : ℕ) (val : List ℕ) (hdr status : ℕ)
    → Good c
    → Good (put_full c now key val hdr status)
put_full-Good c now key val hdr status g = elim (put_full-cases c now key val hdr status g) [
  | inl (m, s) ↦ s.good
  | inr (m, s, r) ↦ s
]

pub data Step (c : SegCache) : SegCache → Type 0 where
  stored :
      (now key : ℕ) (val : List ℕ) (hdr status : ℕ) → Step c (put_full c now key val hdr status)
  fetched : (now key : ℕ) → Step c (get_full c now key).0
  swept : (now : ℕ) → Step c (sweep c now)

pub data Reach (c : SegCache) : SegCache → Type 0 where
  here : Reach c c
  next : {d e : SegCache} → Reach c d → Step d e → Reach c e

step-Good : (c d : SegCache) → Step c d → Good c → Good d
step-Good c d (stored now key val hdr status) g = put_full-Good c now key val hdr status g
step-Good c d (fetched now key) g = get_full-Good c now key g
step-Good c d (swept now) g = sweep-Good c now g

-- Whatever operations ran on a new cache: `totalBytes` is the sum of the entries' lengths and at most
-- the byte budget, there are at most `maxEntries` entries (or one, where that is 0), no key stands in
-- the list twice, and the map has exactly the keys of the list.
pub Reach-new_seg_cache-Good :
    (ttl max_entries : ℕ) (c : SegCache) → Reach (new_seg_cache ttl max_entries) c → Good c
unfolding new_seg_cache find
Reach-new_seg_cache-Good ttl max_entries c here = record {
  inv = record { accounts = refl; sized = tt; distinct = tt; indexed = λ k. refl };
  bounded = record { bytes = omega arith; entries = omega arith };
}
Reach-new_seg_cache-Good ttl max_entries c (next {d = d} r h) =
    step-Good d c h (Reach-new_seg_cache-Good ttl max_entries d r)
