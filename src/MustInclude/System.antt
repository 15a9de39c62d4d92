-- ===== src/MustInclude/System.antt =====
-- The cache of internal/api/regexcache.go under any number of requests, whose critical sections interleave
-- in any order: a request that misses compiles on its own and puts its result later.
use stremio_server_go.Common.{
  ℕ, ◌≤◌, ◌≡◌, refl, true, List, [], Option, none, some, length, inl, inr, arith, Bool-cases,
  Option-cases,
}
use stremio_server_go.Common.Weigh.{All}
use stremio_server_go.MustInclude.Model.{
  must_include_cache_max, must_include_cache_max_len, MustIncludeEntry, Inst, get, keep,
  compile_must_include_one, must_include_cacheable, cached_must_include,
}
use stremio_server_go.MustInclude.Entries.{length-get, length-put, put-All, get-All}

module _ {Re : Type 0} (compile : List ℕ → Option Re) (quote : List ℕ → List ℕ)
    (program : Re → Option (List Inst)) where
  -- An entry is what its key compiles to, and small.
  pub record IsEntry (e : MustIncludeEntry Re) : Type 0 where
    pub compiled : compile_must_include_one compile quote program e.key ≡ some e.re
    pub short : length e.key ≤ must_include_cache_max_len
    pub small : must_include_cacheable compile quote program e.re ≡ true

  pub record IsValid (ll : List (MustIncludeEntry Re)) : Type 0 where
    pub entries : All IsEntry ll
    pub few : length ll ≤ must_include_cache_max

  -- The two critical sections of `cachedMustInclude`.
  pub data Step (ll : List (MustIncludeEntry Re)) : List (MustIncludeEntry Re) → Type 0 where
    got : (v : List ℕ) → length v ≤ must_include_cache_max_len → Step ll (get ll v).0
    kept :
        (v : List ℕ)
        → length v ≤ must_include_cache_max_len
        → Step ll
            (keep compile quote program ll v (compile_must_include_one compile quote program v))

  pub data Reach (ll : List (MustIncludeEntry Re)) : List (MustIncludeEntry Re) → Type 0 where
    here : Reach ll ll
    next : {k l : List (MustIncludeEntry Re)} → Reach ll k → Step k l → Reach ll l

  keep-IsValid :
      (ll : List (MustIncludeEntry Re)) (v : List ℕ) (o : Option Re)
      → compile_must_include_one compile quote program v ≡ o
      → length v ≤ must_include_cache_max_len
      → IsValid ll
      → IsValid (keep compile quote program ll v o)
  unfolding keep
  keep-IsValid ll v none c h i = i
  keep-IsValid ll v (some re) c h i =
      elim (Bool-cases (must_include_cacheable compile quote program re)) [
        | inl small ↦ rw small (record {
          entries =
              put-All IsEntry ll v re (record { compiled = c; short = h; small = small }) i.entries;
          few = length-put ll v re i.few;
        })
        | inr large ↦ rw large i
      ]

  step-IsValid : (k l : List (MustIncludeEntry Re)) → Step k l → IsValid k → IsValid l
  step-IsValid k l (got v h) i = record {
    entries = (get-All IsEntry k v i.entries).0;
    few = omega (arith, length-get k v, i.few);
  }
  step-IsValid k l (kept v h) i =
      keep-IsValid k v (compile_must_include_one compile quote program v) refl h i

  Reach-IsValid : (ll : List (MustIncludeEntry Re)) → Reach [] ll → IsValid ll
  Reach-IsValid ll here = record { entries = tt; few = omega arith }
  Reach-IsValid ll (next {k = k} r s) = step-IsValid k ll s (Reach-IsValid k r)

  cached_lem :
      (ll : List (MustIncludeEntry Re)) (v : List ℕ)
      → All IsEntry ll
      → (cached_must_include compile quote program ll v).1
        ≡ compile_must_include_one compile quote program v
  unfolding cached_must_include
  cached_lem ll v a = elim (Option-cases (get ll v).1) [
    | inl e ↦ ground arith
    | inr (re, e) ↦ found ((get-All IsEntry ll v a).1 re e).compiled e
  ]
    where
      found :
          {re : Re}
          → compile_must_include_one compile quote program v ≡ some re
          → (get ll v).1 ≡ some re
          → (cached_must_include compile quote program ll v).1
            ≡ compile_must_include_one compile quote program v
      found c e = ground arith

  -- In every state that requests can reach, however they interleave, `cachedMustInclude` returns exactly
  -- what compiling its argument would: the cache implements the pure function. And it holds at most
  -- `mustIncludeCacheMax` entries, each with a key of at most `mustIncludeCacheMaxLen` bytes and a
  -- program whose estimated size is within `mustIncludeCacheMaxProgBytes`.
  pub cached_must_include-compile_must_include_one :
      (ll : List (MustIncludeEntry Re)) (v : List ℕ)
      → Reach [] ll
      → ((cached_must_include compile quote program ll v).1
          ≡ compile_must_include_one compile quote program v)
        × IsValid ll
  cached_must_include-compile_must_include_one ll v r =
      (cached_lem ll v (Reach-IsValid ll r).entries, Reach-IsValid ll r)
