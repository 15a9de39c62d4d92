-- ===== src/SegCache/Tests.antt =====
-- Runs of the segment cache, and its theorems at inputs that meet their hypotheses.
use stremio_server_go.Common.{
  ℕ, ◌+◌, ◌≡◌, ◌≤◌, ◌<◌, refl, List, [], ◌∷◌, none, some, ltb, if◌then◌else◌, ◌⊎◌, arith,
}
use stremio_server_go.SegCache.Model.{
  default_cache_max_bytes, CacheEntry, SegCache, find, remove, back, lookup, remove_locked,
  make_room, push, insert, store, put_full, get_full, new_seg_cache,
}
use stremio_server_go.SegCache.Stores.{Good, IsStored}
use stremio_server_go.SegCache.Puts.{put_full-cases, made}
use stremio_server_go.SegCache.System.{
  Reach, here, next, stored, fetched, Reach-new_seg_cache-Good, get_full-put_full,
}

-- Room for two segments; the first is read before a third comes.
abbrev one : SegCache
one = put_full (new_seg_cache 60 2) 100 7 (1 ∷ (2 ∷ (3 ∷ []))) 0 200

abbrev two : SegCache
two = put_full one 101 8 (4 ∷ (5 ∷ [])) 0 200

abbrev read_first : SegCache
read_first = (get_full two 102 7).0

abbrev three : SegCache
three = put_full read_first 103 9 (6 ∷ []) 0 200

abbrev keys : List CacheEntry → List ℕ
keys [] = []
keys (e ∷ es) = e.key ∷ keys es

three_keys : keys three.lru ≡ 9 ∷ (7 ∷ [])
unfolding put_full get_full store lookup insert push make_room back remove_locked remove find
    new_seg_cache default_cache_max_bytes
three_keys = refl

one_reached : Reach (new_seg_cache 60 2) one
one_reached = next here (stored 100 7 (1 ∷ (2 ∷ (3 ∷ []))) 0 200)

three_reached : Reach (new_seg_cache 60 2) three
three_reached =
    next (next (next one_reached (stored 101 8 (4 ∷ (5 ∷ [])) 0 200)) (fetched 102 7))
      (stored 103 9 (6 ∷ []) 0 200)

Reach-new_seg_cache-Good_example : Good three
Reach-new_seg_cache-Good_example = Reach-new_seg_cache-Good 60 2 three three_reached

one-Good : Good one
one-Good = Reach-new_seg_cache-Good 60 2 one one_reached

one-max_bytes : 2 ≤ one.max_bytes
unfolding put_full store lookup insert push make_room back new_seg_cache default_cache_max_bytes
one-max_bytes = omega arith

get_full-put_full_example :
    (get_full (put_full one 110 8 (4 ∷ (5 ∷ [])) 0 200) 120 8).1
    ≡ (if ltb (110 + one.ttl) 120 then none else some (made one 110 8 (4 ∷ (5 ∷ [])) 0 200))
get_full-put_full_example =
    get_full-put_full one 110 120 8 (4 ∷ (5 ∷ [])) 0 200 one-Good one-max_bytes

put_full-cases_example :
    ((2 ≤ one.max_bytes)
      × IsStored (made one 110 7 (4 ∷ (5 ∷ [])) 0 200) (put_full one 110 7 (4 ∷ (5 ∷ [])) 0 200))
    ⊎ ((one.max_bytes < 2)
        × Good (put_full one 110 7 (4 ∷ (5 ∷ [])) 0 200)
        × (find 7 (put_full one 110 7 (4 ∷ (5 ∷ [])) 0 200).lru ≡ none))
put_full-cases_example = put_full-cases one 110 7 (4 ∷ (5 ∷ [])) 0 200 one-Good
