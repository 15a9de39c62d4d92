-- ===== src/Trackers/Restarting.antt =====
-- What a refresh of internal/engine/trackers.go leaves for the next start, and how many trackers it
-- announces to.
use stremio_server_go.Common.{
  ℕ, ◌+◌, ◌≤◌, ◌<◌, ◌≡◌, refl, sym, ap, ◌∙◌, subst, Bool, true, false, not, List, [], ◌∷◌, ◌++◌,
  Option, none, some, ltb, leb, if◌then◌else◌, arith, length, length-append,
}
use stremio_server_go.Common.Weigh.{All, All-imp}
use stremio_server_go.Trackers.Model.{
  Url, Result, Trackers, filter_by, is_member, is_ws, fresh_ones, dedup, merge_ws,
  embedded_trackers, rank_wss, parse_trackers, cache_text, set_trackers, init_trackers,
  fetch_tracker_list, top_n_of, ranked_of, do_refresh_trackers,
}
use stremio_server_go.Trackers.Ranking.{length-rank_and_keep}
use stremio_server_go.Trackers.Probing.{Sorts, All-filter_by, filter_by-All}
use stremio_server_go.Trackers.Cache.{
  Trims, Storable, parse_trackers-Storable, parse_trackers-cache_text,
}
use stremio_server_go.Trackers.System.{ranked_of-All, All-fresh_ones}

set_trackers_cache : (t : Trackers) (us : List Url) → (set_trackers t us).cache ≡ t.cache
unfolding set_trackers
set_trackers_cache t [] = refl
set_trackers_cache t (u ∷ us) = refl

set_trackers_current :
    (t : Trackers) (us : List Url) → 0 < length us → (set_trackers t us).current ≡ us
unfolding set_trackers
set_trackers_current t [] h = absurd (omega arith)
set_trackers_current t (u ∷ us) h = refl

length-dedup : (u : Url) (us : List Url) → 0 < length (dedup (u ∷ us))
unfolding dedup fresh_ones is_member
length-dedup u us = omega arith

length-merge_ws : (us : List Url) → 0 < length us → 0 < length (merge_ws us)
unfolding merge_ws
length-merge_ws [] h = absurd (omega arith)
length-merge_ws (u ∷ us) h = omega (
  arith,
  length-dedup u us,
  length-append (dedup (u ∷ us)) (fresh_ones (u ∷ us) (filter_by is_ws embedded_trackers)),
)

length-dedup_append : (us ws : List Url) → 0 < length us → 0 < length (dedup (us ++ ws))
length-dedup_append [] ws h = absurd (omega arith)
length-dedup_append (u ∷ us) ws h = length-dedup u (us ++ ws)

-- Dropping duplicates leaves no more of a kind.
length-filter_by-fresh_ones :
    (test : Url → Bool) (have us : List Url)
    → length (filter_by test (fresh_ones have us)) ≤ length (filter_by test us)
unfolding filter_by fresh_ones
length-filter_by-fresh_ones test have [] = omega arith
length-filter_by-fresh_ones test have (u ∷ us) = ground (
  arith,
  length-filter_by-fresh_ones test have us,
  length-filter_by-fresh_ones test (u ∷ have) us,
)

length-filter_by : (test : Url → Bool) (us : List Url) → length (filter_by test us) ≤ length us
unfolding filter_by
length-filter_by test [] = omega arith
length-filter_by test (u ∷ us) = ground (arith, length-filter_by test us)

length-filter_by-append :
    (test : Url → Bool) (us vs : List Url)
    → length (filter_by test (us ++ vs)) ≡ length (filter_by test us) + length (filter_by test vs)
unfolding filter_by
length-filter_by-append test [] vs = omega arith
length-filter_by-append test (u ∷ us) vs = ground (arith, length-filter_by-append test us vs)

filter_by_none :
    (test : Url → Bool) (us : List Url)
    → All (λ u. test u ≡ false) us
    → length (filter_by test us) ≡ 0
unfolding filter_by
filter_by_none test [] a = refl
filter_by_none test (u ∷ us) a = ground (arith, a.0, filter_by_none test us a.1)

fetch_tracker_list-Storable :
    (trim : Url → Url) (f : Option (List ℕ))
    → Trims trim
    → All (Storable trim) (fetch_tracker_list trim f)
unfolding fetch_tracker_list
fetch_tracker_list-Storable trim none trm = tt
fetch_tracker_list-Storable trim (some body) trm = parse_trackers-Storable trim body trm

rank_wss-is_ws :
    (live : Url → Bool) (us : List Url) → All (λ u. not (is_ws u) ≡ false) (rank_wss live us)
unfolding rank_wss dedup
rank_wss-is_ws live us =
    All-filter_by (λ u. not (is_ws u) ≡ false) live (fresh_ones [] (filter_by is_ws us))
      (All-fresh_ones (λ u. not (is_ws u) ≡ false) [] (filter_by is_ws us)
        (All-imp (λ u. (u ≡ u) × (is_ws u ≡ true)) (λ u. not (is_ws u) ≡ false) (filter_by is_ws us)
          (λ u h. ap not h.1) (filter_by-All (λ u. u ≡ u) is_ws us (every us))))
  where
    every : (vs : List Url) → All (λ v. v ≡ v) vs
    every [] = tt
    every (v ∷ vs) = (refl, every vs)

-- A start from a cache file that has some trackers.
init_trackers_reads :
    (trim : Url → Url) (sort : List Result → List Result) (text : List ℕ) (us : List Url)
    → parse_trackers trim text ≡ us
    → 0 < length us
    → (init_trackers trim sort (record { current = embedded_trackers; cache = some text })).current
      ≡ merge_ws us
unfolding init_trackers
init_trackers_reads trim sort text us e h =
    ap (λ vs. (if ltb 0 (length vs) then set_trackers t (merge_ws vs) else t).current) e
    ∙ chosen (ltb 0 (length us)) (set_trackers t (merge_ws us)) (ground (arith, h))
    ∙ set_trackers_current t (merge_ws us) (length-merge_ws us h)
  where
    t : Trackers
    t = record { current = embedded_trackers; cache = some text }

    chosen : (b : Bool) (x : Trackers) → b ≡ true → (if b then x else t).current ≡ x.current
    chosen b x g = ap (λ c. (if c then x else t).current) g

neither :
    (p q : Bool) (x y z : Trackers)
    → p ≡ false
    → q ≡ false
    → (if p then x else if q then y else z) ≡ z
neither p q x y z e f = ground arith

module _ (trim : Url → Url) (sort : List Result → List Result) (measure : Url → ℕ)
    (live : Url → Bool) (proxied : Bool) (fetched : Option (List ℕ)) (max_trackers : ℕ)
    (t : Trackers)
    (some_ranked : 0 < length (ranked_of trim sort measure proxied fetched max_trackers))
    (trm : Trims trim) (srt : Sorts sort) where
  abbrev ranked : List Url
  ranked = ranked_of trim sort measure proxied fetched max_trackers

  -- Where nothing was fetched nothing is ranked.
  some_fetched : leb (length (fetch_tracker_list trim fetched)) 0 ≡ false
  some_fetched = go (fetch_tracker_list trim fetched) refl
    where
      empty : (us : List Url) → All (λ _. ⊥) us → length us ≡ 0
      empty [] a = refl
      empty (u ∷ us) a = absurd a.0

      go : (us : List Url) → fetch_tracker_list trim fetched ≡ us → leb (length us) 0 ≡ false
      go (u ∷ us) e = ground arith
      go [] e = absurd (
          omega (
            arith,
            some_ranked,
            empty ranked (
                ranked_of-All trim sort trm srt (λ _. ⊥) measure proxied fetched max_trackers
                  (subst (All (λ _. ⊥)) (sym e) tt)),
          ))

  abbrev wss : List Url
  wss = filter_by is_ws (fetch_tracker_list trim fetched) ++ filter_by is_ws embedded_trackers

  refreshed_lem :
      (writes : Bool)
      → do_refresh_trackers trim sort measure live proxied writes fetched max_trackers t
        ≡ set_trackers
            (if writes then record t { cache = some (cache_text ranked) } else t)
            (dedup (ranked ++ rank_wss live wss))
  unfolding do_refresh_trackers
  refreshed_lem writes =
      neither (leb (length (fetch_tracker_list trim fetched)) 0) (leb (length ranked) 0) t t
        (set_trackers (if writes then record t { cache = some (cache_text ranked) } else t)
          (dedup (ranked ++ rank_wss live wss)))
        some_fetched (ground (arith, some_ranked))

  refreshed_current :
      (writes : Bool)
      → (do_refresh_trackers trim sort measure live proxied writes fetched max_trackers t).current
        ≡ dedup (ranked ++ rank_wss live wss)
  refreshed_current writes =
      ap (λ x. x.current) (refreshed_lem writes)
      ∙ set_trackers_current (if writes then record t { cache = some (cache_text ranked) } else t)
          (dedup (ranked ++ rank_wss live wss))
          (length-dedup_append ranked (rank_wss live wss) some_ranked)

  ranked-Storable : All (Storable trim) ranked
  ranked-Storable =
      ranked_of-All trim sort trm srt (Storable trim) measure proxied fetched max_trackers
        (fetch_tracker_list-Storable trim fetched trm)

  -- With a trimming and a sort as documented: the next start after a refresh that ranked some trackers and wrote the cache file announces to
  -- exactly those that it ranked, and to the embedded WebSocket trackers.
  pub init_trackers-do_refresh_trackers :
      (init_trackers trim sort
        (record (do_refresh_trackers trim sort measure live proxied true fetched max_trackers t) {
          current = embedded_trackers;
        })).current
      ≡ merge_ws (ranked_of trim sort measure proxied fetched max_trackers)
  init_trackers-do_refresh_trackers =
      ap
        (λ c. (init_trackers trim sort (record { current = embedded_trackers; cache = c })).current)
        (ap (λ x. x.cache) (refreshed_lem true)
          ∙ set_trackers_cache (record t { cache = some (cache_text ranked) })
              (dedup (ranked ++ rank_wss live wss)))
      ∙ init_trackers_reads trim sort (cache_text ranked) ranked
          (parse_trackers-cache_text trim ranked trm.blank ranked-Storable) some_ranked

  -- With a trimming and a sort as documented: after a refresh that ranked some trackers, at most `maxTrackers` of the list (`defaultTrackerTopN` if
  -- that is 0) are no WebSocket trackers.
  pub do_refresh_trackers-top_n_of :
      (writes : Bool)
      → length (
          filter_by
            (λ u. not (is_ws u))
            (do_refresh_trackers trim sort measure live proxied writes fetched max_trackers
              t).current)
        ≤ top_n_of max_trackers
  unfolding dedup ranked_of
  do_refresh_trackers-top_n_of writes =
      let test : Url → Bool = λ u. not (is_ws u) in
      let others : List Url = rank_wss live wss in
      omega (
        arith,
        ap (λ us. length (filter_by test us)) (refreshed_current writes),
        length-filter_by-fresh_ones test [] (ranked ++ others),
        length-filter_by-append test ranked others,
        filter_by_none test others (rank_wss-is_ws live wss),
        length-filter_by test ranked,
        length-rank_and_keep sort measure srt (filter_by test (fetch_tracker_list trim fetched))
            (top_n_of max_trackers) proxied,
      )
