-- ===== src/Trackers/System.antt =====
-- The tracker list of internal/engine/trackers.go over any number of refreshes and restarts.
use stremio_server_go.Common.{
  ℕ, ◌<◌, ◌≡◌, refl, Bool, true, false, not, List, [], ◌∷◌, ◌++◌, Option, none, some, ltb, leb,
  if◌then◌else◌, inl, inr, arith, Bool-cases, length,
}
use stremio_server_go.Common.Weigh.{All, All-imp, All-append}
use stremio_server_go.Common.Text.{has_prefix, same_text}
use stremio_server_go.Trackers.Model.{
  Url, Result, Trackers, filter_by, is_member, is_ws, is_tracker, fresh_ones, dedup, merge_ws,
  embedded_trackers, rank_and_keep, rank_wss, parse_trackers, cache_text, set_trackers,
  init_trackers, fetch_tracker_list, top_n_of, ranked_of, do_refresh_trackers,
}
use stremio_server_go.Trackers.Lists.{Distinct, fresh_ones-Distinct, merge_ws_lem}
use stremio_server_go.Trackers.Ranking.{rank_and_keep-All}
use stremio_server_go.Trackers.Probing.{Sorts, All-filter_by}
use stremio_server_go.Trackers.Cache.{Trims, Storable, parse_trackers-Storable}

abbrev pub IsTracker : Url → Type 0
IsTracker u = is_tracker u ≡ true

-- There are trackers, no two are equal, and each has a scheme of a tracker.
pub record IsValid (t : Trackers) : Type 0 where
  pub some_left : 0 < length t.current
  pub distinct : Distinct t.current
  pub schemes : All IsTracker t.current

embedded-Distinct : Distinct embedded_trackers
unfolding is_member same_text
embedded-Distinct = (
  refl,
  (
    refl,
    (
      refl,
      (refl, (refl, (refl, (refl, (refl, (refl, (refl, (refl, (refl, (refl, (refl, tt))))))))))),
    ),
  ),
)

embedded-IsTracker : All IsTracker embedded_trackers
unfolding is_tracker has_prefix
embedded-IsTracker = (
  refl,
  (
    refl,
    (
      refl,
      (refl, (refl, (refl, (refl, (refl, (refl, (refl, (refl, (refl, (refl, (refl, tt))))))))))),
    ),
  ),
)

pub All-fresh_ones : (P : Url → Type 0) (have us : List Url) → All P us → All P (fresh_ones have us)
unfolding fresh_ones
All-fresh_ones P have [] a = tt
All-fresh_ones P have (u ∷ us) a = elim (Bool-cases (is_member u have)) [
  | inl seen ↦ rw seen (All-fresh_ones P have us a.1)
  | inr new ↦ rw new (a.0, All-fresh_ones P (u ∷ have) us a.1)
]

set_trackers-IsValid :
    (t : Trackers) (us : List Url)
    → IsValid t
    → Distinct us
    → All IsTracker us
    → IsValid (set_trackers t us)
unfolding set_trackers
set_trackers-IsValid t [] v d a = v
set_trackers-IsValid t (u ∷ us) v d a = record {
  some_left = omega arith;
  distinct = d;
  schemes = a;
}

parse_trackers-IsTracker :
    (trim : Url → Url) (s : List ℕ) → Trims trim → All IsTracker (parse_trackers trim s)
parse_trackers-IsTracker trim s t =
    All-imp (Storable trim) IsTracker (parse_trackers trim s) (λ u h. h.scheme)
      (parse_trackers-Storable trim s t)

merge_ws-IsTracker : (us : List Url) → All IsTracker us → All IsTracker (merge_ws us)
unfolding merge_ws dedup
merge_ws-IsTracker us a =
    All-append IsTracker (fresh_ones [] us) (fresh_ones us (filter_by is_ws embedded_trackers))
      (All-fresh_ones IsTracker [] us a)
      (All-fresh_ones IsTracker us (filter_by is_ws embedded_trackers)
        (All-filter_by IsTracker is_ws embedded_trackers embedded-IsTracker))

-- Either of two lists, whatever the test.
chosen : (b : Bool) (x y : Trackers) → IsValid x → IsValid y → IsValid (if b then x else y)
chosen true x y a b = a
chosen false x y a b = b

module _ (trim : Url → Url) (sort : List Result → List Result) (trm : Trims trim)
    (srt : Sorts sort) where
  init_trackers-IsValid : (t : Trackers) → IsValid t → IsValid (init_trackers trim sort t)
  unfolding init_trackers
  init_trackers-IsValid t v = go t.cache
    where
      go :
          (c : Option (List ℕ))
          → IsValid (elim c as (λ _. Trackers) [
            | none ↦ t
            | some text ↦
                if ltb 0 (length (parse_trackers trim text))
                then set_trackers t (merge_ws (parse_trackers trim text))
                else t
          ])
      go none = v
      go (some text) =
          let us : List Url = parse_trackers trim text in
          chosen (ltb 0 (length us)) (set_trackers t (merge_ws us)) t
            (set_trackers-IsValid t (merge_ws us) v (merge_ws_lem us).0
              (merge_ws-IsTracker us (parse_trackers-IsTracker trim text trm)))
            v

  fetch_tracker_list-IsTracker :
      (fetched : Option (List ℕ)) → All IsTracker (fetch_tracker_list trim fetched)
  unfolding fetch_tracker_list
  fetch_tracker_list-IsTracker none = tt
  fetch_tracker_list-IsTracker (some body) = parse_trackers-IsTracker trim body trm

  pub ranked_of-All :
      (P : Url → Type 0) (measure : Url → ℕ) (proxied : Bool) (fetched : Option (List ℕ))
      (max_trackers : ℕ)
      → All P (fetch_tracker_list trim fetched)
      → All P (ranked_of trim sort measure proxied fetched max_trackers)
  unfolding ranked_of
  ranked_of-All P measure proxied fetched n a =
      let us : List Url = filter_by (λ u. not (is_ws u)) (fetch_tracker_list trim fetched) in
      All-imp (λ u. P u × _) P (rank_and_keep sort measure us (top_n_of n) proxied) (λ u h. h.0)
        (rank_and_keep-All sort measure srt P us (top_n_of n) proxied
          (All-filter_by P (λ u. not (is_ws u)) (fetch_tracker_list trim fetched) a))

  do_refresh_trackers-IsValid :
      (measure : Url → ℕ) (live : Url → Bool) (proxied writes : Bool) (fetched : Option (List ℕ))
      (max_trackers : ℕ) (t : Trackers)
      → IsValid t
      → IsValid (do_refresh_trackers trim sort measure live proxied writes fetched max_trackers t)
  unfolding do_refresh_trackers rank_wss dedup
  do_refresh_trackers-IsValid measure live proxied writes fetched n t v =
      chosen (leb (length all) 0) t
        (if leb (length ranked) 0
          then t
          else set_trackers saved (fresh_ones [] (ranked ++ live_wss)))
        v
        (chosen (leb (length ranked) 0) t (set_trackers saved (fresh_ones [] (ranked ++ live_wss)))
          v
          (set_trackers-IsValid saved (fresh_ones [] (ranked ++ live_wss)) (saved-IsValid writes)
            (fresh_ones-Distinct [] (ranked ++ live_wss))
            (All-fresh_ones IsTracker [] (ranked ++ live_wss) (
              All-append IsTracker ranked live_wss
                (ranked_of-All IsTracker measure proxied fetched n fetched-IsTracker)
                (All-filter_by IsTracker live (fresh_ones [] (filter_by is_ws wss)) (
                  All-fresh_ones IsTracker [] (filter_by is_ws wss)
                    (All-filter_by IsTracker is_ws wss wss-IsTracker)))))))
    where
      all : List Url
      all = fetch_tracker_list trim fetched

      ranked : List Url
      ranked = ranked_of trim sort measure proxied fetched n

      wss : List Url
      wss = filter_by is_ws all ++ filter_by is_ws embedded_trackers

      live_wss : List Url
      live_wss = filter_by live (fresh_ones [] (filter_by is_ws wss))

      saved : Trackers
      saved = if writes then record t { cache = some (cache_text ranked) } else t

      fetched-IsTracker : All IsTracker all
      fetched-IsTracker = fetch_tracker_list-IsTracker fetched

      wss-IsTracker : All IsTracker wss
      wss-IsTracker =
          All-append IsTracker (filter_by is_ws all) (filter_by is_ws embedded_trackers)
            (All-filter_by IsTracker is_ws all fetched-IsTracker)
            (All-filter_by IsTracker is_ws embedded_trackers embedded-IsTracker)

      saved-IsValid :
          (b : Bool) → IsValid (if b then record t { cache = some (cache_text ranked) } else t)
      saved-IsValid true = record {
        some_left = v.some_left;
        distinct = v.distinct;
        schemes = v.schemes;
      }
      saved-IsValid false = v

  -- A start reads the cache file; the process starts with the embedded list.
  pub data Step (t : Trackers) : Trackers → Type 0 where
    started : Step t (init_trackers trim sort (record t { current = embedded_trackers }))
    refreshed :
        (measure : Url → ℕ) (live : Url → Bool) (proxied writes : Bool) (fetched : Option (List ℕ))
        (max_trackers : ℕ)
        → Step t (do_refresh_trackers trim sort measure live proxied writes fetched max_trackers t)

  pub data Reach (t : Trackers) : Trackers → Type 0 where
    here : Reach t t
    next : {s u : Trackers} → Reach t s → Step s u → Reach t u

  step-IsValid : (s u : Trackers) → Step s u → IsValid s → IsValid u
  step-IsValid s u started v =
      init_trackers-IsValid (record s { current = embedded_trackers })
        (record {
          some_left = omega arith;
          distinct = embedded-Distinct;
          schemes = embedded-IsTracker;
        })
  step-IsValid s u (refreshed measure live proxied writes fetched n) v =
      do_refresh_trackers-IsValid measure live proxied writes fetched n s v

  -- With a trimming and a sort as documented, after any starts and refreshes, whatever the upstream list, the probes and an earlier cache file say:
  -- there is a tracker, no two are equal, and each has a scheme of a tracker.
  pub Reach-embedded_trackers-IsValid :
      (c : Option (List ℕ)) (t : Trackers)
      → Reach (record { current = embedded_trackers; cache = c }) t
      → IsValid t
  Reach-embedded_trackers-IsValid c t here = record {
    some_left = omega arith;
    distinct = embedded-Distinct;
    schemes = embedded-IsTracker;
  }
  Reach-embedded_trackers-IsValid c t (next {s = s} r p) =
      step-IsValid s t p (Reach-embedded_trackers-IsValid c s r)
