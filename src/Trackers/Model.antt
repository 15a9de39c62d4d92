-- ===== src/Trackers/Model.antt =====
-- The tracker list of internal/engine/trackers.go. A URL is a text. `trim` and `lower` stand for
-- strings.TrimSpace and strings.ToLower, `rtt` for the round-trip times that `probeTracker` measures, in
-- nanoseconds, `live` for the answers of `probeTrackerWS`, and `sort` for sort.Slice by those times,
-- whatever the order in which the probes ended.
use stremio_server_go.Common.{
  ℕ, Bool, false, ◌&&◌, ◌||◌, not, List, [], ◌∷◌, ◌++◌, Option, none, some, map, ltb, leb, ◌==◌,
  if◌then◌else◌, take, length,
}
use stremio_server_go.Common.Text.{codes, has_prefix, same_text}

abbrev pub Url : Type 0
Url = List ℕ

abbrev pub default_tracker_top_n : ℕ
default_tracker_top_n = 5

abbrev pub probe_max_rtt : ℕ
probe_max_rtt = 3600000000000

abbrev pub embedded_trackers : List Url
embedded_trackers =
    codes "udp://tracker.opentrackr.org:1337/announce"
    ∷ (codes "udp://open.demonii.com:1337/announce"
        ∷ (codes "udp://open.stealth.si:80/announce"
            ∷ (codes "udp://tracker.torrent.eu.org:451/announce"
                ∷ (codes "udp://tracker.dler.org:6969/announce"
                    ∷ (codes "udp://tracker.qu.ax:6969/announce"
                        ∷ (codes "udp://tracker.filemail.com:6969/announce"
                            ∷ (codes "udp://tracker.ducks.party:1984/announce"
                                ∷ (codes "udp://tracker.bittor.pw:1337/announce"
                                    ∷ (codes "udp://open.free-tracker.ga:6969/announce"
                                        ∷ (codes "udp://explodie.org:6969/announce"
                                            ∷ (codes "wss://tracker.openwebtorrent.com"
                                                ∷ (codes "wss://tracker.webtorrent.dev"
                                                    ∷ (codes "wss://tracker.btorrent.xyz"
                                                        ∷ [])))))))))))))

unfoldable pub is_ws : Url → Bool
is_ws u = has_prefix u (codes "ws://") || has_prefix u (codes "wss://")

unfoldable pub is_udp : Url → Bool
is_udp u = has_prefix u (codes "udp://")

-- The schemes that `parseTrackers` keeps.
unfoldable pub is_tracker : Url → Bool
is_tracker u =
    has_prefix u (codes "udp://")
    || (has_prefix u (codes "http://")
        || (has_prefix u (codes "https://")
            || (has_prefix u (codes "ws://") || has_prefix u (codes "wss://"))))

-- The schemes that `announceableTrackers` keeps, for a URL in lower case.
unfoldable pub is_announceable : Bool → Url → Bool
unfolding is_ws
is_announceable allow_ws s =
    (has_prefix s (codes "http://")
      || (has_prefix s (codes "https://")
          || (has_prefix s (codes "udp://")
              || (has_prefix s (codes "udp4://") || has_prefix s (codes "udp6://")))))
    || (allow_ws && is_ws s)

unfoldable pub filter_by : (Url → Bool) → List Url → List Url
filter_by test [] = []
filter_by test (u ∷ us) = let rest = filter_by test us in if test u then u ∷ rest else rest

unfoldable pub is_member : Url → List Url → Bool
is_member u [] = false
is_member u (x ∷ xs) = same_text u x || is_member u xs

-- A loop that keeps what is not in `have` yet.
unfoldable pub fresh_ones : List Url → List Url → List Url
fresh_ones have [] = []
fresh_ones have (x ∷ xs) =
    let seen = fresh_ones have xs in
    let kept = fresh_ones (x ∷ have) xs in if is_member x have then seen else x ∷ kept

unfoldable pub dedup : List Url → List Url
dedup t = fresh_ones [] t

-- `strings.Split(s, "\n")`
unfoldable pub join_first : ℕ → List Url → List Url
join_first c [] = (c ∷ []) ∷ []
join_first c (l ∷ ls) = (c ∷ l) ∷ ls

unfoldable pub split_lines : List ℕ → List Url
split_lines [] = [] ∷ []
split_lines (c ∷ s) = let rest = split_lines s in if c == 10 then [] ∷ rest else join_first c rest

-- The text of the cache file: `strings.Join(ranked, "\n") + "\n"`.
unfoldable pub cache_text : List Url → List ℕ
cache_text [] = 10 ∷ []
cache_text (u ∷ []) = u ++ (10 ∷ [])
cache_text (u ∷ (v ∷ us)) = u ++ (10 ∷ cache_text (v ∷ us))

unfoldable pub merge_ws : List Url → List Url
merge_ws t = dedup t ++ fresh_ones t (filter_by is_ws embedded_trackers)

unfoldable pub rank_wss : (Url → Bool) → List Url → List Url
rank_wss live list = filter_by live (dedup (filter_by is_ws list))

module _ (trim : Url → Url) where
  unfoldable pub parse_lines : List Url → List Url
  parse_lines [] = []
  parse_lines (line ∷ lines) =
      let rest = parse_lines lines in if is_tracker (trim line) then trim line ∷ rest else rest

  -- No scheme is empty, so an empty line is not kept either.
  unfoldable pub parse_trackers : List ℕ → List Url
  parse_trackers s = parse_lines (split_lines s)

  -- `fetchTrackerList`, where `fetched` is the body of the upstream list, none when it cannot be read.
  unfoldable pub fetch_tracker_list : Option (List ℕ) → List Url
  fetch_tracker_list none = []
  fetch_tracker_list (some body) = parse_trackers body

  module _ (lower : Url → Url) where
    unfoldable pub announceable_trackers : Bool → List Url → List Url
    announceable_trackers allow_ws urls =
        filter_by (λ u. is_announceable allow_ws (lower (trim u))) urls

    unfoldable pub announceable_tiers : Bool → List (List Url) → List (List Url)
    announceable_tiers allow_ws [] = []
    announceable_tiers allow_ws (tier ∷ tiers) =
        let rest = announceable_tiers allow_ws tiers in
        let f = announceable_trackers allow_ws tier in if ltb 0 (length f) then f ∷ rest else rest

-- A probed URL with its time.
abbrev pub Result : Type 0
Result = Url × ℕ

-- The URLs of the probes that did not fail.
unfoldable pub answered : List Result → List Url
answered [] = []
answered ((u, t) ∷ rs) = let rest = answered rs in if leb probe_max_rtt t then rest else u ∷ rest

-- `probeTracker`, where `measure` is what the prober of the URL's scheme brings.
unfoldable pub probe_tracker : (Url → ℕ) → Url → ℕ
probe_tracker measure u =
    if has_prefix u (codes "udp://")
    then measure u
    else if has_prefix u (codes "http://") || has_prefix u (codes "https://")
    then measure u
    else probe_max_rtt

unfoldable pub measured : (Url → ℕ) → List Url → List Result
measured measure us = map (λ u. (u, probe_tracker measure u)) us

module _ (sort : List Result → List Result) (measure : Url → ℕ) where
  unfoldable pub rank_and_keep : List Url → ℕ → Bool → List Url
  rank_and_keep candidates top_n proxied =
      let to_probe : List Url =
        if proxied then filter_by (λ u. not (is_udp u)) candidates else candidates in
      let skipped_udp : List Url = if proxied then filter_by is_udp candidates else [] in
      take top_n (answered (sort (measured measure to_probe)) ++ skipped_udp)

unfoldable pub top_n_of : ℕ → ℕ
top_n_of max_trackers = if leb max_trackers 0 then default_tracker_top_n else max_trackers

-- `currentTrackers` and the text of the cache file.
pub record Trackers : Type 0 where
  pub current : List Url
  pub cache : Option (List ℕ)

unfoldable pub set_trackers : Trackers → List Url → Trackers
set_trackers t [] = t
set_trackers t (u ∷ us) = record t { current = u ∷ us }

module _ (trim : Url → Url) (sort : List Result → List Result) where
  -- The synchronous part of `initTrackers`.
  unfoldable pub init_trackers : Trackers → Trackers
  init_trackers t = elim t.cache [
    | none ↦ t
    | some text ↦
        if ltb 0 (length (parse_trackers trim text))
        then set_trackers t (merge_ws (parse_trackers trim text))
        else t
  ]

  -- The ranked trackers of a refresh, without the WebSocket ones.
  unfoldable pub ranked_of : (Url → ℕ) → Bool → Option (List ℕ) → ℕ → List Url
  ranked_of measure proxied fetched max_trackers =
      rank_and_keep sort measure (filter_by (λ u. not (is_ws u)) (fetch_tracker_list trim fetched))
        (top_n_of max_trackers) proxied

  -- `writes` tells whether the cache file can be written.
  unfoldable pub do_refresh_trackers :
      (Url → ℕ) → (Url → Bool) → Bool → Bool → Option (List ℕ) → ℕ → Trackers → Trackers
  do_refresh_trackers measure live proxied writes fetched max_trackers t =
      let ranked : List Url = ranked_of measure proxied fetched max_trackers in
      let wss : List Url = filter_by is_ws (fetch_tracker_list trim fetched) in
      let live_wss : List Url = rank_wss live (wss ++ filter_by is_ws embedded_trackers) in
      let saved : Trackers = if writes then record t { cache = some (cache_text ranked) } else t in
      if leb (length (fetch_tracker_list trim fetched)) 0
      then t
      else if leb (length ranked) 0
      then t
      else set_trackers saved (dedup (ranked ++ live_wss))
