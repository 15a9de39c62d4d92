-- ===== src/Trackers/Tests.antt =====
-- The tracker list on small inputs, and the theorems at concrete ones.
use stremio_server_go.Common.{
  ℕ, ◌≤◌, ◌<◌, ◌≡◌, refl, ap, true, false, not, List, [], ◌∷◌, none, some, ◌==◌, if◌then◌else◌,
  length, inl, inr, arith, Bool-cases,
}
use stremio_server_go.Common.Weigh.{All}
use stremio_server_go.Common.Text.{codes, has_prefix, same_text}
use stremio_server_go.Trackers.Model.{
  Url, Result, Trackers, filter_by, is_member, is_ws, is_tracker, is_announceable, fresh_ones,
  dedup, merge_ws, embedded_trackers, answered, measured, probe_tracker, probe_max_rtt,
  rank_and_keep, rank_wss, split_lines, join_first, parse_lines, parse_trackers, set_trackers,
  init_trackers, fetch_tracker_list, top_n_of, ranked_of, do_refresh_trackers, announceable_tiers,
}
use stremio_server_go.Trackers.Announcing.{concat, Announceable, announceable_tiers-Announceable}
use stremio_server_go.Trackers.Ranking.{rank_and_keep-Kept}
use stremio_server_go.Trackers.Probing.{Sorts, Kept}
use stremio_server_go.Trackers.Cache.{NoNewline, Trims}
use stremio_server_go.Trackers.System.{
  IsValid, here, next, refreshed, Reach-embedded_trackers-IsValid,
}
use stremio_server_go.Trackers.Restarting.{
  init_trackers-do_refresh_trackers, do_refresh_trackers-top_n_of,
}

-- Leading spaces are dropped.
unfoldable trim_left : Url → Url
trim_left [] = []
trim_left (c ∷ s) = let rest = trim_left s in if c == 32 then rest else c ∷ s

trim_left_again : (u : Url) → trim_left (trim_left u) ≡ trim_left u
unfolding trim_left
trim_left_again [] = refl
trim_left_again (c ∷ s) = ground (arith, trim_left_again s)

trim_left-NoNewline : (u : Url) → NoNewline u → NoNewline (trim_left u)
unfolding trim_left
trim_left-NoNewline [] h = tt
trim_left-NoNewline (c ∷ s) h = elim (Bool-cases (c == 32)) [
  | inl space ↦ rw space (trim_left-NoNewline s h.1)
  | inr other ↦ rw other h
]

trim_left-Trims : Trims trim_left
unfolding trim_left
trim_left-Trims = record { blank = refl; again = trim_left_again; part = trim_left-NoNewline }

-- Enough for a list in which the probes ended in the order of their times.
unfoldable in_order : List Result → List Result
in_order rs = rs

in_order-Sorts : Sorts in_order
unfolding in_order
in_order-Sorts = record { kept = λ rs P a. a; whole = λ rs P a. a }

abbrev body : List ℕ
body = codes "udp://a\n wss://b\nftp://c\nudp://d\nudp://a"

-- udp://a answers and udp://d does not.
unfoldable times : Url → ℕ
times u = if is_member (codes "udp://a") (u ∷ []) then 5 else probe_max_rtt

abbrev at_start : Trackers
at_start = record { current = embedded_trackers; cache = none }

parsed :
    parse_trackers trim_left body
    ≡ codes "udp://a" ∷ (codes "wss://b" ∷ (codes "udp://d" ∷ (codes "udp://a" ∷ [])))
unfolding parse_trackers parse_lines split_lines join_first trim_left is_tracker has_prefix
parsed = refl

abbrev refresh : Trackers
refresh =
    do_refresh_trackers trim_left in_order times (λ _. false) false true (some body) 4 at_start

refreshed_once : refresh.current ≡ codes "udp://a" ∷ []
unfolding do_refresh_trackers ranked_of fetch_tracker_list rank_and_keep rank_wss dedup fresh_ones
    is_member same_text in_order times set_trackers parse_trackers parse_lines split_lines
    join_first trim_left is_tracker has_prefix is_ws filter_by answered measured probe_tracker
    top_n_of
refreshed_once = refl

ranked_once :
    ranked_of trim_left in_order times false (some body) 4
    ≡ codes "udp://a" ∷ (codes "udp://a" ∷ [])
unfolding ranked_of fetch_tracker_list rank_and_keep is_member same_text in_order times
    parse_trackers parse_lines split_lines join_first trim_left is_tracker has_prefix is_ws
    filter_by answered measured probe_tracker top_n_of
ranked_once = refl

Reach-embedded_trackers-IsValid_example : IsValid refresh
Reach-embedded_trackers-IsValid_example =
    Reach-embedded_trackers-IsValid trim_left in_order trim_left-Trims in_order-Sorts none refresh
      (next here (refreshed times (λ _. false) false true (some body) 4))

init_trackers-do_refresh_trackers_example :
    (init_trackers trim_left in_order (record refresh { current = embedded_trackers })).current
    ≡ merge_ws (ranked_of trim_left in_order times false (some body) 4)
init_trackers-do_refresh_trackers_example =
    init_trackers-do_refresh_trackers trim_left in_order times (λ _. false) false (some body) 4
      at_start (omega (arith, ap (λ l. length l) ranked_once)) trim_left-Trims in_order-Sorts

do_refresh_trackers-top_n_of_example :
    length (filter_by (λ u. not (is_ws u)) refresh.current) ≤ top_n_of 4
do_refresh_trackers-top_n_of_example =
    do_refresh_trackers-top_n_of trim_left in_order times (λ _. false) false (some body) 4 at_start
      (omega (arith, ap (λ l. length l) ranked_once)) trim_left-Trims in_order-Sorts true

abbrev two : List Url
two = codes "udp://a" ∷ (codes "http://d" ∷ [])

rank_and_keep-Kept_example :
    (length (rank_and_keep in_order times two 3 true) ≤ 3)
    × All
        (λ u. (is_member u two ≡ true) × Kept times true u)
        (rank_and_keep in_order times two 3 true)
    × (length (rank_and_keep in_order times two 3 true) < 3
        → (u : Url) → is_member u two ≡ true
        → probe_tracker times u < probe_max_rtt
        → is_member u (rank_and_keep in_order times two 3 true) ≡ true)
rank_and_keep-Kept_example = rank_and_keep-Kept in_order times in_order-Sorts two 3 true

announceable_tiers-Announceable_example :
    All
      (λ t. (0 < length t) × All (Announceable (λ u. trim_left (trim_left u)) false) t)
      (announceable_tiers trim_left trim_left false (two ∷ ((codes "wss://b" ∷ []) ∷ [])))
    × (concat (announceable_tiers trim_left trim_left false (two ∷ ((codes "wss://b" ∷ []) ∷ [])))
        ≡ filter_by
            (λ u. is_announceable false (trim_left (trim_left u)))
            (concat (two ∷ ((codes "wss://b" ∷ []) ∷ []))))
announceable_tiers-Announceable_example =
    announceable_tiers-Announceable trim_left trim_left false (two ∷ ((codes "wss://b" ∷ []) ∷ []))
