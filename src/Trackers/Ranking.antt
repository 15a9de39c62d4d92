-- ===== src/Trackers/Ranking.antt =====
-- Which trackers `rankAndKeep` of internal/engine/trackers.go keeps.
use stremio_server_go.Common.{
  ℕ, ◌≤◌, ◌<◌, ◌≡◌, refl, ap, ◌∙◌, Bool, true, false, not, List, [], ◌∷◌, ◌++◌, leb, if◌then◌else◌,
  inl, inr, arith, Bool-cases, length, take, length-take,
}
use stremio_server_go.Common.Weigh.{All, All-imp, All-append}
use stremio_server_go.Trackers.Model.{
  Url, Result, filter_by, is_member, is_udp, answered, measured, probe_tracker, probe_max_rtt,
  rank_and_keep,
}
use stremio_server_go.Trackers.Lists.{is_member-append, is_member-filter_by}
use stremio_server_go.Trackers.Probing.{
  Sorts, All-take, All-filter_by, filter_by-All, All-measured, All-answered, answered_within,
  member-All, member_self, take_all, measured-All, Kept,
}

module _ (sort : List Result → List Result) (measure : Url → ℕ) (srt : Sorts sort) where
  probed-All :
      (P : Url → Type 0) (us : List Url)
      → All P us
      → All
          (λ u. P u × (probe_tracker measure u < probe_max_rtt))
          (answered (sort (measured measure us)))
  probed-All P us a = All-answered P measure (sort (measured measure us)) (
      srt.kept (measured measure us) (λ r. P r.0 × (r.1 ≡ probe_tracker measure r.0))
        (All-measured P measure us a))

  pub rank_and_keep-All :
      (P : Url → Type 0) (candidates : List Url) (top_n : ℕ) (proxied : Bool)
      → All P candidates
      → All
          (λ u. P u × Kept measure proxied u)
          (rank_and_keep sort measure candidates top_n proxied)
  unfolding rank_and_keep
  rank_and_keep-All P us n false a =
      All-take (λ u. P u × Kept measure false u) n (answered (sort (measured measure us)) ++ [])
        (All-append (λ u. P u × Kept measure false u) (answered (sort (measured measure us))) []
          (All-imp (λ u. P u × (probe_tracker measure u < probe_max_rtt))
            (λ u. P u × Kept measure false u) (answered (sort (measured measure us)))
            (λ u h. (h.0, inl h.1)) (probed-All P us a))
          tt)
  rank_and_keep-All P us n true a =
      let direct : List Url = filter_by (λ u. not (is_udp u)) us in
      All-take (λ u. P u × Kept measure true u) n
        (answered (sort (measured measure direct)) ++ filter_by is_udp us)
        (All-append (λ u. P u × Kept measure true u) (answered (sort (measured measure direct)))
          (filter_by is_udp us)
          (All-imp (λ u. P u × (probe_tracker measure u < probe_max_rtt))
            (λ u. P u × Kept measure true u) (answered (sort (measured measure direct)))
            (λ u h. (h.0, inl h.1))
            (probed-All P direct (All-filter_by P (λ u. not (is_udp u)) us a)))
          (All-imp (λ u. P u × (is_udp u ≡ true)) (λ u. P u × Kept measure true u)
            (filter_by is_udp us) (λ u h. (h.0, inr (refl, h.1))) (filter_by-All P is_udp us a)))

  pub length-rank_and_keep :
      (candidates : List Url) (top_n : ℕ) (proxied : Bool)
      → length (rank_and_keep sort measure candidates top_n proxied) ≤ top_n
  unfolding rank_and_keep
  length-rank_and_keep us n proxied = omega (
    arith,
    length-take n (
        answered
          (sort (measured measure (if proxied then filter_by (λ u. not (is_udp u)) us else us)))
        ++ (if proxied then filter_by is_udp us else [])),
  )

  probed_whole :
      (us : List Url)
      → All
          (λ u.
            leb probe_max_rtt (probe_tracker measure u) ≡ false
            → is_member u (answered (sort (measured measure us))) ≡ true)
          us
  probed_whole us =
      measured-All measure
        (λ r.
          leb probe_max_rtt r.1 ≡ false
          → is_member r.0 (answered (sort (measured measure us))) ≡ true)
        us
        (srt.whole (measured measure us)
          (λ r.
            leb probe_max_rtt r.1 ≡ false
            → is_member r.0 (answered (sort (measured measure us))) ≡ true)
          (answered_within (answered (sort (measured measure us))) (sort (measured measure us))
            (λ v m. m)))

  -- A list shorter than allowed has every candidate whose probe did not fail.
  rank_and_keep_whole :
      (candidates : List Url) (top_n : ℕ) (proxied : Bool) (u : Url)
      → length (rank_and_keep sort measure candidates top_n proxied) < top_n
      → is_member u candidates ≡ true
      → probe_tracker measure u < probe_max_rtt
      → is_member u (rank_and_keep sort measure candidates top_n proxied) ≡ true
  unfolding rank_and_keep
  rank_and_keep_whole us n false u l m p =
      let found : List Url = answered (sort (measured measure us)) in
      ap (is_member u) (take_all n (found ++ []) l)
      ∙ is_member-append u found []
      ∙ ground (
        arith,
        member-All
            (λ v. leb probe_max_rtt (probe_tracker measure v) ≡ false → is_member v found ≡ true) u
            us m (probed_whole us) (ground arith),
      )
  rank_and_keep_whole us n true u l m p =
      let direct : List Url = filter_by (λ v. not (is_udp v)) us in
      let found : List Url = answered (sort (measured measure direct)) in
      ap (is_member u) (take_all n (found ++ filter_by is_udp us) l)
      ∙ is_member-append u found (filter_by is_udp us)
      ∙ elim (Bool-cases (is_udp u)) [
        | inl udp ↦ ground (arith, is_member-filter_by is_udp u us)
        | inr other ↦ ground (
          arith,
          member-All
              (λ v. leb probe_max_rtt (probe_tracker measure v) ≡ false → is_member v found ≡ true)
              u direct (is_member-filter_by (λ v. not (is_udp v)) u us ∙ ground arith)
              (probed_whole direct) (ground arith),
        )
      ]

  -- With a sort that keeps the elements: at most `topN` trackers are kept. Each is a candidate whose probe did not fail, or behind a proxy a
  -- UDP one, which is not probed. When fewer are kept, every candidate whose probe would not fail is.
  pub rank_and_keep-Kept :
      (candidates : List Url) (top_n : ℕ) (proxied : Bool)
      → (length (rank_and_keep sort measure candidates top_n proxied) ≤ top_n)
        × All
            (λ u. (is_member u candidates ≡ true) × Kept measure proxied u)
            (rank_and_keep sort measure candidates top_n proxied)
        × (length (rank_and_keep sort measure candidates top_n proxied) < top_n
            → (u : Url) → is_member u candidates ≡ true
            → probe_tracker measure u < probe_max_rtt
            → is_member u (rank_and_keep sort measure candidates top_n proxied) ≡ true)
  rank_and_keep-Kept us n proxied = (
    length-rank_and_keep us n proxied,
    rank_and_keep-All (λ u. is_member u us ≡ true) us n proxied (member_self us),
    λ l u. rank_and_keep_whole us n proxied u l,
  )

probe_same : (m k : Url → ℕ) (u : Url) → m u ≡ k u → probe_tracker m u ≡ probe_tracker k u
unfolding probe_tracker
probe_same m k u e = ground arith

measured_same :
    (m k : Url → ℕ) (us : List Url)
    → ((u : Url) → is_udp u ≡ false → m u ≡ k u)
    → measured m (filter_by (λ u. not (is_udp u)) us)
      ≡ measured k (filter_by (λ u. not (is_udp u)) us)
unfolding measured filter_by
measured_same m k [] h = refl
measured_same m k (u ∷ us) h = elim (Bool-cases (is_udp u)) [
  | inl udp ↦ rw udp (measured_same m k us h)
  | inr other ↦ rw other (cc (probe_same m k u (h u other), measured_same m k us h))
]

-- Behind a proxy no UDP tracker is probed: what such a probe would measure makes no difference.
pub rank_and_keep_unprobed :
    (sort : List Result → List Result) (m k : Url → ℕ) (candidates : List Url) (top_n : ℕ)
    → ((u : Url) → is_udp u ≡ false → m u ≡ k u)
    → rank_and_keep sort m candidates top_n true ≡ rank_and_keep sort k candidates top_n true
unfolding rank_and_keep
rank_and_keep_unprobed sort m k us n h =
    ap (λ rs. take n (answered (sort rs) ++ filter_by is_udp us)) (measured_same m k us h)
