-- ===== src/Assembly/Recording.antt =====
-- internal/nzb/assembly.go: a segment that `completeSegment` records has been written.
use stremio_server_go.Common.{
  ℕ, ◌+◌, ◌-◌, ◌≤◌, ◌<◌, ◌≡◌, refl, ◌⊎◌, inl, inr, true, List, ◌∷◌, ◌++◌, none, some, arith, sym,
  subst, ltb, if◌then◌else◌, Bool-cases, ◌∙◌,
}
use stremio_server_go.Common.Weigh.{All-middle}
use stremio_server_go.Assembly.Extents.{Extent, add_covered, covers, IsOrdered}
use stremio_server_go.Assembly.Cover.{add_covered_lem}
use stremio_server_go.Assembly.Model.{
  Assembly, LayoutMode, layout_unknown, layout_parallel, layout_sequential, complete_segment,
  record_segment, finalize_locked, settle_size, conclude, mark_segment,
}
use stremio_server_go.Assembly.Completing.{record_segment-layout, record_segment-parallel}
use stremio_server_go.Assembly.System.{Job}
use stremio_server_go.Assembly.Written.{Within, Wrote, Written}
use stremio_server_go.Assembly.Writing.{forgetting-Written}

record_segment-covered :
    (a : Assembly) (i : ℕ) (e : Extent) (n : ℕ)
    → (record_segment a i e n).covered ≡ (if ltb 0 n then add_covered a.covered e else a.covered)
unfolding record_segment finalize_locked settle_size conclude mark_segment
record_segment-covered a i e n = ground arith

-- Only the segment's bytes become present.
record_segment-covers :
    (a : Assembly) (i : ℕ) (e : Extent) (n x : ℕ)
    → IsOrdered a.covered
    → e.end ≡ e.start + n
    → covers (record_segment a i e n).covered x ≡ true
    → (covers a.covered x ≡ true) ⊎ (e.start ≤ x) × (x < e.start + n)
record_segment-covers a i e n x o l c = elim (Bool-cases (ltb 0 n)) [
  | inl some_bytes ↦
      let grown : covers (add_covered a.covered e) x ≡ true =
        rw (record_segment-covered a i e n, some_bytes) at c in
      ground (arith, grown, add_covered_lem a.covered e x o (ground (arith, some_bytes, l)), l)
  | inr no_bytes ↦ inl (rw (record_segment-covered a i e n, no_bytes) at c)
]

complete_segment-covers :
    (a b : Assembly) (i : ℕ) (e : Extent) (n x : ℕ)
    → IsOrdered a.covered
    → (a.layout ≡ layout_parallel → e.start ≤ e.end)
    → complete_segment a i e n ≡ (b, none)
    → covers b.covered x ≡ true
    → (covers a.covered x ≡ true) ⊎ (e.start ≤ x) × (x < e.start + n)
unfolding complete_segment
complete_segment-covers a b i e n x o f h c = by_layout a.layout refl
  where
    grown : Extent
    grown = record { start = e.start; end = e.start + n }

    by_layout :
        (m : LayoutMode)
        → a.layout ≡ m
        → (covers a.covered x ≡ true) ⊎ (e.start ≤ x) × (x < e.start + n)
    by_layout layout_parallel l =
        let forward = f l in
        let done : (record_segment a i e n ≡ b) × (n ≡ e.end - e.start) = ground arith in
        record_segment-covers a i e n x o (omega (arith, done.1, forward))
          (subst (λ t. covers t.covered x ≡ true) (sym done.0) c)
    by_layout layout_unknown l =
        let d = record_segment (record a { seq_off = grown.end }) i grown n in
        let done : d ≡ b = ground arith in
        record_segment-covers (record a { seq_off = grown.end }) i grown n x o refl
          (subst (λ t. covers t.covered x ≡ true) (sym done) c)
    by_layout layout_sequential l =
        let d = record_segment (record a { seq_off = grown.end }) i grown n in
        let done : d ≡ b = ground arith in
        record_segment-covers (record a { seq_off = grown.end }) i grown n x o refl
          (subst (λ t. covers t.covered x ≡ true) (sym done) c)

complete_segment-Within :
    (a b : Assembly) (i : ℕ) (e : Extent) (n : ℕ) (js : List Job) (ws : List Extent)
    → complete_segment a i e n ≡ (b, none)
    → Within a.layout a.total ws js
    → Within b.layout b.total ws js
unfolding complete_segment
complete_segment-Within a b i e n js ws h v = by_layout a.layout refl
  where
    grown : Extent
    grown = record { start = e.start; end = e.start + n }

    by_layout : (m : LayoutMode) → a.layout ≡ m → Within b.layout b.total ws js
    by_layout layout_parallel l =
        let done : record_segment a i e n ≡ b = ground arith in
        let t = (record_segment-parallel a i e n l).0 in
        subst (λ (c : Assembly). Within c.layout c.total ws js) done
          (rw (record_segment-layout a i e n, t) v)
    by_layout layout_unknown l =
        let d = record_segment (record a { seq_off = grown.end }) i grown n in
        let done : d ≡ b = ground arith in
        let kept : d.layout ≡ layout_unknown = record_segment-layout _ i grown n ∙ l in
        subst (λ (c : Assembly). Within c.layout c.total ws js) done (rw kept (rw l at v))
    by_layout layout_sequential l =
        let d = record_segment (record a { seq_off = grown.end }) i grown n in
        let done : d ≡ b = ground arith in
        let kept : d.layout ≡ layout_sequential = record_segment-layout _ i grown n ∙ l in
        subst (λ (c : Assembly). Within c.layout c.total ws js) done (rw kept tt)

pub completing-Written :
    (a b : Assembly) (pre post : List Job) (j : Job) (e : Extent) (n : ℕ) (ws : List Extent)
    → IsOrdered a.covered
    → (a.layout ≡ layout_parallel → e.start ≤ e.end)
    → j.ext ≡ some e
    → n ≡ j.taken
    → complete_segment a j.idx e n ≡ (b, none)
    → Written a (pre ++ j ∷ post) ws
    → Written b (pre ++ post) ws
completing-Written a b pre post j e n ws o f x t h v =
    let u = forgetting-Written a pre post j ws v in
    let (off, taken) = (All-middle (Wrote ws) pre post j v.wrote).0 e x in
    record {
      inside = complete_segment-Within a b j.idx e n (pre ++ post) ws h u.inside;
      wrote = u.wrote;
      backed = λ y c. elim (complete_segment-covers a b j.idx e n y o f h c) [
        | inl before ↦ v.backed y before
        | inr (l, r) ↦ taken y l (omega (arith, r, off, t))
      ];
    }
