-- ===== src/Assembly/Runs.antt =====
-- internal/nzb/assembly.go: the lookup of `runIndexLocked`.
use mathlib.Core.Path.{fun_ext}
use stremio_server_go.Common.{
  ℕ, ◌+◌, ◌≤◌, ◌<◌, ◌≡◌, refl, Bool, true, false, ◌||◌, List, [], ◌∷◌, none, some, ltb, leb,
  get_elem?, arith, ap, ◌∙◌, Bool-cases, inl, inr, ◌⊎◌, ltb→lt, subst,
}
use stremio_server_go.Common.Search.{skip, search-skip, IsMonotone}
use stremio_server_go.Assembly.Extents.{
  Extent, ends_at_or_after, ends_after, run_index, run_at, within, covers, Above, IsOrdered,
}
use stremio_server_go.Assembly.Cover.{IsOrdered-IsMonotone, Above-IsOrdered}

ends_after-eq : (off : ℕ) → ends_at_or_after (off + 1) ≡ ends_after off
ends_after-eq off = fun_ext (λ x. ground arith)

ends_after-IsMonotone : (off : ℕ) (s : List Extent) → IsOrdered s → IsMonotone (ends_after off) s
ends_after-IsMonotone off s o =
    subst (λ p. IsMonotone p s) (ends_after-eq off) (IsOrdered-IsMonotone (off + 1) s o)

covers-below : (a y : ℕ) (s : List Extent) → Above a s → y ≤ a → covers s y ≡ false
covers-below a y [] b l = refl
covers-below a y (x ∷ xs) b l = ground (arith, covers-below x.end y xs b.2)

-- What the first range that ends after `off` tells of `off`.
record Found (s : List Extent) (off x : ℕ) (e : Extent) : Type 0 where
  at : get_elem? s (skip (ends_after off) s) ≡ some e
  ends : off < e.end
  there : covers s off ≡ leb e.start off
  maximal : covers s e.end ≡ false
  whole : within e x || covers s x ≡ covers s x

absorbs : (a b : Bool) → a || (a || b) ≡ a || b
absorbs true b = refl
absorbs false b = refl

lookup-skip :
    (s : List Extent) (off x : ℕ)
    → IsOrdered s
    → (get_elem? s (skip (ends_after off) s) ≡ none) × (covers s off ≡ false)
      ⊎ (e : Extent) × Found s off x e
lookup-skip [] off x o = inl (refl, refl)
lookup-skip (y ∷ ys) off x o = elim (Bool-cases (ltb off y.end)) [
  | inl here ↦ inr (
    y,
    record {
      at = rw here refl;
      ends = ltb→lt off y.end here;
      there = ground (arith, covers-below y.end off ys o.1);
      maximal = ground (arith, covers-below y.end y.end ys o.1);
      whole = absorbs (within y x) (covers ys x);
    },
  )
  | inr past ↦ elim (lookup-skip ys off x (Above-IsOrdered y.end ys o.1)) [
    | inl (e, c) ↦ inl (rw past e, ground arith)
    | inr (e, f) ↦ inr (
      e,
      record {
        at = rw past f.at;
        ends = f.ends;
        there = ground (arith, f.there);
        maximal = ground (arith, f.maximal, f.ends);
        whole = ground (arith, f.whole);
      },
    )
  ]
]

run_index-skip :
    (s : List Extent) (off : ℕ)
    → IsOrdered s
    → run_index s off ≡ run_at s off (skip (ends_after off) s)
unfolding run_index
run_index-skip s off o =
    ap (run_at s off) (search-skip (ends_after off) s (ends_after-IsMonotone off s o))

module _ (s : List Extent) (off i : ℕ) where
  run_at-none : get_elem? s i ≡ none → run_at s off i ≡ none
  unfolding run_at
  run_at-none h = rw (h, run_at) refl

  run_at-some :
      (e : Extent) → get_elem? s i ≡ some e → leb e.start off ≡ true → run_at s off i ≡ some i
  unfolding run_at
  run_at-some e h l = ground arith

  run_at_gap :
      (e : Extent) → get_elem? s i ≡ some e → leb e.start off ≡ false → run_at s off i ≡ none
  unfolding run_at
  run_at_gap e h l = ground arith

-- `runIndexLocked` answers -1 exactly at a byte that is not written; else it gives the index of a
-- range that holds the byte, all of whose bytes (any `x`) are written, and which ends at a byte that
-- is not.
pub run_index_lem :
    (s : List Extent) (off x : ℕ)
    → IsOrdered s
    → (run_index s off ≡ none) × (covers s off ≡ false)
      ⊎ (i : ℕ) × (e : Extent) × (run_index s off ≡ some i)
        × (get_elem? s i ≡ some e)
        × (within e off ≡ true)
        × (covers s off ≡ true)
        × (within e x || covers s x ≡ covers s x)
        × (covers s e.end ≡ false)
run_index_lem s off x o = rw (run_index-skip s off o) elim (lookup-skip s off x o) [
  | inl (e, c) ↦ inl (run_at-none s off _ e, c)
  | inr (e, f) ↦ elim (Bool-cases (leb e.start off)) [
    | inl holds ↦ inr (
      skip (ends_after off) s,
      e,
      run_at-some s off _ e f.at holds,
      f.at,
      ground (arith, f.ends),
      f.there ∙ holds,
      f.whole,
      f.maximal,
    )
    | inr before ↦ inl (run_at_gap s off _ e f.at before, f.there ∙ before)
  ]
]
