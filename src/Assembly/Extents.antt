-- ===== src/Assembly/Extents.antt =====
-- internal/nzb/assembly.go: `extent`, `addCoveredLocked` and `runIndexLocked`. Offsets are int64 in
-- the source, never negative, and at most the file's size, so they are natural numbers here.
use stremio_server_go.Common.{
  ℕ, ◌<◌, Bool, false, ◌&&◌, ◌||◌, List, [], ◌∷◌, ◌++◌, Option, none, some, ltb, leb, min, max,
  if◌then◌else◌, length, get_elem?, take, drop,
}
use stremio_server_go.Common.Search.{search, test}

-- A half-open byte range.
pub record Extent : Type 0 where
  pub start : ℕ
  pub end : ℕ

-- `for j < len(s) && s[j].start <= e.end`: the merged extent, and the ranges from `j` on.
unfoldable pub absorb : Extent → List Extent → Extent × List Extent
absorb e [] = (e, [])
absorb e (x ∷ xs) =
    let rest = absorb (record { start = min e.start x.start; end = max e.end x.end }) xs in
    if leb x.start e.end then rest else (e, x ∷ xs)

abbrev pub ends_at_or_after : ℕ → Extent → Bool
ends_at_or_after a x = leb a x.end

unfoldable pub add_covered : List Extent → Extent → List Extent
unfolding absorb
add_covered s e =
    let i = search (length s) (test (ends_at_or_after e.start) s) in
    let (e', rest) = absorb e (drop i s) in take i s ++ e' ∷ rest

abbrev pub ends_after : ℕ → Extent → Bool
ends_after off x = ltb off x.end

-- The test after the search; `none` is -1.
unfoldable pub run_at : List Extent → ℕ → ℕ → Option ℕ
run_at s off i = elim (get_elem? s i) [
  | none ↦ none
  | some x ↦ if leb x.start off then some i else none
]

unfoldable pub run_index : List Extent → ℕ → Option ℕ
unfolding run_at
run_index s off = run_at s off (search (length s) (test (ends_after off) s))

-- Whether byte `x` is in a range, and in one of the set.
abbrev pub within : Extent → ℕ → Bool
within e x = leb e.start x && ltb x e.end

abbrev pub covers : List Extent → ℕ → Bool
covers [] x = false
covers (e ∷ s) x = within e x || covers s x

-- The set is kept sorted, with a gap between neighbours and no empty range.
abbrev pub Above : ℕ → List Extent → Type 0
Above a [] = Unit {0}
Above a (e ∷ s) = (a < e.start) × (e.start < e.end) × Above e.end s

abbrev pub IsOrdered : List Extent → Type 0
IsOrdered [] = Unit {0}
IsOrdered (e ∷ s) = (e.start < e.end) × Above e.end s
