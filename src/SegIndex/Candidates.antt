-- ===== src/SegIndex/Candidates.antt =====
-- The candidates of `evictSegments` of internal/media/segindex.go, and their order.
use stremio_server_go.Common.{
  ℕ, ◌-◌, ◌≤◌, ◌≡◌, ◌≢◌, sym, ap, subst, true, ◌&&◌, not, List, [], ◌∷◌, ◌++◌, none, some, leb,
  ◌==◌, ◌⊎◌, inl, inr, arith, Bool-cases, ==_iff,
}
use stremio_server_go.Common.Weigh.{All, All-imp}
use stremio_server_go.SegIndex.Model.{SegEntry, find, candidates, seg_serve_grace}
use stremio_server_go.SegIndex.Files.{Distinct}
use stremio_server_go.SegIndex.Evicting.{mem}

abbrev pub last_of : ℕ → List SegEntry → ℕ
last_of n l = elim (find n l) as (λ _. ℕ) [ none ↦ 0 | some e ↦ e.last ]

abbrev pub Sorted : List SegEntry → List ℕ → Type 0
Sorted l [] = Unit
Sorted l (n ∷ ns) = All (λ m. last_of n l ≤ last_of m l) ns × Sorted l ns

-- What sort.Slice is documented to do: the same elements, in the order of their times.
pub record Sorts (sort : List SegEntry → List ℕ → List ℕ) : Type 1 where
  pub kept : (l : List SegEntry) (ns : List ℕ) (P : ℕ → Type 0) → All P ns → All P (sort l ns)
  pub whole : (l : List SegEntry) (ns : List ℕ) (P : ℕ → Type 0) → All P (sort l ns) → All P ns
  pub ordered : (l : List SegEntry) (ns : List ℕ) → Sorted l (sort l ns)

pub mem-All : (P : ℕ → Type 0) (n : ℕ) (l : List ℕ) → mem n l ≡ true → All P l → P n
unfolding mem
mem-All P n [] h a = absurd cc
mem-All P n (m ∷ l) h a = elim (Bool-cases (n == m)) [
  | inl same ↦ subst P (sym ((==_iff n m).0 same)) a.0
  | inr other ↦ mem-All P n l (ground arith) a.1
]

pub All_prefix : (P : ℕ → Type 0) (k l : List ℕ) → All P (k ++ l) → All P k
All_prefix P [] l a = tt
All_prefix P (n ∷ k) l a = (a.0, All_prefix P k l a.1)

All_suffix : (P : ℕ → Type 0) (k l : List ℕ) → All P (k ++ l) → All P l
All_suffix P [] l a = a
All_suffix P (n ∷ k) l a = All_suffix P k l a.1

pub mem_nil : (n : ℕ) → mem n [] ≢ true
unfolding mem
mem_nil n h = cc

mem_weaker : (n m : ℕ) (l : List ℕ) → mem n l ≡ true → mem n (m ∷ l) ≡ true
unfolding mem
mem_weaker n m l h = ground arith

mem_head : (n : ℕ) (l : List ℕ) → mem n (n ∷ l) ≡ true
unfolding mem
mem_head n l = ground arith

pub mem_self : (l : List ℕ) → All (λ n. mem n l ≡ true) l
mem_self [] = tt
mem_self (n ∷ l) = (
  mem_head n l,
  All-imp (λ m. mem m l ≡ true) (λ m. mem m (n ∷ l) ≡ true) l (λ m h. mem_weaker m n l h)
      (mem_self l),
)

-- A tried file is no newer than one that was not tried.
pub Sorted-append :
    (l : List SegEntry) (k m : List ℕ)
    → Sorted l (k ++ m)
    → All (λ a. All (λ b. last_of a l ≤ last_of b l) m) k
Sorted-append l [] m s = tt
Sorted-append l (a ∷ k) m s =
    (All_suffix (λ b. last_of a l ≤ last_of b l) k m s.0, Sorted-append l k m s.1)

-- A candidate is neither the file to keep nor used lately.
abbrev pub Evictable : ℕ → ℕ → List SegEntry → ℕ → Type 0
Evictable keep now l n = (n ≢ keep) × (seg_serve_grace ≤ now - last_of n l)

abbrev pub Found : List SegEntry → List SegEntry → Type 0
Found files l = All (λ e. find e.name files ≡ some e) l

found_later :
    (e c : SegEntry) (l : List SegEntry)
    → find e.name l ≡ none
    → find c.name l ≡ some c
    → find c.name (e ∷ l) ≡ some c
unfolding find
found_later e c l h f = elim (Bool-cases (e.name == c.name)) [
  | inl same ↦ absurd (twice (ap (λ k. find k l) ((==_iff e.name c.name).0 same)))
  | inr other ↦ rw other f
]
  where
    twice : find e.name l ≡ find c.name l → ⊥
    twice g = cc

found_first : (e : SegEntry) (l : List SegEntry) → find e.name (e ∷ l) ≡ some e
unfolding find
found_first e l = ground arith

pub Distinct-Found : (l : List SegEntry) → Distinct l → Found l l
Distinct-Found [] d = tt
Distinct-Found (e ∷ l) d = (
  found_first e l,
  All-imp (λ c. find c.name l ≡ some c) (λ c. find c.name (e ∷ l) ≡ some c) l
      (λ c f. found_later e c l d.0 f) (Distinct-Found l d.1),
)

pub candidates-Evictable :
    (keep now : ℕ) (files l : List SegEntry)
    → Found files l
    → All (Evictable keep now files) (candidates keep now l)
unfolding candidates
candidates-Evictable keep now files [] f = tt
candidates-Evictable keep now files (e ∷ l) f =
    elim (Bool-cases (not (e.name == keep) && leb seg_serve_grace (now - e.last))) [
      | inl old ↦ rw old (
        (ground arith, omega (arith, last f.0, grace old)),
        candidates-Evictable keep now files l f.1,
      )
      | inr kept ↦ rw kept (candidates-Evictable keep now files l f.1)
    ]
  where
    last : find e.name files ≡ some e → last_of e.name files ≡ e.last
    last g = ap (λ o. elim o as (λ _. ℕ) [ none ↦ 0 | some x ↦ x.last ]) g

    grace :
        (not (e.name == keep) && leb seg_serve_grace (now - e.last)) ≡ true
        → seg_serve_grace ≤ now - e.last
    grace h = ground arith

mem-candidates_head :
    (keep now n : ℕ) (l : List SegEntry) (c : SegEntry)
    → c.name ≡ n
    → n ≢ keep
    → seg_serve_grace ≤ now - c.last
    → mem n (candidates keep now (c ∷ l)) ≡ true
unfolding candidates mem
mem-candidates_head keep now n l c e k g = ground arith

pub mem-candidates :
    (keep now n : ℕ) (l : List SegEntry) (e : SegEntry)
    → find n l ≡ some e
    → n ≢ keep
    → seg_serve_grace ≤ now - e.last
    → mem n (candidates keep now l) ≡ true
unfolding candidates find mem
mem-candidates keep now n [] e f k g = absurd cc
mem-candidates keep now n (c ∷ l) e f k g = elim (Bool-cases (c.name == n)) [
  | inl same ↦
      mem-candidates_head keep now n l c ((==_iff c.name n).0 same) k
        (omega (arith, g, ap (λ x. x.last) (first same f)))
  | inr other ↦ ground (arith, mem-candidates keep now n l e)
]
  where
    first : (c.name == n) ≡ true → find n (c ∷ l) ≡ some e → c ≡ e
    first same g = ground arith

pub mem-append :
    (n : ℕ) (k l : List ℕ) → mem n (k ++ l) ≡ true → (mem n k ≡ true) ⊎ (mem n l ≡ true)
unfolding mem
mem-append n [] l h = inr h
mem-append n (m ∷ k) l h = elim (Bool-cases (n == m)) [
  | inl same ↦ inl (ground arith)
  | inr other ↦ elim (mem-append n k l (ground arith)) [
    | inl g ↦ inl (ground arith)
    | inr g ↦ inr g
  ]
]

pub last_of_found :
    (n : ℕ) (l : List SegEntry) (e : SegEntry) → find n l ≡ some e → last_of n l ≡ e.last
last_of_found n l e f = ap (λ o. elim o as (λ _. ℕ) [ none ↦ 0 | some x ↦ x.last ]) f
