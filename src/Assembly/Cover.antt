-- ===== src/Assembly/Cover.antt =====
-- internal/nzb/assembly.go: the set of written ranges that `addCoveredLocked` keeps.
use stremio_server_go.Common.{
  ℕ, ◌≤◌, ◌<◌, ◌≡◌, refl, Bool, true, false, ◌||◌, List, [], ◌∷◌, ◌++◌, ltb, leb, min, max,
  if◌then◌else◌, take, drop, arith, ap, ◌∙◌, Bool-cases, ltb→lt, leb→le, inl, inr,
}
use stremio_server_go.Common.Search.{skip, search-skip, IsMonotone, AllPass}
use stremio_server_go.Assembly.Extents.{
  Extent, absorb, ends_at_or_after, add_covered, within, covers, Above, IsOrdered,
}

abbrev joined : Extent × List Extent → List Extent
joined p = p.0 ∷ p.1

-- `addCoveredLocked` as one recursion over the set.
insert : Extent → List Extent → List Extent
insert e [] = e ∷ []
insert e (x ∷ xs) = if ltb x.end e.start then x ∷ insert e xs else joined (absorb e (x ∷ xs))

insert-split :
    (e : Extent) (s : List Extent)
    → let i = skip (ends_at_or_after e.start) s in
      take i s ++ joined (absorb e (drop i s)) ≡ insert e s
unfolding insert absorb
insert-split e [] = refl
insert-split e (x ∷ xs) = ground (arith, insert-split e xs)

-- With the ranges in order, those that end before a point come first.
Above-passes :
    (a : ℕ) (p : ℕ) (s : List Extent) → p ≤ a → Above a s → AllPass (ends_at_or_after p) s
Above-passes a p [] l h = tt
Above-passes a p (x ∷ xs) l h = (ground arith, Above-passes x.end p xs (omega arith) h.2)

Above-IsMonotone : (a p : ℕ) (s : List Extent) → Above a s → IsMonotone (ends_at_or_after p) s
Above-IsMonotone a p [] h = tt
Above-IsMonotone a p (x ∷ xs) h =
    ((λ pass. Above-passes x.end p xs (ground arith) h.2), Above-IsMonotone x.end p xs h.2)

pub IsOrdered-IsMonotone :
    (p : ℕ) (s : List Extent) → IsOrdered s → IsMonotone (ends_at_or_after p) s
IsOrdered-IsMonotone p [] h = tt
IsOrdered-IsMonotone p (x ∷ xs) h =
    ((λ pass. Above-passes x.end p xs (ground arith) h.1), Above-IsMonotone x.end p xs h.1)

add_covered-insert : (s : List Extent) (e : Extent) → IsOrdered s → add_covered s e ≡ insert e s
unfolding add_covered
add_covered-insert s e h =
    rw (search-skip (ends_at_or_after e.start) s (IsOrdered-IsMonotone e.start s h))
      (insert-split e s)

pub Above-IsOrdered : (a : ℕ) (s : List Extent) → Above a s → IsOrdered s
Above-IsOrdered a [] h = tt
Above-IsOrdered a (x ∷ xs) h = (h.1, h.2)

Above-mono : (a b : ℕ) (s : List Extent) → a ≤ b → Above b s → Above a s
Above-mono a b [] l h = tt
Above-mono a b (x ∷ xs) l h = (omega arith, h.1, h.2)

-- What `absorb` yields is in order, starts no later than asked for, and covers the same bytes.
absorb-IsOrdered :
    (e : Extent) (s : List Extent) → e.start < e.end → IsOrdered s → IsOrdered (joined (absorb e s))
unfolding absorb
absorb-IsOrdered e [] k o = (k, tt)
absorb-IsOrdered e (x ∷ xs) k o =
    let e' : Extent = record { start = min e.start x.start; end = max e.end x.end } in
    let rest = absorb-IsOrdered e' xs (omega arith) (Above-IsOrdered x.end xs o.1) in ground arith

absorb-Above :
    (a : ℕ) (e : Extent) (s : List Extent) → a < e.start → Above a s → a < (absorb e s).0.start
unfolding absorb
absorb-Above a e [] h b = h
absorb-Above a e (x ∷ xs) h b =
    let e' : Extent = record { start = min e.start x.start; end = max e.end x.end } in
    let rest = absorb-Above a e' xs (omega arith) (Above-mono a x.end xs (omega arith) b.2) in
    ground arith

abbrev Meets : ℕ → List Extent → Type 0
Meets a [] = Unit {0}
Meets a (x ∷ xs) = a ≤ x.end

Above-Meets : (a p : ℕ) (s : List Extent) → p ≤ a → Above a s → Meets p s
Above-Meets a p [] l h = tt
Above-Meets a p (x ∷ xs) l h = omega arith

||_assoc : (a b c : Bool) → (a || b) || c ≡ a || (b || c)
||_assoc true b c = refl
||_assoc false b c = refl

||_swap : (a b c : Bool) → a || (b || c) ≡ b || (a || c)
||_swap true true c = refl
||_swap true false c = refl
||_swap false b c = refl

within-hull :
    (e y : Extent) (x : ℕ)
    → e.start < e.end
    → y.start < y.end
    → e.start ≤ y.end
    → y.start ≤ e.end
    → within (record { start = min e.start y.start; end = max e.end y.end }) x
      ≡ within e x || within y x
within-hull e y x k l m n = ground arith

covers-absorb :
    (e : Extent) (s : List Extent) (x : ℕ)
    → e.start < e.end
    → IsOrdered s
    → Meets e.start s
    → covers (joined (absorb e s)) x ≡ within e x || covers s x
unfolding absorb
covers-absorb e [] x k o m = refl
covers-absorb e (y ∷ ys) x k o m = elim (Bool-cases (leb y.start e.end)) [
  | inl near ↦
      let e' : Extent = record { start = min e.start y.start; end = max e.end y.end } in
      let rest =
        covers-absorb e' ys x (omega arith) (Above-IsOrdered y.end ys o.1)
          (Above-Meets y.end e'.start ys (omega arith) o.1) in
      rw near (
        rest
        ∙ ap (λ (b : Bool). b || covers ys x) (within-hull e y x k o.0 m (leb→le _ _ near))
        ∙ ||_assoc (within e x) (within y x) (covers ys x))
  | inr far ↦ rw far refl
]

covers-insert :
    (e : Extent) (s : List Extent) (x : ℕ)
    → e.start < e.end
    → IsOrdered s
    → covers (insert e s) x ≡ within e x || covers s x
unfolding insert
covers-insert e [] x k o = refl
covers-insert e (y ∷ ys) x k o = elim (Bool-cases (ltb y.end e.start)) [
  | inl before ↦
      rw (before, covers-insert e ys x k (Above-IsOrdered y.end ys o.1))
        (||_swap (within y x) (within e x) (covers ys x))
  | inr meets ↦ rw meets (covers-absorb e (y ∷ ys) x k o (ground arith))
]

insert-Above :
    (a : ℕ) (e : Extent) (s : List Extent)
    → e.start < e.end
    → a < e.start
    → Above a s
    → Above a (insert e s)
unfolding insert
insert-Above a e [] k h b = (h, k, tt)
insert-Above a e (x ∷ xs) k h b =
    let ordered = absorb-IsOrdered e (x ∷ xs) k (Above-IsOrdered a (x ∷ xs) b) in
    elim (Bool-cases (ltb x.end e.start)) [
      | inl before ↦ rw before (b.0, b.1, insert-Above x.end e xs k (ltb→lt _ _ before) b.2)
      | inr meets ↦ rw meets (absorb-Above a e (x ∷ xs) h b, ordered.0, ordered.1)
    ]

insert-IsOrdered :
    (e : Extent) (s : List Extent) → e.start < e.end → IsOrdered s → IsOrdered (insert e s)
unfolding insert
insert-IsOrdered e [] k o = (k, tt)
insert-IsOrdered e (x ∷ xs) k o = elim (Bool-cases (ltb x.end e.start)) [
  | inl before ↦ rw before (o.0, insert-Above x.end e xs k (ltb→lt _ _ before) o.1)
  | inr meets ↦ rw meets (absorb-IsOrdered e (x ∷ xs) k o)
]

-- `addCoveredLocked` keeps the ranges sorted, disjoint and merged, and the bytes that are then
-- covered are those covered before and those of the new range; the range is not empty.
pub add_covered_lem :
    (s : List Extent) (e : Extent) (x : ℕ)
    → IsOrdered s
    → e.start < e.end
    → IsOrdered (add_covered s e) × (covers (add_covered s e) x ≡ within e x || covers s x)
add_covered_lem s e x o k =
    rw (add_covered-insert s e o) (insert-IsOrdered e s k o, covers-insert e s x k o)
