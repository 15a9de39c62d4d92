-- ===== src/SegIndex/Tests.antt =====
-- The segment index on small inputs, and the theorems at concrete ones, with a sort by insertion.
use stremio_server_go.Common.{
  ℕ, ◌+◌, ◌≤◌, ◌≡◌, refl, Bool, true, false, List, [], ◌∷◌, none, some, leb, ◌==◌, ◌||◌,
  if◌then◌else◌, inl, inr, arith, Bool-cases,
}
use stremio_server_go.Common.Weigh.{All, All-imp}
use stremio_server_go.Common.Text.{has_suffix, has_prefix, contains, same_text}
use stremio_server_go.SegIndex.Model.{
  SegEntry, SegIndex, DirEntry, find, remove, size_of, put, account, forget, candidates, evict_loop,
  scan_entry, scan, load_locked, note_segment, evict_segments, is_cached_seg_name,
}
use stremio_server_go.SegIndex.Accounts.{Balanced}
use stremio_server_go.SegIndex.System.{here, next, noted, Reach-Balanced}
use stremio_server_go.SegIndex.Candidates.{last_of, Sorted, Sorts}
use stremio_server_go.SegIndex.Choosing.{Chosen, evict_segments-Chosen}

unfoldable insert : List SegEntry → ℕ → List ℕ → List ℕ
insert l n [] = n ∷ []
insert l n (m ∷ ms) =
    let rest = insert l n ms in if leb (last_of n l) (last_of m l) then n ∷ (m ∷ ms) else m ∷ rest

unfoldable by_time : List SegEntry → List ℕ → List ℕ
unfolding insert
by_time l [] = []
by_time l (n ∷ ns) = insert l n (by_time l ns)

insert-kept :
    (l : List SegEntry) (n : ℕ) (ns : List ℕ) (P : ℕ → Type 0)
    → P n
    → All P ns
    → All P (insert l n ns)
unfolding insert
insert-kept l n [] P p a = (p, tt)
insert-kept l n (m ∷ ms) P p a = elim (Bool-cases (leb (last_of n l) (last_of m l))) [
  | inl first ↦ rw first (p, a)
  | inr after ↦ rw after (a.0, insert-kept l n ms P p a.1)
]

insert-whole :
    (l : List SegEntry) (n : ℕ) (ns : List ℕ) (P : ℕ → Type 0)
    → All P (insert l n ns)
    → P n × All P ns
unfolding insert
insert-whole l n [] P a = a
insert-whole l n (m ∷ ms) P a = go (leb (last_of n l) (last_of m l)) a (insert-whole l n ms P)
  where
    go :
        (b : Bool)
        → All P (if b then n ∷ (m ∷ ms) else m ∷ insert l n ms)
        → (All P (insert l n ms) → P n × All P ms)
        → P n × All P (m ∷ ms)
    go true a h = a
    go false a h = ((h a.1).0, (a.0, (h a.1).1))

insert-Sorted : (l : List SegEntry) (n : ℕ) (ns : List ℕ) → Sorted l ns → Sorted l (insert l n ns)
unfolding insert
insert-Sorted l n [] s = (tt, tt)
insert-Sorted l n (m ∷ ms) s = elim (Bool-cases (leb (last_of n l) (last_of m l))) [
  | inl first ↦ rw first (
    (
      ground arith,
      All-imp (λ k. last_of m l ≤ last_of k l) (λ k. last_of n l ≤ last_of k l) ms
          (λ k h. below k h first) s.0,
    ),
    s,
  )
  | inr after ↦ rw after (
    insert-kept l n ms (λ k. last_of m l ≤ last_of k l) (ground arith) s.0,
    insert-Sorted l n ms s.1,
  )
]
  where
    below :
        (k : ℕ)
        → last_of m l ≤ last_of k l
        → leb (last_of n l) (last_of m l) ≡ true
        → last_of n l ≤ last_of k l
    below k h f = ground arith

by_time-kept : (l : List SegEntry) (ns : List ℕ) (P : ℕ → Type 0) → All P ns → All P (by_time l ns)
unfolding by_time
by_time-kept l [] P a = tt
by_time-kept l (n ∷ ns) P a = insert-kept l n (by_time l ns) P a.0 (by_time-kept l ns P a.1)

by_time-whole : (l : List SegEntry) (ns : List ℕ) (P : ℕ → Type 0) → All P (by_time l ns) → All P ns
unfolding by_time
by_time-whole l [] P a = tt
by_time-whole l (n ∷ ns) P a =
    let (p, q) = insert-whole l n (by_time l ns) P a in (p, by_time-whole l ns P q)

by_time-Sorted : (l : List SegEntry) (ns : List ℕ) → Sorted l (by_time l ns)
unfolding by_time
by_time-Sorted l [] = tt
by_time-Sorted l (n ∷ ns) = insert-Sorted l n (by_time l ns) (by_time-Sorted l ns)

by_time-Sorts : Sorts by_time
by_time-Sorts = record { kept = by_time-kept; whole = by_time-whole; ordered = by_time-Sorted }

-- "seg7.ts" is 7, "seg8.ts" 8, and any other number the name of no segment.
unfoldable spelled : ℕ → List ℕ
spelled n =
    if n == 7 || n == 8 then 115 ∷ (101 ∷ (103 ∷ ((48 + n) ∷ (46 ∷ (116 ∷ (115 ∷ [])))))) else []

abbrev listing : List DirEntry
listing =
    record { name = 7; is_dir = false; info = some (500, 10) }
    ∷ (record { name = 9; is_dir = false; info = some (900, 5) } ∷ [])

abbrev blank : SegIndex
blank = record { loaded = false; files = []; total = 0 }

abbrev noted_one : SegIndex
noted_one = note_segment spelled blank (some listing) 8 300 60

noted_lem : noted_one.total ≡ 800
unfolding note_segment load_locked scan scan_entry is_cached_seg_name has_suffix has_prefix contains
    same_text spelled account put remove size_of find
noted_lem = refl

evicted_lem :
    (evict_segments spelled by_time (λ _. true) (λ _. true) noted_one none 400 8 60).total ≡ 300
unfolding evict_segments by_time candidates evict_loop forget note_segment load_locked scan
    scan_entry is_cached_seg_name has_suffix has_prefix contains same_text spelled account put
    remove size_of find insert
evicted_lem = refl

Reach-Balanced_example : Balanced noted_one
Reach-Balanced_example =
    Reach-Balanced spelled by_time noted_one
      (next here (noted (some listing) 8 300 60 ((refl, tt), (tt, tt))))

evict_segments-Chosen_example :
    Chosen
      (λ _. true)
      (λ _. true)
      400
      8
      60
      (load_locked spelled noted_one none)
      (evict_segments spelled by_time (λ _. true) (λ _. true) noted_one none 400 8 60)
evict_segments-Chosen_example =
    evict_segments-Chosen spelled by_time (λ _. true) (λ _. true) noted_one none 400 8 60
      by_time-Sorts tt
      (Reach-Balanced spelled by_time noted_one
        (next here (noted (some listing) 8 300 60 ((refl, tt), (tt, tt)))))
      (omega arith)
