-- ===== src/SegIndex/Evicting.antt =====
-- Which files `evictSegments` of internal/media/segindex.go deletes, and where it stops.
use stremio_server_go.Common.{
  ℕ, ◌≤◌, ◌<◌, ◌≡◌, refl, sym, ap, ◌∙◌, subst, Bool, true, false, ◌&&◌, ◌||◌, List, [], ◌∷◌, ◌++◌,
  Option, none, leb, ◌==◌, if◌then◌else◌, ◌⊎◌, inl, inr, arith, Bool-cases, ==_iff,
}
use stremio_server_go.SegIndex.Model.{SegEntry, SegIndex, find, remove, forget, evict_loop}
use stremio_server_go.SegIndex.Files.{Distinct, find-remove, remove-Distinct}

unfoldable pub mem : ℕ → List ℕ → Bool
mem n [] = false
mem n (m ∷ l) = (n == m) || mem n l

-- What a loop over `ns` did: it tried the first of them and left the others alone. The files that it
-- tried are gone if their lock was free and their removal worked; it stopped within the limit, or had
-- tried all.
pub record Evicted (free removes : ℕ → Bool) (limit : ℕ) (ns : List ℕ) (ix r : SegIndex)
    : Type 0 where
  pub tried : List ℕ
  pub untried : List ℕ
  pub order : ns ≡ tried ++ untried
  pub gone :
      (n : ℕ)
      → find n r.files ≡ (if mem n tried && (free n && removes n) then none else find n ix.files)
  pub stopped : (r.total ≤ limit) ⊎ (untried ≡ [])
  pub needed : (limit < ix.total) ⊎ (tried ≡ [])

forget_files : (ix : SegIndex) (n : ℕ) → (forget ix n).files ≡ remove n ix.files
unfolding forget
forget_files ix n = refl

tried_gone :
    (free removes : ℕ → Bool) (n m : ℕ) (l : List ℕ) (x f : Option SegEntry)
    → (free n && removes n) ≡ true
    → f ≡ (if m == n then none else x)
    → (if mem m l && (free m && removes m) then none else f)
      ≡ (if mem m (n ∷ l) && (free m && removes m) then none else x)
unfolding mem
tried_gone free removes n m l x f e h = elim (Bool-cases (m == n)) [
  | inl same ↦ ground (arith, ap (λ k. free k && removes k) ((==_iff m n).0 same))
  | inr other ↦ ground arith
]

tried_kept :
    (free removes : ℕ → Bool) (n m : ℕ) (l : List ℕ) (x : Option SegEntry)
    → (free n && removes n) ≡ false
    → (if mem m l && (free m && removes m) then none else x)
      ≡ (if mem m (n ∷ l) && (free m && removes m) then none else x)
unfolding mem
tried_kept free removes n m l x e = elim (Bool-cases (m == n)) [
  | inl same ↦ ground (arith, ap (λ k. free k && removes k) ((==_iff m n).0 same))
  | inr other ↦ ground arith
]

pub evict_loop-Evicted :
    (free removes : ℕ → Bool) (limit : ℕ) (ns : List ℕ) (ix : SegIndex)
    → Distinct ix.files
    → Evicted free removes limit ns ix (evict_loop free removes limit ns ix)
unfolding evict_loop mem
evict_loop-Evicted free removes limit [] ix d = record {
  tried = [];
  untried = [];
  order = refl;
  gone = λ n. refl;
  stopped = inr refl;
  needed = inr refl;
}
evict_loop-Evicted free removes limit (n ∷ ns) ix d = elim (Bool-cases (leb ix.total limit)) [
  | inl fits ↦ rw fits (record {
    tried = [];
    untried = n ∷ ns;
    order = refl;
    gone = λ m. refl;
    stopped = inl (ground arith);
    needed = inr refl;
  })
  | inr over ↦ elim (Bool-cases (free n && removes n)) [
    | inl gone ↦
        let h =
          evict_loop-Evicted free removes limit ns (forget ix n)
            (subst Distinct (sym (forget_files ix n)) (remove-Distinct n ix.files d)) in
        rw (over, gone)
          (record {
            tried = n ∷ h.tried;
            untried = h.untried;
            order = ap (λ l. n ∷ l) h.order;
            gone = λ m.
                h.gone m
                ∙ tried_gone free removes n m h.tried (find m ix.files) (find m (forget ix n).files)
                    gone (ap (find m) (forget_files ix n) ∙ find-remove m n ix.files d);
            stopped = h.stopped;
            needed = inl (ground arith);
          })
    | inr kept ↦
        let h = evict_loop-Evicted free removes limit ns ix d in
        rw (over, kept)
          (record {
            tried = n ∷ h.tried;
            untried = h.untried;
            order = ap (λ l. n ∷ l) h.order;
            gone = λ m. h.gone m ∙ tried_kept free removes n m h.tried (find m ix.files) kept;
            stopped = h.stopped;
            needed = inl (ground arith);
          })
  ]
]
