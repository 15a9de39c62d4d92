-- ===== src/SegIndex/Files.antt =====
-- The map `files` of internal/media/segindex.go as a list of entries with distinct names.
use stremio_server_go.Common.{
  ℕ, ◌+◌, ◌≡◌, ◌≢◌, refl, sym, ap, ◌∙◌, List, [], ◌∷◌, none, some, ◌==◌, if◌then◌else◌, inl, inr,
  arith, Bool-cases, ==_iff,
}
use stremio_server_go.Common.Weigh.{weigh}
use stremio_server_go.SegIndex.Model.{SegEntry, find, remove, size_of, put}

-- No two entries have one name.
abbrev pub Distinct : List SegEntry → Type 0
Distinct [] = Unit
Distinct (e ∷ l) = (find e.name l ≡ none) × Distinct l

abbrev pub size : SegEntry → ℕ
size e = e.size

find-remove_other : (m n : ℕ) (l : List SegEntry) → m ≢ n → find m (remove n l) ≡ find m l
unfolding find remove
find-remove_other m n [] h = refl
find-remove_other m n (e ∷ l) h = ground (arith, find-remove_other m n l h)

find-remove_same : (n : ℕ) (l : List SegEntry) → Distinct l → find n (remove n l) ≡ none
unfolding find remove
find-remove_same n [] d = refl
find-remove_same n (e ∷ l) d = elim (Bool-cases (e.name == n)) [
  | inl same ↦ rw same (ap (λ k. find k l) (sym ((==_iff e.name n).0 same)) ∙ d.0)
  | inr other ↦ rw other (rw other (find-remove_same n l d.1))
]

pub find-remove :
    (m n : ℕ) (l : List SegEntry)
    → Distinct l
    → find m (remove n l) ≡ (if m == n then none else find m l)
find-remove m n l d = elim (Bool-cases (m == n)) [
  | inl same ↦
      rw same (ap (λ k. find k (remove n l)) ((==_iff m n).0 same) ∙ find-remove_same n l d)
  | inr other ↦ rw other (find-remove_other m n l (ground arith))
]

find-remove-none : (m n : ℕ) (l : List SegEntry) → find m l ≡ none → find m (remove n l) ≡ none
unfolding find remove
find-remove-none m n [] h = refl
find-remove-none m n (e ∷ l) h = ground (arith, find-remove-none m n l)

pub remove-Distinct : (n : ℕ) (l : List SegEntry) → Distinct l → Distinct (remove n l)
unfolding remove
remove-Distinct n [] d = tt
remove-Distinct n (e ∷ l) d = elim (Bool-cases (e.name == n)) [
  | inl same ↦ rw same d.1
  | inr other ↦ rw other (find-remove-none e.name n l d.0, remove-Distinct n l d.1)
]

-- An entry's bytes are counted once; a missing one has none.
pub weigh-remove :
    (n : ℕ) (l : List SegEntry) → weigh size (remove n l) + size_of n l ≡ weigh size l
unfolding remove size_of find
weigh-remove n [] = omega arith
weigh-remove n (e ∷ l) = ground (arith, weigh-remove n l)

pub put-Distinct : (e : SegEntry) (l : List SegEntry) → Distinct l → Distinct (put e l)
unfolding put
put-Distinct e l d = (find-remove_same e.name l d, remove-Distinct e.name l d)

pub find-put :
    (m : ℕ) (e : SegEntry) (l : List SegEntry)
    → find m (put e l) ≡ (if e.name == m then some e else find m l)
unfolding find put
find-put m e l = elim (Bool-cases (e.name == m)) [
  | inl same ↦ rw same refl
  | inr other ↦ rw other (find-remove_other m e.name l (ground arith))
]
