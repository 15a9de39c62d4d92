-- ===== src/SegIndex/Accounts.antt =====
-- The byte count of internal/media/segindex.go, and what its changes keep.
use stremio_server_go.Common.{
  ℕ, ◌+◌, ◌≡◌, Bool, true, false, ◌&&◌, List, [], ◌∷◌, Option, none, some, leb, ◌==◌, inl, inr,
  arith, Bool-cases,
}
use stremio_server_go.Common.Weigh.{weigh, All}
use stremio_server_go.SegIndex.Model.{
  SegEntry, SegIndex, DirEntry, find, size_of, put, account, forget, evict_loop,
}
use stremio_server_go.SegIndex.Files.{Distinct, size, remove-Distinct, weigh-remove, put-Distinct}

-- The total is the sum over the files, no two of which have one name; nothing is counted before the
-- directory is read.
pub record Balanced (ix : SegIndex) : Type 0 where
  pub counted : ix.total ≡ weigh size ix.files
  pub distinct : Distinct ix.files
  pub unread : ix.loaded ≡ false → ix.total ≡ 0

abbrev pub Loaded : SegIndex → Type 0
Loaded x = Balanced x × (x.loaded ≡ true)

-- A directory has no two entries of one name.
abbrev pub Listing : List DirEntry → Type 0
Listing [] = Unit
Listing (d ∷ ds) = All (λ c. (c.name == d.name) ≡ false) ds × Listing ds

abbrev pub ListingOf : Option (List DirEntry) → Type 0
ListingOf none = Unit
ListingOf (some ds) = Listing ds

abbrev pub Absent : List SegEntry → List DirEntry → Type 0
Absent l ds = All (λ c. find c.name l ≡ none) ds

pub forget-Balanced :
    (ix : SegIndex) (n : ℕ) → Balanced ix → ix.loaded ≡ true → Balanced (forget ix n)
unfolding forget
forget-Balanced ix n b r = record {
  counted = omega (arith, b.counted, weigh-remove n ix.files);
  distinct = remove-Distinct n ix.files b.distinct;
  unread = λ u. absurd cc;
}

pub account-Balanced :
    (ix : SegIndex) (e : SegEntry) → Balanced ix → ix.loaded ≡ true → Balanced (account ix e)
unfolding account put
account-Balanced ix e b r = record {
  counted = omega (arith, b.counted, weigh-remove e.name ix.files);
  distinct = put-Distinct e ix.files b.distinct;
  unread = λ u. absurd cc;
}

pub forget_loaded : (ix : SegIndex) (n : ℕ) → ix.loaded ≡ true → (forget ix n).loaded ≡ true
unfolding forget
forget_loaded ix n h = h

pub evict_loop-Balanced :
    (free removes : ℕ → Bool) (limit : ℕ) (ns : List ℕ) (ix : SegIndex)
    → Balanced ix
    → ix.loaded ≡ true
    → Balanced (evict_loop free removes limit ns ix)
unfolding evict_loop
evict_loop-Balanced free removes limit [] ix b r = b
evict_loop-Balanced free removes limit (n ∷ ns) ix b r = elim (Bool-cases (leb ix.total limit)) [
  | inl fits ↦ rw fits b
  | inr over ↦ elim (Bool-cases (free n && removes n)) [
    | inl gone ↦
        rw (over, gone)
          (evict_loop-Balanced free removes limit ns (forget ix n) (forget-Balanced ix n b r)
            (forget_loaded ix n r))
    | inr kept ↦ rw (over, kept) (evict_loop-Balanced free removes limit ns ix b r)
  ]
]

pub size_of-none : (n : ℕ) (l : List SegEntry) → find n l ≡ none → size_of n l ≡ 0
unfolding size_of
size_of-none n l h = ground arith

pub fresh-Balanced :
    (ix : SegIndex) (e : SegEntry)
    → find e.name ix.files ≡ none
    → Balanced ix
    → ix.loaded ≡ true
    → Balanced (record ix { files = put e ix.files; total = ix.total + e.size })
unfolding put
fresh-Balanced ix e h b r = record {
  counted = omega (arith, b.counted, weigh-remove e.name ix.files, size_of-none e.name ix.files h);
  distinct = put-Distinct e ix.files b.distinct;
  unread = λ u. absurd cc;
}
