-- ===== src/SegIndex/System.antt =====
-- The index of internal/media/segindex.go under any sequence of its operations.
use stremio_server_go.Common.{
  ℕ, ◌+◌, ◌≡◌, refl, sym, ◌∙◌, subst, Bool, true, false, ◌||◌, not, List, [], ◌∷◌, Option, none,
  some, leb, ◌==◌, if◌then◌else◌, ◌⊎◌, inl, inr, arith, Bool-cases, Option-cases,
}
use stremio_server_go.Common.Weigh.{All}
use stremio_server_go.SegIndex.Model.{
  SegEntry, SegIndex, DirEntry, find, put, candidates, scan_entry, scan, load_locked, note_segment,
  evict_segments, is_cached_seg_name,
}
use stremio_server_go.SegIndex.Files.{size, find-put}
use stremio_server_go.SegIndex.Accounts.{
  Balanced, Loaded, Listing, ListingOf, Absent, account-Balanced, evict_loop-Balanced,
  fresh-Balanced,
}

module _ (spell : ℕ → List ℕ) where
  put-Absent :
      (e : SegEntry) (l : List SegEntry) (ds : List DirEntry)
      → All (λ c. (c.name == e.name) ≡ false) ds
      → Absent l ds
      → Absent (put e l) ds
  put-Absent e l [] h a = tt
  put-Absent e l (c ∷ ds) h a =
      (find-put c.name e l ∙ other c.name h.0 a.0, put-Absent e l ds h.1 a.1)
    where
      other :
          (k : ℕ)
          → (k == e.name) ≡ false
          → find k l ≡ none
          → (if e.name == k then some e else find k l) ≡ none
      other k n f = ground arith

  abbrev counts : DirEntry → ℕ → Bool
  counts d size = (d.is_dir || not (is_cached_seg_name (spell d.name))) || leb size 0

  scan_entry_cases :
      (ix : SegIndex) (d : DirEntry)
      → (scan_entry spell ix d ≡ ix)
        ⊎ ((p : ℕ × ℕ) × (scan_entry spell ix d ≡ record ix {
          files = put (record { name = d.name; size = p.0; last = p.1 }) ix.files;
          total = ix.total + p.0;
        }))
  unfolding scan_entry
  scan_entry_cases ix d = elim (Option-cases d.info) [
    | inl e ↦ inl (ground arith)
    | inr ((n, mtime), e) ↦ elim (Bool-cases (counts d n)) [
      | inl skipped ↦ inl (ground arith)
      | inr counted ↦ inr ((n, mtime), ground arith)
    ]
  ]

  scan-Balanced :
      (ix : SegIndex) (ds : List DirEntry)
      → Listing ds
      → Absent ix.files ds
      → Balanced ix
      → ix.loaded ≡ true
      → Balanced (scan spell ix ds) × ((scan spell ix ds).loaded ≡ true)
  unfolding scan
  scan-Balanced ix [] l a b r = (b, r)
  scan-Balanced ix (d ∷ ds) l a b r = elim (scan_entry_cases ix d) [
    | inl e ↦ subst (λ x. Loaded (scan spell x ds)) (sym e) (scan-Balanced ix ds l.1 a.1 b r)
    | inr ((n, mtime), e) ↦
        let f : SegEntry = record { name = d.name; size = n; last = mtime } in
        subst (λ x. Loaded (scan spell x ds)) (sym e)
          (scan-Balanced (record ix { files = put f ix.files; total = ix.total + n }) ds l.1
            (put-Absent f ix.files ds l.0 a.1) (fresh-Balanced ix f a.0 b r) r)
  ]

  nil-Absent : (ds : List DirEntry) → Absent [] ds
  unfolding find
  nil-Absent [] = tt
  nil-Absent (d ∷ ds) = (refl, nil-Absent ds)

  pub load_locked-Balanced :
      (ix : SegIndex) (dir : Option (List DirEntry))
      → ListingOf dir
      → Balanced ix
      → Balanced (load_locked spell ix dir) × ((load_locked spell ix dir).loaded ≡ true)
  unfolding load_locked
  load_locked-Balanced ix dir l b = elim (Bool-cases ix.loaded) [
    | inl read ↦ subst Loaded (sym (already read)) (b, read)
    | inr unread ↦
        subst Loaded (sym (first unread)) (opened dir l (blank-Balanced (b.unread unread)))
  ]
    where
      blank : SegIndex
      blank = record { loaded = true; files = []; total = ix.total }

      already : ix.loaded ≡ true → load_locked spell ix dir ≡ ix
      already e = ground arith

      first :
          ix.loaded ≡ false
          → load_locked spell ix dir
            ≡ (elim dir as (λ _. SegIndex) [ none ↦ blank | some ds ↦ scan spell blank ds ])
      first e = ground arith

      blank-Balanced : ix.total ≡ 0 → Balanced blank
      blank-Balanced z = record { counted = z; distinct = tt; unread = λ u. absurd cc }

      opened :
          (dir : Option (List DirEntry))
          → ListingOf dir
          → Balanced blank
          → Loaded (elim dir as (λ _. SegIndex) [ none ↦ blank | some ds ↦ scan spell blank ds ])
      opened none l b = (b, refl)
      opened (some ds) l b = scan-Balanced blank ds l (nil-Absent ds) b refl

  note_segment-Balanced :
      (ix : SegIndex) (dir : Option (List DirEntry)) (name n now : ℕ)
      → ListingOf dir
      → Balanced ix
      → Balanced (note_segment spell ix dir name n now)
  unfolding note_segment
  note_segment-Balanced ix dir name n now l b =
      let (c, r) = load_locked-Balanced ix dir l b in
      account-Balanced (load_locked spell ix dir) (record { name = name; size = n; last = now }) c r

  module _ (sort : List SegEntry → List ℕ → List ℕ) where
    evict_segments-Balanced :
        (free removes : ℕ → Bool) (ix : SegIndex) (dir : Option (List DirEntry))
        (limit keep now : ℕ)
        → ListingOf dir
        → Balanced ix
        → Balanced (evict_segments spell sort free removes ix dir limit keep now)
    unfolding evict_segments
    evict_segments-Balanced free removes ix dir limit keep now l b =
        let x = load_locked spell ix dir in
        let (c, r) = load_locked-Balanced ix dir l b in
        go (leb limit 0) (leb x.total limit) b c (
          evict_loop-Balanced free removes limit (sort x.files (candidates keep now x.files)) x c r)
      where
        go :
            (p q : Bool) {x y z : SegIndex}
            → Balanced x
            → Balanced y
            → Balanced z
            → Balanced (if p then x else if q then y else z)
        go true q f g h = f
        go false true f g h = g
        go false false f g h = h

    -- The operations on the index of a session.
    pub data Step (ix : SegIndex) : SegIndex → Type 0 where
      noted :
          (dir : Option (List DirEntry)) (name n now : ℕ)
          → ListingOf dir
          → Step ix (note_segment spell ix dir name n now)
      evicted :
          (free removes : ℕ → Bool) (dir : Option (List DirEntry)) (limit keep now : ℕ)
          → ListingOf dir
          → Step ix (evict_segments spell sort free removes ix dir limit keep now)

    pub data Reach (ix : SegIndex) : SegIndex → Type 0 where
      here : Reach ix ix
      next : {x y : SegIndex} → Reach ix x → Step x y → Reach ix y

    step-Balanced : (x y : SegIndex) → Step x y → Balanced x → Balanced y
    step-Balanced x y (noted dir name n now l) b = note_segment-Balanced x dir name n now l b
    step-Balanced x y (evicted free removes dir limit keep now l) b =
        evict_segments-Balanced free removes x dir limit keep now l b

    -- From the zero value on, after any sequence of notes and evictions, whatever the directory held when
    -- it was first read: the total is the sum of the sizes of the indexed files, none of which is counted
    -- twice.
    pub Reach-Balanced :
        (ix : SegIndex) → Reach (record { loaded = false; files = []; total = 0 }) ix → Balanced ix
    Reach-Balanced ix here = record { counted = refl; distinct = tt; unread = λ _. refl }
    Reach-Balanced ix (next {x = x} r s) = step-Balanced x ix s (Reach-Balanced x r)
