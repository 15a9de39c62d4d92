-- ===== src/SegIndex/Choosing.antt =====
-- Which files `evictSegments` of internal/media/segindex.go may delete, in which order, and what is left.
use stremio_server_go.Common.{
  ℕ, ◌-◌, ◌≤◌, ◌<◌, ◌≡◌, ◌≢◌, refl, sym, ap, ◌∙◌, subst, Bool, true, false, ◌&&◌, List, [], ◌++◌,
  Option, none, some, leb, ◌==◌, if◌then◌else◌, ◌⊎◌, inl, inr, arith, Bool-cases, ==_iff,
}
use stremio_server_go.Common.Weigh.{All}
use stremio_server_go.SegIndex.Model.{
  SegEntry, SegIndex, DirEntry, find, candidates, seg_serve_grace, load_locked, evict_segments,
}
use stremio_server_go.SegIndex.Files.{Distinct}
use stremio_server_go.SegIndex.Accounts.{Balanced, ListingOf}
use stremio_server_go.SegIndex.System.{load_locked-Balanced}
use stremio_server_go.SegIndex.Evicting.{mem, Evicted, evict_loop-Evicted}
use stremio_server_go.SegIndex.Candidates.{
  last_of, Sorted, Sorts, Evictable, mem-All, All_prefix, mem_nil, mem_self, Sorted-append,
  Distinct-Found, candidates-Evictable, mem-candidates, mem-append, last_of_found,
}

-- What an eviction did, with `x` the index once the directory is read.
pub record Chosen (free removes : ℕ → Bool) (limit keep now : ℕ) (x r : SegIndex) : Type 0 where
  pub protected :
      (n : ℕ) (e : SegEntry)
      → find n x.files ≡ some e
      → ((n ≡ keep) ⊎ ((now - e.last < seg_serve_grace) ⊎ ((free n && removes n) ≡ false)))
      → find n r.files ≡ some e
  pub oldest_first :
      (n m : ℕ) (e f : SegEntry)
      → find n x.files ≡ some e
      → find n r.files ≡ none
      → find m r.files ≡ some f
      → (m ≢ keep)
      → seg_serve_grace ≤ now - f.last
      → (free m && removes m) ≡ true
      → e.last ≤ f.last
  pub enough :
      limit < r.total
      → (n : ℕ) (e : SegEntry) → find n r.files ≡ some e
      → (n ≡ keep) ⊎ ((now - e.last < seg_serve_grace) ⊎ ((free n && removes n) ≡ false))

module _ (free removes : ℕ → Bool) (limit keep now : ℕ) (x r : SegIndex)
    (sort : List SegEntry → List ℕ → List ℕ) (srt : Sorts sort) (dst : Distinct x.files)
    (ev : Evicted free removes limit (sort x.files (candidates keep now x.files)) x r) where
  abbrev chosen : List ℕ
  chosen = sort x.files (candidates keep now x.files)

  chosen-Evictable : All (Evictable keep now x.files) (ev.tried ++ ev.untried)
  chosen-Evictable = subst (All (Evictable keep now x.files)) ev.order (
      srt.kept x.files (candidates keep now x.files) (Evictable keep now x.files)
        (candidates-Evictable keep now x.files x.files (Distinct-Found x.files dst)))

  -- Every file that may go was tried or was not reached.
  chosen_all :
      (n : ℕ) (e : SegEntry)
      → find n x.files ≡ some e
      → n ≢ keep
      → seg_serve_grace ≤ now - e.last
      → (mem n ev.tried ≡ true) ⊎ (mem n ev.untried ≡ true)
  chosen_all n e f k g = mem-append n ev.tried ev.untried (
      subst (λ l. mem n l ≡ true) ev.order
        (mem-All (λ m. mem m chosen ≡ true) n (candidates keep now x.files)
          (mem-candidates keep now n x.files e f k g)
          (srt.whole x.files (candidates keep now x.files) (λ m. mem m chosen ≡ true)
            (mem_self chosen))))

  still_there : (n : ℕ) (e : SegEntry) → find n r.files ≡ some e → find n x.files ≡ some e
  still_there n e f = kept (ev.gone n)
    where
      kept :
          find n r.files
            ≡ (if mem n ev.tried && (free n && removes n) then none else find n x.files)
          → find n x.files ≡ some e
      kept g = ground arith

  pub Evicted-Chosen : Chosen free removes limit keep now x r
  Evicted-Chosen = record {
    protected = λ n e f p. spared n e f p (ev.gone n);
    oldest_first = λ n m e f a b c d i j.
        let y : find m x.files ≡ some f = still_there m f c in
        let later : All (λ v. last_of n x.files ≤ last_of v x.files) ev.untried =
          mem-All (λ u. All (λ v. last_of u x.files ≤ last_of v x.files) ev.untried) n ev.tried
            (was_tried n e a b (ev.gone n))
            (Sorted-append x.files ev.tried ev.untried (
              subst (Sorted x.files) ev.order
                (srt.ordered x.files (candidates keep now x.files)))) in
        omega (
          arith,
          last_of_found n x.files e a,
          last_of_found m x.files f y,
          mem-All (λ v. last_of n x.files ≤ last_of v x.files) m ev.untried
              (not_tried m f c j (ev.gone m) (chosen_all m f y d i)) later,
        );
    enough = λ over n e f. left_over over n e f (ev.gone n);
  }
    where
      spared :
          (n : ℕ) (e : SegEntry)
          → find n x.files ≡ some e
          → ((n ≡ keep) ⊎ ((now - e.last < seg_serve_grace) ⊎ ((free n && removes n) ≡ false)))
          → find n r.files
            ≡ (if mem n ev.tried && (free n && removes n) then none else find n x.files)
          → find n r.files ≡ some e
      spared n e f p g = elim (Bool-cases (mem n ev.tried)) [
        | inr out ↦ ground arith
        | inl tried ↦
            let (k, o) =
              mem-All (Evictable keep now x.files) n ev.tried tried
                (All_prefix (Evictable keep now x.files) ev.tried ev.untried chosen-Evictable) in
            elim p [
              | inl same ↦ absurd (k same)
              | inr (inl recent) ↦ absurd (omega (arith, o, recent, last_of_found n x.files e f))
              | inr (inr stuck) ↦ ground arith
            ]
      ]

      was_tried :
          (n : ℕ) (e : SegEntry)
          → find n x.files ≡ some e
          → find n r.files ≡ none
          → find n r.files
            ≡ (if mem n ev.tried && (free n && removes n) then none else find n x.files)
          → mem n ev.tried ≡ true
      was_tried n e a b g = elim (Bool-cases (mem n ev.tried)) [
        | inl tried ↦ tried
        | inr out ↦ absurd (ground arith)
      ]

      not_tried :
          (m : ℕ) (f : SegEntry)
          → find m r.files ≡ some f
          → (free m && removes m) ≡ true
          → find m r.files
            ≡ (if mem m ev.tried && (free m && removes m) then none else find m x.files)
          → (mem m ev.tried ≡ true) ⊎ (mem m ev.untried ≡ true)
          → mem m ev.untried ≡ true
      not_tried m f c j g (inl tried) = absurd (ground arith)
      not_tried m f c j g (inr out) = out

      left_over :
          limit < r.total
          → (n : ℕ) (e : SegEntry) → find n r.files ≡ some e
          → find n r.files
            ≡ (if mem n ev.tried && (free n && removes n) then none else find n x.files)
          → (n ≡ keep) ⊎ ((now - e.last < seg_serve_grace) ⊎ ((free n && removes n) ≡ false))
      left_over over n e f g = elim (Bool-cases (n == keep)) [
        | inl same ↦ inl ((==_iff n keep).0 same)
        | inr other ↦ elim (Bool-cases (leb seg_serve_grace (now - e.last))) [
          | inr recent ↦ inr (inl (ground arith))
          | inl old ↦ inr (
              inr (
                stuck (chosen_all n e (still_there n e f) (ground arith) (ground arith))
                  ev.stopped))
        ]
      ]
        where
          stuck :
              (mem n ev.tried ≡ true) ⊎ (mem n ev.untried ≡ true)
              → (r.total ≤ limit) ⊎ (ev.untried ≡ [])
              → (free n && removes n) ≡ false
          stuck (inl tried) z = elim (Bool-cases (free n && removes n)) [
            | inl y ↦ absurd (ground arith)
            | inr y ↦ y
          ]
          stuck (inr out) (inl z) = absurd (omega (arith, z, over))
          stuck (inr out) (inr z) = absurd (mem_nil n (ap (mem n) (sym z) ∙ out))

evict_segments-Evicted :
    (spell : ℕ → List ℕ) (sort : List SegEntry → List ℕ → List ℕ) (free removes : ℕ → Bool)
    (ix : SegIndex) (dir : Option (List DirEntry)) (limit keep now : ℕ)
    → 0 < limit
    → Distinct (load_locked spell ix dir).files
    → Evicted free removes limit
        (sort
          (load_locked spell ix dir).files
          (candidates keep now (load_locked spell ix dir).files))
        (load_locked spell ix dir)
        (evict_segments spell sort free removes ix dir limit keep now)
unfolding evict_segments mem
evict_segments-Evicted spell sort free removes ix dir limit keep now pos d =
    go (leb limit 0) (leb x.total limit) (λ e. absurd (ground arith)) (λ e. ground arith)
      (evict_loop-Evicted free removes limit (sort x.files (candidates keep now x.files)) x d)
  where
    x : SegIndex
    x = load_locked spell ix dir

    go :
        (p q : Bool) {z : SegIndex} {ns : List ℕ}
        → (p ≡ true → ⊥)
        → (q ≡ true → x.total ≤ limit)
        → Evicted free removes limit ns x z
        → Evicted free removes limit ns x (if p then ix else if q then x else z)
    go true q n f h = absurd (n refl)
    go false true {ns = ns} n f h = record {
      tried = [];
      untried = ns;
      order = refl;
      gone = λ m. refl;
      stopped = inl (f refl);
      needed = inr refl;
    }
    go false false n f h = h

-- With a sort as documented and an index whose total is right, an eviction with a limit above 0, once
-- the directory is read: the file to keep, the files used within the last `segServeGrace`, and those
-- whose lock is held or whose removal fails all stay. No file goes while an older one stays that could
-- have gone. If the total is still over the limit, then none of the files left could have gone.
pub evict_segments-Chosen :
    (spell : ℕ → List ℕ) (sort : List SegEntry → List ℕ → List ℕ) (free removes : ℕ → Bool)
    (ix : SegIndex) (dir : Option (List DirEntry)) (limit keep now : ℕ)
    → Sorts sort
    → ListingOf dir
    → Balanced ix
    → 0 < limit
    → Chosen free removes limit keep now
        (load_locked spell ix dir)
        (evict_segments spell sort free removes ix dir limit keep now)
evict_segments-Chosen spell sort free removes ix dir limit keep now srt l b pos =
    let x : SegIndex = load_locked spell ix dir in
    let d : Distinct x.files = (load_locked-Balanced spell ix dir l b).0.distinct in
    Evicted-Chosen free removes limit keep now x
      (evict_segments spell sort free removes ix dir limit keep now) sort srt d
      (evict_segments-Evicted spell sort free removes ix dir limit keep now pos d)
