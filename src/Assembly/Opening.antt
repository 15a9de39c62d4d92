-- ===== src/Assembly/Opening.antt =====
-- internal/nzb/assembly.go: the place of an article that `openSegment` gives.
use stremio_server_go.Common.{
  ℕ, ◌≡◌, refl, ◌⊎◌, inl, inr, List, [], ◌∷◌, ◌++◌, none, arith, Option-cases, sym, ◌∙◌, ap, subst,
}
use stremio_server_go.Assembly.Extents.{Extent, covers}
use stremio_server_go.Assembly.Model.{
  Assembly, Err, LayoutMode, layout_unknown, layout_parallel, layout_sequential,
}
use stremio_server_go.Assembly.Layout.{
  YencHeader, SegWriter, Opened, opened, refused, open_segment, open_first, fix_layout, place,
}
use stremio_server_go.Assembly.System.{Job, begin_writing}
use stremio_server_go.Assembly.Placement.{
  Placed, IsPlaced, Bounded, JobsIn, Unopened, JobsIn-Unopened, JobsIn-middle, JobsIn-insert,
  Unopened-middle, place_parallel-within,
}

-- The first header sets the layout, and touches no written range.
record Fixed (a b : Assembly) : Type 0 where
  covered_same : b.covered ≡ a.covered
  known : (b.layout ≡ layout_parallel) ⊎ (b.layout ≡ layout_sequential)

Bounded-empty : (total : ℕ) (s : List Extent) → s ≡ [] → Bounded total s
Bounded-empty total s e x c = cc (ap (λ (t : List Extent). covers t x) e, c)

fix_layout-Fixed :
    (a : Assembly) (id : ℕ) (h : YencHeader)
    → (fix_layout a id h).1 ≡ none
    → Fixed a (fix_layout a id h).0
unfolding fix_layout
fix_layout-Fixed a id h e = ground arith

sequential-ne-parallel : (m : LayoutMode) → m ≡ layout_sequential → m ≡ layout_parallel → ⊥
sequential-ne-parallel m p q = cc (p, q)

-- A job placed in an assembly whose layout is known; `total` is its size.
place-IsPlaced :
    (a : Assembly) (h : YencHeader) (w : SegWriter) (e : Extent) (pre post : List Job) (j : Job)
    → (a.layout ≡ layout_parallel) ⊎ (a.layout ≡ layout_sequential)
    → (a.layout ≡ layout_parallel → Bounded a.total a.covered × JobsIn a.total (pre ++ post))
    → place a h ≡ opened w e
    → IsPlaced a (pre ++ begin_writing j w e ∷ post)
unfolding place
place-IsPlaced a h w e pre post j (inr seq) p o = rw seq tt
place-IsPlaced a h w e pre post j (inl par) p o =
    let inside = place_parallel-within a h w e (rw (par, place) at o) in
    let (b, js) = p par in rw par (b, JobsIn-insert a.total pre post _ inside js)

-- The jobs of an assembly whose layout the opened header fixes.
fixed-IsPlaced :
    (a b : Assembly) (id : ℕ) (h : YencHeader) (w : SegWriter) (e : Extent) (pre post : List Job)
    (j : Job)
    → (a.covered ≡ []) × Unopened (pre ++ j ∷ post)
    → open_first a id h ≡ (b, opened w e)
    → IsPlaced b (pre ++ begin_writing j w e ∷ post)
unfolding open_first
fixed-IsPlaced a b id h w e pre post j p o = elim (Option-cases (fix_layout a id h).1) [
  | inr (x, failed) ↦ absurd (ground (arith, failed))
  | inl none_failed ↦
      let c = (fix_layout a id h).0 in
      let f = fix_layout-Fixed a id h none_failed in
      let same : c ≡ b = ground arith in
      let at : place c h ≡ opened w e = ground arith in
      let none_there : c.covered ≡ [] = f.covered_same ∙ p.0 in
      let unopened = (Unopened-middle pre post j p.1).1 in
      subst (λ t. IsPlaced t (pre ++ begin_writing j w e ∷ post)) same
        (place-IsPlaced c h w e pre post j f.known
          (λ _. (
            Bounded-empty c.total c.covered none_there,
            JobsIn-Unopened c.total (pre ++ post) unopened,
          ))
          at)
]

pub opening-IsPlaced :
    (a b : Assembly) (id : ℕ) (h : YencHeader) (w : SegWriter) (e : Extent) (pre post : List Job)
    (j : Job)
    → IsPlaced a (pre ++ j ∷ post)
    → open_segment a id h ≡ (b, opened w e)
    → IsPlaced b (pre ++ begin_writing j w e ∷ post)
unfolding open_segment
opening-IsPlaced a b id h w e pre post j p o = by_layout a.layout refl
  where
    after : Assembly → Type 0
    after t = IsPlaced t (pre ++ begin_writing j w e ∷ post)

    by_layout : (m : LayoutMode) → a.layout ≡ m → after b
    by_layout layout_unknown l =
        fixed-IsPlaced a b id h w e pre post j (rw l at p) (rw (l, open_segment) at o)
    by_layout layout_parallel l =
        let at : (a, place a h) ≡ (b, opened w e) = rw (l, open_segment) at o in
        let q : Bounded a.total a.covered × JobsIn a.total (pre ++ j ∷ post) = rw l at p in
        let js = (JobsIn-middle a.total pre post j q.1).1 in
        subst after (ap (λ (t : Assembly × Opened). t.0) at) (
          place-IsPlaced a h w e pre post j (inl l) (λ _. (q.0, js))
            (ap (λ (t : Assembly × Opened). t.1) at))
    by_layout layout_sequential l =
        let at : (a, place a h) ≡ (b, opened w e) = rw (l, open_segment) at o in
        subst after (ap (λ (t : Assembly × Opened). t.0) at) (
          place-IsPlaced a h w e pre post j (inr l)
            (λ m. absurd (sequential-ne-parallel a.layout l m))
            (ap (λ (t : Assembly × Opened). t.1) at))

-- With nothing written and no job opened, every layout's promise holds.
empty-Placed :
    (m : LayoutMode) (total : ℕ) (s : List Extent) (jobs : List Job)
    → s ≡ []
    → Unopened jobs
    → Placed m total s jobs
empty-Placed layout_unknown total s jobs e u = (e, u)
empty-Placed layout_parallel total s jobs e u =
    (Bounded-empty total s e, JobsIn-Unopened total jobs u)
empty-Placed layout_sequential total s jobs e u = tt

open_first-covered :
    (a : Assembly) (id : ℕ) (h : YencHeader) → (open_first a id h).0.covered ≡ a.covered
unfolding open_first fix_layout
open_first-covered a id h = ground arith

-- A header whose article is refused may have fixed the layout all the same.
pub refusing-IsPlaced :
    (a b : Assembly) (id : ℕ) (h : YencHeader) (x : Err) (jobs : List Job)
    → IsPlaced a jobs
    → open_segment a id h ≡ (b, refused x)
    → IsPlaced b jobs
unfolding open_segment
refusing-IsPlaced a b id h x jobs p o = by_layout a.layout refl
  where
    by_layout : (m : LayoutMode) → a.layout ≡ m → IsPlaced b jobs
    by_layout layout_unknown l =
        let at : open_first a id h ≡ (b, refused x) = rw (l, open_segment) at o in
        let q : (a.covered ≡ []) × Unopened jobs = rw l at p in
        let e : b.covered ≡ a.covered =
          sym (ap (λ (t : Assembly × Opened). t.0.covered) at) ∙ open_first-covered a id h in
        empty-Placed b.layout b.total b.covered jobs (e ∙ q.0) q.1
    by_layout layout_parallel l =
        let at : (a, place a h) ≡ (b, refused x) = rw (l, open_segment) at o in
        subst (λ t. IsPlaced t jobs) (ap (λ (t : Assembly × Opened). t.0) at) p
    by_layout layout_sequential l =
        let at : (a, place a h) ≡ (b, refused x) = rw (l, open_segment) at o in
        subst (λ t. IsPlaced t jobs) (ap (λ (t : Assembly × Opened). t.0) at) p
