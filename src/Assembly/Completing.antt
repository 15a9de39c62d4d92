-- ===== src/Assembly/Completing.antt =====
-- internal/nzb/assembly.go: where `nextSegment` and `completeSegment` leave a file's written bytes.
use stremio_server_go.Common.{
  ℕ, ◌+◌, ◌≤◌, ◌≡◌, refl, inl, inr, List, [], ◌∷◌, ◌++◌, none, some, ltb, arith, ◌∙◌, Bool-cases,
  if◌then◌else◌, subst,
}
use stremio_server_go.Assembly.Extents.{Extent, add_covered, IsOrdered}
use stremio_server_go.Assembly.Model.{
  Assembly, LayoutMode, layout_unknown, layout_parallel, layout_sequential, claim, fetch,
  next_segment, finalize_locked, settle_size, conclude, mark_segment, record_segment,
  complete_segment,
}
use stremio_server_go.Assembly.Picking.{next_segment-Claimed}
use stremio_server_go.Assembly.Invariant.{Inv}
use stremio_server_go.Assembly.Placement.{
  Placed, IsPlaced, Bounded, ExtIn, JobsIn, JobsIn-middle, JobsIn-insert, Unopened-insert, Unopened,
  Unopened-middle, Bounded-add,
}
use stremio_server_go.Assembly.System.{Job, claimed}

pub claiming-IsPlaced :
    (a b : Assembly) (jobs : List Job) (id idx : ℕ)
    → Inv a jobs
    → next_segment a id ≡ (b, fetch idx)
    → IsPlaced a jobs
    → IsPlaced b (claimed id idx ∷ jobs)
unfolding claim
claiming-IsPlaced a b jobs id idx v h p =
    let c = next_segment-Claimed a b id idx v.cursor h in
    rw c.same (by_layout a.layout a.total a.covered p)
  where
    by_layout :
        (m : LayoutMode) (total : ℕ) (s : List Extent)
        → Placed m total s jobs
        → Placed m total s (claimed id idx ∷ jobs)
    by_layout layout_unknown total s q = (q.0, (refl, q.1))
    by_layout layout_parallel total s q = (q.0, (tt, q.1))
    by_layout layout_sequential total s q = tt

-- A job given back leaves the others as they were.
pub forgetting-Placed :
    (m : LayoutMode) (total : ℕ) (s : List Extent) (pre post : List Job) (j : Job)
    → Placed m total s (pre ++ j ∷ post)
    → Placed m total s (pre ++ post)
forgetting-Placed layout_unknown total s pre post j p = (p.0, (Unopened-middle pre post j p.1).1)
forgetting-Placed layout_parallel total s pre post j p =
    (p.0, (JobsIn-middle total pre post j p.1).1)
forgetting-Placed layout_sequential total s pre post j p = tt

-- Nor does it matter what else a job holds than its extent.
pub replaced-Placed :
    (m : LayoutMode) (total : ℕ) (s : List Extent) (pre post : List Job) (j k : Job)
    → k.ext ≡ j.ext
    → Placed m total s (pre ++ j ∷ post)
    → Placed m total s (pre ++ k ∷ post)
replaced-Placed layout_unknown total s pre post j k e p =
    let r = Unopened-middle pre post j p.1 in (p.0, Unopened-insert pre post k (e ∙ r.0) r.1)
replaced-Placed layout_parallel total s pre post j k e p =
    let r = JobsIn-middle total pre post j p.1 in
    (p.0, JobsIn-insert total pre post k (rw e (r.0)) r.1)
replaced-Placed layout_sequential total s pre post j k e p = tt

pub extent_forward :
    (a : Assembly) (pre post : List Job) (j : Job) (e : Extent)
    → IsPlaced a (pre ++ j ∷ post)
    → j.ext ≡ some e
    → a.layout ≡ layout_parallel
    → e.start ≤ e.end
extent_forward a pre post j e p x l =
    let q : Bounded a.total a.covered × JobsIn a.total (pre ++ j ∷ post) = rw l at p in
    let i : ExtIn a.total j.ext = (JobsIn-middle a.total pre post j q.1).0 in
    let k : ExtIn a.total (some e) = subst (ExtIn a.total) x i in k.0

pub record_segment-layout :
    (a : Assembly) (i : ℕ) (e : Extent) (n : ℕ) → (record_segment a i e n).layout ≡ a.layout
unfolding record_segment finalize_locked settle_size conclude mark_segment
record_segment-layout a i e n = ground arith

-- In a self-describing file only the written ranges change.
pub record_segment-parallel :
    (a : Assembly) (i : ℕ) (e : Extent) (n : ℕ)
    → a.layout ≡ layout_parallel
    → ((record_segment a i e n).total ≡ a.total)
      × ((record_segment a i e n).covered
          ≡ (if ltb 0 n then add_covered a.covered e else a.covered))
unfolding record_segment finalize_locked settle_size conclude mark_segment
record_segment-parallel a i e n l = ground arith

recorded-Bounded :
    (a : Assembly) (e : Extent) (n : ℕ)
    → IsOrdered a.covered
    → e.end ≡ e.start + n
    → e.end ≤ a.total
    → Bounded a.total a.covered
    → Bounded a.total (if ltb 0 n then add_covered a.covered e else a.covered)
recorded-Bounded a e n o len top b = elim (Bool-cases (ltb 0 n)) [
  | inl some_bytes ↦ rw some_bytes (Bounded-add a.total a.covered e o (ground arith) top b)
  | inr no_bytes ↦ rw no_bytes b
]

recorded-IsPlaced :
    (a : Assembly) (i : ℕ) (e : Extent) (n : ℕ) (js : List Job)
    → IsOrdered a.covered
    → e.end ≡ e.start + n
    → e.end ≤ a.total
    → a.layout ≡ layout_parallel
    → Bounded a.total a.covered × JobsIn a.total js
    → IsPlaced (record_segment a i e n) js
recorded-IsPlaced a i e n js o len top l q =
    let (t, c) = record_segment-parallel a i e n l in
    rw (record_segment-layout a i e n ∙ l, t, c) (recorded-Bounded a e n o len top q.0, q.1)

pub completing-IsPlaced :
    (a b : Assembly) (pre post : List Job) (j : Job) (e : Extent) (n : ℕ)
    → Inv a (pre ++ j ∷ post)
    → IsPlaced a (pre ++ j ∷ post)
    → j.ext ≡ some e
    → complete_segment a j.idx e n ≡ (b, none)
    → IsPlaced b (pre ++ post)
unfolding complete_segment
completing-IsPlaced a b pre post j e n v p x h = by_layout a.layout refl
  where
    grown : Extent
    grown = record { start = e.start; end = e.start + n }

    by_layout : (m : LayoutMode) → a.layout ≡ m → IsPlaced b (pre ++ post)
    by_layout layout_unknown l =
        let q : (a.covered ≡ []) × Unopened (pre ++ j ∷ post) = rw l at p in
        cc ((Unopened-middle pre post j q.1).0, x)
    by_layout layout_parallel l =
        let q : Bounded a.total a.covered × JobsIn a.total (pre ++ j ∷ post) = rw l at p in
        let (i, js) = JobsIn-middle a.total pre post j q.1 in
        let k : ExtIn a.total (some e) = subst (ExtIn a.total) x i in
        let done : record_segment a j.idx e n ≡ b = ground arith in
        subst (λ t. IsPlaced t (pre ++ post)) done
          (recorded-IsPlaced a j.idx e n (pre ++ post) v.ordered (ground arith) k.1 l (q.0, js))
    by_layout layout_sequential l =
        let c = record_segment (record a { seq_off = grown.end }) j.idx grown n in
        let done : c ≡ b = ground arith in
        let kept : c.layout ≡ layout_sequential = record_segment-layout _ j.idx grown n ∙ l in
        subst (λ t. IsPlaced t (pre ++ post)) done (rw kept tt)
