-- ===== src/Assembly/Placement.antt =====
-- internal/nzb/assembly.go: where the bytes of a self-describing file go.
use stremio_server_go.Common.{
  ℕ, ◌≤◌, ◌<◌, ◌≡◌, true, List, [], ◌∷◌, ◌++◌, Option, none, some, arith,
}
use stremio_server_go.Assembly.Extents.{Extent, add_covered, covers, IsOrdered}
use stremio_server_go.Assembly.Cover.{add_covered_lem}
use stremio_server_go.Assembly.Model.{
  Assembly, Err, LayoutMode, layout_unknown, layout_parallel, layout_sequential, fail_locked,
  finalize_locked, settle_size, conclude, requeue, worker_exit,
}
use stremio_server_go.Assembly.Layout.{YencHeader, SegWriter, opened, place_parallel}
use stremio_server_go.Assembly.Readers.{await_run, hint_locked, hint_from}
use stremio_server_go.Assembly.System.{Job}

abbrev pub Bounded : ℕ → List Extent → Type 0
Bounded total s = (x : ℕ) → covers s x ≡ true → x < total

abbrev pub ExtIn : ℕ → Option Extent → Type 0
ExtIn total none = Unit {0}
ExtIn total (some e) = (e.start ≤ e.end) × (e.end ≤ total)

abbrev pub JobsIn : ℕ → List Job → Type 0
JobsIn total [] = Unit {0}
JobsIn total (j ∷ js) = ExtIn total j.ext × JobsIn total js

abbrev pub Unopened : List Job → Type 0
Unopened [] = Unit {0}
Unopened (j ∷ js) = (j.ext ≡ none) × Unopened js

-- What each layout promises of the written ranges and of the jobs' extents.
abbrev pub Placed : LayoutMode → ℕ → List Extent → List Job → Type 0
Placed layout_unknown total s js = (s ≡ []) × Unopened js
Placed layout_parallel total s js = Bounded total s × JobsIn total js
Placed layout_sequential total s js = Unit {0}

abbrev pub IsPlaced : Assembly → List Job → Type 0
IsPlaced a js = Placed a.layout a.total a.covered js

pub JobsIn-Unopened : (total : ℕ) (js : List Job) → Unopened js → JobsIn total js
JobsIn-Unopened total [] u = tt
JobsIn-Unopened total (j ∷ js) u = (rw (u.0) tt, JobsIn-Unopened total js u.1)

pub JobsIn-middle :
    (total : ℕ) (pre post : List Job) (j : Job)
    → JobsIn total (pre ++ j ∷ post)
    → ExtIn total j.ext × JobsIn total (pre ++ post)
JobsIn-middle total [] post j h = h
JobsIn-middle total (k ∷ pre) post j h =
    let r = JobsIn-middle total pre post j h.1 in (r.0, (h.0, r.1))

pub JobsIn-insert :
    (total : ℕ) (pre post : List Job) (j : Job)
    → ExtIn total j.ext
    → JobsIn total (pre ++ post)
    → JobsIn total (pre ++ j ∷ post)
JobsIn-insert total [] post j e h = (e, h)
JobsIn-insert total (k ∷ pre) post j e h = (h.0, JobsIn-insert total pre post j e h.1)

pub Unopened-middle :
    (pre post : List Job) (j : Job)
    → Unopened (pre ++ j ∷ post)
    → (j.ext ≡ none) × Unopened (pre ++ post)
Unopened-middle [] post j h = h
Unopened-middle (k ∷ pre) post j h = let r = Unopened-middle pre post j h.1 in (r.0, (h.0, r.1))

pub Unopened-insert :
    (pre post : List Job) (j : Job)
    → j.ext ≡ none
    → Unopened (pre ++ post)
    → Unopened (pre ++ j ∷ post)
Unopened-insert [] post j e h = (e, h)
Unopened-insert (k ∷ pre) post j e h = (h.0, Unopened-insert pre post j e h.1)

-- A step that leaves the layout, the size and the written ranges.
pub record Framed (a b : Assembly) : Type 0 where
  pub layout_same : b.layout ≡ a.layout
  pub total_same : b.total ≡ a.total
  pub covered_same : b.covered ≡ a.covered

pub Framed-IsPlaced : (a b : Assembly) (js : List Job) → Framed a b → IsPlaced a js → IsPlaced b js
Framed-IsPlaced a b js f p = rw (f.layout_same, f.total_same, f.covered_same) p

pub fail_locked-Framed : (a : Assembly) (e : Err) → Framed a (fail_locked a e)
unfolding fail_locked
fail_locked-Framed a e = ground arith

pub worker_exit-Framed : (a : Assembly) (cause : Option Err) → Framed a (worker_exit a cause)
unfolding worker_exit
worker_exit-Framed a cause = ground arith

pub requeue-Framed : (a : Assembly) (i : ℕ) → Framed a (requeue a i)
unfolding requeue
requeue-Framed a i = ground arith

pub await_run-Framed : (a : Assembly) (off : ℕ) → Framed a (await_run a off).0
unfolding await_run hint_locked hint_from
await_run-Framed a off = ground arith

-- An article is only given a place inside the file.
pub place_parallel-within :
    (a : Assembly) (h : YencHeader) (w : SegWriter) (e : Extent)
    → place_parallel a h ≡ opened w e
    → (e.start ≤ e.end) × (e.end ≤ a.total)
unfolding place_parallel
place_parallel-within a h w e p = ground arith

pub finalize_locked-parallel :
    (a : Assembly) → a.layout ≡ layout_parallel → Framed a (finalize_locked a)
unfolding finalize_locked settle_size conclude
finalize_locked-parallel a l = ground arith

pub Bounded-add :
    (total : ℕ) (s : List Extent) (e : Extent)
    → IsOrdered s
    → e.start < e.end
    → e.end ≤ total
    → Bounded total s
    → Bounded total (add_covered s e)
Bounded-add total s e o k l b x c = ground (arith, add_covered_lem s e x o k, b x)
