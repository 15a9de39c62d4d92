-- ===== src/Assembly/Correct.antt =====
-- internal/nzb/assembly.go: the assembly over every interleaving of its workers and readers.
use stremio_server_go.Common.{
  ◌||◌, ◌⊎◌, ℕ, ◌+◌, ◌<◌, ◌≡◌, refl, true, inl, inr, List, [], ◌∷◌, ◌++◌, ltb, arith, sym, ap,
  Bool-cases, subst, ◌==◌, length,
}
use stremio_server_go.Assembly.Extents.{Extent, covers, IsOrdered}
use stremio_server_go.Assembly.Model.{
  Assembly, LayoutMode, layout_unknown, layout_sequential, layout_parallel, tiled, start_assembly,
}
use stremio_server_go.Assembly.Counts.{
  JobsAt-replace, JobsAt-middle, weigh-left, weigh, pend, JobsAt, length-middle,
}
use stremio_server_go.Assembly.Invariant.{
  Inv, Same, Same-Inv, start-Inv, claiming-Inv, requeueing-Inv, fail_locked-Same, worker_exit-Same,
  await_run-Same, open_segment-Same, running_of_job,
}
use stremio_server_go.Assembly.Finishing.{completing-Inv}
use stremio_server_go.Assembly.Placement.{
  IsPlaced, Framed, Framed-IsPlaced, fail_locked-Framed, worker_exit-Framed, requeue-Framed,
  await_run-Framed,
}
use stremio_server_go.Assembly.Layout.{
  YencHeader, Opened, opened, refused, open_segment, open_first, fix_layout,
}
use stremio_server_go.Assembly.Completing.{
  claiming-IsPlaced, forgetting-Placed, replaced-Placed, completing-IsPlaced, extent_forward,
}
use stremio_server_go.Assembly.Opening.{opening-IsPlaced, refusing-IsPlaced}
use stremio_server_go.Assembly.Written.{Written, Ends, Within, Ends-covers}
use stremio_server_go.Assembly.Writing.{
  Framed-Written, claiming-Written, forgetting-Written, writing-Written, refusing-Written,
  opening-Written,
}
use stremio_server_go.Assembly.Recording.{completing-Written}
use stremio_server_go.Assembly.System.{
  writing, Job, System, Step, Reach, claiming, opening, refusing, completing, requeueing, failing,
  ending, exiting, reading, here, next, start,
}

pub record Sound (s : System) : Type 0 where
  pub inv : Inv s.asm s.jobs
  pub placed : IsPlaced s.asm s.jobs
  pub written : Written s.asm s.jobs s.writes

-- A step that moves no segment: the jobs, but for their extents, stay as they were.
open_segment-state :
    (a : Assembly) (id : ℕ) (h : YencHeader) → (open_segment a id h).0.state ≡ a.state
unfolding open_segment open_first fix_layout
open_segment-state a id h = ground arith

replaced-Inv :
    (a : Assembly) (pre post : List Job) (j k : Job)
    → k.idx ≡ j.idx
    → Inv a (pre ++ j ∷ post)
    → Inv a (pre ++ k ∷ post)
replaced-Inv a pre post j k e v = record {
  pending_count = v.pending_count;
  remaining_count = v.remaining_count;
  jobs_count = omega (arith, v.jobs_count, length-middle pre post j, length-middle pre post k);
  jobs_at = JobsAt-replace a.state pre post j k e v.jobs_at;
  cursor = v.cursor;
  ordered = v.ordered;
  finished = v.finished;
}

opened-Inv :
    (a b : Assembly) (id : ℕ) (h : YencHeader) (o : Opened) (pre post : List Job) (j : Job)
    → Inv a (pre ++ j ∷ post)
    → open_segment a id h ≡ (b, o)
    → Inv b (pre ++ j ∷ post)
opened-Inv a b id h o pre post j v e =
    let at = (JobsAt-middle a.state pre post j v.jobs_at).0 in
    let same = open_segment-Same a id h v.cursor (running_of_job a (pre ++ j ∷ post) j v at) in
    subst (λ t. Inv t (pre ++ j ∷ post)) (ap (λ (t : Assembly × Opened). t.0) e)
      (Same-Inv a (open_segment a id h).0 (pre ++ j ∷ post) same v)

Framed-Sound :
    (s : System) (b : Assembly)
    → Same s.asm b
    → Framed s.asm b
    → Sound s
    → Sound (record s { asm = b })
Framed-Sound s b same framed v = record {
  inv = Same-Inv s.asm b s.jobs same v.inv;
  placed = Framed-IsPlaced s.asm b s.jobs framed v.placed;
  written = Framed-Written s.asm b s.jobs s.writes framed v.written;
}

at_jobs :
    (s : System) (js : List Job)
    → s.jobs ≡ js
    → Sound s
    → Inv s.asm js × IsPlaced s.asm js × Written s.asm js s.writes
at_jobs s js e v = (
  subst (Inv s.asm) e v.inv,
  subst (IsPlaced s.asm) e v.placed,
  subst (λ t. Written s.asm t s.writes) e v.written,
)

pub Step-Sound : {s t : System} → Step s t → Sound s → Sound t
Step-Sound {s} (claiming id idx a e) v = record {
  inv = claiming-Inv s.asm a s.jobs id idx v.inv e;
  placed = claiming-IsPlaced s.asm a s.jobs id idx v.inv e v.placed;
  written = claiming-Written s.asm a s.jobs s.writes id idx v.inv.cursor e v.written;
}
Step-Sound {s} (opening pre post j h a w e js o) v =
    let (i, p, u) = at_jobs s (pre ++ j ∷ post) js v in
    record {
      inv =
          replaced-Inv a pre post j _ refl (opened-Inv s.asm a j.id h (opened w e) pre post j i o);
      placed = opening-IsPlaced s.asm a j.id h w e pre post j p o;
      written = opening-Written s.asm a j.id h w e pre post j s.writes o u;
    }
Step-Sound {s} (refusing pre post j h a x js o) v =
    let (i, p, u) = at_jobs s (pre ++ j ∷ post) js v in
    record {
      inv = subst (Inv a) (sym js) (opened-Inv s.asm a j.id h (refused x) pre post j i o);
      placed = refusing-IsPlaced s.asm a j.id h x s.jobs v.placed o;
      written = refusing-Written s.asm a j.id h (refused x) s.jobs s.writes o v.written;
    }
Step-Sound {s} (completing pre post j e n a js x r c) v =
    let (i, p, u) = at_jobs s (pre ++ j ∷ post) js v in
    let forward = extent_forward s.asm pre post j e p x in
    record {
      inv = completing-Inv s.asm a pre post j e n forward i c;
      placed = completing-IsPlaced s.asm a pre post j e n i p x c;
      written = completing-Written s.asm a pre post j e n s.writes i.ordered forward x r c u;
    }
Step-Sound {s} (writing pre post j e len done at w js x l q) v =
    let (i, p, u) = at_jobs s (pre ++ j ∷ post) js v in
    record {
      inv = replaced-Inv s.asm pre post j _ refl i;
      placed =
          replaced-Placed s.asm.layout s.asm.total s.asm.covered pre post j
            (record j { writer = w; taken = j.taken + done }) refl p;
      written = writing-Written s.asm pre post j len done at w s.writes l q u;
    }
Step-Sound {s} (requeueing pre post j js) v =
    let (i, p, u) = at_jobs s (pre ++ j ∷ post) js v in
    record {
      inv = requeueing-Inv s.asm pre post j i;
      placed =
          Framed-IsPlaced s.asm _ (pre ++ post) (requeue-Framed s.asm j.idx)
            (forgetting-Placed s.asm.layout s.asm.total s.asm.covered pre post j p);
      written =
          Framed-Written s.asm _ (pre ++ post) s.writes (requeue-Framed s.asm j.idx)
            (forgetting-Written s.asm pre post j s.writes u);
    }
Step-Sound {s} (failing e) v =
    Framed-Sound s _ (fail_locked-Same s.asm e v.inv.cursor) (fail_locked-Framed s.asm e) v
Step-Sound {s} ending v =
    let same : Same s.asm (record s.asm { cancelled = true }) = record {
      state_same = refl;
      pending_same = refl;
      remaining_same = refl;
      covered_same = refl;
      in_range = v.inv.cursor;
      still_finished = λ e. (e, refl);
    } in
    Framed-Sound s _ same (record { layout_same = refl; total_same = refl; covered_same = refl }) v
Step-Sound {s} (exiting cause) v =
    Framed-Sound s _ (worker_exit-Same s.asm cause v.inv.cursor) (worker_exit-Framed s.asm cause) v
Step-Sound {s} (reading off) v =
    Framed-Sound s _ (await_run-Same s.asm off v.inv.cursor) (await_run-Framed s.asm off) v

start-IsPlaced : (limit configured n : ℕ) → IsPlaced (start limit configured n).asm []
unfolding start start_assembly
start-IsPlaced limit configured n = elim (Bool-cases (n == 0)) [
  | inl empty ↦ rw empty ((λ x c. cc), tt)
  | inr some_left ↦ rw some_left (refl, tt)
]

start-Written : (limit configured n : ℕ) → Written (start limit configured n).asm [] []
unfolding start start_assembly
start-Written limit configured n = elim (Bool-cases (n == 0)) [
  | inl empty ↦ record { inside = rw empty (tt, tt); wrote = tt; backed = λ x c. ground (arith, c) }
  | inr some_left ↦ record {
    inside = rw some_left (tt, tt);
    wrote = tt;
    backed = λ x c. ground (arith, c);
  }
]

no_jobs : (js : List Job) → length js ≡ 0 → js ≡ []
no_jobs [] e = refl
no_jobs (j ∷ js) e = absurd (omega arith)

start-Sound : (limit configured n : ℕ) → Sound (start limit configured n)
unfolding start
start-Sound limit configured n = record {
  inv = start-Inv limit configured n;
  placed = start-IsPlaced limit configured n;
  written = start-Written limit configured n;
}

Reach-Sound : {s t : System} → Sound s → Reach s t → Sound t
Reach-Sound v here = v
Reach-Sound v (next r st) = Step-Sound st (Reach-Sound v r)

-- After any history of a download, every segment that is left is either pending, and counted so, or
-- held by exactly one worker's job, and the written ranges are in order and merged.
pub Reach-start-accounted :
    (limit configured n : ℕ) {s : System}
    → Reach (start limit configured n) s
    → (s.asm.remaining ≡ s.asm.pending + length s.jobs)
      × (s.asm.pending ≡ weigh pend s.asm.state)
      × JobsAt s.asm.state s.jobs
      × IsOrdered s.asm.covered
Reach-start-accounted limit configured n {s} r =
    let v = (Reach-Sound (start-Sound limit configured n) r).inv in
    (
      omega (arith, v.remaining_count, v.pending_count, v.jobs_count, weigh-left s.asm.state),
      v.pending_count,
      v.jobs_at,
      v.ordered,
    )

tiled-covers :
    (total : ℕ) (s : List Extent) (x : ℕ) → tiled total s ≡ true → covers s x ≡ ltb x total
unfolding tiled
tiled-covers total [] x h = ground arith
tiled-covers total (e ∷ []) x h = ground arith
tiled-covers total (e ∷ f ∷ s) x h = cc

-- After any history, an assembly that reports itself complete has every byte of the file written and
-- no byte beyond it, no segment left to fetch, and no worker still holding one.
pub Reach-start-complete :
    (limit configured n x : ℕ) {s : System}
    → Reach (start limit configured n) s
    → s.asm.complete ≡ true
    → (covers s.asm.covered x ≡ ltb x s.asm.total) × (s.asm.remaining ≡ 0) × (s.jobs ≡ [])
Reach-start-complete limit configured n x {s} r c =
    let v = (Reach-Sound (start-Sound limit configured n) r).inv in
    let (z, t) = v.finished c in
    (
      tiled-covers s.asm.total s.asm.covered x t,
      z,
      no_jobs s.jobs (omega (arith, v.remaining_count, v.jobs_count, weigh-left s.asm.state)),
    )

known_layout :
    (s : System) (x : ℕ)
    → Within s.asm.layout s.asm.total s.writes s.jobs
    → covers s.writes x ≡ true
    → (s.asm.layout ≡ layout_parallel) × (x < s.asm.total) ⊎ (s.asm.layout ≡ layout_sequential)
known_layout s x i c = by_layout s.asm.layout refl
  where
    by_layout :
        (m : LayoutMode)
        → s.asm.layout ≡ m
        → (s.asm.layout ≡ layout_parallel) × (x < s.asm.total) ⊎ (s.asm.layout ≡ layout_sequential)
    by_layout layout_unknown l =
        let e : Ends 0 s.writes s.jobs = rw l at i in
        absurd (omega (arith, Ends-covers 0 s.writes x e.0 c))
    by_layout layout_parallel l =
        let e : Ends s.asm.total s.writes s.jobs = rw l at i in
        inl (l, Ends-covers s.asm.total s.writes x e.0 c)
    by_layout layout_sequential l = inr l

-- After any history, a byte that has been written to the destination, or is counted as present, has
-- indeed been written; the layout is then known, and in a self-describing file the byte is before the
-- size that its first header declared.
pub Reach-start-bounded :
    (limit configured n x : ℕ) {s : System}
    → Reach (start limit configured n) s
    → covers s.writes x || covers s.asm.covered x ≡ true
    → (covers s.writes x ≡ true)
      × ((s.asm.layout ≡ layout_parallel) × (x < s.asm.total) ⊎ (s.asm.layout ≡ layout_sequential))
Reach-start-bounded limit configured n x {s} r h =
    let u = (Reach-Sound (start-Sound limit configured n) r).written in
    let c : covers s.writes x ≡ true = elim (Bool-cases (covers s.writes x)) [
      | inl written ↦ written
      | inr unwritten ↦ u.backed x (rw unwritten at h)
    ] in
    (c, known_layout s x u.inside c)
