-- ===== src/Assembly/Invariant.antt =====
-- internal/nzb/assembly.go: what relates an assembly's counters between critical sections.
use stremio_server_go.Common.{
  ℕ, zero, suc, ◌+◌, ◌-◌, ◌≤◌, ◌<◌, ◌≡◌, true, false, inl, inr, List, [], ◌∷◌, ◌++◌, Option, some,
  length, length-set, get_elem?, get_elem?-set_self, arith, sym, ◌∙◌, ap, Bool-cases, Option-cases,
  subst, min, ◌/◌,
}
use stremio_server_go.Assembly.Extents.{IsOrdered}
use stremio_server_go.Assembly.Model.{
  SegStatus, seg_pending, seg_inflight, Assembly, Err, claim, next_segment, fetch, fail_locked,
  tiled, requeue, worker_exit, start_assembly, notify_locked, is_pending,
}
use stremio_server_go.Assembly.Layout.{YencHeader, open_segment, open_first, fix_layout}
use stremio_server_go.Assembly.Readers.{await_run, hint_from, hint_locked, first_pending}
use stremio_server_go.Assembly.Counts.{
  pend, infl, left, weigh, weigh-set, le-weigh, lt-length_of_get, weigh-replicate, JobsAt,
  JobsAt-set, Others-pending, JobsAt-middle, length-middle,
}
use stremio_server_go.Assembly.Picking.{next_segment-Claimed}
use stremio_server_go.Assembly.System.{Job, claimed, start}

-- Every segment is pending, held by exactly one job, or done; the counters agree with the statuses;
-- the written ranges are in order; a complete assembly has no segment left, and they tile the file.
pub record Inv (a : Assembly) (jobs : List Job) : Type 0 where
  pub pending_count : a.pending ≡ weigh pend a.state
  pub remaining_count : a.remaining ≡ weigh left a.state
  pub jobs_count : length jobs ≡ weigh infl a.state
  pub jobs_at : JobsAt a.state jobs
  pub cursor : a.next ≤ length a.state
  pub ordered : IsOrdered a.covered
  pub finished : a.complete ≡ true → (a.remaining ≡ 0) × (tiled a.total a.covered ≡ true)

-- An assembly with a job is not complete.
pub running_of_job :
    (a : Assembly) (jobs : List Job) (j : Job)
    → Inv a jobs
    → get_elem? a.state j.idx ≡ some seg_inflight
    → a.complete ≡ false
running_of_job a jobs j v h = elim (Bool-cases a.complete) [
  | inl done ↦ absurd (
      omega (arith, v.finished done, le-weigh left a.state j.idx seg_inflight h, v.remaining_count))
  | inr running ↦ running
]

pub start-Inv : (limit configured n : ℕ) → Inv (start limit configured n).asm []
unfolding start start_assembly tiled
start-Inv limit configured n = record {
  pending_count = omega (arith, weigh-replicate pend n seg_pending);
  remaining_count = omega (arith, weigh-replicate left n seg_pending);
  jobs_count = omega (arith, weigh-replicate infl n seg_pending);
  jobs_at = tt;
  cursor = omega arith;
  ordered = tt;
  finished = λ e. ground arith;
}

pub claiming-Inv :
    (a b : Assembly) (jobs : List Job) (id idx : ℕ)
    → Inv a jobs
    → next_segment a id ≡ (b, fetch idx)
    → Inv b (claimed id idx ∷ jobs)
unfolding claim
claiming-Inv a b jobs id idx v h =
    let c = next_segment-Claimed a b id idx v.cursor h in
    let l = lt-length_of_get a.state idx seg_pending c.was_pending in
    let o = Others-pending a.state idx jobs c.was_pending v.jobs_at in
    rw c.same (record {
      pending_count = omega (
        arith,
        v.pending_count,
        weigh-set pend a.state idx seg_pending seg_inflight c.was_pending,
      );
      remaining_count = omega (
        arith,
        v.remaining_count,
        weigh-set left a.state idx seg_pending seg_inflight c.was_pending,
      );
      jobs_count =
          omega (
            arith,
            v.jobs_count,
            weigh-set infl a.state idx seg_pending seg_inflight c.was_pending,
          );
      jobs_at = (
        get_elem?-set_self a.state idx seg_inflight l,
        o,
        JobsAt-set a.state idx seg_inflight jobs o v.jobs_at,
      );
      cursor = omega (arith, c.in_range, length-set a.state idx seg_inflight);
      ordered = v.ordered;
      finished = λ e. cc (e, c.running);
    })

-- A step that moves no segment and no written range.
pub record Same (a b : Assembly) : Type 0 where
  pub state_same : b.state ≡ a.state
  pub pending_same : b.pending ≡ a.pending
  pub remaining_same : b.remaining ≡ a.remaining
  pub covered_same : b.covered ≡ a.covered
  pub in_range : b.next ≤ length a.state
  pub still_finished : b.complete ≡ true → (a.complete ≡ true) × (b.total ≡ a.total)

pub Same-Inv : (a b : Assembly) (jobs : List Job) → Same a b → Inv a jobs → Inv b jobs
Same-Inv a b jobs s v = record {
  pending_count = s.pending_same ∙ v.pending_count ∙ ap (weigh pend) (sym s.state_same);
  remaining_count = s.remaining_same ∙ v.remaining_count ∙ ap (weigh left) (sym s.state_same);
  jobs_count = v.jobs_count ∙ ap (weigh infl) (sym s.state_same);
  jobs_at = subst (λ xs. JobsAt xs jobs) (sym s.state_same) v.jobs_at;
  cursor = subst (λ xs. b.next ≤ length xs) (sym s.state_same) s.in_range;
  ordered = subst IsOrdered (sym s.covered_same) v.ordered;
  finished = λ e.
      let (c, t) = s.still_finished e in
      let (r, all) = v.finished c in (s.remaining_same ∙ r, cc (t, s.covered_same, all));
}

pub fail_locked-Same : (a : Assembly) (e : Err) → a.next ≤ length a.state → Same a (fail_locked a e)
unfolding fail_locked
fail_locked-Same a e l = ground arith

pub worker_exit-Same :
    (a : Assembly) (cause : Option Err) → a.next ≤ length a.state → Same a (worker_exit a cause)
unfolding worker_exit
worker_exit-Same a cause l = ground arith

lt-length_of_pending :
    (xs : List SegStatus) (j : ℕ) → is_pending (get_elem? xs j) ≡ true → j < length xs
lt-length_of_pending [] j h = cc
lt-length_of_pending (x ∷ xs) zero h = omega arith
lt-length_of_pending (x ∷ xs) (suc j) h = omega (arith, lt-length_of_pending xs j h)

first_pending-lt : (xs : List SegStatus) (j k m : ℕ) → first_pending xs j k ≡ some m → m < length xs
unfolding first_pending
first_pending-lt xs j zero m h = cc
first_pending-lt xs j (suc k) m h =
    ground (arith, first_pending-lt xs (j + 1) k m, lt-length_of_pending xs j)

hint_from-Same : (a : Assembly) (idx : ℕ) → a.next ≤ length a.state → Same a (hint_from a idx)
unfolding hint_from
hint_from-Same a idx l = elim (Option-cases (first_pending a.state idx (length a.state - idx))) [
  | inl nothing ↦ rw (nothing, hint_from) (ground arith)
  | inr (j, found) ↦
      let k = first_pending-lt a.state idx (length a.state - idx) j found in
      rw (found, hint_from) (ground arith)
]

hint_locked-Same : (a : Assembly) (off : ℕ) → a.next ≤ length a.state → Same a (hint_locked a off)
unfolding hint_locked
hint_locked-Same a off l =
    ground (arith, hint_from-Same a (min (off / a.part_size) (length a.state - 1)))

pub await_run-Same : (a : Assembly) (off : ℕ) → a.next ≤ length a.state → Same a (await_run a off).0
unfolding await_run
await_run-Same a off l = ground (arith, hint_locked-Same a off)

-- Reading headers moves nothing; a worker does so only while the assembly is running.
pub open_segment-Same :
    (a : Assembly) (id : ℕ) (h : YencHeader)
    → a.next ≤ length a.state
    → a.complete ≡ false
    → Same a (open_segment a id h).0
unfolding open_segment open_first fix_layout
open_segment-Same a id h l r = ground arith

pub requeueing-Inv :
    (a : Assembly) (pre post : List Job) (j : Job)
    → Inv a (pre ++ j ∷ post)
    → Inv (requeue a j.idx) (pre ++ post)
unfolding requeue notify_locked
requeueing-Inv a pre post j v =
    let (at, others, rest) = JobsAt-middle a.state pre post j v.jobs_at in
    let r = running_of_job a (pre ++ j ∷ post) j v at in
    record {
      pending_count =
          omega (arith, v.pending_count, weigh-set pend a.state j.idx seg_inflight seg_pending at);
      remaining_count =
          omega
            (arith, v.remaining_count, weigh-set left a.state j.idx seg_inflight seg_pending at);
      jobs_count = omega (
        arith,
        v.jobs_count,
        length-middle pre post j,
        weigh-set infl a.state j.idx seg_inflight seg_pending at,
      );
      jobs_at = JobsAt-set a.state j.idx seg_pending (pre ++ post) others rest;
      cursor = omega (arith, v.cursor, length-set a.state j.idx seg_pending);
      ordered = v.ordered;
      finished = λ e. cc (e, r);
    }
