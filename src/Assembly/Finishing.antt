-- ===== src/Assembly/Finishing.antt =====
-- internal/nzb/assembly.go: the bookkeeping of `completeSegment`.
use stremio_server_go.Common.{
  ℕ, ◌+◌, ◌≤◌, ◌≡◌, refl, false, inl, inr, List, ◌∷◌, ◌++◌, none, ==_iff, length-set, arith, ◌∙◌,
  Bool-cases, subst, ◌==◌,
}
use stremio_server_go.Assembly.Extents.{Extent}
use stremio_server_go.Assembly.Cover.{add_covered_lem}
use stremio_server_go.Assembly.Model.{
  seg_inflight, seg_done, Assembly, layout_unknown, layout_parallel, layout_sequential, LayoutMode,
  finalize_locked, settle_size, conclude, mark_segment, tiled, is_sequential, record_segment,
  complete_segment, notify_locked,
}
use stremio_server_go.Assembly.Counts.{
  pend, infl, left, weigh-set, JobsAt-set, JobsAt-middle, length-middle,
}
use stremio_server_go.Assembly.System.{Job}
use stremio_server_go.Assembly.Invariant.{Inv, running_of_job, Same-Inv, fail_locked-Same}

settle_size-Inv :
    (a : Assembly) (jobs : List Job)
    → a.complete ≡ false
    → Inv a jobs
    → Inv (settle_size a) jobs
      × ((settle_size a).complete ≡ false)
      × ((settle_size a).remaining ≡ a.remaining)
unfolding settle_size
settle_size-Inv a jobs r v = elim (Bool-cases (is_sequential a.layout)) [
  | inl seq ↦
      rw (seq, settle_size)
        (
          record {
            pending_count = v.pending_count;
            remaining_count = v.remaining_count;
            jobs_count = v.jobs_count;
            jobs_at = v.jobs_at;
            cursor = v.cursor;
            ordered = v.ordered;
            finished = λ e. cc (e, r);
          },
          r,
          refl,
        )
  | inr par ↦ rw (par, settle_size) (v, r, refl)
]

conclude-Inv :
    (a : Assembly) (jobs : List Job)
    → a.remaining ≡ 0
    → a.complete ≡ false
    → Inv a jobs
    → Inv (conclude a) jobs
unfolding conclude
conclude-Inv a jobs z r v = elim (Bool-cases (tiled a.total a.covered)) [
  | inl all ↦
      rw (all, conclude)
        (record {
          pending_count = v.pending_count;
          remaining_count = v.remaining_count;
          jobs_count = v.jobs_count;
          jobs_at = v.jobs_at;
          cursor = v.cursor;
          ordered = v.ordered;
          finished = λ e. (z, all);
        })
  | inr gap ↦ rw (gap, conclude) (Same-Inv a _ jobs (fail_locked-Same a _ v.cursor) v)
]

finalize_locked-Inv :
    (a : Assembly) (jobs : List Job)
    → a.remaining ≡ 0
    → a.complete ≡ false
    → Inv a jobs
    → Inv (finalize_locked a) jobs
unfolding finalize_locked
finalize_locked-Inv a jobs z r v =
    let (w, running, same) = settle_size-Inv a jobs r v in
    conclude-Inv (settle_size a) jobs (same ∙ z) running w

-- The segment marked done and its range added, before the assembly is concluded.
marked-Inv :
    (a : Assembly) (pre post : List Job) (j : Job) (e : Extent) (n : ℕ)
    → e.end ≡ e.start + n
    → Inv a (pre ++ j ∷ post)
    → Inv (mark_segment a j.idx e n) (pre ++ post)
unfolding mark_segment
marked-Inv a pre post j e n len v =
    let (at, others, rest) = JobsAt-middle a.state pre post j v.jobs_at in
    let r = running_of_job a (pre ++ j ∷ post) j v at in
    record {
      pending_count =
          omega (arith, v.pending_count, weigh-set pend a.state j.idx seg_inflight seg_done at);
      remaining_count =
          omega (arith, v.remaining_count, weigh-set left a.state j.idx seg_inflight seg_done at);
      jobs_count = omega (
        arith,
        v.jobs_count,
        length-middle pre post j,
        weigh-set infl a.state j.idx seg_inflight seg_done at,
      );
      jobs_at = JobsAt-set a.state j.idx seg_done (pre ++ post) others rest;
      cursor = omega (arith, v.cursor, length-set a.state j.idx seg_done);
      ordered = ground (arith, add_covered_lem a.covered e 0 v.ordered);
      finished = λ x. cc (x, r);
    }

notify_locked-Inv : (a : Assembly) (jobs : List Job) → Inv a jobs → Inv (notify_locked a) jobs
unfolding notify_locked
notify_locked-Inv a jobs v = record {
  pending_count = v.pending_count;
  remaining_count = v.remaining_count;
  jobs_count = v.jobs_count;
  jobs_at = v.jobs_at;
  cursor = v.cursor;
  ordered = v.ordered;
  finished = v.finished;
}

record_segment-Inv :
    (a : Assembly) (pre post : List Job) (j : Job) (e : Extent) (n : ℕ)
    → e.end ≡ e.start + n
    → Inv a (pre ++ j ∷ post)
    → Inv (record_segment a j.idx e n) (pre ++ post)
unfolding record_segment
record_segment-Inv a pre post j e n len v =
    let b = mark_segment a j.idx e n in
    let w = marked-Inv a pre post j e n len v in
    let running : b.complete ≡ false =
      unfold mark_segment in
      running_of_job a (pre ++ j ∷ post) j v (JobsAt-middle a.state pre post j v.jobs_at).0 in
    elim (Bool-cases (b.remaining == 0)) [
      | inl last ↦
          rw (last, record_segment)
            (notify_locked-Inv (finalize_locked b) (pre ++ post)
              (finalize_locked-Inv b (pre ++ post) ((==_iff b.remaining 0).0 last) running w))
      | inr more ↦ rw (more, record_segment) (notify_locked-Inv b (pre ++ post) w)
    ]

seq_off-Inv :
    (a : Assembly) (k : ℕ) (jobs : List Job) → Inv a jobs → Inv (record a { seq_off = k }) jobs
seq_off-Inv a k jobs v = record {
  pending_count = v.pending_count;
  remaining_count = v.remaining_count;
  jobs_count = v.jobs_count;
  jobs_at = v.jobs_at;
  cursor = v.cursor;
  ordered = v.ordered;
  finished = v.finished;
}

-- Of an article that decoded into `n` bytes, at an extent that starts no later than it ends.
pub completing-Inv :
    (a b : Assembly) (pre post : List Job) (j : Job) (e : Extent) (n : ℕ)
    → (a.layout ≡ layout_parallel → e.start ≤ e.end)
    → Inv a (pre ++ j ∷ post)
    → complete_segment a j.idx e n ≡ (b, none)
    → Inv b (pre ++ post)
unfolding complete_segment
completing-Inv a b pre post j e n k v h = by_layout a.layout refl
  where
    grown : Extent
    grown = record { start = e.start; end = e.start + n }

    appended : Inv (record_segment (record a { seq_off = grown.end }) j.idx grown n) (pre ++ post)
    appended =
        record_segment-Inv (record a { seq_off = grown.end }) pre post j grown n refl
          (seq_off-Inv a grown.end (pre ++ j ∷ post) v)

    by_layout : (m : LayoutMode) → a.layout ≡ m → Inv b (pre ++ post)
    by_layout layout_unknown p = subst (λ t. Inv t (pre ++ post)) (ground arith) appended
    by_layout layout_parallel p =
        let fits : e.end ≡ e.start + n = ground (arith, k p) in
        subst (λ t. Inv t (pre ++ post)) (ground arith) (record_segment-Inv a pre post j e n fits v)
    by_layout layout_sequential p = subst (λ t. Inv t (pre ++ post)) (ground arith) appended
