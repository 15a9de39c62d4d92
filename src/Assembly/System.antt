-- ===== src/Assembly/System.antt =====
-- internal/nzb/assembly.go: the workers and readers of an assembly, in any interleaving of their
-- critical sections. `Job` is what a worker holds between claiming a segment (`nextSegment`) and
-- giving it back; a worker that fails the assembly keeps its job, which nothing waits for any more.
-- `writes` is what has been written to the destination, the last write first.
use stremio_server_go.Common.{ℕ, ◌+◌, ◌≤◌, ◌≡◌, true, List, [], ◌∷◌, ◌++◌, Option, none, some}
use stremio_server_go.Assembly.Extents.{Extent}
use stremio_server_go.Assembly.Model.{
  Assembly, Err, fetch, next_segment, complete_segment, requeue, fail_locked, worker_exit,
  start_assembly,
}
use stremio_server_go.Assembly.Layout.{YencHeader, SegWriter, opened, refused, open_segment, write}
use stremio_server_go.Assembly.Readers.{await_run}

-- `ext` and `writer` are set when the article's headers are read, and `taken` counts the bytes that
-- the writer took since.
pub record Job : Type 0 where
  pub id : ℕ
  pub idx : ℕ
  pub ext : Option Extent
  pub writer : SegWriter
  pub taken : ℕ

-- A job just claimed.
abbrev pub claimed : ℕ → ℕ → Job
claimed id idx = record {
  id = id;
  idx = idx;
  ext = none;
  writer = record { off = 0; remain = 0 };
  taken = 0;
}

abbrev pub begin_writing : Job → SegWriter → Extent → Job
begin_writing j w e = record j { ext = some e; writer = w; taken = 0 }

pub record System : Type 0 where
  pub asm : Assembly
  pub jobs : List Job
  pub writes : List Extent

pub data Step (s : System) : System → Type 0 where
  claiming :
      (id idx : ℕ) (a : Assembly)
      → next_segment s.asm id ≡ (a, fetch idx)
      → Step s (record s { asm = a; jobs = claimed id idx ∷ s.jobs })
  -- the headers of a job's article are read; a worker that dials again reads them again
  opening :
      (pre post : List Job) (j : Job) (h : YencHeader) (a : Assembly) (w : SegWriter) (e : Extent)
      → s.jobs ≡ pre ++ j ∷ post
      → open_segment s.asm j.id h ≡ (a, opened w e)
      → Step s (record s { asm = a; jobs = pre ++ begin_writing j w e ∷ post })
  refusing :
      (pre post : List Job) (j : Job) (h : YencHeader) (a : Assembly) (x : Err)
      → s.jobs ≡ pre ++ j ∷ post
      → open_segment s.asm j.id h ≡ (a, refused x)
      → Step s (record s { asm = a })
  -- `len` decoded bytes are flushed to the job's writer, and the destination takes `done` of them.
  -- After a short write the job may go on, too, which the source's buffered writer does not do.
  writing :
      (pre post : List Job) (j : Job) (e : Extent) (len done at : ℕ) (w : SegWriter)
      → s.jobs ≡ pre ++ j ∷ post
      → j.ext ≡ some e
      → done ≤ len
      → write j.writer len done ≡ some (at, w)
      → Step s (record s {
        jobs = pre ++ record j { writer = w; taken = j.taken + done } ∷ post;
        writes = record { start = at; end = at + done } ∷ s.writes;
      })
  -- the article was decoded into `n` bytes, all taken by its writer
  completing :
      (pre post : List Job) (j : Job) (e : Extent) (n : ℕ) (a : Assembly)
      → s.jobs ≡ pre ++ j ∷ post
      → j.ext ≡ some e
      → n ≡ j.taken
      → complete_segment s.asm j.idx e n ≡ (a, none)
      → Step s (record s { asm = a; jobs = pre ++ post })
  requeueing :
      (pre post : List Job) (j : Job)
      → s.jobs ≡ pre ++ j ∷ post
      → Step s (record s { asm = requeue s.asm j.idx; jobs = pre ++ post })
  failing : (e : Err) → Step s (record s { asm = fail_locked s.asm e })
  -- the parent context is done
  ending : Step s (record s { asm = record s.asm { cancelled = true } })
  exiting : (cause : Option Err) → Step s (record s { asm = worker_exit s.asm cause })
  reading : (off : ℕ) → Step s (record s { asm = (await_run s.asm off).0 })

pub data Reach (s : System) : System → Type 0 where
  here : Reach s s
  next : {t u : System} → Reach s t → Step t u → Reach s u

unfoldable pub start : ℕ → ℕ → ℕ → System
unfolding start_assembly
start cap_bytes configured n = record {
  asm = start_assembly cap_bytes configured n;
  jobs = [];
  writes = [];
}
