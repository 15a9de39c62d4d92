-- ===== src/Assembly/Model.antt =====
-- internal/nzb/assembly.go: the state shared by an assembly's workers and readers. Each stretch of
-- code under `a.mu` is a function from state to state; the waits on `a.changed` between two such
-- stretches are left to the step relation of `System`. `changes` counts how often `a.changed` was
-- closed and replaced; `cancelled` tells whether the assembly's context is done.
use stremio_server_go.Common.{
  ℕ, zero, suc, ◌+◌, ◌-◌, Bool, true, false, ◌&&◌, ◌||◌, not, List, [], ◌∷◌, Option, none, some,
  ltb, leb, ◌==◌, min, max, if◌then◌else◌, length, get_elem?, set, replicate,
}
use stremio_server_go.Assembly.Extents.{Extent, add_covered}

pub data SegStatus : Type 0 where
  seg_pending seg_inflight seg_done : SegStatus

pub data LayoutMode : Type 0 where
  layout_unknown layout_parallel layout_sequential : LayoutMode

-- The failures that are told apart; `segment` and `connection` carry those of the article's body
-- and of the NNTP connection, which are other components'.
pub data Err : Type 0 where
  canceled stopped no_part_info : Err
  missing_or_inconsistent : ℕ → ℕ → Err
  exceeds_declared_size file_size_mismatch outside_file decoded_length : Err
  segment connection : ℕ → Err

pub record Assembly : Type 0 where
  pub cap_bytes : ℕ
  pub state : List SegStatus
  pub pending : ℕ
  pub remaining : ℕ
  pub next : ℕ
  pub alive : ℕ
  pub layout : LayoutMode
  pub seq_owner : ℕ
  pub seq_off : ℕ
  pub total : ℕ
  pub size_known : Bool
  pub part_size : ℕ
  pub covered : List Extent
  pub complete : Bool
  pub err : Option Err
  pub cancelled : Bool
  pub changes : ℕ

abbrev pub default_connections : ℕ
default_connections = 4

abbrev pub max_connections : ℕ
max_connections = 16

-- A configured number that is not positive is 0 here.
unfoldable pub worker_count : ℕ → ℕ → ℕ
worker_count configured segments =
    let n = if leb configured 0 then default_connections else configured in
    max (min (min n max_connections) segments) 1

-- `StartAssembly`, for a file of `n` segments.
unfoldable pub start_assembly : ℕ → ℕ → ℕ → Assembly
unfolding worker_count
start_assembly cap_bytes configured n = record {
  cap_bytes = cap_bytes;
  state = replicate n seg_pending;
  pending = n;
  remaining = n;
  next = 0;
  alive = if n == 0 then 0 else worker_count configured n;
  layout = if n == 0 then layout_parallel else layout_unknown;
  seq_owner = 0;
  seq_off = 0;
  total = 0;
  size_known = n == 0;
  part_size = 0;
  covered = [];
  complete = n == 0;
  err = none;
  cancelled = n == 0;
  changes = 0;
}

abbrev pub is_some {ℓ} : {A : Type ℓ} → Option A → Bool
is_some none = false
is_some (some a) = true

abbrev pub is_pending : Option SegStatus → Bool
is_pending (some seg_pending) = true
is_pending _ = false

abbrev pub is_sequential : LayoutMode → Bool
is_sequential layout_sequential = true
is_sequential _ = false

unfoldable pub notify_locked : Assembly → Assembly
notify_locked a = record a { changes = a.changes + 1 }

unfoldable pub fail_locked : Assembly → Err → Assembly
unfolding notify_locked
fail_locked a e =
    if is_some a.err || a.complete
    then a
    else record (notify_locked (record a { err = some e })) { cancelled = true }

unfoldable pub got : List Extent → ℕ
got [] = 0
got (e ∷ s) = (e.end - e.start) + got s

unfoldable pub tiled : ℕ → List Extent → Bool
tiled total [] = total == 0
tiled total (e ∷ []) = e.start == 0 && e.end == total
tiled total (e ∷ f ∷ s) = false

-- `finalizeLocked`: a sequential assembly learns its size, then the written ranges must tile it.
unfoldable pub settle_size : Assembly → Assembly
settle_size a =
    if is_sequential a.layout then record a { total = a.seq_off; size_known = true } else a

unfoldable pub conclude : Assembly → Assembly
unfolding fail_locked
conclude a =
    if tiled a.total a.covered
    then record a { complete = true }
    else fail_locked a (missing_or_inconsistent (got a.covered) a.total)

unfoldable pub finalize_locked : Assembly → Assembly
finalize_locked a = conclude (settle_size a)

-- The end of `completeSegment`: the segment is present, at `ext`.
unfoldable pub mark_segment : Assembly → ℕ → Extent → ℕ → Assembly
mark_segment a idx ext n = record a {
  state = set a.state idx seg_done;
  remaining = a.remaining - 1;
  covered = if ltb 0 n then add_covered a.covered ext else a.covered;
}

unfoldable pub record_segment : Assembly → ℕ → Extent → ℕ → Assembly
record_segment a idx ext n =
    let b = mark_segment a idx ext n in
    notify_locked (if b.remaining == 0 then finalize_locked b else b)

unfoldable pub complete_segment : Assembly → ℕ → Extent → ℕ → Assembly × Option Err
complete_segment a idx ext n = elim a.layout [
  | layout_parallel ↦
      if n == (ext.end - ext.start)
      then (record_segment a idx ext n, none)
      else (a, some decoded_length)
  | _ ↦
      let ext' : Extent = record { start = ext.start; end = ext.start + n } in
      (record_segment (record a { seq_off = ext'.end }) idx ext' n, none)
]

unfoldable pub requeue : Assembly → ℕ → Assembly
unfolding notify_locked
requeue a idx = notify_locked (record a {
  state = set a.state idx seg_pending;
  pending = a.pending + 1;
  next = min a.next idx;
})

-- The loop of `pickLocked`, with `k` rounds left and `i` done: the index that it stops at.
unfoldable pub pick_scan : List SegStatus → ℕ → ℕ → ℕ → Option ℕ
pick_scan state next zero i = none
pick_scan state next (suc k) i =
    let n = length state in
    let j = if leb n (next + i) then next + i - n else next + i in
    let rest = pick_scan state next k (i + 1) in
    if is_pending (get_elem? state j) then some j else rest

unfoldable pub claim : Assembly → ℕ → Assembly
claim a j = record a { state = set a.state j seg_inflight; pending = a.pending - 1 }

unfoldable pub pick_locked : Assembly → Assembly × Option ℕ
unfolding pick_scan claim
pick_locked a = elim (pick_scan a.state a.next (length a.state) 0) [
  | none ↦ (a, none)
  | some j ↦
      (record (claim a j) { next = if leb (length a.state) (j + 1) then 0 else j + 1 }, some j)
]

-- One round of `nextSegment`: leave, fetch a segment, or wait for a change.
pub data NextSegment : Type 0 where
  exit wait : NextSegment
  fetch : ℕ → NextSegment

unfoldable pub first_segment : Assembly → Assembly × NextSegment
unfolding claim
first_segment a = if is_pending (get_elem? a.state 0) then (claim a 0, fetch 0) else (a, wait)

unfoldable pub any_segment : Assembly → Assembly × NextSegment
any_segment a =
    let (b, r) = pick_locked a in
    if ltb 0 a.pending then elim r [ none ↦ (b, wait) | some idx ↦ (b, fetch idx) ] else (a, wait)

unfoldable pub next_segment : Assembly → ℕ → Assembly × NextSegment
next_segment a id =
    if (is_some a.err || a.complete)
      || (a.cancelled || (is_sequential a.layout && not (id == a.seq_owner)))
    then (a, exit)
    else elim a.layout [ layout_unknown ↦ first_segment a | _ ↦ any_segment a ]

-- `workerExit`; `cause` is the error of a worker that could not connect.
unfoldable pub worker_exit : Assembly → Option Err → Assembly
unfolding fail_locked
worker_exit a cause =
    let b = record a { alive = a.alive - 1 } in
    if ltb 0 b.alive || (b.complete || is_some b.err) then b else elim cause [
      | some e ↦ fail_locked b e
      | none ↦ fail_locked b (if b.cancelled then canceled else stopped)
    ]
