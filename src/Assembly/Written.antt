-- ===== src/Assembly/Written.antt =====
-- internal/nzb/assembly.go: what `segWriter.Write` has written to the destination.
use stremio_server_go.Common.{ℕ, ◌+◌, ◌≤◌, ◌<◌, ◌≡◌, ◌⊎◌, true, List, [], ◌∷◌, some, arith}
use stremio_server_go.Common.Weigh.{All, All-imp}
use stremio_server_go.Assembly.Extents.{Extent, covers}
use stremio_server_go.Assembly.Model.{
  Assembly, LayoutMode, layout_unknown, layout_parallel, layout_sequential,
}
use stremio_server_go.Assembly.Layout.{
  YencHeader, SegWriter, opened, open_segment, open_first, fix_layout, place, place_parallel, write,
}
use stremio_server_go.Assembly.System.{Job}

abbrev pub EndsBy : ℕ → Extent → Type 0
EndsBy bound e = e.end ≤ bound

abbrev pub RoomBy : ℕ → Job → Type 0
RoomBy bound j = j.writer.off + j.writer.remain ≤ bound

abbrev pub Ends : ℕ → List Extent → List Job → Type 0
Ends bound ws js = All (EndsBy bound) ws × All (RoomBy bound) js

-- Nothing is written, and no writer has room, before the layout is known; in a self-describing file
-- both end by its size.
abbrev pub Within : LayoutMode → ℕ → List Extent → List Job → Type 0
Within layout_unknown total ws js = Ends 0 ws js
Within layout_parallel total ws js = Ends total ws js
Within layout_sequential total ws js = Unit {0}

-- The bytes that a job's writer took since it was opened are written.
abbrev pub Wrote : List Extent → Job → Type 0
Wrote ws j =
    (e : Extent)
    → j.ext ≡ some e
    → (j.writer.off ≡ e.start + j.taken)
      × ((x : ℕ) → e.start ≤ x → x < j.writer.off → covers ws x ≡ true)

-- So are the bytes that are counted as present.
pub record Written (a : Assembly) (js : List Job) (ws : List Extent) : Type 0 where
  pub inside : Within a.layout a.total ws js
  pub wrote : All (Wrote ws) js
  pub backed : (x : ℕ) → covers a.covered x ≡ true → covers ws x ≡ true

pub Ends-covers :
    (bound : ℕ) (ws : List Extent) (x : ℕ) → All (EndsBy bound) ws → covers ws x ≡ true → x < bound
Ends-covers bound [] x h c = cc
Ends-covers bound (e ∷ ws) x h c = ground (arith, Ends-covers bound ws x h.1)

pub Ends-Within :
    (m : LayoutMode) (total : ℕ) (ws : List Extent) (js : List Job)
    → Ends 0 ws js
    → Within m total ws js
Ends-Within layout_unknown total ws js h = h
Ends-Within layout_parallel total ws js h = (
  All-imp (EndsBy 0) (EndsBy total) ws (λ e p. omega (arith, p)) h.0,
  All-imp (RoomBy 0) (RoomBy total) js (λ j p. omega (arith, p)) h.1,
)
Ends-Within layout_sequential total ws js h = tt

-- A step that keeps the layout and, whatever the bound, keeps to it.
pub Within-step :
    (m : LayoutMode) (total : ℕ) (ws ws' : List Extent) (js js' : List Job)
    → ((bound : ℕ) → Ends bound ws js → Ends bound ws' js')
    → Within m total ws js
    → Within m total ws' js'
Within-step layout_unknown total ws ws' js js' f h = f 0 h
Within-step layout_parallel total ws ws' js js' f h = f total h
Within-step layout_sequential total ws ws' js js' f h = tt

-- `segWriter.Write` starts at the writer's place, and neither it nor what is left goes past the end.
pub write_lem :
    (s : SegWriter) (len done at : ℕ) (w : SegWriter)
    → done ≤ len
    → write s len done ≡ some (at, w)
    → (at ≡ s.off) × (w.off ≡ s.off + done) × (w.off + w.remain ≡ s.off + s.remain)
unfolding write
write_lem s len done at w l e = ground arith

-- An article's writer begins where its extent does.
pub open_segment-off :
    (a b : Assembly) (id : ℕ) (h : YencHeader) (w : SegWriter) (e : Extent)
    → open_segment a id h ≡ (b, opened w e)
    → w.off ≡ e.start
unfolding open_segment open_first place place_parallel
open_segment-off a b id h w e o = ground arith

-- In a self-describing file it has room up to the file's size at most.
pub open_segment-room :
    (a b : Assembly) (id : ℕ) (h : YencHeader) (w : SegWriter) (e : Extent)
    → open_segment a id h ≡ (b, opened w e)
    → (b.layout ≡ layout_sequential) ⊎ (b.layout ≡ layout_parallel) × (w.off + w.remain ≤ b.total)
unfolding open_segment open_first fix_layout place place_parallel
open_segment-room a b id h w e o = ground arith

-- A layout that is known, and its size, stay; the ranges that are present do, too.
pub open_segment-known :
    (a : Assembly) (id : ℕ) (h : YencHeader)
    → ((open_segment a id h).0.covered ≡ a.covered)
      × ((a.layout ≡ layout_unknown)
          ⊎ ((open_segment a id h).0.layout ≡ a.layout) × ((open_segment a id h).0.total ≡ a.total))
unfolding open_segment open_first fix_layout
open_segment-known a id h = ground arith
