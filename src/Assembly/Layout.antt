-- ===== src/Assembly/Layout.antt =====
-- internal/nzb/assembly.go: `openSegment` and `selfDescribing`, which fix where an article's bytes
-- go. The numbers of a header are as `strconv.ParseInt` read them, so they may be negative.
use stremio_server_go.Common.{
  ℕ, ◌+◌, ◌-◌, Bool, true, false, ◌&&◌, ◌||◌, not, Option, none, some, ltb, ◌==◌, if◌then◌else◌,
  length,
}
use stremio_server_go.Common.Int.{ℤ, pos, pos_part, neg_part, ltb_ℤ, ◌+ℤ◌, ◌-ℤ◌}
use stremio_server_go.Assembly.Extents.{Extent}
use stremio_server_go.Assembly.Model.{
  Assembly, Err, layout_unknown, layout_parallel, layout_sequential, exceeds_declared_size,
  file_size_mismatch, outside_file, no_part_info, notify_locked,
}

-- `yencHeader` of internal/nzb/yenc.go.
pub record YencHeader : Type 0 where
  pub size : ℤ
  pub part : ℤ
  pub begin : ℤ
  pub end : ℤ
  pub has_part : Bool

abbrev pub eqb_ℤ : ℤ → ℤ → Bool
eqb_ℤ a b = (pos_part a + neg_part b) == (pos_part b + neg_part a)

unfoldable pub self_describing : YencHeader → ℕ → Bool
self_describing h nsegs =
    if not (ltb_ℤ (pos 0) h.size)
    then false
    else if nsegs == 1
    then not h.has_part || (eqb_ℤ h.begin (pos 1) && eqb_ℤ h.end h.size)
    else h.has_part && (eqb_ℤ h.begin (pos 1) && (not (ltb_ℤ h.end h.begin) && ltb_ℤ h.end h.size))

-- `segWriter`: the place of the next byte, and how many more it takes.
pub record SegWriter : Type 0 where
  pub off : ℕ
  pub remain : ℕ

-- `segWriter.Write` of `len` bytes, of which the destination takes `done`: where they go.
unfoldable pub write : SegWriter → ℕ → ℕ → Option (ℕ × SegWriter)
write s len done =
    if ltb s.remain len
    then none
    else some (s.off, record { off = s.off + done; remain = s.remain - done })

pub data Opened : Type 0 where
  opened : SegWriter → Extent → Opened
  refused : Err → Opened

-- The layout is fixed by the first article.
unfoldable pub fix_layout : Assembly → ℕ → YencHeader → Assembly × Option Err
unfolding self_describing notify_locked ◌+ℤ◌ ◌-ℤ◌
fix_layout a id h =
    let size = pos_part h.size in
    if self_describing h (length a.state)
    then (if ltb_ℤ (pos a.cap_bytes) h.size then (a, some exceeds_declared_size) else (
      notify_locked (record a {
        layout = layout_parallel;
        total = size;
        size_known = true;
        part_size = if h.has_part then pos_part (h.end -ℤ h.begin +ℤ pos 1) else size;
      }),
      none,
    ))
    else (notify_locked (record a { layout = layout_sequential; seq_owner = id }), none)

-- The article's place, once the layout is known.
unfoldable pub place_parallel : Assembly → YencHeader → Opened
place_parallel a h =
    let part : Extent = record { start = pos_part h.begin - 1; end = pos_part h.end } in
    let whole : Extent = record { start = 0; end = a.total } in
    let at = λ (e : Extent). opened (record { off = e.start; remain = e.end - e.start }) e in
    if h.has_part
    then (if not (eqb_ℤ h.size (pos a.total))
        then refused file_size_mismatch
        else if ltb_ℤ h.begin (pos 1) || (ltb_ℤ h.end h.begin || ltb_ℤ (pos a.total) h.end)
        then refused outside_file
        else at part)
    else if (length a.state == 1) && eqb_ℤ h.size (pos a.total)
    then at whole
    else refused no_part_info

unfoldable pub place : Assembly → YencHeader → Opened
unfolding place_parallel
place a h = elim a.layout [
  | layout_sequential ↦
      opened (record { off = a.seq_off; remain = a.cap_bytes - a.seq_off })
        (record { start = a.seq_off; end = 0 })
  | _ ↦ place_parallel a h
]

unfoldable pub open_first : Assembly → ℕ → YencHeader → Assembly × Opened
open_first a id h =
    let (b, e) = fix_layout a id h in elim e [ some x ↦ (b, refused x) | none ↦ (b, place b h) ]

unfoldable pub open_segment : Assembly → ℕ → YencHeader → Assembly × Opened
open_segment a id h = elim a.layout [ layout_unknown ↦ open_first a id h | _ ↦ (a, place a h) ]
