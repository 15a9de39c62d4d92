-- ===== src/SegIndex/Model.antt =====
-- `segIndex` of internal/media/segindex.go and the three functions on it. A file name is a number, and
-- `spell` its text as character codes. `dir` is what reading the directory brings, `free` the answers of
-- `TryLock` on the lock of each file, `removes` whether its removal succeeds or finds no file, and
-- `sort` is sort.Slice by the times of `last`. Times are in seconds.
use stremio_server_go.Common.{
  ℕ, ◌+◌, ◌-◌, ◌*◌, ◌/◌, Bool, true, false, ◌&&◌, ◌||◌, not, List, [], ◌∷◌, Option, none, some, leb,
  ◌==◌, if◌then◌else◌, max,
}
use stremio_server_go.Common.Text.{codes, has_prefix, has_suffix, contains}
use stremio_server_go.Common.Int.{ℤ, pos, ltb_ℤ, pos_part}

abbrev pub seg_cache_segments : ℕ
seg_cache_segments = 300

abbrev pub seg_cache_min_bytes : ℕ
seg_cache_min_bytes = 67108864

abbrev pub seg_serve_grace : ℕ
seg_serve_grace = 30

-- An entry of the map `files`, with its key.
pub record SegEntry : Type 0 where
  pub name : ℕ
  pub size : ℕ
  pub last : ℕ

pub record SegIndex : Type 0 where
  pub loaded : Bool
  pub files : List SegEntry
  pub total : ℕ

-- An entry of a directory; `info` is none where its Info fails.
pub record DirEntry : Type 0 where
  pub name : ℕ
  pub is_dir : Bool
  pub info : Option (ℕ × ℕ)

unfoldable pub is_cached_seg_name : List ℕ → Bool
is_cached_seg_name name =
    if not (has_suffix name (codes ".ts")) || contains name (codes ".tmp")
    then false
    else has_prefix name (codes "seg")
      || (has_prefix name (codes "a") && contains name (codes "seg"))

-- `ix.files[name]`, and its deletion.
unfoldable pub find : ℕ → List SegEntry → Option SegEntry
find n [] = none
find n (e ∷ l) = if e.name == n then some e else find n l

unfoldable pub remove : ℕ → List SegEntry → List SegEntry
remove n [] = []
remove n (e ∷ l) = if e.name == n then l else e ∷ remove n l

-- The size of an entry, 0 for a missing one as for the map's zero value.
unfoldable pub size_of : ℕ → List SegEntry → ℕ
size_of n l = elim (find n l) [ none ↦ 0 | some e ↦ e.size ]

unfoldable pub put : SegEntry → List SegEntry → List SegEntry
put e l = e ∷ remove e.name l

-- `ix.files[name] = e` with the sum corrected.
unfoldable pub account : SegIndex → SegEntry → SegIndex
account ix e = record ix {
  files = put e ix.files;
  total = (ix.total + e.size) - size_of e.name ix.files;
}

unfoldable pub forget : SegIndex → ℕ → SegIndex
forget ix n = record ix { files = remove n ix.files; total = ix.total - size_of n ix.files }

unfoldable pub candidates : ℕ → ℕ → List SegEntry → List ℕ
candidates keep now [] = []
candidates keep now (e ∷ l) =
    let rest = candidates keep now l in
    if not (e.name == keep) && leb seg_serve_grace (now - e.last) then e.name ∷ rest else rest

unfoldable pub evict_loop : (ℕ → Bool) → (ℕ → Bool) → ℕ → List ℕ → SegIndex → SegIndex
evict_loop free removes limit [] ix = ix
evict_loop free removes limit (n ∷ ns) ix =
    let kept = evict_loop free removes limit ns ix in
    let gone = evict_loop free removes limit ns (forget ix n) in
    if leb ix.total limit then ix else if free n && removes n then gone else kept

module _ (spell : ℕ → List ℕ) where
  -- What one entry of the directory adds.
  unfoldable pub scan_entry : SegIndex → DirEntry → SegIndex
  scan_entry ix d = elim d.info [
    | none ↦ ix
    | some (size, mtime) ↦
        if (d.is_dir || not (is_cached_seg_name (spell d.name))) || leb size 0
        then ix
        else record ix {
          files = put (record { name = d.name; size = size; last = mtime }) ix.files;
          total = ix.total + size;
        }
  ]

  unfoldable pub scan : SegIndex → List DirEntry → SegIndex
  scan ix [] = ix
  scan ix (d ∷ ds) = scan (scan_entry ix d) ds

  unfoldable pub load_locked : SegIndex → Option (List DirEntry) → SegIndex
  load_locked ix dir =
      let blank : SegIndex = record { loaded = true; files = []; total = ix.total } in
      if ix.loaded then ix else elim dir [ none ↦ blank | some ds ↦ scan blank ds ]

  unfoldable pub note_segment : SegIndex → Option (List DirEntry) → ℕ → ℕ → ℕ → SegIndex
  note_segment ix dir name size now =
      account (load_locked ix dir) (record { name = name; size = size; last = now })

  module _ (sort : List SegEntry → List ℕ → List ℕ) where
    unfoldable pub evict_segments :
        (ℕ → Bool) → (ℕ → Bool) → SegIndex → Option (List DirEntry) → ℕ → ℕ → ℕ → SegIndex
    evict_segments free removes ix dir limit keep now =
        let x = load_locked ix dir in
        let evicted =
          evict_loop free removes limit (sort x.files (candidates keep now x.files)) x in
        if leb limit 0 then ix else if leb x.total limit then x else evicted

abbrev pub seg_dur : ℕ
seg_dur = 4

abbrev pub legacy_maxrate_bps : ℕ
legacy_maxrate_bps = 8000000

-- The cap of a session: the configured one, none (0) when that is negative, and otherwise derived from
-- the session's rate, or from a default when that is not positive.
unfoldable pub segment_cache_bytes : ℤ → ℤ → ℕ
segment_cache_bytes configured maxrate_bps =
    let bps : ℕ = if ltb_ℤ (pos 0) maxrate_bps then pos_part maxrate_bps else legacy_maxrate_bps in
    if ltb_ℤ (pos 0) configured
    then pos_part configured
    else if ltb_ℤ configured (pos 0)
    then 0
    else max seg_cache_min_bytes (bps / 8 * seg_dur * seg_cache_segments)
