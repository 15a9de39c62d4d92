-- ===== src/FileAt/Model.antt =====
-- `fileAt` of internal/archive/fileat.go, less its path. What the path names may change at any time:
-- `disk k` is what the k-th open of it finds, and the state counts the opens. Offsets below 0 are
-- refused at once and are not modelled; a destination is its length, and its bytes are returned.
use stremio_server_go.Common.{
  ℕ, zero, suc, ◌+◌, ◌-◌, ◌*◌, Bool, ◌&&◌, ◌||◌, not, List, [], ◌++◌, Option, none, some, ltb, leb,
  ◌==◌, if◌then◌else◌, length, min, max, ◌⊎◌, inl, inr,
}
use stremio_server_go.Common.Slices.{slice}

-- What an open of the path finds; `reads` tells whether the device then returns the bytes asked for.
pub data Disk : Type 0 where
  no_file : Disk
  no_stat : Disk
  file : (mtime : ℕ) (content : List ℕ) (reads : Bool) → Disk

pub data Err : Type 0 where
  open_failed stat_failed changed read_failed unexpected_eof eof : Err

abbrev pub reopen_min_block : ℕ
reopen_min_block = 4096

abbrev pub reopen_max_block : ℕ
reopen_max_block = 262144

pub record FileAt : Type 0 where
  pub size : ℕ
  pub mtime : ℕ
  pub buf : List ℕ
  pub off : ℕ
  pub opens : ℕ

pub data ReadResult : Type 0 where
  bytes : List ℕ → ReadResult
  failed : Err → ReadResult

-- `readFrom` of `n` bytes at `pos`, from what an open finds.
unfoldable pub read_found : FileAt → Disk → ℕ → ℕ → ReadResult
read_found r no_file n pos = failed open_failed
read_found r no_stat n pos = failed stat_failed
read_found r (file mtime content reads) n pos =
    if not (length content == r.size) || not (mtime == r.mtime)
    then failed changed
    else if not reads
    then failed read_failed
    else if leb (pos + n) (length content)
    then bytes (slice content pos n)
    else failed unexpected_eof

-- The size of the next block, at least `need` where the file has that many bytes.
unfoldable pub block_size : FileAt → ℕ → ℕ → ℕ
block_size r pos need =
    let first : ℕ =
      if (pos == (r.off + length r.buf)) && ltb 0 (length r.buf)
      then min (2 * length r.buf) reopen_max_block
      else reopen_min_block in
    min (max first need) (r.size - pos)

-- The result of a refill from the answer to its read.
unfoldable pub refilled : FileAt → ℕ → ReadResult → FileAt × Option Err
refilled r pos (bytes b) = (record r { buf = b; off = pos }, none)
refilled r pos (failed e) = (record r { buf = []; off = pos }, some e)

abbrev pub Progress : Type 0
Progress = FileAt × List ℕ × Option Err

-- `pos` is in the block.
unfoldable pub in_block : FileAt → ℕ → Bool
in_block r pos = leb r.off pos && ltb pos (r.off + length r.buf)

-- The end of a large read, straight into the destination.
unfoldable pub direct : FileAt × ReadResult → List ℕ → Option Err → Progress
direct (r, bytes b) out end = (r, out ++ b, end)
direct (r, failed e) out end = (r, out, some e)

module _ (disk : ℕ → Disk) where
  unfoldable pub new_file_at : FileAt ⊎ Err
  new_file_at = elim (disk 0) [
    | no_file ↦ inr open_failed
    | no_stat ↦ inr stat_failed
    | file mtime content reads ↦
        inl (record { size = length content; mtime = mtime; buf = []; off = 0; opens = 1 })
  ]

  -- `readFrom`
  unfoldable pub read_from : FileAt → ℕ → ℕ → FileAt × ReadResult
  read_from r n pos = (record r { opens = r.opens + 1 }, read_found r (disk r.opens) n pos)

  unfoldable pub refill : FileAt → ℕ → ℕ → FileAt × Option Err
  refill r pos need = let (s, b) = read_from r (block_size r pos need) pos in refilled s pos b

  -- The loop of `ReadAt`: `out` is what was copied, `want` what is still to copy, and `end` the error
  -- of a read that goes past the end of the file.
  unfoldable pub read_loop : ℕ → FileAt → ℕ → List ℕ → ℕ → Option Err → Progress
  read_loop zero r off out want end = (r, out, end)
  read_loop (suc fuel) r off out want end =
      let pos : ℕ = off + length out in
      let copied : List ℕ = slice r.buf (pos - r.off) (min want (length r.buf - (pos - r.off))) in
      let from_block = read_loop fuel r off (out ++ copied) (want - length copied) end in
      let (s, e) = refill r pos want in
      let after_refill = read_loop fuel s off out want end in
      if want == 0
      then (r, out, end)
      else if in_block r pos
      then from_block
      else if leb reopen_max_block want
      then direct (read_from r want pos) out end
      else elim e [ none ↦ after_refill | some x ↦ (s, out, some x) ]

  -- Each byte takes at most a refill and a copy.
  unfoldable pub read_at : FileAt → ℕ → ℕ → Progress
  read_at r n off =
      if n == 0
      then (r, [], none)
      else if leb r.size off
      then (r, [], some eof)
      else if ltb (r.size - off) n
      then read_loop (2 + 2 * (r.size - off)) r off [] (r.size - off) (some eof)
      else read_loop (2 + 2 * n) r off [] n none
