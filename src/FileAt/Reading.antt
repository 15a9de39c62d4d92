-- ===== src/FileAt/Reading.antt =====
-- `ReadAt` of internal/archive/fileat.go against the bytes of the file that was opened.
use stremio_server_go.Common.{
  ℕ, ◌+◌, ◌-◌, ◌≤◌, ◌<◌, ◌≡◌, ◌≢◌, refl, sym, ap, ◌∙◌, Bool, true, false, ◌||◌, not, List, ◌++◌,
  Option, none, some, leb, ◌==◌, if◌then◌else◌, length, ◌⊎◌, inl, inr, arith, Bool-cases,
  length-append,
}
use stremio_server_go.Common.Slices.{slice, length-slice, slice-append, slice-slice}
use stremio_server_go.FileAt.Model.{
  Disk, no_file, no_stat, file, Err, open_failed, stat_failed, changed, read_failed, eof, FileAt,
  ReadResult, bytes, failed, read_found, read_from, block_size, refilled, refill, Progress,
  in_block, direct,
}

-- The reader was opened on the file `c`, modified at `t`, and its block holds bytes of it.
pub record Holds (t : ℕ) (c : List ℕ) (r : FileAt) : Type 0 where
  pub same_size : r.size ≡ length c
  pub same_mtime : r.mtime ≡ t
  pub block : r.buf ≡ slice c r.off (length r.buf)

-- A file of the size and the modification time of `c` has the bytes of `c`.
abbrev pub Identifies : ℕ → List ℕ → (ℕ → Disk) → Type 0
Identifies t c disk =
    (k : ℕ) (content : List ℕ) (reads : Bool)
    → disk k ≡ file t content reads
    → length content ≡ length c
    → content ≡ c

-- The answer to a read of `n` bytes at `pos`: the file's bytes, or an error that an open caused.
abbrev pub Answer : ℕ → List ℕ → Disk → ℕ → ℕ → ReadResult → Type 0
Answer t c d n pos a =
    (a ≡ bytes (slice c pos n)) ⊎ ((x : Err) × (a ≡ failed x) × (x ≢ eof) × (d ≢ file t c true))

pub read_found-Answer :
    (t : ℕ) (c : List ℕ) (r : FileAt) (d : Disk) (n pos : ℕ)
    → Holds t c r
    → ((content : List ℕ) (reads : Bool)
        → d ≡ file t content reads
        → length content ≡ length c
        → content ≡ c)
    → pos + n ≤ length c
    → Answer t c d n pos (read_found r d n pos)
unfolding read_found
read_found-Answer t c r no_file n pos h u l = inr (open_failed, refl, (λ e. cc), (λ e. cc))
read_found-Answer t c r no_stat n pos h u l = inr (stat_failed, refl, (λ e. cc), (λ e. cc))
read_found-Answer t c r (file m content reads) n pos h u l =
    elim (Bool-cases (not (length content == r.size) || not (m == r.mtime))) [
      | inl other ↦ inr (changed, is_changed other, (λ e. cc), (λ e. ground arith))
      | inr same ↦ elim (Bool-cases reads) [
        | inl readable ↦
            let is_c : content ≡ c =
              u content reads (ap (λ k. file k content reads) (ground arith)) (ground arith) in
            inl (is_read same readable (ground arith) ∙ ap (λ d. bytes (slice d pos n)) is_c)
        | inr unreadable ↦ inr (read_failed, is_unread same unreadable, (λ e. cc), (λ e. cc))
      ]
    ]
  where
    answer : ReadResult
    answer = read_found r (file m content reads) n pos

    is_changed :
        (not (length content == r.size) || not (m == r.mtime)) ≡ true → answer ≡ failed changed
    is_changed e = simp (e)

    is_unread :
        (not (length content == r.size) || not (m == r.mtime)) ≡ false
        → reads ≡ false
        → answer ≡ failed read_failed
    is_unread e f = simp (e, f)

    is_read :
        (not (length content == r.size) || not (m == r.mtime)) ≡ false
        → reads ≡ true
        → leb (pos + n) (length content) ≡ true
        → answer ≡ bytes (slice content pos n)
    is_read e f g = simp (e, f, g)

-- Some open found something else than the file, readable.
abbrev pub Fault : ℕ → List ℕ → (ℕ → Disk) → Type 0
Fault t c disk = (k : ℕ) × (disk k ≢ file t c true)

-- How a refill for `pos` ends.
abbrev pub Refilled : ℕ → List ℕ → (ℕ → Disk) → ℕ → FileAt × Option Err → Type 0
Refilled t c disk pos (r, e) =
    Holds t c r
    × (((e ≡ none) × (in_block r pos ≡ true))
        ⊎ ((x : Err) × (e ≡ some x) × (x ≢ eof) × Fault t c disk))

block_size_pos : (r : FileAt) (pos need : ℕ) → 0 < need → pos < r.size → 0 < block_size r pos need
unfolding block_size
block_size_pos r pos need h l = ground arith

block_size-le : (r : FileAt) (pos need : ℕ) → pos < r.size → pos + block_size r pos need ≤ r.size
unfolding block_size
block_size-le r pos need l = ground arith

-- A read that `n` bytes answer, or none.
filled-Refilled :
    (t : ℕ) (c : List ℕ) (disk : ℕ → Disk) (r : FileAt) (n pos k : ℕ) (a : ReadResult)
    → Holds t c r
    → 0 < n
    → pos + n ≤ length c
    → Answer t c (disk k) n pos a
    → Refilled t c disk pos (refilled (record r { opens = r.opens + 1 }) pos a)
unfolding refilled in_block slice
filled-Refilled t c disk r n pos k (bytes b) h p l (inl e) =
    let same : b ≡ slice c pos n = ground arith in
    let long : length b ≡ n = ap (λ v. length v) same ∙ length-slice c pos n l in
    (
      record {
        same_size = h.same_size;
        same_mtime = h.same_mtime;
        block = same ∙ ap (λ m. slice c pos m) (sym long);
      },
      inl (refl, ground arith),
    )
filled-Refilled t c disk r n pos k (failed y) h p l (inl e) = absurd cc
filled-Refilled t c disk r n pos k (bytes b) h p l (inr (x, e, g, d)) = absurd cc
filled-Refilled t c disk r n pos k (failed y) h p l (inr (x, e, g, d)) =
    let same : y ≡ x = ground arith in
    (
      record { same_size = h.same_size; same_mtime = h.same_mtime; block = refl },
      inr (x, ap (λ v. some v) same, g, (k, d)),
    )

pub refill-Refilled :
    (t : ℕ) (c : List ℕ) (disk : ℕ → Disk) (r : FileAt) (pos need : ℕ)
    → Identifies t c disk
    → Holds t c r
    → 0 < need
    → pos < length c
    → Refilled t c disk pos (refill disk r pos need)
unfolding refill read_from
refill-Refilled t c disk r pos need u h n l =
    let size : ℕ = block_size r pos need in
    let p : 0 < size = block_size_pos r pos need n (omega (arith, h.same_size)) in
    let w : pos + size ≤ length c = omega (arith, block_size-le r pos need, h.same_size) in
    filled-Refilled t c disk r size pos r.opens (read_found r (disk r.opens) size pos) h p w
      (read_found-Answer t c r (disk r.opens) size pos h (u r.opens) w)

-- How a read of `total` bytes at `off` ends, where `end` is the error of a read past the end.
abbrev pub Ends : ℕ → List ℕ → (ℕ → Disk) → ℕ → ℕ → Option Err → Progress → Type 0
Ends t c disk off total end (r, out, e) =
    Holds t c r
    × (out ≡ slice c off (length out))
    × (((e ≡ end) × (length out ≡ total))
        ⊎ ((x : Err) × (e ≡ some x) × (x ≢ eof) × (length out < total) × Fault t c disk))

-- A copy out of the block.
pub block_part :
    (t : ℕ) (c : List ℕ) (r : FileAt) (pos n : ℕ)
    → Holds t c r
    → r.off ≤ pos
    → pos - r.off + n ≤ length r.buf
    → slice r.buf (pos - r.off) n ≡ slice c pos n
block_part t c r pos n h i l =
    let at_pos : r.off + (pos - r.off) ≡ pos = omega arith in
    ap (λ b. slice b (pos - r.off) n) h.block
    ∙ (slice-slice c r.off (length r.buf) (pos - r.off) n l ∙ ap (λ i. slice c i n) at_pos)

-- Copied bytes, and the next ones of the file.
pub out-append :
    (c : List ℕ) (off n : ℕ) (out more : List ℕ)
    → out ≡ slice c off (length out)
    → more ≡ slice c (off + length out) n
    → off + (length out + n) ≤ length c
    → out ++ more ≡ slice c off (length (out ++ more))
out-append c off n out more e f l =
    let long : length more ≡ n =
      ap (λ v. length v) f ∙ length-slice c (off + length out) n (omega arith) in
    let both : length out + n ≡ length (out ++ more) =
      omega (arith, length-append out more, long) in
    ap (λ v. v ++ more) e
    ∙ (ap (λ v. slice c off (length out) ++ v) f
        ∙ (slice-append c off (length out) n l ∙ ap (λ k. slice c off k) both))

-- The rounds that the loop still takes.
unfoldable pub rounds : FileAt → ℕ → ℕ → ℕ
rounds r pos want = want + want + (if in_block r pos then 0 else 1)

pub direct-Ends :
    (t : ℕ) (c : List ℕ) (disk : ℕ → Disk) (r : FileAt) (off want k : ℕ) (out : List ℕ)
    (end : Option Err) (a : ReadResult)
    → Holds t c r
    → out ≡ slice c off (length out)
    → off + (length out + want) ≤ length c
    → 0 < want
    → Answer t c (disk k) want (off + length out) a
    → Ends t c disk off (length out + want) end (direct (r, a) out end)
unfolding direct
direct-Ends t c disk r off want k out end (bytes b) h o l p (inl e) =
    let same : b ≡ slice c (off + length out) want = ground arith in
    let long : length b ≡ want =
      ap (λ v. length v) same ∙ length-slice c (off + length out) want (omega arith) in
    (h, out-append c off want out b o same l, inl (refl, omega (arith, length-append out b, long)))
direct-Ends t c disk r off want k out end (failed y) h o l p (inl e) = absurd cc
direct-Ends t c disk r off want k out end (bytes b) h o l p (inr (x, e, g, d)) = absurd cc
direct-Ends t c disk r off want k out end (failed y) h o l p (inr (x, e, g, d)) =
    let same : y ≡ x = ground arith in
    (h, o, inr (x, ap (λ v. some v) same, g, omega arith, (k, d)))

pub rounds-le : (r : FileAt) (pos want : ℕ) → rounds r pos want ≤ want + want + 1
unfolding rounds
rounds-le r pos want = ground arith

pub rounds-in_block :
    (r : FileAt) (pos want : ℕ) → in_block r pos ≡ true → rounds r pos want ≡ want + want
unfolding rounds
rounds-in_block r pos want e = ground arith

pub rounds_outside :
    (r : FileAt) (pos want : ℕ) → in_block r pos ≡ false → rounds r pos want ≡ want + want + 1
unfolding rounds
rounds_outside r pos want e = ground arith

pub in_block_lem :
    (r : FileAt) (pos : ℕ) → in_block r pos ≡ true → (r.off ≤ pos) × (pos < r.off + length r.buf)
unfolding in_block
in_block_lem r pos e = ground arith
