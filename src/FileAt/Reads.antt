-- ===== src/FileAt/Reads.antt =====
-- `OpenReaderAt` and `ReadAt` of internal/archive/fileat.go as their callers see them.
use stremio_server_go.Common.{
  ℕ, ◌+◌, ◌-◌, ◌*◌, ◌≤◌, ◌<◌, ◌≡◌, refl, ap, ◌∙◌, subst, Bool, true, List, [], ◌∷◌, Option, none,
  some, ltb, leb, if◌then◌else◌, length, min, inl, inr, arith, Bool-cases,
}
use native.Mathlib.Decide.{ℕ_discrete}
use stremio_server_go.Common.Slices.{slice}
use stremio_server_go.FileAt.Model.{
  new_file_at, Disk, file, Err, eof, FileAt, Progress, read_loop, read_at,
}
use stremio_server_go.FileAt.Reading.{Holds, Identifies, Ends, rounds-le}
use stremio_server_go.FileAt.Looping.{read_loop-Ends}

-- The error of a read of `n` bytes at `off` that goes past the end of the file `c`.
abbrev pub end_of : List ℕ → ℕ → ℕ → Option Err
end_of c n off = if leb n (length c - off) then none else some eof

zero_plus : (m : ℕ) → 0 + m ≡ m
zero_plus m = omega arith

Ends-as :
    (t : ℕ) (c : List ℕ) (disk : ℕ → Disk) (off m n : ℕ) (d e : Option Err) (p q : Progress)
    → m ≡ n
    → d ≡ e
    → p ≡ q
    → Ends t c disk off m d p
    → Ends t c disk off n e q
Ends-as t c disk off m n d e p q mn de pq h =
    subst (λ v. Ends t c disk off n e v) pq
      (subst (λ v. Ends t c disk off n v p) de (subst (λ v. Ends t c disk off v d p) mn h))

-- Whatever the path names at each open, as long as a file of the recorded size and modification time
-- has the recorded bytes, `ReadAt` returns bytes of the file that was opened, from the offset on: as
-- many as were asked for or as the file has, with `io.EOF` exactly when these are fewer than asked for;
-- or fewer and an error that is not `io.EOF`, which only an open that found something else causes.
pub read_at-Ends :
    (t : ℕ) (c : List ℕ) (disk : ℕ → Disk) (r : FileAt) (n off : ℕ)
    → Identifies t c disk
    → Holds t c r
    → Ends t c disk off (min n (length c - off)) (end_of c n off) (read_at disk r n off)
unfolding read_at slice
read_at-Ends t c disk r n off u h = elim (ℕ_discrete n 0) [
  | yes none_asked ↦
      Ends-as t c disk off (0) (min n (length c - off)) (none) (end_of c n off) ((r, [], none))
        (read_at disk r n off) (ground arith) (ground arith) (ground arith)
        (h, refl, inl (refl, refl))
  | no some_asked ↦ elim (Bool-cases (leb r.size off)) [
    | inl past ↦
        Ends-as t c disk off (0) (min n (length c - off)) (some eof) (end_of c n off)
          ((r, [], some eof)) (read_at disk r n off) (ground arith) (ground arith) (ground arith)
          (h, refl, inl (refl, refl))
    | inr inside ↦
        let before : off < r.size = ground arith in
        elim (Bool-cases (ltb (r.size - off) n)) [
          | inl short ↦
              Ends-as t c disk off (r.size - off) (min n (length c - off)) (some eof)
                (end_of c n off)
                (read_loop disk (2 + 2 * (r.size - off)) r off [] (r.size - off) (some eof))
                (read_at disk r n off) (ground arith) (ground arith) (ground arith)
                (reads (some eof) (2 + 2 * (r.size - off)) (r.size - off)
                  (omega (arith, h.same_size)) (omega (arith, rounds-le r off (r.size - off))))
          | inr whole ↦
              let fits : n ≤ r.size - off = ground arith in
              Ends-as t c disk off (n) (min n (length c - off)) (none) (end_of c n off)
                (read_loop disk (2 + 2 * n) r off [] n none) (read_at disk r n off) (ground arith)
                (ground arith) (ground arith)
                (reads none (2 + 2 * n) n (omega (arith, h.same_size))
                  (omega (arith, rounds-le r off n)))
        ]
  ]
]
  where
    reads :
        (end : Option Err) (fuel want : ℕ)
        → off + want ≤ length c
        → want + want + 1 < fuel
        → Ends t c disk off want end (read_loop disk fuel r off [] want end)
    reads end fuel want l f =
        subst (λ v. Ends t c disk off v end (read_loop disk fuel r off [] want end))
          (zero_plus want)
          (read_loop-Ends t c disk u off end fuel r [] want h refl (omega arith)
            (omega (arith, rounds-le r (off + 0) want)))

-- What a read is meant to return, and its error.
abbrev pub read_spec : List ℕ → ℕ × ℕ → List ℕ × Option Err
read_spec c (n, off) = (slice c off (min n (length c - off)), end_of c n off)

abbrev pub read_specs : List ℕ → List (ℕ × ℕ) → List (List ℕ × Option Err)
read_specs c [] = []
read_specs c (q ∷ qs) = read_spec c q ∷ read_specs c qs

-- Reads one after the other, each with the lock held.
unfoldable pub read_all : (ℕ → Disk) → FileAt → List (ℕ × ℕ) → List (List ℕ × Option Err)
read_all disk r [] = []
read_all disk r ((n, off) ∷ qs) =
    let (s, out, e) = read_at disk r n off in (out, e) ∷ read_all disk s qs

read_at-steady :
    (t : ℕ) (c : List ℕ) (disk : ℕ → Disk) (r : FileAt) (n off : ℕ)
    → ((k : ℕ) → disk k ≡ file t c true)
    → (p : Progress) → Ends t c disk off (min n (length c - off)) (end_of c n off) p
    → Holds t c p.0 × (p.1 ≡ slice c off (min n (length c - off))) × (p.2 ≡ end_of c n off)
read_at-steady t c disk r n off d (s, out, e) (h, o, inl (f, l)) =
    (h, o ∙ ap (λ k. slice c off k) l, f)
read_at-steady t c disk r n off d (s, out, e) (h, o, inr (x, f, g, l, (k, fault))) =
    absurd (fault (d k))

steady-Identifies :
    (t : ℕ) (c : List ℕ) (disk : ℕ → Disk)
    → ((k : ℕ) → disk k ≡ file t c true)
    → Identifies t c disk
steady-Identifies t c disk d k content reads e l = cc (d k)

-- While the file stays as it was when it was opened, any sequence of reads, with all its buffering and
-- reopening, returns what reads of the file's bytes return.
pub read_all-read_specs :
    (t : ℕ) (c : List ℕ) (disk : ℕ → Disk) (r : FileAt) (qs : List (ℕ × ℕ))
    → ((k : ℕ) → disk k ≡ file t c true)
    → Holds t c r
    → read_all disk r qs ≡ read_specs c qs
unfolding read_all
read_all-read_specs t c disk r [] d h = refl
read_all-read_specs t c disk r ((n, off) ∷ qs) d h =
    let (w, o, e) =
      read_at-steady t c disk r n off d (read_at disk r n off)
        (read_at-Ends t c disk r n off (steady-Identifies t c disk d) h) in
    cc (o, e, read_all-read_specs t c disk (read_at disk r n off).0 qs d w)

-- Opening a file yields a reader of it.
pub new_file_at-Holds :
    (t : ℕ) (c : List ℕ) (disk : ℕ → Disk) (reads : Bool)
    → disk 0 ≡ file t c reads
    → (r : FileAt) × (new_file_at disk ≡ inl r) × Holds t c r
unfolding new_file_at slice
new_file_at-Holds t c disk reads e = (
  record { size = length c; mtime = t; buf = []; off = 0; opens = 1 },
  rw (e, new_file_at) refl,
  record { same_size = refl; same_mtime = refl; block = refl },
)
