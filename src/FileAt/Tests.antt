-- ===== src/FileAt/Tests.antt =====
-- Runs of the reader, and its theorems at inputs that meet their hypotheses.
use stremio_server_go.Common.{
  ℕ, zero, suc, ◌≡◌, refl, List, [], ◌∷◌, none, some, true, length, min, ◌-◌, inl, arith,
}
use stremio_server_go.Common.Slices.{slice}
use stremio_server_go.FileAt.Model.{
  Disk, file, FileAt, eof, new_file_at, read_from, read_found, block_size, refilled, refill,
  in_block, read_loop, read_at,
}
use stremio_server_go.FileAt.Reading.{Holds, Ends, Identifies}
use stremio_server_go.FileAt.Reads.{end_of, read_at-Ends, read_all, read_specs, read_all-read_specs}

abbrev content : List ℕ
content = 10 ∷ (11 ∷ (12 ∷ (13 ∷ (14 ∷ []))))

-- The file is replaced after the second open.
abbrev replaced : ℕ → Disk
replaced k = elim k [
  | zero ↦ file 7 content true
  | suc zero ↦ file 7 content true
  | _ ↦ file 8 content true
]

abbrev opened : FileAt
opened = record { size = 5; mtime = 7; buf = []; off = 0; opens = 1 }

opened-new_file_at : new_file_at replaced ≡ inl opened
unfolding new_file_at
opened-new_file_at = refl

-- The second read is answered from the block.
reads_block :
    read_all replaced opened ((2, 1) ∷ ((9, 3) ∷ []))
    ≡ (11 ∷ (12 ∷ []), none) ∷ ((13 ∷ (14 ∷ []), some eof) ∷ [])
unfolding read_all read_at read_loop in_block refill refilled read_from read_found block_size slice
reads_block = refl

opened-Holds : Holds 7 content opened
unfolding slice
opened-Holds = record { same_size = refl; same_mtime = refl; block = refl }

replaced-Identifies : Identifies 7 content replaced
replaced-Identifies zero c reads e l = ground arith
replaced-Identifies (suc zero) c reads e l = ground arith
replaced-Identifies (suc (suc k)) c reads e l = ground arith

read_at-Ends_example :
    Ends 7 content replaced 3
      (min 9 (length content - 3))
      (end_of content 9 3)
      (read_at replaced opened 9 3)
read_at-Ends_example = read_at-Ends 7 content replaced opened 9 3 replaced-Identifies opened-Holds

abbrev steady : ℕ → Disk
steady k = file 7 content true

read_all-read_specs_example :
    read_all steady opened ((2, 1) ∷ ((9, 3) ∷ [])) ≡ read_specs content ((2, 1) ∷ ((9, 3) ∷ []))
read_all-read_specs_example =
    read_all-read_specs 7 content steady opened ((2, 1) ∷ ((9, 3) ∷ [])) (λ k. refl) opened-Holds
