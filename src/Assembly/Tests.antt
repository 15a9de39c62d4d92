-- ===== src/Assembly/Tests.antt =====
-- internal/nzb/assembly.go: a download of two articles, and the theorems at inputs that meet their
-- hypotheses.
use stremio_server_go.Common.{
  ℕ, ◌+◌, ◌≤◌, ◌<◌, ◌≡◌, refl, ◌⊎◌, true, false, ◌||◌, List, [], ◌∷◌, none, some, ltb, arith,
  length, get_elem?,
}
use stremio_server_go.Common.Int.{pos}
use stremio_server_go.Common.Search.{search}
use stremio_server_go.Assembly.Extents.{
  Extent, add_covered, absorb, run_index, covers, within, IsOrdered,
}
use stremio_server_go.Assembly.Cover.{add_covered_lem}
use stremio_server_go.Assembly.Runs.{run_index_lem}
use stremio_server_go.Assembly.Model.{
  layout_sequential, Assembly, fetch, next_segment, first_segment, any_segment, pick_locked, claim,
  complete_segment, record_segment, mark_segment, finalize_locked, settle_size, conclude, tiled,
  layout_parallel, seg_pending,
}
use stremio_server_go.Assembly.Layout.{
  write, YencHeader, opened, open_segment, open_first, fix_layout, place,
}
use stremio_server_go.Assembly.Counts.{weigh, pend, JobsAt}
use stremio_server_go.Assembly.Picking.{pick_locked_complete}
use stremio_server_go.Assembly.System.{
  Job, begin_writing, claimed, writing, Reach, claiming, opening, completing, here, next, start,
}
use stremio_server_go.Assembly.Correct.{
  Reach-start-accounted, Reach-start-complete, Reach-start-bounded,
}

-- Bytes 0-9 and 20-29 are there, and 10-19 arrive.
abbrev two_runs : List Extent
two_runs = record { start = 0; end = 10 } ∷ record { start = 20; end = 30 } ∷ []

abbrev gap : Extent
gap = record { start = 10; end = 20 }

gap_closes : add_covered two_runs gap ≡ record { start = 0; end = 30 } ∷ []
unfolding add_covered absorb search
gap_closes = refl

add_covered_lem_example :
    IsOrdered (add_covered two_runs gap)
    × (covers (add_covered two_runs gap) 25 ≡ within gap 25 || covers two_runs 25)
add_covered_lem_example = add_covered_lem two_runs gap 25 (omega arith) (omega arith)

run_of_25 : run_index two_runs 25 ≡ some 1
unfolding run_index search
run_of_25 = refl

run_index_lem_example :
    (run_index two_runs 25 ≡ none) × (covers two_runs 25 ≡ false)
    ⊎ (i : ℕ) × (e : Extent) × (run_index two_runs 25 ≡ some i)
      × (get_elem? two_runs i ≡ some e)
      × (within e 25 ≡ true)
      × (covers two_runs 25 ≡ true)
      × (within e 22 || covers two_runs 22 ≡ covers two_runs 22)
      × (covers two_runs e.end ≡ false)
run_index_lem_example = run_index_lem two_runs 25 22 (omega arith)

-- A file of two articles, of 6 and 4 bytes, fetched by two workers, the second article first.
abbrev fresh : Assembly
fresh = (start 100 2 2).asm

abbrev header_0 : YencHeader
header_0 = record { size = pos 10; part = pos 1; begin = pos 1; end = pos 6; has_part = true }

abbrev header_1 : YencHeader
header_1 = record { size = pos 10; part = pos 2; begin = pos 7; end = pos 10; has_part = true }

abbrev ext_0 : Extent
ext_0 = record { start = 0; end = 6 }

abbrev ext_1 : Extent
ext_1 = record { start = 6; end = 10 }

abbrev claimed_0 : Assembly
claimed_0 = (next_segment fresh 0).0

abbrev opened_0 : Assembly
opened_0 = (open_segment claimed_0 0 header_0).0

abbrev claimed_1 : Assembly
claimed_1 = (next_segment opened_0 1).0

abbrev opened_1 : Assembly
opened_1 = (open_segment claimed_1 1 header_1).0

abbrev done_1 : Assembly
done_1 = (complete_segment opened_1 1 ext_1 4).0

abbrev done_0 : Assembly
done_0 = (complete_segment done_1 0 ext_0 6).0

abbrev job_0 : Job
job_0 = claimed 0 0

abbrev job_1 : Job
job_1 = claimed 1 1

claim_0 : next_segment fresh 0 ≡ (claimed_0, fetch 0)
unfolding next_segment first_segment any_segment pick_locked open_segment open_first fix_layout
    place start
claim_0 = refl

open_0 :
    open_segment claimed_0 0 header_0 ≡ (opened_0, opened (record { off = 0; remain = 6 }) ext_0)
unfolding next_segment first_segment any_segment pick_locked open_segment open_first fix_layout
    place start
open_0 = refl

claim_1 : next_segment opened_0 1 ≡ (claimed_1, fetch 1)
unfolding next_segment first_segment any_segment pick_locked open_segment open_first fix_layout
    place start
claim_1 = refl

open_1 :
    open_segment claimed_1 1 header_1 ≡ (opened_1, opened (record { off = 6; remain = 4 }) ext_1)
unfolding next_segment first_segment any_segment pick_locked open_segment open_first fix_layout
    place start
open_1 = refl

complete_1 : complete_segment opened_1 1 ext_1 4 ≡ (done_1, none)
unfolding next_segment first_segment any_segment pick_locked open_segment open_first fix_layout
    place start complete_segment record_segment mark_segment finalize_locked settle_size conclude
    tiled add_covered absorb search
complete_1 = refl

complete_0 : complete_segment done_1 0 ext_0 6 ≡ (done_0, none)
unfolding next_segment first_segment any_segment pick_locked open_segment open_first fix_layout
    place start complete_segment record_segment mark_segment finalize_locked settle_size conclude
    tiled add_covered absorb search
complete_0 = refl

-- The first job, its headers read; the second, its headers read, and its four bytes written in one and
-- in three.
abbrev begun_0 : Job
begun_0 = begin_writing job_0 (record { off = 0; remain = 6 }) ext_0

abbrev begun_1 : Job
begun_1 = begin_writing job_1 (record { off = 6; remain = 4 }) ext_1

abbrev one_in_1 : Job
one_in_1 = record begun_1 { writer = record { off = 7; remain = 3 }; taken = 1 }

abbrev all_in_1 : Job
all_in_1 = record begun_1 { writer = record { off = 10; remain = 0 }; taken = 4 }

abbrev all_in_0 : Job
all_in_0 = record begun_0 { writer = record { off = 6; remain = 0 }; taken = 6 }

abbrev writes_1 : List Extent
writes_1 = record { start = 7; end = 10 } ∷ record { start = 6; end = 7 } ∷ []

begun : Reach (start 100 2 2) (record { asm = opened_0; jobs = begun_0 ∷ []; writes = [] })
unfolding start
begun =
    next (next here (claiming 0 0 claimed_0 claim_0))
      (opening [] [] job_0 header_0 opened_0 _ ext_0 refl open_0)

-- The first write is short: the destination takes one byte of the four.
half : Reach (start 100 2 2) (record { asm = done_1; jobs = begun_0 ∷ []; writes = writes_1 })
unfolding write
half =
    let js : List Job = begun_0 ∷ [] in
    next
      (next
        (next
          (next (next begun (claiming 1 1 claimed_1 claim_1))
            (opening [] js job_1 header_1 opened_1 _ ext_1 refl open_1))
          (writing [] js begun_1 ext_1 4 1 6 _ refl refl (omega arith) refl))
        (writing [] js one_in_1 ext_1 3 3 7 _ refl refl (omega arith) refl))
      (completing [] js all_in_1 ext_1 4 done_1 refl refl refl complete_1)

whole :
    Reach
      (start 100 2 2)
      (record { asm = done_0; jobs = []; writes = record { start = 0; end = 6 } ∷ writes_1 })
unfolding write
whole =
    next (next half (writing [] [] begun_0 ext_0 6 6 0 _ refl refl (omega arith) refl))
      (completing [] [] all_in_0 ext_0 6 done_0 refl refl refl complete_0)

done_complete : done_0.complete ≡ true
unfolding next_segment first_segment any_segment pick_locked open_segment open_first fix_layout
    place start complete_segment record_segment mark_segment finalize_locked settle_size conclude
    tiled add_covered absorb search
done_complete = refl

done_total : done_0.total ≡ 10
unfolding next_segment first_segment any_segment pick_locked open_segment open_first fix_layout
    place start complete_segment record_segment mark_segment finalize_locked settle_size conclude
    tiled add_covered absorb search
done_total = refl

Reach-start-accounted_example :
    (done_1.remaining ≡ done_1.pending + 1)
    × (done_1.pending ≡ weigh pend done_1.state)
    × JobsAt done_1.state (begun_0 ∷ [])
    × IsOrdered done_1.covered
Reach-start-accounted_example = Reach-start-accounted 100 2 2 half

Reach-start-complete_example :
    (covers done_0.covered 9 ≡ ltb 9 done_0.total)
    × (done_0.remaining ≡ 0)
    × (◌≡◌ {A = List Job} [] [])
Reach-start-complete_example = Reach-start-complete 100 2 2 9 whole done_complete

Reach-start-bounded_example :
    (covers writes_1 7 ≡ true)
    × ((done_1.layout ≡ layout_parallel) × (7 < done_1.total) ⊎ (done_1.layout ≡ layout_sequential))
Reach-start-bounded_example = Reach-start-bounded 100 2 2 7 half refl

fresh_cursor : opened_0.next ≤ length opened_0.state
unfolding next_segment first_segment any_segment pick_locked open_segment open_first fix_layout
    place start
fresh_cursor = omega arith

pick_locked_complete_example :
    (pick_locked opened_0 ≡ (opened_0, none)) × (weigh pend opened_0.state ≡ 0)
    ⊎ (j k : ℕ) × (pick_locked opened_0 ≡ (record (claim opened_0 j) { next = k }, some j))
      × (get_elem? opened_0.state j ≡ some seg_pending)
      × (k < length opened_0.state)
pick_locked_complete_example = pick_locked_complete opened_0 fresh_cursor
