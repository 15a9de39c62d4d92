-- ===== src/Assembly/Readers.antt =====
-- internal/nzb/assembly.go: what a reader does under the mutex while it waits for a byte.
use stremio_server_go.Common.{
  ℕ, zero, suc, ◌+◌, ◌-◌, ◌/◌, ◌&&◌, ◌||◌, List, Option, none, some, leb, ◌==◌, min, if◌then◌else◌,
  length, get_elem?,
}
use stremio_server_go.Assembly.Extents.{run_index}
use stremio_server_go.Assembly.Model.{Assembly, Err, SegStatus, is_pending, layout_parallel}

-- `for j := idx; j < len(a.state); j++`, with `k` rounds left.
unfoldable pub first_pending : List SegStatus → ℕ → ℕ → Option ℕ
first_pending state j zero = none
first_pending state j (suc k) =
    let rest = first_pending state (j + 1) k in
    if is_pending (get_elem? state j) then some j else rest

unfoldable pub hint_from : Assembly → ℕ → Assembly
hint_from a idx = elim (first_pending a.state idx (length a.state - idx)) [
  | none ↦ a
  | some j ↦ record a { next = j }
]

unfoldable pub hint_locked : Assembly → ℕ → Assembly
hint_locked a pos = elim a.layout [
  | layout_parallel ↦
      if leb a.part_size 0 || a.pending == 0
      then a
      else hint_from a (min (pos / a.part_size) (length a.state - 1))
  | _ ↦ a
]

-- One round of `awaitRun`: the end of the run at `off`, an error, or wait for a change.
pub data Await : Type 0 where
  ready : ℕ → Await
  failed : Err → Await
  beyond_file blocked : Await

unfoldable pub await_run : Assembly → ℕ → Assembly × Await
unfolding run_index hint_locked
await_run a off = elim (run_index a.covered off) [
  | some i ↦ elim (get_elem? a.covered i) [
    | some e ↦ (a, ready e.end)
    | none ↦ (a, blocked)  -- not reached: `run_index` gives an index in range
  ]
  | none ↦ elim a.err [
    | some e ↦ (a, failed e)
    | none ↦
        if a.size_known && leb a.total off then (a, beyond_file) else (hint_locked a off, blocked)
  ]
]

-- One round of `Size`.
pub data Size : Type 0 where
  known : ℕ → Size
  size_failed : Err → Size
  size_blocked : Size

unfoldable pub size_round : Assembly → Size
size_round a =
    if a.size_known
    then known a.total
    else elim a.err [ some e ↦ size_failed e | none ↦ size_blocked ]
