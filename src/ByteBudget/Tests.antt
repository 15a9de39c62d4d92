-- ===== src/ByteBudget/Tests.antt =====
-- Runs of the byte budget, and its theorems at inputs that meet their hypotheses.
use stremio_server_go.Common.{◌+◌, ◌≡◌, ◌≤◌, refl, List, [], ◌∷◌, ◌++◌, arith, some}
use stremio_server_go.ByteBudget.{
  BudgetWaiter, ByteBudget, System, Reach, acquiring, resuming, releasing, here, next, start,
  new_byte_budget, acquire_step, acquire_locked, release_locked, notify_locked, notify_from,
  is_empty, find, remove, grant,
}
use stremio_server_go.ByteBudget.Notify.{notify_locked-prefix, Blocked, sum_n}
use stremio_server_go.ByteBudget.Invariant.{Inv, Reach-start-Inv, idle-waiters}

-- Two callers want 6 of 10 bytes each; the second blocks until the first releases.
abbrev contended : System
contended = acquire_step (acquire_step (start 10) 6) 6

contended_holders : contended.holders ≡ 6 ∷ []
unfolding acquire_step acquire_locked start new_byte_budget grant is_empty
contended_holders = refl

contended_blocks : contended.budget.waiters ≡ record { n = 6; ready = 0 } ∷ []
unfolding acquire_step acquire_locked start new_byte_budget grant is_empty
contended_blocks = refl

abbrev handed_over : System
handed_over = record { budget = release_locked contended.budget 6; holders = [] }

handed_over_reached : Reach (start 10) handed_over
handed_over_reached =
    next (next (next here (acquiring 6)) (acquiring 6)) (releasing [] [] 6 contended_holders)

abbrev resumed : System
resumed = record {
  budget = record handed_over.budget { closed = remove 0 handed_over.budget.closed };
  holders = 6 ∷ [];
}

handed_over_closed : find 0 handed_over.budget.closed ≡ some (record { n = 6; ready = 0 })
unfolding acquire_step acquire_locked start new_byte_budget grant is_empty release_locked
    notify_locked notify_from find
handed_over_closed = refl

resumed_reached : Reach (start 10) resumed
resumed_reached =
    next handed_over_reached (resuming (record { n = 6; ready = 0 }) handed_over_closed)

Reach-start-Inv_example : Inv resumed
Reach-start-Inv_example = Reach-start-Inv 10 resumed_reached

abbrev drained : System
drained = record { budget = release_locked resumed.budget 6; holders = [] }

drained_reached : Reach (start 10) drained
drained_reached = next resumed_reached (releasing [] [] 6 refl)

drained_closed : drained.budget.closed ≡ []
unfolding acquire_step acquire_locked start new_byte_budget grant is_empty release_locked
    notify_locked notify_from remove
drained_closed = refl

idle-waiters_example : drained.budget.waiters ≡ []
idle-waiters_example = idle-waiters 10 drained_reached refl drained_closed

-- A budget just after its holder left, before it wakes its two waiters.
abbrev waking : ByteBudget
waking = record {
  max = 10;
  used = 1;
  peak = 9;
  waiters = record { n = 6; ready = 0 } ∷ record { n = 7; ready = 1 } ∷ [];
  closed = [];
  next_ready = 2;
}

notify_locked-prefix_example :
    (granted : List BudgetWaiter) × (waking.waiters ≡ granted ++ (notify_locked waking).waiters)
    × ((notify_locked waking).closed ≡ waking.closed ++ granted)
    × ((notify_locked waking).used ≡ waking.used + sum_n granted)
    × ((notify_locked waking).used ≤ waking.max)
    × Blocked waking.max (notify_locked waking).used (notify_locked waking).waiters
notify_locked-prefix_example =
    notify_locked-prefix waking (omega arith) (omega arith) (omega arith) (omega arith)
