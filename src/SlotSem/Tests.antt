-- ===== src/SlotSem/Tests.antt =====
-- Runs of the semaphore, and its theorems at inputs that meet their hypotheses.
use stremio_server_go.Common.{ℕ, ◌+◌, ◌≡◌, ◌≤◌, refl, List, [], ◌∷◌, ◌++◌, arith, length, max}
use stremio_server_go.SlotSem.{
  SlotSem, System, Reach, acquiring, releases, here, next, start, zero_value, acquire_step,
  release_step, acquire, grant_locked, grant_from,
}
use stremio_server_go.SlotSem.Grant.{grant_locked-fifo, Settled}
use stremio_server_go.SlotSem.Invariant.{Reach-start-held, Reach-start-Lively, Lively}

-- Two callers under a limit of one: the second waits, and the first releases.
abbrev full : System
full = acquire_step (acquire_step start 1) 1

full_run : full ≡ record {
  sem = record { held = 1; waiters = 0 ∷ []; granted = []; next_waiter = 1 };
  holders = 1;
  releasing = 0;
}
unfolding acquire_step acquire start zero_value grant_locked grant_from
full_run = refl

full_holders : full.holders ≡ 1
unfolding acquire_step acquire start zero_value grant_locked grant_from
full_holders = refl

abbrev handed_back : System
handed_back = release_step full

handed_back_reached : {A : ℕ → Type 0} → A 1 → Reach A start handed_back
handed_back_reached a =
    next 1 a (next 1 a (next 1 a here acquiring) acquiring) (releases 0 full_holders)

Reach-start-held_example :
    (handed_back.sem.held ≡ handed_back.holders + length handed_back.sem.granted)
    × (handed_back.sem.held ≤ 1)
    × (handed_back.holders + length handed_back.sem.granted ≤ 1)
Reach-start-held_example = Reach-start-held 1 (handed_back_reached (omega arith))

Reach-start-Lively_example : Lively 1 handed_back
Reach-start-Lively_example = Reach-start-Lively 1 (handed_back_reached refl)

abbrev waiting : SlotSem
waiting = record { held = 1; waiters = 4 ∷ 5 ∷ 6 ∷ []; granted = []; next_waiter = 7 }

grant_locked-fifo_example :
    (served : List ℕ) × (waiting.waiters ≡ served ++ (grant_locked waiting 3).waiters)
    × ((grant_locked waiting 3).granted ≡ waiting.granted ++ served)
    × ((grant_locked waiting 3).held ≡ waiting.held + length served)
    × ((grant_locked waiting 3).held ≤ max waiting.held 3)
    × Settled 3 (grant_locked waiting 3).held (grant_locked waiting 3).waiters
grant_locked-fifo_example = grant_locked-fifo waiting 3
