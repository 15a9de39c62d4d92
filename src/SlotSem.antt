-- ===== src/SlotSem.antt =====
-- internal/media/slotsem.go: the FIFO counting semaphore whose limit is read anew on every call.
-- Each stretch of code under the mutex is one function from state to state, given the limit that
-- `limitFn` returned. A waiter is the number of its `ready` channel; `granted` lists the waiters
-- whose `granted` flag is set (and channel closed) and whose `acquire` has not returned yet.
pub mod Grant
pub mod Invariant
mod Tests
use stremio_server_go.Common.{
  ℕ, suc, ◌+◌, ◌-◌, ◌<◌, ◌≡◌, Bool, true, false, ◌&&◌, List, [], ◌∷◌, ◌++◌, Option, none, some, ltb,
  ◌==◌, if◌then◌else◌, length,
}

pub record SlotSem : Type 0 where
  pub held : ℕ
  pub waiters : List ℕ
  pub granted : List ℕ
  pub next_waiter : ℕ

pub zero_value : SlotSem
zero_value = record { held = 0; waiters = []; granted = []; next_waiter = 0 }

-- The loop of `grantLocked`, over the queue from its front.
pub grant_from : SlotSem → List ℕ → ℕ → SlotSem
grant_from s [] limit = record s { waiters = [] }
grant_from s (w ∷ ws) limit =
    let rest =
      grant_from (record s { held = s.held + 1; granted = s.granted ++ w ∷ [] }) ws limit in
    if ltb s.held limit then rest else record s { waiters = w ∷ ws }

pub grant_locked : SlotSem → ℕ → SlotSem
grant_locked s limit = grant_from s s.waiters limit

pub is_empty : List ℕ → Bool
is_empty [] = true
is_empty (w ∷ ws) = false

-- `acquire` up to its `select`: it returned nil (`none`), or it blocks as a queued waiter.
acquire_after_grant : SlotSem → ℕ → SlotSem × Option ℕ
unfolding is_empty
acquire_after_grant s limit =
    if ltb s.held limit && is_empty s.waiters then (record s { held = s.held + 1 }, none) else (
      record s { waiters = s.waiters ++ s.next_waiter ∷ []; next_waiter = suc s.next_waiter },
      some s.next_waiter,
    )

pub acquire : SlotSem → ℕ → SlotSem × Option ℕ
unfolding acquire_after_grant
acquire s limit = acquire_after_grant (grant_locked s limit) limit

pub contains : ℕ → List ℕ → Bool
contains w [] = false
contains w (x ∷ xs) = let rest = contains w xs in if x == w then true else rest

pub remove : ℕ → List ℕ → List ℕ
remove w [] = []
remove w (x ∷ xs) = if x == w then xs else x ∷ remove w xs

-- The `<-ctx.Done()` branch: a slot that was granted meanwhile is given straight back.
pub cancel : SlotSem → ℕ → ℕ → SlotSem
cancel s w limit =
    if contains w s.granted
    then grant_locked (record s { held = s.held - 1; granted = remove w s.granted }) limit
    else record s { waiters = remove w s.waiters }

-- `release` holds the mutex twice; between the two, other goroutines may run.
pub release_first : SlotSem → SlotSem × Bool
unfolding is_empty
release_first s = (
  record s { held = if ltb 0 s.held then s.held - 1 else s.held },
  if is_empty s.waiters then false else true,
)

-- The semaphore with its callers: `holders` counts those that hold a slot, and `releasing` those
-- between the two critical sections of `release`.
pub record System : Type 0 where
  pub sem : SlotSem
  pub holders : ℕ
  pub releasing : ℕ

pub acquire_step : System → ℕ → System
acquire_step y limit =
    let (s, r) = acquire y.sem limit in
    record y { sem = s; holders = elim r [ none ↦ y.holders + 1 | some w ↦ y.holders ] }

pub release_step : System → System
release_step y =
    let (s, queued) = release_first y.sem in
    record {
      sem = s;
      holders = y.holders - 1;
      releasing = if queued then y.releasing + 1 else y.releasing;
    }

-- What the goroutines may do next. Every step reads a limit of its own.
pub data Step (limit : ℕ) (y : System) : System → Type 0 where
  acquiring : Step limit y (acquire_step y limit)
  -- a blocked `acquire` receives from its closed channel and returns nil
  resuming :
      (w : ℕ)
      → contains w y.sem.granted ≡ true
      → Step limit y (record y {
        sem = record y.sem { granted = remove w y.sem.granted };
        holders = y.holders + 1;
      })
  cancelling :
      (w : ℕ)
      → contains w (y.sem.granted ++ y.sem.waiters) ≡ true
      → Step limit y (record y { sem = cancel y.sem w limit })
  -- the ticker of a blocked `acquire` fires
  ticking : Step limit y (record y { sem = grant_locked y.sem limit })
  releases : (n : ℕ) → y.holders ≡ suc n → Step limit y (release_step y)
  waking :
      (n : ℕ)
      → y.releasing ≡ suc n
      → Step limit y (record y { sem = grant_locked y.sem limit; releasing = n })

-- Histories in which every limit that is read is one of `Allowed`.
pub data Reach (Allowed : ℕ → Type 0) (y : System) : System → Type 0 where
  here : Reach Allowed y y
  next :
      {t u : System} (limit : ℕ)
      → Allowed limit
      → Reach Allowed y t
      → Step limit t u
      → Reach Allowed y u

pub start : System
start = record { sem = zero_value; holders = 0; releasing = 0 }
