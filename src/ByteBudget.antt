-- ===== src/ByteBudget.antt =====
-- internal/streamproxy/membudget.go: the weighted FIFO semaphore over in-flight segment bytes, and
-- the size ceilings of internal/streamproxy/cache.go that its callers reserve by.
-- A method holds the mutex throughout, so it is one function from state to state. The budget's
-- `closed` lists the waiters whose `ready` channel has been closed and not been received from yet;
-- `next_ready` numbers the channels that `make` returns. A nil budget is `none`.
-- `b.used -= n` never goes below 0 here: callers release what they hold (`Step` below).
pub mod Notify
pub mod Invariant
mod Tests
use stremio_server_go.Common.{
  ℕ, suc, ◌+◌, ◌-◌, ◌*◌, ◌≡◌, Bool, true, false, ◌||◌, List, [], ◌∷◌, ◌++◌, Option, none, some, ltb,
  leb, ◌==◌, if◌then◌else◌,
}

pub record BudgetWaiter : Type 0 where
  pub n : ℕ
  pub ready : ℕ

pub record ByteBudget : Type 0 where
  pub max : ℕ
  pub used : ℕ
  pub peak : ℕ
  pub waiters : List BudgetWaiter
  pub closed : List BudgetWaiter
  pub next_ready : ℕ

-- `segCache` refuses bodies above this many bytes, and the budget is twice that.
abbrev pub max_segment_bytes : ℕ
max_segment_bytes = 50 * 1024 * 1024

abbrev pub default_inflight_max_bytes : ℕ
default_inflight_max_bytes = 2 * max_segment_bytes

pub new_byte_budget : ℕ → ByteBudget
new_byte_budget limit = record {
  max = limit;
  used = 0;
  peak = 0;
  waiters = [];
  closed = [];
  next_ready = 0;
}

pub grant : ByteBudget → ℕ → ByteBudget
grant b n =
    let used = b.used + n in
    record b { used = used; peak = if ltb b.peak used then used else b.peak }

-- `close(w.ready)`
close : BudgetWaiter → ByteBudget → ByteBudget
close w b = record b { closed = b.closed ++ w ∷ [] }

-- The loop of `notifyLocked`, over the queue from its front.
pub notify_from : ByteBudget → List BudgetWaiter → ByteBudget
unfolding grant close
notify_from b [] = record b { waiters = [] }
notify_from b (w ∷ ws) =
    let rest = notify_from (close w (grant b w.n)) ws in
    if ltb b.max (b.used + w.n) then record b { waiters = w ∷ ws } else rest

pub notify_locked : ByteBudget → ByteBudget
notify_locked b = notify_from b b.waiters

pub is_empty : List BudgetWaiter → Bool
is_empty [] = true
is_empty (w ∷ ws) = false

pub try_acquire_locked : ByteBudget → ℕ → ByteBudget × Bool
unfolding is_empty
try_acquire_locked b n =
    if ltb b.max n || (ltb b.max (b.used + n) || (if is_empty b.waiters then false else true))
    then (b, false)
    else (grant b n, true)

pub try_acquire : Option ByteBudget → ℕ → Option ByteBudget × Bool
unfolding try_acquire_locked
try_acquire none n = (none, true)
try_acquire (some b) n = let (b', done) = try_acquire_locked b n in (some b', done)

-- How `acquire` stands when it first gives up the mutex: it returned, or it blocks in its `select`
-- on the waiter's channel and its context.
pub data Acquired : Type 0 where
  acquired err_budget_too_big : Acquired
  blocked : BudgetWaiter → Acquired

pub acquire_locked : ByteBudget → ℕ → ByteBudget × Acquired
unfolding is_empty
acquire_locked b n =
    let w : BudgetWaiter = record { n = n; ready = b.next_ready } in
    if ltb b.max n
    then (b, err_budget_too_big)
    else if (if leb (b.used + n) b.max then is_empty b.waiters else false)
    then (grant b n, acquired)
    else (record b { waiters = b.waiters ++ w ∷ []; next_ready = suc b.next_ready }, blocked w)

pub acquire : Option ByteBudget → ℕ → Option ByteBudget × Acquired
unfolding acquire_locked
acquire none n = (none, acquired)
acquire (some b) n = let (b', r) = acquire_locked b n in (some b', r)

pub find : ℕ → List BudgetWaiter → Option BudgetWaiter
find r [] = none
find r (w ∷ ws) = if w.ready == r then some w else find r ws

pub remove : ℕ → List BudgetWaiter → List BudgetWaiter
remove r [] = []
remove r (w ∷ ws) = if w.ready == r then ws else w ∷ remove r ws

-- The `<-ctx.Done()` branch of `acquire`: the inner `select` tells whether the bytes were granted
-- just as the context fired.
pub cancel : ByteBudget → BudgetWaiter → ByteBudget
cancel b w = notify_locked (elim (find w.ready b.closed) [
  | some g ↦ record b { used = b.used - w.n; closed = remove w.ready b.closed }
  | none ↦ record b { waiters = remove w.ready b.waiters }
])

pub release_locked : ByteBudget → ℕ → ByteBudget
release_locked b n = if leb n 0 then b else notify_locked (record b { used = b.used - n })

pub release : Option ByteBudget → ℕ → Option ByteBudget
release none n = none
release (some b) n = some (release_locked b n)

-- `segmentReservation` of cache.go: `none` is a negative (unknown) Content-Length.
pub segment_reservation : Option ℕ → ℕ
segment_reservation none = max_segment_bytes
segment_reservation (some content_length) = content_length

-- The budget with the callers that hold bytes of it: `holders` lists what each holds.
pub record System : Type 0 where
  pub budget : ByteBudget
  pub holders : List ℕ

pub try_step : System → ℕ → System
try_step s n =
    let (b, done) = try_acquire_locked s.budget n in
    record { budget = b; holders = if done then n ∷ s.holders else s.holders }

abbrev pub holders_after : Acquired → ℕ → List ℕ → List ℕ
holders_after acquired n hs = n ∷ hs
holders_after err_budget_too_big n hs = hs
holders_after (blocked w) n hs = hs

pub acquire_step : System → ℕ → System
acquire_step s n =
    let (b, r) = acquire_locked s.budget n in
    record { budget = b; holders = holders_after r n s.holders }

-- What the goroutines may do next, in any interleaving of their critical sections.
pub data Step (s : System) : System → Type 0 where
  trying : (n : ℕ) → Step s (try_step s n)
  acquiring : (n : ℕ) → Step s (acquire_step s n)
  -- a blocked `acquire` receives from its closed channel and returns nil
  resuming :
      (w : BudgetWaiter)
      → find w.ready s.budget.closed ≡ some w
      → Step s (record {
        budget = record s.budget { closed = remove w.ready s.budget.closed };
        holders = w.n ∷ s.holders;
      })
  -- the context of a blocked `acquire` is done
  cancelling :
      (w : BudgetWaiter)
      → find w.ready (s.budget.closed ++ s.budget.waiters) ≡ some w
      → Step s (record s { budget = cancel s.budget w })
  releasing :
      (pre post : List ℕ) (n : ℕ)
      → s.holders ≡ pre ++ n ∷ post
      → Step s (record { budget = release_locked s.budget n; holders = pre ++ post })

pub data Reach (s : System) : System → Type 0 where
  here : Reach s s
  next : {t u : System} → Reach s t → Step t u → Reach s u

pub start : ℕ → System
start limit = record { budget = new_byte_budget limit; holders = [] }
