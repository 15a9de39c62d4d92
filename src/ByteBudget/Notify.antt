-- ===== src/ByteBudget/Notify.antt =====
-- `notifyLocked`: which waiters it grants, and what it leaves blocked.
use stremio_server_go.Common.{
  ℕ, ◌+◌, ◌≤◌, ◌<◌, ◌≡◌, refl, List, [], ◌∷◌, ◌++◌, arith, Bool-cases, inl, inr, ltb, sym, ap, ◌∙◌,
  some, true, false, ◌⊎◌, ◌≢◌,
}
use mathlib.Core.List.{append_assoc, append-nil}
use stremio_server_go.ByteBudget.{
  BudgetWaiter, ByteBudget, grant, close, notify_from, notify_locked, try_acquire,
  try_acquire_locked, is_empty,
}

abbrev pub sum_n : List BudgetWaiter → ℕ
sum_n [] = 0
sum_n (w ∷ ws) = w.n + sum_n ws

pub sum_n-append : (xs ys : List BudgetWaiter) → sum_n (xs ++ ys) ≡ sum_n xs + sum_n ys
sum_n-append [] ys = omega arith
sum_n-append (x ∷ xs) ys = omega (arith, sum_n-append xs ys)

-- The head of the queue does not fit: nobody waits who could be served in order.
abbrev pub Blocked : ℕ → ℕ → List BudgetWaiter → Type 0
Blocked max used [] = Unit {0}
Blocked max used (w ∷ ws) = max < used + w.n

abbrev pub Fits : ℕ → List BudgetWaiter → Type 0
Fits max [] = Unit {0}
Fits max (w ∷ ws) = (w.n ≤ max) × Fits max ws

pub record Notified (b : ByteBudget) (ws : List BudgetWaiter) (b' : ByteBudget) : Type 0 where
  pub same_max : b'.max ≡ b.max
  pub within : b'.used ≤ b.max
  pub used_le_peak : b'.used ≤ b'.peak
  pub peak_le_max : b'.peak ≤ b.max
  pub stuck : Blocked b'.max b'.used b'.waiters
  pub fitting : Fits b.max b'.waiters
  pub moved : b'.used + sum_n b.closed ≡ b.used + sum_n b'.closed

pub notify_from-Notified :
    (b : ByteBudget) (ws : List BudgetWaiter)
    → b.used ≤ b.max
    → b.used ≤ b.peak
    → b.peak ≤ b.max
    → Fits b.max ws
    → Notified b ws (notify_from b ws)
unfolding notify_from
notify_from-Notified b [] u p q f = ground arith
notify_from-Notified b (w ∷ ws) u p q f =
    ground (arith, notify_from-Notified (close w (grant b w.n)) ws, sum_n-append b.closed (w ∷ []))

-- The waiters granted are a prefix of the queue, in its order, with nobody overtaken.
pub notify_from-fifo :
    (b : ByteBudget) (ws : List BudgetWaiter)
    → (granted : List BudgetWaiter) × (ws ≡ granted ++ (notify_from b ws).waiters)
      × ((notify_from b ws).closed ≡ b.closed ++ granted)
unfolding notify_from close grant
notify_from-fifo b [] = ([], refl, sym (append-nil b.closed))
notify_from-fifo b (w ∷ ws) = elim (Bool-cases (ltb b.max (b.used + w.n))) [
  | inl full ↦ ([], rw full, rw (full, append-nil))
  | inr room ↦
      let (g, e, c) = notify_from-fifo (close w (grant b w.n)) ws in
      (
        w ∷ g,
        rw room (ap (λ (l : List BudgetWaiter). w ∷ l) e),
        rw room (c ∙ append_assoc b.closed _ g),
      )
]

-- `notifyLocked` grants a prefix of the queue, in order, closing exactly the channels of that
-- prefix, and stops only at a waiter that does not fit; the rest of the queue stays as it was. The
-- queue is one whose requests are each within the budget, and the budget is not overdrawn.
pub notify_locked-prefix :
    (b : ByteBudget)
    → b.used ≤ b.max
    → b.used ≤ b.peak
    → b.peak ≤ b.max
    → Fits b.max b.waiters
    → (granted : List BudgetWaiter) × (b.waiters ≡ granted ++ (notify_locked b).waiters)
      × ((notify_locked b).closed ≡ b.closed ++ granted)
      × ((notify_locked b).used ≡ b.used + sum_n granted)
      × ((notify_locked b).used ≤ b.max)
      × Blocked b.max (notify_locked b).used (notify_locked b).waiters
unfolding notify_locked
notify_locked-prefix b u p q f =
    let (g, e, c) = notify_from-fifo b b.waiters in
    let v = notify_from-Notified b b.waiters u p q f in
    let k : sum_n (notify_from b b.waiters).closed ≡ sum_n b.closed + sum_n g =
      ap sum_n c ∙ sum_n-append b.closed g in
    (g, e, c, omega (arith, v.moved), v.within, (rw v.same_max at v.stuck))

-- `tryAcquire` either takes the bytes, when they are free and nobody is queued, and then only counts
-- them, or it fails and leaves the budget as it was, when they are not free or somebody is queued.
pub try_acquire-cases :
    (b : ByteBudget) (n : ℕ)
    → (try_acquire (some b) n ≡ (some (grant b n), true)) × (b.used + n ≤ b.max) × (b.waiters ≡ [])
      ⊎ (try_acquire (some b) n ≡ (some b, false)) × ((b.max < b.used + n) ⊎ (b.waiters ≢ []))
unfolding try_acquire try_acquire_locked is_empty
try_acquire-cases b n = ground arith
