-- ===== src/ByteBudget/Invariant.antt =====
-- The byte budget with its callers, over every interleaving of their critical sections.
use stremio_server_go.Common.{
  ℕ, ◌+◌, ◌-◌, ◌≤◌, ◌≡◌, refl, List, [], ◌∷◌, ◌++◌, some, arith, Option-cases, inl, inr, ap, ◌∙◌,
}
use stremio_server_go.ByteBudget.{
  BudgetWaiter, ByteBudget, grant, notify_locked, find, remove, cancel, release_locked,
  try_acquire_locked, acquire_locked, System, try_step, acquire_step, Step, Reach, trying,
  acquiring, resuming, cancelling, releasing, here, next, start, is_empty, new_byte_budget,
}
use stremio_server_go.ByteBudget.Notify.{sum_n, Blocked, Fits, notify_from-Notified}

abbrev pub sum : List ℕ → ℕ
sum [] = 0
sum (n ∷ ns) = n + sum ns

pub sum-middle : (pre post : List ℕ) (n : ℕ) → sum (pre ++ n ∷ post) ≡ n + sum (pre ++ post)
sum-middle [] post n = refl
sum-middle (x ∷ pre) post n = omega (arith, sum-middle pre post n)

pub sum_n-remove :
    (r : ℕ) (ws : List BudgetWaiter) (w : BudgetWaiter)
    → find r ws ≡ some w
    → w.n + sum_n (remove r ws) ≡ sum_n ws
unfolding find remove
sum_n-remove r [] w e = ground arith
sum_n-remove r (x ∷ ws) w e = ground (arith, sum_n-remove r ws w)

Fits-remove : (max r : ℕ) (ws : List BudgetWaiter) → Fits max ws → Fits max (remove r ws)
unfolding remove
Fits-remove max r [] f = tt
Fits-remove max r (x ∷ ws) f = ground (arith, Fits-remove max r ws f.1)

Fits-append :
    (max : ℕ) (ws vs : List BudgetWaiter) → Fits max ws → Fits max vs → Fits max (ws ++ vs)
Fits-append max [] vs f g = g
Fits-append max (x ∷ ws) vs f g = (f.0, Fits-append max ws vs f.1 g)

find-append :
    (r : ℕ) (ws vs : List BudgetWaiter) (w g : BudgetWaiter)
    → find r (ws ++ vs) ≡ some w
    → find r ws ≡ some g
    → g ≡ w
unfolding find
find-append r [] vs w g e h = ground arith
find-append r (x ∷ ws) vs w g e h = ground (arith, find-append r ws vs w g)

-- The bytes in use are those that the callers hold or were granted, they never pass the budget, and
-- no waiter is left behind who could be served in order.
pub record Inv (s : System) : Type 0 where
  pub accounted : s.budget.used ≡ sum s.holders + sum_n s.budget.closed
  pub within : s.budget.used ≤ s.budget.max
  pub used_le_peak : s.budget.used ≤ s.budget.peak
  pub peak_le_max : s.budget.peak ≤ s.budget.max
  pub fitting : Fits s.budget.max s.budget.waiters
  pub stuck : Blocked s.budget.max s.budget.used s.budget.waiters

start-Inv : (limit : ℕ) → Inv (start limit)
unfolding start new_byte_budget
start-Inv limit = omega arith

try_step-Inv : (s : System) (n : ℕ) → Inv s → Inv (try_step s n)
unfolding try_step try_acquire_locked grant is_empty
try_step-Inv s n v = ground arith

acquire_step-Inv : (s : System) (n : ℕ) → Inv s → Inv (acquire_step s n)
unfolding acquire_step acquire_locked grant is_empty
acquire_step-Inv s n v = ground (
  arith,
  Fits-append s.budget.max s.budget.waiters (record { n = n; ready = s.budget.next_ready } ∷ []),
)

notify-Inv :
    (b : ByteBudget) (hs : List ℕ)
    → b.used ≡ sum hs + sum_n b.closed
    → b.used ≤ b.max
    → b.used ≤ b.peak
    → b.peak ≤ b.max
    → Fits b.max b.waiters
    → Inv (record { budget = notify_locked b; holders = hs })
unfolding notify_locked
notify-Inv b hs a u p q f = ground (arith, notify_from-Notified b b.waiters)

cancel-Inv :
    (s : System) (w : BudgetWaiter)
    → find w.ready (s.budget.closed ++ s.budget.waiters) ≡ some w
    → Inv s
    → Inv (record s { budget = cancel s.budget w })
unfolding cancel
cancel-Inv s w e v = elim (Option-cases (find w.ready s.budget.closed)) [
  | inl missing ↦
      rw (missing, cancel)
        (notify-Inv _ s.holders v.accounted v.within v.used_le_peak v.peak_le_max
          (Fits-remove s.budget.max w.ready s.budget.waiters v.fitting))
  | inr (g, granted) ↦
      let same = find-append w.ready s.budget.closed s.budget.waiters w g e granted in
      let kept = sum_n-remove w.ready s.budget.closed g granted in
      rw (granted, cancel)
        (notify-Inv _ s.holders (ground arith) (omega arith) (omega arith) v.peak_le_max v.fitting)
]

releasing-Inv :
    (s : System) (pre post : List ℕ) (n : ℕ)
    → s.holders ≡ pre ++ n ∷ post
    → Inv s
    → Inv (record { budget = release_locked s.budget n; holders = pre ++ post })
unfolding release_locked
releasing-Inv s pre post n e v =
    let total : sum s.holders ≡ n + sum (pre ++ post) = ap sum e ∙ sum-middle pre post n in
    let freed = notify-Inv (record s.budget { used = s.budget.used - n }) (pre ++ post) in
    ground (arith, freed (omega arith) (omega arith) (omega arith) v.peak_le_max v.fitting)

-- Every step keeps the invariant.
pub Step-Inv : {s t : System} → Step s t → Inv s → Inv t
Step-Inv {s} (trying n) v = try_step-Inv s n v
Step-Inv {s} (acquiring n) v = acquire_step-Inv s n v
Step-Inv {s} (resuming w e) v = ground (arith, sum_n-remove w.ready s.budget.closed w)
Step-Inv {s} (cancelling w e) v = cancel-Inv s w e v
Step-Inv {s} (releasing pre post n e) v = releasing-Inv s pre post n e v

pub Reach-Inv : {s t : System} → Inv s → Reach s t → Inv t
Reach-Inv v here = v
Reach-Inv v (next r st) = Step-Inv st (Reach-Inv v r)

-- After any history, the bytes in use are exactly those that callers hold or were granted while
-- blocked, they and their high-water mark stay within the budget, every queued request could be
-- granted by an idle budget, and the request at the head of the queue does not fit.
pub Reach-start-Inv : (limit : ℕ) {s : System} → Reach (start limit) s → Inv s
Reach-start-Inv limit r = Reach-Inv (start-Inv limit) r

not_Blocked-idle : (max : ℕ) (ws : List BudgetWaiter) → Fits max ws → Blocked max 0 ws → ws ≡ []
not_Blocked-idle max [] f b = refl
not_Blocked-idle max (w ∷ ws) f b = absurd (omega arith)

-- No wakeup is lost: after any history, once every holder has released and every granted waiter has
-- resumed or been cancelled, nobody is left blocked.
pub idle-waiters :
    (limit : ℕ) {s : System}
    → Reach (start limit) s
    → s.holders ≡ []
    → s.budget.closed ≡ []
    → s.budget.waiters ≡ []
idle-waiters limit {s} r h c =
    let v = Reach-start-Inv limit r in
    let a : sum s.holders ≡ 0 = ap sum h in
    let b : sum_n s.budget.closed ≡ 0 = ap sum_n c in
    let z : s.budget.used ≡ 0 = omega (arith, v.accounted) in
    not_Blocked-idle s.budget.max s.budget.waiters v.fitting (ground (arith, v.stuck))
