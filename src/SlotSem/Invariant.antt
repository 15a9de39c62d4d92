-- ===== src/SlotSem/Invariant.antt =====
-- The semaphore with its callers, over every interleaving of their critical sections.
use stremio_server_go.Common.{
  ℕ, suc, ◌+◌, ◌-◌, ◌≤◌, ◌<◌, ◌≡◌, List, [], ◌∷◌, ◌++◌, arith, inl, length, ◌⊎◌, true, subst,
}
use stremio_server_go.SlotSem.{
  SlotSem, grant_locked, acquire, contains, remove, cancel, release_first, is_empty, System,
  acquire_step, release_step, Step, Reach, acquiring, resuming, cancelling, ticking, releases,
  waking, here, next, start, zero_value,
}
use stremio_server_go.SlotSem.Grant.{Granted, grant_from-Granted, Settled}

pub length-remove :
    (w : ℕ) (xs : List ℕ) → contains w xs ≡ true → length (remove w xs) + 1 ≡ length xs
unfolding contains remove
length-remove w [] h = cc
length-remove w (x ∷ xs) h = ground (arith, length-remove w xs)

-- The slots held are those of the callers and of the waiters that were granted one, and they are
-- at most the largest limit in force so far.
pub record Inv (top : ℕ) (y : System) : Type 0 where
  pub accounted : y.sem.held ≡ y.holders + length y.sem.granted
  pub within : y.sem.held ≤ top

grant_locked-Granted : (s : SlotSem) (limit : ℕ) → Granted s limit (grant_locked s limit)
unfolding grant_locked
grant_locked-Granted s limit = grant_from-Granted s s.waiters limit

grant-Inv :
    (top limit : ℕ) (y : System)
    → limit ≤ top
    → Inv top y
    → Inv top (record y { sem = grant_locked y.sem limit })
grant-Inv top limit y l v = omega (arith, grant_locked-Granted y.sem limit)

acquire_step-Inv :
    (top limit : ℕ) (y : System) → limit ≤ top → Inv top y → Inv top (acquire_step y limit)
unfolding acquire_step acquire is_empty
acquire_step-Inv top limit y l v = ground (arith, grant_locked-Granted y.sem limit)

cancel-Inv :
    (top limit w : ℕ) (y : System)
    → limit ≤ top
    → Inv top y
    → Inv top (record y { sem = cancel y.sem w limit })
unfolding cancel
cancel-Inv top limit w y l v = ground (
  arith,
  length-remove w y.sem.granted,
  grant_locked-Granted (record y.sem { held = y.sem.held - 1; granted = remove w y.sem.granted })
      limit,
)

releases-Inv : (top n : ℕ) (y : System) → y.holders ≡ suc n → Inv top y → Inv top (release_step y)
unfolding release_step release_first is_empty
releases-Inv top n y e v = ground arith

-- Every step keeps the invariant.
pub Step-Inv : {top limit : ℕ} {y z : System} → limit ≤ top → Step limit y z → Inv top y → Inv top z
Step-Inv {top} {limit} {y} l acquiring v = acquire_step-Inv top limit y l v
Step-Inv {top} {limit} {y} l (resuming w e) v = omega (arith, length-remove w y.sem.granted e)
Step-Inv {top} {limit} {y} l (cancelling w e) v = cancel-Inv top limit w y l v
Step-Inv {top} {limit} {y} l ticking v = grant-Inv top limit y l v
Step-Inv {top} {limit} {y} l (releases n e) v = releases-Inv top n y e v
Step-Inv {top} {limit} {y} l (waking n e) v = omega (arith, grant_locked-Granted y.sem limit)

Reach-Inv : {top : ℕ} {y z : System} → Inv top y → Reach (λ limit. limit ≤ top) y z → Inv top z
Reach-Inv v here = v
Reach-Inv v (next limit l r st) = Step-Inv l st (Reach-Inv v r)

-- After any history whose limits were at most `top`, the slots counted as held are exactly those of
-- the callers and of the waiters that were granted one, and they are at most `top`.
pub Reach-start-held :
    (top : ℕ) {z : System}
    → Reach (λ limit. limit ≤ top) start z
    → (z.sem.held ≡ z.holders + length z.sem.granted)
      × (z.sem.held ≤ top)
      × (z.holders + length z.sem.granted ≤ top)
unfolding start zero_value
Reach-start-held top r =
    let begin : Inv top start = omega arith in
    let v = Reach-Inv begin r in (v.accounted, v.within, omega (arith, v.accounted, v.within))

-- A free slot with a waiter is seen only between the two critical sections of a `release`.
abbrev pub Lively : ℕ → System → Type 0
Lively limit y = Settled limit y.sem.held y.sem.waiters ⊎ (0 < y.releasing)

Settled-append : (limit held w : ℕ) (ws : List ℕ) → limit ≤ held → Settled limit held (ws ++ w ∷ [])
Settled-append limit held w [] h = h
Settled-append limit held w (x ∷ ws) h = h

Settled-remove :
    (limit held w : ℕ) (ws : List ℕ) → Settled limit held ws → Settled limit held (remove w ws)
unfolding remove
Settled-remove limit held w [] h = tt
Settled-remove limit held w (x ∷ []) h = ground arith
Settled-remove limit held w (x ∷ y ∷ ws) h = ground arith

acquire_step-Lively : (limit : ℕ) (y : System) → Lively limit (acquire_step y limit)
unfolding acquire_step acquire is_empty
acquire_step-Lively limit y =
    let s = grant_locked y.sem limit in
    inl (
      ground (
        arith,
        grant_locked-Granted y.sem limit,
        Settled-append limit s.held s.next_waiter s.waiters,
      ))

cancel-Lively :
    (limit w : ℕ) (y : System)
    → Lively limit y
    → Lively limit (record y { sem = cancel y.sem w limit })
unfolding cancel
cancel-Lively limit w y v = ground (
  arith,
  grant_locked-Granted (record y.sem { held = y.sem.held - 1; granted = remove w y.sem.granted })
      limit,
  Settled-remove limit y.sem.held w y.sem.waiters,
)

releases-Lively : (limit : ℕ) (y : System) → Lively limit (release_step y)
unfolding release_step release_first is_empty
releases-Lively limit y = ground arith

Step-Lively : {limit : ℕ} {y z : System} → Step limit y z → Lively limit y → Lively limit z
Step-Lively {limit} {y} acquiring v = acquire_step-Lively limit y
Step-Lively {limit} {y} (resuming w e) v = v
Step-Lively {limit} {y} (cancelling w e) v = cancel-Lively limit w y v
Step-Lively {limit} {y} ticking v = inl (grant_locked-Granted y.sem limit).settled
Step-Lively {limit} {y} (releases n e) v = releases-Lively limit y
Step-Lively {limit} {y} (waking n e) v = inl (grant_locked-Granted y.sem limit).settled

Reach-Lively :
    {limit : ℕ} {y z : System} → Lively limit y → Reach (λ l. l ≡ limit) y z → Lively limit z
Reach-Lively v here = v
Reach-Lively {limit} v (next {t = t} {u = u} l e r st) =
    Step-Lively (subst (λ k. Step k t u) e st) (Reach-Lively v r)

-- No wakeup is lost while the limit stays the same: after any history, a waiter is left with a free
-- slot only while some `release` still has its second critical section to run.
pub Reach-start-Lively : (limit : ℕ) {z : System} → Reach (λ l. l ≡ limit) start z → Lively limit z
unfolding start zero_value
Reach-start-Lively limit r = Reach-Lively (inl tt) r
