-- ===== src/SlotSem/Grant.antt =====
-- `grantLocked`: which waiters get a slot, and when it stops.
use mathlib.Core.List.{append_assoc, append-nil}
use stremio_server_go.Common.{
  ℕ, ◌+◌, ◌≤◌, ◌≡◌, refl, List, [], ◌∷◌, ◌++◌, arith, Bool-cases, inl, inr, ltb, sym, ap, ◌∙◌,
  length, length-append, max,
}
use stremio_server_go.SlotSem.{SlotSem, grant_from, grant_locked}

-- Nobody waits while a slot is free under the limit.
abbrev pub Settled : ℕ → ℕ → List ℕ → Type 0
Settled limit held [] = Unit {0}
Settled limit held (w ∷ ws) = limit ≤ held

pub record Granted (s : SlotSem) (limit : ℕ) (s' : SlotSem) : Type 0 where
  pub settled : Settled limit s'.held s'.waiters
  pub within : s'.held ≤ max s.held limit
  pub grown : s.held ≤ s'.held
  pub moved : s'.held + length s.granted ≡ s.held + length s'.granted

pub grant_from-Granted :
    (s : SlotSem) (ws : List ℕ) (limit : ℕ) → Granted s limit (grant_from s ws limit)
unfolding grant_from
grant_from-Granted s [] limit = ground arith
grant_from-Granted s (w ∷ ws) limit = ground (
  arith,
  grant_from-Granted (record s { held = s.held + 1; granted = s.granted ++ w ∷ [] }) ws limit,
  length-append s.granted (w ∷ []),
)

pub grant_from-fifo :
    (s : SlotSem) (ws : List ℕ) (limit : ℕ)
    → (served : List ℕ) × (ws ≡ served ++ (grant_from s ws limit).waiters)
      × ((grant_from s ws limit).granted ≡ s.granted ++ served)
unfolding grant_from
grant_from-fifo s [] limit = ([], refl, sym (append-nil s.granted))
grant_from-fifo s (w ∷ ws) limit = elim (Bool-cases (ltb s.held limit)) [
  | inr full ↦ ([], rw full, rw (full, append-nil))
  | inl room ↦
      let s' = record s { held = s.held + 1; granted = s.granted ++ w ∷ [] } in
      let (g, e, c) = grant_from-fifo s' ws limit in
      (w ∷ g, rw room (ap (λ (l : List ℕ). w ∷ l) e), rw room (c ∙ append_assoc s.granted _ g))
]

-- `grantLocked` serves a prefix of the queue in order of arrival, one slot each; it never takes more
-- slots than the limit allows (unless more were held before, and then it takes none), and it stops
-- only when the limit is reached or the queue is empty.
pub grant_locked-fifo :
    (s : SlotSem) (limit : ℕ)
    → (served : List ℕ) × (s.waiters ≡ served ++ (grant_locked s limit).waiters)
      × ((grant_locked s limit).granted ≡ s.granted ++ served)
      × ((grant_locked s limit).held ≡ s.held + length served)
      × ((grant_locked s limit).held ≤ max s.held limit)
      × Settled limit (grant_locked s limit).held (grant_locked s limit).waiters
unfolding grant_locked
grant_locked-fifo s limit =
    let (g, e, c) = grant_from-fifo s s.waiters limit in
    let v = grant_from-Granted s s.waiters limit in
    let k : length (grant_from s s.waiters limit).granted ≡ length s.granted + length g =
      ap length c ∙ length-append s.granted g in
    (g, e, c, omega (arith, v.moved), v.within, v.settled)
