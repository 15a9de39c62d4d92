-- ===== src/MemStorage/Rounds.antt =====
-- The loop of `popOldestLocked` of internal/engine/memstorage.go.
use stremio_server_go.Common.{
  List, ℕ, zero, suc, ◌≤◌, ◌<◌, ◌≡◌, refl, sym, ap, true, false, Option, none, subst, some, ltb,
  length, get_elem?, set, Bool-cases, Option-cases, arith, inl, inr, ◌∙◌, length-set,
  get_elem?-set_self, get_elem?-set_ne,
}
use mathlib.Core.Option.{some-injective}
use native.Mathlib.Decide.{ℕ_discrete}
use stremio_server_go.Common.Weigh.{
  weigh, All, All-set, All-get, All-unset, All-imp_both, le-length_of_weigh, lt-length_of_get,
  weigh-set,
}
use stremio_server_go.MemStorage.Model.{
  MemPiece, MemStorage, top, take_out, pop_oldest, pop_oldest_locked, put,
}
use stremio_server_go.MemStorage.Evict.{Out, UsedFrom, Chosen, top_lem}
use stremio_server_go.MemStorage.Popping.{
  resident, listed, stale, IsSound, Popped, Spares-set, take_out-Popped, cc_false,
}

-- A round that makes a key current.
module _ (s : MemStorage) (i : ℕ) (p : MemPiece) where
  refresh : MemStorage
  refresh = put s i (record p { key = p.last_used })

  unrefresh :
      get_elem? s.pieces i ≡ some p
      → p.in_lru ≡ true
      → (j : ℕ) (q p' : MemPiece) → get_elem? refresh.pieces j ≡ some p'
      → q ≡ record p' { key = q.key; in_lru = false }
      → p'.in_lru ≡ true
      → (u : MemPiece) × (get_elem? s.pieces j ≡ some u)
        × (u.last_used ≡ p'.last_used)
        × (u.in_lru ≡ true)
        × (q ≡ record u { key = q.key; in_lru = false })
  unfolding refresh
  unrefresh e l j q p' g o c = elim (ℕ_discrete i j) [
    | yes same ↦
        let is_p : record p { key = p.last_used } ≡ p' =
          some-injective (record p { key = p.last_used }) p'
            (sym (
                get_elem?-set_self s.pieces i (record p { key = p.last_used })
                  (lt-length_of_get s.pieces i p e))
              ∙ subst (λ v. get_elem? refresh.pieces v ≡ some p') (sym same) g) in
        (
          p,
          subst (λ v. get_elem? s.pieces v ≡ some p) same e,
          ap (λ v. v.last_used) is_p,
          l,
          subst (λ v. q ≡ record v { key = q.key; in_lru = false }) (sym is_p) o,
        )
    | no other ↦
        (p', sym (get_elem?-set_ne s.pieces (record p { key = p.last_used }) other) ∙ g, refl, c, o)
  ]

  refresh-Popped :
      get_elem? s.pieces i ≡ some p
      → p.in_lru ≡ true
      → (r : MemStorage × Option (ℕ × MemPiece)) → Popped refresh r
      → Popped s r
  unfolding refresh resident listed
  refresh-Popped e l (t, none) h = absurd (
      cc_false l (
        All-get Out (set s.pieces i (record p { key = p.last_used })) i
          (record p { key = p.last_used })
          (get_elem?-set_self s.pieces i (record p { key = p.last_used })
            (lt-length_of_get s.pieces i p e))
          h.1))
  refresh-Popped e l (t, some (j, q)) (p', h) =
      let (u, w, same, c, o) = unrefresh e l j q p' h.was h.out h.candidate in
      (
        u,
        record {
          was = w;
          candidate = c;
          oldest =
              All-unset (UsedFrom u.last_used) s.pieces i p (record p { key = p.last_used }) e
                (λ f c'. inr (omega (arith, f c')))
                (subst (λ n. All (UsedFrom n) (set s.pieces i (record p { key = p.last_used })))
                  (sym same) h.oldest);
          now = h.now;
          out = o;
          same_used = h.same_used;
          same_capacity = h.same_capacity;
          same_tick = h.same_tick;
          same_length = h.same_length ∙ length-set s.pieces i (record p { key = p.last_used });
          same_resident =
              h.same_resident
              ∙ (omega (arith, weigh-set resident s.pieces i p (record p { key = p.last_used }) e));
          one_less =
              h.one_less
              ∙ (omega (arith, weigh-set listed s.pieces i p (record p { key = p.last_used }) e));
          spares = λ m v g f.
              h.spares m v
                (Spares-set s.pieces s.pieces i p (record p { key = p.last_used }) e l
                  (λ j' v' g' f'. g') m v g f)
                f;
          sound = h.sound;
        },
      )

  fewer_stale :
      (n : ℕ)
      → get_elem? s.pieces i ≡ some p
      → p.in_lru ≡ true
      → ltb p.key p.last_used ≡ true
      → weigh stale s.pieces < suc n
      → weigh stale refresh.pieces < n
  unfolding refresh stale
  fewer_stale n e l k f =
      ground (arith, weigh-set stale s.pieces i p (record p { key = p.last_used }) e)

  refresh-IsSound :
      get_elem? s.pieces i ≡ some p
      → All (IsSound s.tick) s.pieces
      → All (IsSound s.tick) refresh.pieces
  unfolding refresh
  refresh-IsSound e h =
      All-set (IsSound s.tick) s.pieces i (record p { key = p.last_used })
        (current (All-get (IsSound s.tick) s.pieces i p e h)) h
    where
      current : IsSound s.tick p → IsSound s.tick (record p { key = p.last_used })
      current w = record {
        verified = w.verified;
        available = w.available;
        bounded = omega arith;
        dated = w.dated;
        sized = w.sized;
      }

pub pop_oldest-Popped :
    (fuel : ℕ) (s : MemStorage)
    → weigh stale s.pieces < fuel
    → All (IsSound s.tick) s.pieces
    → Popped s (pop_oldest fuel s)
unfolding pop_oldest refresh
pop_oldest-Popped zero s f h = absurd (omega arith)
pop_oldest-Popped (suc fuel) s f h = elim (Option-cases (top s.pieces)) [
  | inl e ↦ subst (Popped s) (sym (ended e)) (refl, subst (Chosen s.pieces) e (top_lem s.pieces))
  | inr ((i, p), e) ↦
      let c : Chosen s.pieces (some (i, p)) = subst (Chosen s.pieces) e (top_lem s.pieces) in
      elim (Bool-cases (ltb p.key p.last_used)) [
        | inl l ↦ subst (Popped s) (sym (goes_on i p e l)) (
            refresh-Popped s i p c.0 c.1 (pop_oldest fuel (refresh s i p)) (
              pop_oldest-Popped fuel (refresh s i p) (fewer_stale s i p fuel c.0 c.1 l f)
                (refresh-IsSound s i p c.0 h)))
        | inr l ↦ subst (Popped s) (sym (taken i p e l)) (take_out-Popped s i p c.0 c.1 c.2 l h)
      ]
]
  where
    ended : top s.pieces ≡ none → pop_oldest (suc fuel) s ≡ (s, none)
    ended e = ground arith

    goes_on :
        (i : ℕ) (p : MemPiece)
        → top s.pieces ≡ some (i, p)
        → ltb p.key p.last_used ≡ true
        → pop_oldest (suc fuel) s ≡ pop_oldest fuel (put s i (record p { key = p.last_used }))
    goes_on i p e l = ground arith

    taken :
        (i : ℕ) (p : MemPiece)
        → top s.pieces ≡ some (i, p)
        → ltb p.key p.last_used ≡ false
        → pop_oldest (suc fuel) s ≡ take_out s i p
    taken i p e l = ground arith

stale-le_one : (p : MemPiece) → stale p ≤ 1
unfolding stale
stale-le_one p = ground arith

pub pop_oldest_locked_lem :
    (s : MemStorage) → All (IsSound s.tick) s.pieces → Popped s (pop_oldest_locked s)
unfolding pop_oldest_locked
pop_oldest_locked_lem s h =
    pop_oldest-Popped (suc (length s.pieces)) s
      (omega (arith, le-length_of_weigh stale s.pieces stale-le_one)) h

-- What the comment of `popOldestLocked` says of a heap key.
abbrev pub IsLowerBound : MemPiece → Type 0
IsLowerBound p = p.key ≤ p.last_used

abbrev pub LastFrom : ℕ → MemPiece → Type 0
LastFrom n p = p.in_lru ≡ true → n ≤ p.last_used

-- No piece of the heap was used before the victim.
abbrev pub Least : List MemPiece → Option (ℕ × MemPiece) → Type 0
Least ps none = Unit {0}
Least ps (some (i, q)) = All (LastFrom q.last_used) ps

Popped-Least :
    (s : MemStorage) (r : MemStorage × Option (ℕ × MemPiece))
    → All IsLowerBound s.pieces
    → Popped s r
    → Least s.pieces r.1
Popped-Least s (t, none) k h = tt
Popped-Least s (t, some (i, q)) k (p, h) =
    let same : q.last_used ≡ p.last_used = ap (λ u. u.last_used) h.out in
    All-imp_both (UsedFrom p.last_used) IsLowerBound (LastFrom q.last_used) s.pieces
      (λ u f b l. omega (arith, f l, b, same)) h.oldest k

-- When the store's pieces are sound and each key is a lower bound of its piece's `lastUsed`,
-- `popOldestLocked` ends within the rounds that `pop_oldest_locked` gives it. It returns a piece of the
-- heap whose `lastUsed` no other piece of the heap is below, taken out of the heap and otherwise
-- unchanged but for its key; or nil, when the heap is empty.
pub pop_oldest_locked-Popped :
    (s : MemStorage)
    → All (IsSound s.tick) s.pieces
    → All IsLowerBound s.pieces
    → Popped s (pop_oldest_locked s) × Least s.pieces (pop_oldest_locked s).1
pop_oldest_locked-Popped s h k =
    let r = pop_oldest_locked_lem s h in (r, Popped-Least s (pop_oldest_locked s) k r)
