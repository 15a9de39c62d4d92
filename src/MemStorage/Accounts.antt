-- ===== src/MemStorage/Accounts.antt =====
-- `freeLocked` and `evictLocked` of internal/engine/memstorage.go, and the account of the budget.
use stremio_server_go.Common.{
  ℕ, zero, suc, ◌+◌, ◌≤◌, ◌<◌, ◌≡◌, refl, sym, ap, true, false, List, [], ◌∷◌, Option, none, subst,
  some, ltb, length, get_elem?, Bool-cases, arith, ◌⊎◌, inl, inr, ◌∙◌, length-set,
}
use stremio_server_go.Common.Weigh.{weigh, All, All-set, All-get, le-length_of_weigh, weigh-set}
use stremio_server_go.MemStorage.Model.{
  MemPiece, MemStorage, pop_oldest_locked, free_locked, evict_loop, evict_unparked,
}
use stremio_server_go.MemStorage.Evict.{Out}
use stremio_server_go.MemStorage.Popping.{
  resident, listed, IsSound, Taken, Popped, Spares, Spares-set,
}
use stremio_server_go.MemStorage.Rounds.{pop_oldest_locked_lem}

-- `held` bytes are reserved for pieces whose buffer is not installed yet.
pub record Inv (held : ℕ) (s : MemStorage) : Type 0 where
  pub accounts : s.used ≡ weigh resident s.pieces + held
  pub sound : All (IsSound s.tick) s.pieces

-- Past the budget there is at most one piece to evict: the one that was last completed.
abbrev pub Snug : MemStorage → Type 0
Snug s = (s.used ≤ s.capacity) ⊎ (weigh listed s.pieces ≤ 1)

pub none_listed : (ps : List MemPiece) → All Out ps → weigh listed ps ≡ 0
unfolding listed
none_listed [] h = refl
none_listed (p ∷ ps) h = ground (arith, none_listed ps h.1)

-- What eviction of `need` bytes does.
pub record Evicted (held : ℕ) (s : MemStorage) (need : ℕ) (t : MemStorage) : Type 0 where
  pub same_capacity : t.capacity ≡ s.capacity
  pub same_tick : t.tick ≡ s.tick
  pub same_length : length t.pieces ≡ length s.pieces
  pub spares : Spares s.pieces t.pieces
  pub inv : Inv held t
  pub enough : (t.used + need ≤ t.capacity) ⊎ All Out t.pieces

freed_piece : MemPiece → MemPiece
freed_piece p = record p { bytes = none; complete = false }

freed-IsSound :
    (now : ℕ) (p : MemPiece) → p.in_lru ≡ false → IsSound now p → IsSound now (freed_piece p)
unfolding freed_piece
freed-IsSound now p f w = record {
  verified = λ l. cc;
  available = λ c. cc;
  bounded = w.bounded;
  dated = w.dated;
  sized = λ d e. cc;
}

-- A piece outside the heap is freed.
pub free_locked-Inv :
    {held : ℕ} (s : MemStorage) (i : ℕ) (p : MemPiece)
    → get_elem? s.pieces i ≡ some p
    → p.in_lru ≡ false
    → Inv held s
    → Inv held (free_locked s i p)
unfolding free_locked freed_piece resident
free_locked-Inv {held} s i p e f v = record {
  accounts = ground (arith, weigh-set resident s.pieces i p (freed_piece p) e, v.accounts);
  sound =
      All-set (IsSound s.tick) s.pieces i (freed_piece p)
        (freed-IsSound s.tick p f (All-get (IsSound s.tick) s.pieces i p e v.sound)) v.sound;
}

free_locked-listed :
    (s : MemStorage) (i : ℕ) (p : MemPiece)
    → get_elem? s.pieces i ≡ some p
    → weigh listed (free_locked s i p).pieces ≡ weigh listed s.pieces
unfolding free_locked listed
free_locked-listed s i p e =
    omega (arith, weigh-set listed s.pieces i p (record p { bytes = none; complete = false }) e)

Taken-Inv :
    {held : ℕ} (s t : MemStorage) (i : ℕ) (q p : MemPiece)
    → Inv held s
    → Taken s t i q p
    → Inv held t
Taken-Inv {held} s t i q p v h = record {
  accounts = omega (arith, h.same_used, v.accounts, h.same_resident);
  sound = subst (λ n. All (IsSound n) t.pieces) (sym h.same_tick) h.sound;
}

-- One victim is freed, and the rest of the loop runs.
round-Evicted :
    {held : ℕ} (s t r : MemStorage) (need i : ℕ) (q p : MemPiece)
    → Taken s t i q p
    → Evicted held (free_locked t i q) need r
    → Evicted held s need r
unfolding free_locked
round-Evicted {held} s t r need i q p h v = record {
  same_capacity = v.same_capacity ∙ h.same_capacity;
  same_tick = v.same_tick ∙ h.same_tick;
  same_length =
      v.same_length
      ∙ (length-set t.pieces i (record q { bytes = none; complete = false }) ∙ h.same_length);
  spares = λ j u g f.
      v.spares j u
        (Spares-set s.pieces t.pieces i p (record q { bytes = none; complete = false }) h.was
          h.candidate h.spares j u g f)
        f;
  inv = v.inv;
  enough = v.enough;
}

-- Nothing is evicted.
pub stay-Evicted :
    {held : ℕ} (s : MemStorage) (need : ℕ)
    → Inv held s
    → (s.used + need ≤ s.capacity) ⊎ All Out s.pieces
    → Evicted held s need s
stay-Evicted {held} s need v e = record {
  same_capacity = refl;
  same_tick = refl;
  same_length = refl;
  spares = λ j p g f. g;
  inv = v;
  enough = e;
}

pub evict_loop-Evicted :
    {held : ℕ} (fuel : ℕ) (s : MemStorage) (need : ℕ)
    → weigh listed s.pieces < fuel
    → Inv held s
    → Evicted held s need (evict_loop fuel s need)
unfolding evict_loop
evict_loop-Evicted {held} zero s need f v = absurd (omega arith)
evict_loop-Evicted {held} (suc fuel) s need f v =
    elim (Bool-cases (ltb s.capacity (s.used + need))) [
      | inl more ↦
          by_pop more (λ t. evict_loop-Evicted fuel t need) (pop_oldest_locked s) refl
            (pop_oldest_locked_lem s v.sound)
      | inr fits ↦
          subst (Evicted held s need) (sym (stops fits))
            (stay-Evicted s need v (inl (ground arith)))
    ]
  where
    stops : ltb s.capacity (s.used + need) ≡ false → evict_loop (suc fuel) s need ≡ s
    stops e = ground arith

    ends :
        (t : MemStorage)
        → ltb s.capacity (s.used + need) ≡ true
        → pop_oldest_locked s ≡ (t, none)
        → evict_loop (suc fuel) s need ≡ t
    ends t l e = ground arith

    goes_on :
        (t : MemStorage) (i : ℕ) (q : MemPiece)
        → ltb s.capacity (s.used + need) ≡ true
        → pop_oldest_locked s ≡ (t, some (i, q))
        → evict_loop (suc fuel) s need ≡ evict_loop fuel (free_locked t i q) need
    goes_on t i q l e = ground arith

    by_pop :
        ltb s.capacity (s.used + need) ≡ true
        → ((t : MemStorage)
            → weigh listed t.pieces < fuel
            → Inv held t
            → Evicted held t need (evict_loop fuel t need))
        → (r : MemStorage × Option (ℕ × MemPiece)) → pop_oldest_locked s ≡ r
        → Popped s r
        → Evicted held s need (evict_loop (suc fuel) s need)
    by_pop l rest (t, none) e h =
        subst (Evicted held s need) (sym (ends t l e ∙ h.0)) (stay-Evicted s need v (inr h.1))
    by_pop l rest (t, some (i, q)) e (p, h) =
        subst (Evicted held s need) (sym (goes_on t i q l e)) (
          round-Evicted s t (evict_loop fuel (free_locked t i q) need) need i q p h (
            rest (free_locked t i q) (omega (arith, h.one_less, free_locked-listed t i q h.now))
              (free_locked-Inv t i q h.now (ap (λ u. u.in_lru) h.out) (Taken-Inv s t i q p v h))))

listed-le_one : (p : MemPiece) → listed p ≤ 1
unfolding listed
listed-le_one p = ground arith

-- Where the invariant holds, `evictLocked` without a piece to keep ends; then either what is needed
-- fits the capacity, or no piece is left in the heap. Pieces outside the heap, so all that are not
-- complete, keep their bytes, and the account of the bytes in use still holds.
pub evict_unparked-Evicted :
    {held : ℕ} (s : MemStorage) (need : ℕ)
    → Inv held s
    → Evicted held s need (evict_unparked s need)
unfolding evict_unparked
evict_unparked-Evicted {held} s need v =
    evict_loop-Evicted (suc (length s.pieces)) s need
      (omega (arith, le-length_of_weigh listed s.pieces listed-le_one)) v
