-- ===== src/MemStorage/Ops.antt =====
-- The operations of internal/engine/memstorage.go on one piece, and the store's invariant.
use stremio_server_go.Common.{
  ℕ, ◌+◌, ◌-◌, ◌≤◌, ◌<◌, ◌≡◌, refl, sym, ap, true, false, List, ◌++◌, none, some, if◌then◌else◌,
  length, get_elem?, take, drop, min, Bool-cases, arith, inl, inr, ◌∙◌, length-append, length-take,
  length-drop,
}
use mathlib.Core.Option.{some-injective}
use stremio_server_go.Common.Weigh.{All-set, All-get, All-imp, weigh-set, le-weigh}
use stremio_server_go.MemStorage.Model.{
  MemPiece, MemStorage, free_locked, drop_locked, evict_unparked, evict_locked, reserve,
  mark_not_complete, is_some, put, copy_at,
}
use stremio_server_go.MemStorage.Popping.{resident, IsSound}
use stremio_server_go.MemStorage.Accounts.{Inv, Evicted, evict_unparked-Evicted}

-- A piece is replaced.
pub put-Inv :
    {held : ℕ} (s : MemStorage) (used tick i : ℕ) (p q : MemPiece)
    → get_elem? s.pieces i ≡ some p
    → used + resident p ≡ s.used + resident q
    → s.tick ≤ tick
    → (IsSound s.tick p → IsSound tick q)
    → Inv held s
    → Inv held (put (record s { used = used; tick = tick }) i q)
put-Inv {held} s used tick i p q e u n f v = record {
  accounts = omega (arith, weigh-set resident s.pieces i p q e, v.accounts);
  sound =
      All-set (IsSound tick) s.pieces i q (f (All-get (IsSound s.tick) s.pieces i p e v.sound))
        (All-imp (IsSound s.tick) (IsSound tick) s.pieces later v.sound);
}
  where
    later : (r : MemPiece) → IsSound s.tick r → IsSound tick r
    later r w = record {
      verified = w.verified;
      available = w.available;
      bounded = omega arith;
      dated = omega arith;
      sized = w.sized;
    }

pub drop_locked-Inv :
    {held : ℕ} (s : MemStorage) (i : ℕ) (p : MemPiece)
    → get_elem? s.pieces i ≡ some p
    → Inv held s
    → Inv held (drop_locked s i p)
unfolding drop_locked free_locked resident
drop_locked-Inv {held} s i p e v =
    put-Inv s (if is_some p.bytes then s.used - p.length else s.used) s.tick i p
      (record p { bytes = none; complete = false; in_lru = false }) e
      (ground (arith, le-weigh resident s.pieces i p e, v.accounts)) (omega arith)
      (λ w. record {
        verified = λ l. cc;
        available = λ c. cc;
        bounded = w.bounded;
        dated = w.dated;
        sized = λ d g. cc;
      })
      v

pub mark_not_complete-Inv :
    {held : ℕ} (s : MemStorage) (i : ℕ) (p : MemPiece)
    → get_elem? s.pieces i ≡ some p
    → Inv held s
    → Inv held (mark_not_complete s i p)
unfolding mark_not_complete resident
mark_not_complete-Inv {held} s i p e v =
    put-Inv s s.used s.tick i p (record p { complete = false; in_lru = false }) e refl (omega arith)
      (λ w. record {
        verified = λ l. cc;
        available = λ c. cc;
        bounded = w.bounded;
        dated = w.dated;
        sized = w.sized;
      })
      v

-- Room is made for a piece; it is not one of the victims, as it is not in the heap.
pub reserve_lem :
    {held : ℕ} (s : MemStorage) (need : ℕ)
    → Inv held s
    → (t : MemStorage) × Evicted held s need t
      × (reserve s need ≡ record t { used = t.used + need })
unfolding reserve evict_locked
reserve_lem {held} s need v = (evict_unparked s need, evict_unparked-Evicted s need v, refl)

pub blank_out : (now : ℕ) (p : MemPiece) → p.bytes ≡ none → IsSound now p → p.in_lru ≡ false
blank_out now p e w = elim (Bool-cases p.in_lru) [
  | inl l ↦ absurd (empty (w.available (w.verified l)))
  | inr l ↦ l
]
  where
    empty : is_some p.bytes ≡ true → ⊥
    empty h = ground arith

pub length-copy_at :
    (dst b : List ℕ) (off : ℕ) → off < length dst → length (copy_at dst off b) ≡ length dst
unfolding copy_at
length-copy_at dst b off l = omega (
  arith,
  length-append (take off dst) (
      take (min (length dst - off) (length b)) b
      ++ drop (off + min (length dst - off) (length b)) dst),
  length-append (take (min (length dst - off) (length b)) b)
      (drop (off + min (length dst - off) (length b)) dst),
  length-take off dst,
  length-take (min (length dst - off) (length b)) b,
  length-drop (off + min (length dst - off) (length b)) dst,
)

-- The bytes of a piece are stored.
pub fill-IsSound :
    (now : ℕ) (p : MemPiece) (d : List ℕ)
    → length d ≡ p.length
    → IsSound now p
    → IsSound now (record p { bytes = some d })
fill-IsSound now p d l w = record {
  verified = w.verified;
  available = λ c. refl;
  bounded = w.bounded;
  dated = w.dated;
  sized = λ d' e. ap length (sym (some-injective d d' e)) ∙ l;
}
