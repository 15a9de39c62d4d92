-- ===== src/MemStorage/Popping.antt =====
-- What a call of `popOldestLocked` of internal/engine/memstorage.go does, and its last round.
use stremio_server_go.Common.{
  inl, ℕ, ◌+◌, ◌≤◌, ◌≡◌, refl, sym, Bool, true, false, ◌&&◌, List, Option, none, subst, some, ltb,
  if◌then◌else◌, length, get_elem?, set, arith, ◌∙◌, length-set, get_elem?-set_self,
  get_elem?-set_ne,
}
use mathlib.Core.Option.{some-injective}
use native.Mathlib.Decide.{ℕ_discrete}
use stremio_server_go.Common.Weigh.{
  weigh, All, All-set, All-get, All-imp_both, lt-length_of_get, weigh-set,
}
use stremio_server_go.MemStorage.Model.{MemPiece, MemStorage, take_out, is_some}
use stremio_server_go.MemStorage.Evict.{Out, KeyFrom, UsedFrom}

-- The bytes that a piece takes of the budget.
unfoldable pub resident : MemPiece → ℕ
resident p = if is_some p.bytes then p.length else 0

unfoldable pub listed : MemPiece → ℕ
listed p = if p.in_lru then 1 else 0

unfoldable pub stale : MemPiece → ℕ
stale p = if p.in_lru && ltb p.key p.last_used then 1 else 0

pub record IsSound (now : ℕ) (p : MemPiece) : Type 0 where
  pub verified : p.in_lru ≡ true → p.complete ≡ true
  pub available : p.complete ≡ true → is_some p.bytes ≡ true
  pub bounded : p.key ≤ now
  pub dated : p.last_used ≤ now
  pub sized : (d : List ℕ) → p.bytes ≡ some d → length d ≡ p.length

-- The pieces outside the heap are left as they are.
abbrev pub Spares : List MemPiece → List MemPiece → Type 0
Spares ps qs =
    (j : ℕ) (p : MemPiece) → get_elem? ps j ≡ some p → p.in_lru ≡ false → get_elem? qs j ≡ some p

pub cc_false : {b : Bool} → b ≡ true → b ≡ false → ⊥
cc_false e f = cc

pub Spares-set :
    (ps qs : List MemPiece) (i : ℕ) (p v : MemPiece)
    → get_elem? ps i ≡ some p
    → p.in_lru ≡ true
    → Spares ps qs
    → Spares ps (set qs i v)
Spares-set ps qs i p v e l h j q g f = elim (ℕ_discrete i j) [
  | yes same ↦ absurd (
      cc_false l (
        subst (λ u. u.in_lru ≡ false)
          (some-injective q p (sym g ∙ subst (λ m. get_elem? ps m ≡ some p) same e)) f))
  | no other ↦ get_elem?-set_ne qs v other ∙ h j q g f
]

-- What a call of `popOldestLocked` that returns `q` does.
pub record Taken (s t : MemStorage) (i : ℕ) (q p : MemPiece) : Type 0 where
  pub was : get_elem? s.pieces i ≡ some p
  pub candidate : p.in_lru ≡ true
  pub oldest : All (UsedFrom p.last_used) s.pieces
  pub now : get_elem? t.pieces i ≡ some q
  pub out : q ≡ record p { key = q.key; in_lru = false }
  pub same_used : t.used ≡ s.used
  pub same_capacity : t.capacity ≡ s.capacity
  pub same_tick : t.tick ≡ s.tick
  pub same_length : length t.pieces ≡ length s.pieces
  pub same_resident : weigh resident t.pieces ≡ weigh resident s.pieces
  pub one_less : weigh listed t.pieces + 1 ≡ weigh listed s.pieces
  pub spares : Spares s.pieces t.pieces
  pub sound : All (IsSound s.tick) t.pieces

-- What `popOldestLocked` does.
abbrev pub Popped : MemStorage → MemStorage × Option (ℕ × MemPiece) → Type 0
Popped s (t, none) = (t ≡ s) × All Out s.pieces
Popped s (t, some (i, q)) = (p : MemPiece) × Taken s t i q p

pub take_out-Popped :
    (s : MemStorage) (i : ℕ) (p : MemPiece)
    → get_elem? s.pieces i ≡ some p
    → p.in_lru ≡ true
    → All (KeyFrom p.key) s.pieces
    → ltb p.key p.last_used ≡ false
    → All (IsSound s.tick) s.pieces
    → Popped s (take_out s i p)
unfolding take_out resident listed
take_out-Popped s i p e l k f h = (
  p,
  record {
    was = e;
    candidate = l;
    oldest =
        All-imp_both (KeyFrom p.key) (IsSound s.tick) (UsedFrom p.last_used) s.pieces
          (λ q kq sq i. inl (ground (arith, kq i))) k h;
    now =
        get_elem?-set_self s.pieces i (record p { in_lru = false })
          (lt-length_of_get s.pieces i p e);
    out = refl;
    same_used = refl;
    same_capacity = refl;
    same_tick = refl;
    same_length = length-set s.pieces i (record p { in_lru = false });
    same_resident = omega (arith, weigh-set resident s.pieces i p (record p { in_lru = false }) e);
    one_less = ground (arith, weigh-set listed s.pieces i p (record p { in_lru = false }) e);
    spares = Spares-set s.pieces s.pieces i p (record p { in_lru = false }) e l (λ j v g f. g);
    sound =
        All-set (IsSound s.tick) s.pieces i (record p { in_lru = false })
          (parked (All-get (IsSound s.tick) s.pieces i p e h)) h;
  },
)
  where
    parked : IsSound s.tick p → IsSound s.tick (record p { in_lru = false })
    parked w = record {
      verified = λ i. cc;
      available = w.available;
      bounded = w.bounded;
      dated = w.dated;
      sized = w.sized;
    }
