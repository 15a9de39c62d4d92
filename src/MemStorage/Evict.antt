-- ===== src/MemStorage/Evict.antt =====
-- The piece that `popOldestLocked` of internal/engine/memstorage.go chooses.
use stremio_server_go.Common.{
  ◌⊎◌, ℕ, suc, ◌≤◌, ◌≡◌, refl, sym, true, false, List, [], ◌∷◌, Option, none, subst, some, leb,
  get_elem?, Bool-cases, arith, inl, inr,
}
use stremio_server_go.Common.Weigh.{All, All-imp}
use stremio_server_go.MemStorage.Model.{MemPiece, top, older}

-- Not a candidate for eviction.
abbrev pub Out : MemPiece → Type 0
Out p = p.in_lru ≡ false

abbrev pub KeyFrom : ℕ → MemPiece → Type 0
KeyFrom n p = p.in_lru ≡ true → n ≤ p.key

abbrev pub UsedFrom : ℕ → MemPiece → Type 0
UsedFrom n p = p.in_lru ≡ true → (n ≤ p.key) ⊎ (n ≤ p.last_used)

abbrev pub Chosen : List MemPiece → Option (ℕ × MemPiece) → Type 0
Chosen ps none = All Out ps
Chosen ps (some (i, p)) = (get_elem? ps i ≡ some p) × (p.in_lru ≡ true) × All (KeyFrom p.key) ps

older_lem :
    (p : MemPiece) (ps : List MemPiece) (o : Option (ℕ × MemPiece))
    → Chosen ps o
    → Chosen (p ∷ ps) (older p o)
unfolding older
older_lem p ps none h = elim (Bool-cases p.in_lru) [
  | inl e ↦
      subst (Chosen (p ∷ ps)) (sym (chosen e))
        (refl, e, (λ _. omega arith, All-imp Out (KeyFrom p.key) ps (λ q out i. cc) h))
  | inr e ↦ subst (Chosen (p ∷ ps)) (sym (skipped e)) (e, h)
]
  where
    chosen : p.in_lru ≡ true → older p none ≡ some (0, p)
    chosen e = simp (e)

    skipped : p.in_lru ≡ false → older p none ≡ none
    skipped e = simp (e)
older_lem p ps (some (i, q)) h = elim (Bool-cases p.in_lru) [
  | inl e ↦ elim (Bool-cases (leb p.key q.key)) [
    | inl l ↦ subst (Chosen (p ∷ ps)) (sym (chosen e l)) (
      refl,
      e,
      (λ _. omega arith, All-imp (KeyFrom q.key) (KeyFrom p.key) ps (λ r k i. ground arith) h.2),
    )
    | inr l ↦ subst (Chosen (p ∷ ps)) (sym (later e l)) (h.0, h.1, (λ _. ground arith, h.2))
  ]
  | inr e ↦ subst (Chosen (p ∷ ps)) (sym (skipped e)) (h.0, h.1, (λ f. cc, h.2))
]
  where
    chosen : p.in_lru ≡ true → leb p.key q.key ≡ true → older p (some (i, q)) ≡ some (0, p)
    chosen e l = simp (e, l)

    later : p.in_lru ≡ true → leb p.key q.key ≡ false → older p (some (i, q)) ≡ some (suc i, q)
    later e l = simp (e, l)

    skipped : p.in_lru ≡ false → older p (some (i, q)) ≡ some (suc i, q)
    skipped e = simp (e)

pub top_lem : (ps : List MemPiece) → Chosen ps (top ps)
unfolding top
top_lem [] = tt
top_lem (p ∷ ps) = older_lem p ps (top ps) (top_lem ps)
