-- ===== src/MemStorage/Bytes.antt =====
-- The bytes that `WriteAt` and `ReadAt` of internal/engine/memstorage.go copy.
use stremio_server_go.Common.{
  ℕ, zero, suc, ◌+◌, ◌-◌, ◌≤◌, ◌<◌, ◌≡◌, refl, sym, ap, List, [], ◌∷◌, ◌++◌, none, subst, some,
  length, get_elem?, take, drop, min, Option-cases, arith, inl, inr, ◌∙◌, get_elem?-set_self,
}
use stremio_server_go.Common.Weigh.{All-get, lt-length_of_get}
use stremio_server_go.MemStorage.Model.{
  MemPiece, MemStorage, reserve, lock_resident, write_at, read_at, store_at, Outcome, put, copy_at,
}
use stremio_server_go.MemStorage.Popping.{IsSound}
use stremio_server_go.MemStorage.Accounts.{Inv}
use stremio_server_go.MemStorage.Ops.{reserve_lem, length-copy_at}

take_more : (n : ℕ) (xs ys : List ℕ) → n ≤ length xs → take n (xs ++ ys) ≡ take n xs
take_more zero xs ys h = refl
take_more (suc n) [] ys h = absurd (omega arith)
take_more (suc n) (x ∷ xs) ys h = ap (λ l. x ∷ l) (take_more n xs ys (omega arith))

take_all : (n : ℕ) (xs : List ℕ) → length xs ≤ n → take n xs ≡ xs
take_all zero [] h = refl
take_all zero (x ∷ xs) h = absurd (omega arith)
take_all (suc n) [] h = refl
take_all (suc n) (x ∷ xs) h = ap (λ l. x ∷ l) (take_all n xs (omega arith))

drop_past : (n : ℕ) (xs ys : List ℕ) → n ≤ length xs → drop n (take n xs ++ ys) ≡ ys
drop_past zero xs ys h = refl
drop_past (suc n) [] ys h = absurd (omega arith)
drop_past (suc n) (x ∷ xs) ys h = drop_past n xs ys (omega arith)

-- A chunk that fits is found where it was copied to.
copied :
    (dst b : List ℕ) (off : ℕ)
    → off + length b ≤ length dst
    → take (length b) (drop off (copy_at dst off b)) ≡ b
unfolding copy_at
copied dst b off l =
    let m : ℕ = min (length dst - off) (length b) in
    let fits : take m b ≡ b = take_all m b (omega arith) in
    ap (λ l. take (length b) l) (drop_past off dst (take m b ++ drop (off + m) dst) (omega arith))
    ∙ (ap (λ l. take (length b) (l ++ drop (off + m) dst)) fits
        ∙ (take_more (length b) b (drop (off + m) dst) (omega arith)
            ∙ take_all (length b) b (omega arith)))

-- What a chunk stored at `off` of the piece at `i` leaves to a reader.
abbrev pub Stored : ℕ → ℕ → List ℕ → Outcome → Type 0
Stored i off b o =
    (q : MemPiece) × (get_elem? o.0.pieces i ≡ some q)
    × (o.1 ≡ length b)
    × (o.2 ≡ none)
    × ((read_at o.0 i q (length b) off).1 ≡ b)
    × ((read_at o.0 i q (length b) off).2 ≡ none)

reads :
    (t : MemStorage) (i : ℕ) (q : MemPiece) (d : List ℕ) (off : ℕ) (b : List ℕ)
    → q.bytes ≡ some d
    → length d ≡ q.length
    → off < q.length
    → take (length b) (drop off d) ≡ b
    → ((read_at t i q (length b) off).1 ≡ b) × ((read_at t i q (length b) off).2 ≡ none)
unfolding read_at
reads t i q d off b e l f h =
    let whole : take q.length d ≡ d = take_all q.length d (omega arith) in
    let out : take (length b) (drop off (take q.length d)) ≡ b =
      ap (λ v. take (length b) (drop off v)) whole ∙ h in
    (ground arith, ground arith)

store_at-Stored :
    (t : MemStorage) (i : ℕ) (p : MemPiece) (dst : List ℕ) (off : ℕ) (b : List ℕ)
    → i < length t.pieces
    → length dst ≡ p.length
    → off < p.length
    → off + length b ≤ p.length
    → Stored i off b (store_at (t, dst) i p off b)
unfolding store_at
store_at-Stored t i p dst off b ib l f h =
    let q : MemPiece = record p { bytes = some (copy_at dst off b) } in
    let (r, o) =
      reads (put t i q) i q (copy_at dst off b) off b refl
        (length-copy_at dst b off (omega arith) ∙ l) f (copied dst b off (omega arith)) in
    (q, get_elem?-set_self t.pieces i q ib, omega arith, refl, r, o)

-- Where the invariant holds and the pool's buffer has the length of the piece, a chunk that ends
-- within the piece is stored whole by `WriteAt`, and a `ReadAt` of its range then returns it without
-- an error: also when room for the piece had to be made first.
pub write_at-read_at :
    {held : ℕ} (s : MemStorage) (i : ℕ) (p : MemPiece) (buf b : List ℕ) (off : ℕ)
    → get_elem? s.pieces i ≡ some p
    → length buf ≡ p.length
    → Inv held s
    → off < p.length
    → off + length b ≤ p.length
    → Stored i off b (write_at s i p buf off b)
unfolding write_at lock_resident
write_at-read_at {held} s i p buf b off e l v f h = elim (Option-cases p.bytes) [
  | inl r ↦
      let (t, w, g) = reserve_lem s p.length v in
      subst (Stored i off b) (sym (filled r)) (
        subst (λ m. Stored i off b (store_at (m, buf) i p off b)) (sym g)
          (store_at-Stored (record t { used = t.used + p.length }) i p buf off b
            (omega (arith, w.same_length, lt-length_of_get s.pieces i p e)) l f h))
  | inr (dst, r) ↦ subst (Stored i off b) (sym (stored dst r)) (
      store_at-Stored s i p dst off b (lt-length_of_get s.pieces i p e)
        ((All-get (IsSound s.tick) s.pieces i p e v.sound).sized dst r) f h)
]
  where
    filled :
        p.bytes ≡ none → write_at s i p buf off b ≡ store_at (reserve s p.length, buf) i p off b
    filled r = ground arith

    stored :
        (dst : List ℕ) → p.bytes ≡ some dst → write_at s i p buf off b ≡ store_at (s, dst) i p off b
    stored dst r = ground arith
