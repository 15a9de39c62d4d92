-- ===== src/MemStorage/Writes.antt =====
-- The parts of `WriteAt` of internal/engine/memstorage.go, and the store's invariant.
use stremio_server_go.Common.{
  ℕ, ◌+◌, ◌<◌, ◌≡◌, sym, List, none, subst, some, length, get_elem?, arith, inl, inr, ◌∙◌,
}
use stremio_server_go.Common.Weigh.{All-get, All-set, weigh-set}
use stremio_server_go.MemStorage.Model.{MemPiece, MemStorage, reserve, store_at, put, copy_at}
use stremio_server_go.MemStorage.Popping.{resident, listed, IsSound, Spares}
use stremio_server_go.MemStorage.Accounts.{Snug, none_listed, Inv}
use stremio_server_go.MemStorage.Torrents.{Good}
use stremio_server_go.MemStorage.Ops.{put-Inv, reserve_lem, length-copy_at, fill-IsSound}

-- The bytes of a resident piece are overwritten.
rewrite-Inv :
    {held : ℕ} (s : MemStorage) (i : ℕ) (p : MemPiece) (dst : List ℕ) (off : ℕ) (b : List ℕ)
    → get_elem? s.pieces i ≡ some p
    → p.bytes ≡ some dst
    → off < p.length
    → Inv held s
    → Inv held (put s i (record p { bytes = some (copy_at dst off b) }))
unfolding resident
rewrite-Inv {held} s i p dst off b e r l v =
    put-Inv s s.used s.tick i p (record p { bytes = some (copy_at dst off b) }) e (ground arith)
      (omega arith)
      (λ w.
        fill-IsSound s.tick p (copy_at dst off b)
          (length-copy_at dst b off (omega (arith, w.sized dst r)) ∙ w.sized dst r) w)
      v

-- A blank piece, whose bytes are reserved, becomes resident.
install-Inv :
    {held : ℕ} (s : MemStorage) (i : ℕ) (p : MemPiece) (d : List ℕ)
    → get_elem? s.pieces i ≡ some p
    → p.bytes ≡ none
    → length d ≡ p.length
    → Inv (p.length + held) s
    → Inv held (put s i (record p { bytes = some d }))
unfolding resident
install-Inv {held} s i p d e r l v = record {
  accounts =
      ground
        (arith, weigh-set resident s.pieces i p (record p { bytes = some d }) e, v.accounts, r);
  sound =
      All-set (IsSound s.tick) s.pieces i (record p { bytes = some d })
        (fill-IsSound s.tick p d l (All-get (IsSound s.tick) s.pieces i p e v.sound)) v.sound;
}

fill-Snug :
    (s : MemStorage) (i : ℕ) (p : MemPiece) (d : List ℕ)
    → get_elem? s.pieces i ≡ some p
    → Snug s
    → Snug (put s i (record p { bytes = some d }))
unfolding listed
fill-Snug s i p d e (inl fits) = inl fits
fill-Snug s i p d e (inr one) =
    inr (omega (arith, weigh-set listed s.pieces i p (record p { bytes = some d }) e))

pub rewrite-Good :
    {held : ℕ} (s : MemStorage) (i : ℕ) (p : MemPiece) (dst : List ℕ) (off : ℕ) (b : List ℕ)
    → get_elem? s.pieces i ≡ some p
    → p.bytes ≡ some dst
    → off < p.length
    → Good held s
    → Good held (store_at (s, dst) i p off b).0
unfolding store_at
rewrite-Good s i p dst off b e r l g = record {
  inv = rewrite-Inv s i p dst off b e r l g.inv;
  snug = fill-Snug s i p (copy_at dst off b) e g.snug;
}

pub install-Good :
    {held : ℕ} (s : MemStorage) (i : ℕ) (p : MemPiece) (buf : List ℕ) (off : ℕ) (b : List ℕ)
    → get_elem? s.pieces i ≡ some p
    → p.bytes ≡ none
    → length buf ≡ p.length
    → off < p.length
    → Good (p.length + held) s
    → Good held (store_at (s, buf) i p off b).0
unfolding store_at
install-Good s i p buf off b e r l o g = record {
  inv =
      install-Inv s i p (copy_at buf off b) e r (length-copy_at buf b off (omega (arith, l, o)) ∙ l)
        g.inv;
  snug = fill-Snug s i p (copy_at buf off b) e g.snug;
}

-- Room is made for a piece: what is in the heap goes, and nothing else does.
pub record Reserved (held need : ℕ) (s t : MemStorage) : Type 0 where
  pub good : Good (need + held) t
  pub spares : Spares s.pieces t.pieces
  pub same_tick : t.tick ≡ s.tick

pub reserve-Reserved :
    {held : ℕ} (s : MemStorage) (need : ℕ) → Inv held s → Reserved held need s (reserve s need)
reserve-Reserved {held} s need v =
    let (t, h, f) = reserve_lem s need v in
    subst (Reserved held need s) (sym f) (record {
      good = record {
        inv = record { accounts = omega (arith, h.inv.accounts); sound = h.inv.sound };
        snug = elim h.enough [
          | inl fits ↦ inl fits
          | inr out ↦ inr (omega (arith, none_listed t.pieces out))
        ];
      };
      spares = h.spares;
      same_tick = h.same_tick;
    })
