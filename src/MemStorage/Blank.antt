-- ===== src/MemStorage/Blank.antt =====
-- Which pieces of internal/engine/memstorage.go an operation leaves without a buffer.
use stremio_server_go.Common.{
  ℕ, zero, suc, ◌+◌, ◌≤◌, ◌≡◌, refl, sym, ap, false, List, [], ◌∷◌, ◌++◌, none, some, subst, ◌==◌,
  get_elem?, Bool-cases, Option-cases, arith, inl, inr, ◌∙◌, get_elem?-set_self, get_elem?-set_ne,
  set, length,
}
use mathlib.Core.Option.{some-injective}
use native.Mathlib.Decide.{ℕ_discrete}
use stremio_server_go.Common.Weigh.{All, All-get, lt-length_of_get}
use stremio_server_go.MemStorage.Model.{
  MemPiece, MemStorage, put, open_torrent, blank, close, close_from, close_at, drop_locked,
  free_locked,
}
use stremio_server_go.MemStorage.Popping.{IsSound, Spares}
use stremio_server_go.MemStorage.Ops.{blank_out}

-- The piece at `i` has no buffer, and `n` bytes.
pub record IsBlank (s : MemStorage) (i n : ℕ) : Type 0 where
  pub piece : MemPiece
  pub at : get_elem? s.pieces i ≡ some piece
  pub empty : piece.bytes ≡ none
  pub sized : piece.length ≡ n

-- What every step promises the other threads.
pub record Keeps (s t : MemStorage) : Type 0 where
  pub blanks : (i n : ℕ) → IsBlank s i n → IsBlank t i n
  pub later : s.tick ≤ t.tick

pub Keeps-refl : (s : MemStorage) → Keeps s s
Keeps-refl s = record { blanks = λ i n b. b; later = omega arith }

pub Keeps-trans : (s t u : MemStorage) → Keeps s t → Keeps t u → Keeps s u
Keeps-trans s t u f g = record {
  blanks = λ i n b. g.blanks i n (f.blanks i n b);
  later = omega (arith, f.later, g.later);
}

-- Another piece is replaced.
pub put-IsBlank :
    (s : MemStorage) (used tick j : ℕ) (q : MemPiece) (i n : ℕ)
    → (j ≡ i → ⊥)
    → IsBlank s i n
    → IsBlank (put (record s { used = used; tick = tick }) j q) i n
put-IsBlank s used tick j q i n other b = record {
  piece = b.piece;
  at = get_elem?-set_ne s.pieces q other ∙ b.at;
  empty = b.empty;
  sized = b.sized;
}

-- A piece is replaced that stays without a buffer if it had none.
pub put-Keeps :
    (s : MemStorage) (used tick j : ℕ) (p q : MemPiece)
    → get_elem? s.pieces j ≡ some p
    → s.tick ≤ tick
    → (p.bytes ≡ none → (q.bytes ≡ none) × (q.length ≡ p.length))
    → Keeps s (put (record s { used = used; tick = tick }) j q)
put-Keeps s used tick j p q e l f = record {
  blanks = λ i n b. elim (ℕ_discrete j i) [
    | no other ↦ put-IsBlank s used tick j q i n other b
    | yes same ↦
        let is_p : p ≡ b.piece =
          some-injective p b.piece
            (sym e ∙ subst (λ m. get_elem? s.pieces m ≡ some b.piece) (sym same) b.at) in
        let (r, k) = f (subst (λ u. u.bytes ≡ none) (sym is_p) b.empty) in
        record {
          piece = q;
          at =
              subst (λ m. get_elem? (set s.pieces j q) m ≡ some q) same
                (get_elem?-set_self s.pieces j q (lt-length_of_get s.pieces j p e));
          empty = r;
          sized = k ∙ (ap (λ u. u.length) is_p ∙ b.sized);
        }
  ];
  later = l;
}

pub Spares-Keeps :
    (s t : MemStorage)
    → All (IsSound s.tick) s.pieces
    → Spares s.pieces t.pieces
    → t.tick ≡ s.tick
    → Keeps s t
Spares-Keeps s t h f k = record {
  blanks = λ i n b. record {
    piece = b.piece;
    at =
        f i b.piece b.at
          (blank_out s.tick b.piece b.empty (All-get (IsSound s.tick) s.pieces i b.piece b.at h));
    empty = b.empty;
    sized = b.sized;
  };
  later = omega (arith, k);
}

get_elem?-append_left :
    (ps qs : List MemPiece) (i : ℕ) (p : MemPiece)
    → get_elem? ps i ≡ some p
    → get_elem? (ps ++ qs) i ≡ some p
get_elem?-append_left [] qs i p e = cc
get_elem?-append_left (q ∷ ps) qs zero p e = e
get_elem?-append_left (q ∷ ps) qs (suc i) p e = get_elem?-append_left ps qs i p e

pub open_torrent-Keeps :
    (s : MemStorage) (torrent : ℕ) (lengths : List ℕ) → Keeps s (open_torrent s torrent lengths)
unfolding open_torrent
open_torrent-Keeps s torrent lengths = record {
  blanks = λ i n b. record {
    piece = b.piece;
    at = get_elem?-append_left s.pieces (blank torrent lengths) i b.piece b.at;
    empty = b.empty;
    sized = b.sized;
  };
  later = omega arith;
}

drop_locked-Keeps :
    (s : MemStorage) (i : ℕ) (p : MemPiece)
    → get_elem? s.pieces i ≡ some p
    → Keeps s (drop_locked s i p)
unfolding drop_locked free_locked
drop_locked-Keeps s i p e =
    put-Keeps s _ s.tick i p (record p { bytes = none; complete = false; in_lru = false }) e
      (omega arith) (λ r. (refl, refl))

close_at-Keeps : (s : MemStorage) (torrent i : ℕ) → Keeps s (close_at s torrent i)
unfolding close_at
close_at-Keeps s torrent i = elim (Option-cases (get_elem? s.pieces i)) [
  | inl e ↦ rw (close_at, e) (Keeps-refl s)
  | inr (p, e) ↦ elim (Bool-cases (p.torrent == torrent)) [
    | inl own ↦ rw (close_at, e, own) (drop_locked-Keeps s i p e)
    | inr other ↦ rw (close_at, e, other) (Keeps-refl s)
  ]
]

close_from-Keeps : (k : ℕ) (s : MemStorage) (torrent i : ℕ) → Keeps s (close_from s torrent i k)
unfolding close_from
close_from-Keeps zero s torrent i = Keeps-refl s
close_from-Keeps (suc k) s torrent i =
    Keeps-trans s (close_at s torrent i) (close_from (close_at s torrent i) torrent (i + 1) k)
      (close_at-Keeps s torrent i) (close_from-Keeps k (close_at s torrent i) torrent (i + 1))

pub close-Keeps : (s : MemStorage) (torrent : ℕ) → Keeps s (close s torrent)
unfolding close
close-Keeps s torrent = close_from-Keeps (length s.pieces) s torrent 0
