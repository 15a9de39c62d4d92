-- ===== src/MemStorage/Torrents.antt =====
-- Opening and closing a torrent of internal/engine/memstorage.go.
use stremio_server_go.Common.{
  ℕ, zero, suc, ◌+◌, ◌-◌, ◌≤◌, ◌≡◌, refl, sym, true, false, List, [], ◌∷◌, none, subst, some, ◌==◌,
  if◌then◌else◌, length, get_elem?, Bool-cases, Option-cases, arith, inl, inr,
}
use stremio_server_go.Common.Weigh.{weigh, All, All-append, weigh-set, weigh-append}
use stremio_server_go.MemStorage.Model.{
  MemPiece, MemStorage, free_locked, drop_locked, mark_not_complete, blank, close_at, close_from,
  close, open_torrent, is_some, put,
}
use stremio_server_go.MemStorage.Evict.{Out}
use stremio_server_go.MemStorage.Popping.{resident, listed, IsSound}
use stremio_server_go.MemStorage.Accounts.{Inv, Snug, none_listed}
use stremio_server_go.MemStorage.Ops.{drop_locked-Inv, mark_not_complete-Inv}

pub record Good (held : ℕ) (s : MemStorage) : Type 0 where
  pub inv : Inv held s
  pub snug : Snug s

-- Less is used, and no more is in the heap.
pub put-Snug :
    (s : MemStorage) (used tick i : ℕ) (p q : MemPiece)
    → get_elem? s.pieces i ≡ some p
    → used ≤ s.used
    → listed q ≤ listed p
    → Snug s
    → Snug (put (record s { used = used; tick = tick }) i q)
put-Snug s used tick i p q e u l (inl fits) = inl (omega arith)
put-Snug s used tick i p q e u l (inr one) = inr (omega (arith, weigh-set listed s.pieces i p q e))

pub drop-Good :
    {held : ℕ} (s : MemStorage) (i : ℕ) (p : MemPiece)
    → get_elem? s.pieces i ≡ some p
    → Good held s
    → Good held (drop_locked s i p)
unfolding drop_locked free_locked listed
drop-Good {held} s i p e g = record {
  inv = drop_locked-Inv s i p e g.inv;
  snug =
      put-Snug s (if is_some p.bytes then s.used - p.length else s.used) s.tick i p
        (record p { bytes = none; complete = false; in_lru = false }) e (ground arith) (omega arith)
        g.snug;
}

pub unmark-Good :
    {held : ℕ} (s : MemStorage) (i : ℕ) (p : MemPiece)
    → get_elem? s.pieces i ≡ some p
    → Good held s
    → Good held (mark_not_complete s i p)
unfolding mark_not_complete listed
unmark-Good {held} s i p e g = record {
  inv = mark_not_complete-Inv s i p e g.inv;
  snug =
      put-Snug s s.used s.tick i p (record p { complete = false; in_lru = false }) e (omega arith)
        (omega arith) g.snug;
}

close_at-Good :
    {held : ℕ} (s : MemStorage) (torrent i : ℕ) → Good held s → Good held (close_at s torrent i)
unfolding close_at
close_at-Good {held} s torrent i g = elim (Option-cases (get_elem? s.pieces i)) [
  | inl e ↦ subst (Good held) (sym (absent e)) g
  | inr (p, e) ↦ elim (Bool-cases (p.torrent == torrent)) [
    | inl own ↦ subst (Good held) (sym (dropped p e own)) (drop-Good s i p e g)
    | inr other ↦ subst (Good held) (sym (passed p e other)) g
  ]
]
  where
    absent : get_elem? s.pieces i ≡ none → close_at s torrent i ≡ s
    absent e = ground arith

    dropped :
        (p : MemPiece)
        → get_elem? s.pieces i ≡ some p
        → (p.torrent == torrent) ≡ true
        → close_at s torrent i ≡ drop_locked s i p
    dropped p e h = ground arith

    passed :
        (p : MemPiece)
        → get_elem? s.pieces i ≡ some p
        → (p.torrent == torrent) ≡ false
        → close_at s torrent i ≡ s
    passed p e h = ground arith

close_from-Good :
    {held : ℕ} (k : ℕ) (s : MemStorage) (torrent i : ℕ)
    → Good held s
    → Good held (close_from s torrent i k)
unfolding close_from
close_from-Good {held} zero s torrent i g = g
close_from-Good {held} (suc k) s torrent i g =
    close_from-Good k (close_at s torrent i) torrent (i + 1) (close_at-Good s torrent i g)

pub close-Good :
    {held : ℕ} (s : MemStorage) (torrent : ℕ) → Good held s → Good held (close s torrent)
unfolding close
close-Good {held} s torrent g = close_from-Good (length s.pieces) s torrent 0 g

blank-IsSound : (now torrent : ℕ) (ns : List ℕ) → All (IsSound now) (blank torrent ns)
unfolding blank
blank-IsSound now torrent [] = tt
blank-IsSound now torrent (n ∷ ns) = (
  record {
    verified = λ l. cc;
    available = λ c. cc;
    bounded = omega arith;
    dated = omega arith;
    sized = λ d e. cc;
  },
  blank-IsSound now torrent ns,
)

blank-resident : (torrent : ℕ) (ns : List ℕ) → weigh resident (blank torrent ns) ≡ 0
unfolding blank resident
blank-resident torrent [] = refl
blank-resident torrent (n ∷ ns) = omega (arith, blank-resident torrent ns)

blank-Out : (torrent : ℕ) (ns : List ℕ) → All Out (blank torrent ns)
unfolding blank
blank-Out torrent [] = tt
blank-Out torrent (n ∷ ns) = (refl, blank-Out torrent ns)

pub open-Good :
    {held : ℕ} (s : MemStorage) (torrent : ℕ) (lengths : List ℕ)
    → Good held s
    → Good held (open_torrent s torrent lengths)
unfolding open_torrent
open-Good {held} s torrent lengths g = record {
  inv = record {
    accounts = omega (
      arith,
      g.inv.accounts,
      weigh-append resident s.pieces (blank torrent lengths),
      blank-resident torrent lengths,
    );
    sound =
        All-append (IsSound s.tick) s.pieces (blank torrent lengths) g.inv.sound
          (blank-IsSound s.tick torrent lengths);
  };
  snug = elim g.snug [
    | inl fits ↦ inl fits
    | inr one ↦ inr (
        omega (
          arith,
          weigh-append listed s.pieces (blank torrent lengths),
          none_listed (blank torrent lengths) (blank-Out torrent lengths),
        ))
  ];
}
