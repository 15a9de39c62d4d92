-- ===== src/MemStorage/Sections.antt =====
-- internal/engine/memstorage.go: critical sections of `WriteAt`, `MarkComplete` and `stamp`.
use stremio_server_go.Common.{
  ℕ, ◌+◌, ◌≤◌, ◌≡◌, refl, sym, ap, true, false, List, ◌∷◌, ◌++◌, none, some, subst, leb, length,
  get_elem?, arith, inl, inr, ◌∙◌,
}
use mathlib.Core.Option.{some-injective}
use stremio_server_go.Common.Weigh.{weigh, All, All-get, All-imp, All-imp_both}
use stremio_server_go.MemStorage.Model.{
  MemPiece, MemStorage, reserve, store_at, copy_at, mark_complete, put, is_some,
}
use stremio_server_go.MemStorage.Popping.{IsSound, listed, resident}
use stremio_server_go.MemStorage.Ops.{put-Inv}
use stremio_server_go.MemStorage.Writes.{install-Good, reserve-Reserved}
use stremio_server_go.MemStorage.Marks.{mark_complete-cases, marked, marked-Inv}
use stremio_server_go.MemStorage.Torrents.{Good, put-Snug}
use stremio_server_go.MemStorage.Blank.{
  IsBlank, Keeps, Keeps-refl, Keeps-trans, put-IsBlank, put-Keeps, Spares-Keeps,
}
use stremio_server_go.MemStorage.System.{
  Thread, reserving, copied, loaded, behind, ticked, System, IsElsewhere,
}
use stremio_server_go.MemStorage.Threads.{
  reserved_bytes, Relies, Apart, IsGood, Relies-later, Apart-IsElsewhere, split,
}

pub tick-Good :
    {held : ℕ} (s : MemStorage) → Good held s → Good held (record s { tick = s.tick + 1 })
tick-Good s g = record {
  inv = record {
    accounts = g.inv.accounts;
    sound = All-imp (IsSound s.tick) (IsSound (s.tick + 1)) s.pieces later g.inv.sound;
  };
  snug = g.snug;
}
  where
    later : (p : MemPiece) → IsSound s.tick p → IsSound (s.tick + 1) p
    later p w = record {
      verified = w.verified;
      available = w.available;
      bounded = omega arith;
      dated = omega arith;
      sized = w.sized;
    }

pub stamp-Good :
    {held : ℕ} (s : MemStorage) (i v : ℕ) (p : MemPiece)
    → get_elem? s.pieces i ≡ some p
    → v ≤ s.tick
    → Good held s
    → Good held (put s i (record p { last_used = v }))
unfolding resident listed
stamp-Good s i v p e l g = record {
  inv =
      put-Inv s s.used s.tick i p (record p { last_used = v }) e refl (omega arith)
        (λ w. record {
          verified = w.verified;
          available = w.available;
          bounded = w.bounded;
          dated = l;
          sized = w.sized;
        })
        g.inv;
  snug =
      put-Snug s s.used s.tick i p (record p { last_used = v }) e (omega arith) (omega arith)
        g.snug;
}

pub mark_complete-Good :
    {held : ℕ} (s : MemStorage) (i : ℕ) (p : MemPiece)
    → get_elem? s.pieces i ≡ some p
    → Good held s
    → Good held (mark_complete s i p).0 × Keeps s (mark_complete s i p).0
unfolding marked
mark_complete-Good {held} s i p e g = elim (mark_complete-cases s i p e g.inv) [
  | inl (r, f) ↦ subst (λ o. Good held o.0 × Keeps s o.0) (sym f) (g, Keeps-refl s)
  | inr (k, f) ↦
      let t = (mark_complete s i p).0 in
      let m = put (record s { tick = s.tick + 1 }) i (marked (s.tick + 1) p) in
      let has : is_some p.bytes ≡ true =
        (All-get (IsSound t.tick) t.pieces i (marked (s.tick + 1) p) k.stays k.inv.sound).available
          refl in
      (
        record { inv = k.inv; snug = k.enough },
        Keeps-trans s m t
            (put-Keeps s s.used (s.tick + 1) i p (marked (s.tick + 1) p) e (omega arith)
              (λ r. absurd (ground (arith, has, r))))
            (Spares-Keeps m t (marked-Inv s i p e has g.inv).sound k.spares k.same_tick),
      )
]

pub reserved-IsGood :
    (y : System) (i : ℕ) (p : MemPiece)
    → get_elem? y.store.pieces i ≡ some p
    → p.bytes ≡ none
    → All (IsElsewhere i) y.threads
    → IsGood y
    → IsGood
        (record { store = reserve y.store p.length; threads = reserving i p.length ∷ y.threads })
reserved-IsGood y i p e r o v =
    let t = reserve-Reserved y.store p.length v.good.inv in
    let k = Spares-Keeps y.store (reserve y.store p.length) v.good.inv.sound t.spares t.same_tick in
    let blank : IsBlank y.store i p.length = record {
      piece = p;
      at = e;
      empty = r;
      sized = refl;
    } in
    record {
      good = t.good;
      relies = (
        k.blanks i p.length blank,
        All-imp (Relies y.store) (Relies (reserve y.store p.length)) y.threads
            (Relies-later y.store (reserve y.store p.length) k) v.relies,
      );
      apart = (o, v.apart);
    }

-- A buffer is installed at `i`, which no other thread has reserved for.
Relies-IsElsewhere :
    (s : MemStorage) (i : ℕ) (q : MemPiece) (u : Thread)
    → Relies s u
    → IsElsewhere i u
    → Relies (put s i q) u
Relies-IsElsewhere s i q (reserving j n) r o =
    put-IsBlank s s.used s.tick i q j n (λ same. ground (arith, o, same)) r
Relies-IsElsewhere s i q (copied j) r o = tt
Relies-IsElsewhere s i q (loaded j v) r o = tt
Relies-IsElsewhere s i q (behind j) r o = tt
Relies-IsElsewhere s i q (ticked j v) r o = r

pub installed-IsGood :
    (y : System) (pre post : List Thread) (i n : ℕ) (p : MemPiece) (buf b : List ℕ) (off : ℕ)
    → y.threads ≡ pre ++ reserving i n ∷ post
    → get_elem? y.store.pieces i ≡ some p
    → leb p.length off ≡ false
    → length buf ≡ p.length
    → IsGood y
    → IsGood (record { store = (store_at (y.store, buf) i p off b).0; threads = pre ++ post })
unfolding store_at
installed-IsGood y pre post i n p buf b off e g l k v =
    let c = split y pre post (reserving i n) e v in
    let is_p : c.mine.piece ≡ p = some-injective c.mine.piece p (sym c.mine.at ∙ g) in
    let empty : p.bytes ≡ none = subst (λ u. u.bytes ≡ none) is_p c.mine.empty in
    let sized : n ≡ p.length = sym c.mine.sized ∙ ap (λ u. u.length) is_p in
    record {
      good =
          install-Good y.store i p buf off b g empty k (ground arith)
            (subst (λ m. Good (m + weigh reserved_bytes (pre ++ post)) y.store) sized c.good);
      relies =
          All-imp_both (Relies y.store) (IsElsewhere i)
            (Relies (put y.store i (record p { bytes = some (copy_at buf off b) }))) (pre ++ post)
            (Relies-IsElsewhere y.store i (record p { bytes = some (copy_at buf off b) })) c.others
            (Apart-IsElsewhere pre post i n (subst Apart e v.apart));
      apart = c.apart;
    }
