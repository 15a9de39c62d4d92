-- ===== src/MemStorage/Marks.antt =====
-- `MarkComplete` of internal/engine/memstorage.go.
use stremio_server_go.Common.{
  ℕ, ◌+◌, ◌≤◌, ◌≡◌, refl, sym, ap, true, false, List, none, subst, some, leb, get_elem?, Bool-cases,
  Option-cases, arith, ◌⊎◌, inl, inr, get_elem?-set_self,
}
use stremio_server_go.Common.Weigh.{All, All-get, lt-length_of_get, weigh-set}
use stremio_server_go.MemStorage.Model.{
  is_some, MemPiece, MemStorage, evict_unparked, evict_locked, unpark, mark_complete, put,
  piece_evicted,
}
use stremio_server_go.MemStorage.Evict.{Out}
use stremio_server_go.MemStorage.Popping.{resident, listed, IsSound, Spares, Spares-set}
use stremio_server_go.MemStorage.Accounts.{Snug, none_listed, Inv, Evicted, evict_unparked-Evicted}
use stremio_server_go.MemStorage.Ops.{put-Inv}

-- The piece that `MarkComplete` puts in the heap.
unfoldable pub marked : ℕ → MemPiece → MemPiece
marked now p = record p { complete = true; last_used = now; key = now; in_lru = true }

pub marked-Inv :
    {held : ℕ} (s : MemStorage) (i : ℕ) (p : MemPiece)
    → get_elem? s.pieces i ≡ some p
    → is_some p.bytes ≡ true
    → Inv held s
    → Inv held (put (record s { tick = s.tick + 1 }) i (marked (s.tick + 1) p))
unfolding marked resident
marked-Inv s i p e r v =
    put-Inv s s.used (s.tick + 1) i p (marked (s.tick + 1) p) e refl (omega arith)
      (λ w. record {
        verified = λ _. refl;
        available = λ _. r;
        bounded = omega arith;
        dated = omega arith;
        sized = w.sized;
      })
      v

-- What eviction of `s` that spares the piece `q` at `k` does.
pub record Kept (held : ℕ) (s t : MemStorage) (k : ℕ) (q : MemPiece) : Type 0 where
  pub inv : Inv held t
  pub stays : get_elem? t.pieces k ≡ some q
  pub enough : Snug t
  pub spares : Spares s.pieces t.pieces
  pub same_tick : t.tick ≡ s.tick

-- The spared piece is back in the heap.
back-Kept :
    {held : ℕ} (s t : MemStorage) (k : ℕ) (q : MemPiece)
    → get_elem? s.pieces k ≡ some q
    → get_elem? t.pieces k ≡ some (record q { in_lru = false })
    → Inv held s
    → t.tick ≡ s.tick
    → Inv held t
    → (t.used + 0 ≤ t.capacity) ⊎ All Out t.pieces
    → q.in_lru ≡ true
    → Spares s.pieces t.pieces
    → Kept held s (put t k q) k q
unfolding resident listed
back-Kept {held} s t k q e g v n w enough l f = record {
  spares = Spares-set s.pieces t.pieces k q q e l f;
  same_tick = n;
  inv =
      put-Inv t t.used t.tick k (record q { in_lru = false }) q g refl (omega arith)
        (λ _. subst (λ m. IsSound m q) (sym n) (All-get (IsSound s.tick) s.pieces k q e v.sound)) w;
  stays =
      get_elem?-set_self t.pieces k q (lt-length_of_get t.pieces k (record q { in_lru = false }) g);
  enough = elim enough [
    | inl fits ↦ inl (omega arith)
    | inr out ↦ inr (
        ground (
          arith,
          weigh-set listed t.pieces k (record q { in_lru = false }) q g,
          none_listed t.pieces out,
        ))
  ];
}

unpark_lem :
    (t : MemStorage) (k : ℕ) (q : MemPiece)
    → get_elem? t.pieces k ≡ some (record q { in_lru = false })
    → q.in_lru ≡ true
    → unpark t k ≡ put t k q
unfolding unpark
unpark_lem t k q g l = rw (g, unpark) (ap (λ b. put t k (record q { in_lru = b })) (sym l))

parked-Kept :
    {held : ℕ} (s : MemStorage) (k : ℕ) (q : MemPiece)
    → get_elem? s.pieces k ≡ some q
    → q.in_lru ≡ true
    → Inv held s
    → Kept held s (unpark (evict_unparked (put s k (record q { in_lru = false })) 0) k) k q
unfolding resident
parked-Kept {held} s k q e l v =
    let aside : MemPiece = record q { in_lru = false } in
    let parked : MemStorage = put s k aside in
    let v' : Inv held parked =
      put-Inv s s.used s.tick k q aside e refl (omega arith)
        (λ w. record {
          verified = λ c. cc;
          available = w.available;
          bounded = w.bounded;
          dated = w.dated;
          sized = w.sized;
        })
        v in
    let h : Evicted held parked 0 (evict_unparked parked 0) = evict_unparked-Evicted parked 0 v' in
    let g : get_elem? (evict_unparked parked 0).pieces k ≡ some aside =
      h.spares k aside (get_elem?-set_self s.pieces k aside (lt-length_of_get s.pieces k q e))
        refl in
    subst (λ t. Kept held s t k q) (sym (unpark_lem (evict_unparked parked 0) k q g l))
      (back-Kept s (evict_unparked parked 0) k q e g v h.same_tick h.inv h.enough l (λ j u a f.
        h.spares j u (Spares-set s.pieces s.pieces k q aside e l (λ j' u' a' f'. a') j u a f) f))

keep-Kept :
    {held : ℕ} (s : MemStorage) (k : ℕ) (q : MemPiece)
    → get_elem? s.pieces k ≡ some q
    → q.in_lru ≡ true
    → Inv held s
    → Kept held s (evict_locked s 0 (some (k, q))) k q
unfolding evict_locked
keep-Kept {held} s k q e l v = elim (Bool-cases (leb (s.used + 0) s.capacity)) [
  | inl fits ↦
      subst (λ t. Kept held s t k q) (sym (stays fits))
        (record {
          inv = v;
          stays = e;
          enough = inl (ground arith);
          spares = λ j u a f. a;
          same_tick = refl;
        })
  | inr more ↦ subst (λ t. Kept held s t k q) (sym (parks more)) (parked-Kept s k q e l v)
]
  where
    stays : leb (s.used + 0) s.capacity ≡ true → evict_locked s 0 (some (k, q)) ≡ s
    stays h = simp (h)

    parks :
        leb (s.used + 0) s.capacity ≡ false
        → evict_locked s 0 (some (k, q))
          ≡ unpark (evict_unparked (put s k (record q { in_lru = false })) 0) k
    parks h = simp (h, l)

-- A piece that has no bytes is not marked. One that has, is then complete and in the heap; nothing
-- evicts it, and others of the heap are evicted until the budget holds or at most one piece is left in the heap.
pub mark_complete-cases :
    {held : ℕ} (s : MemStorage) (i : ℕ) (p : MemPiece)
    → get_elem? s.pieces i ≡ some p
    → Inv held s
    → ((p.bytes ≡ none) × (mark_complete s i p ≡ (s, some piece_evicted)))
      ⊎ (Kept held
            (put (record s { tick = s.tick + 1 }) i (marked (s.tick + 1) p))
            (mark_complete s i p).0
            i
            (marked (s.tick + 1) p)
          × ((mark_complete s i p).1 ≡ none))
unfolding mark_complete marked resident
mark_complete-cases {held} s i p e v = elim (Option-cases p.bytes) [
  | inl r ↦ inl (r, ground arith)
  | inr (d, r) ↦
      let now : ℕ = s.tick + 1 in
      let later : MemStorage = record s { tick = now } in
      inr (
        subst (λ o. Kept held (put later i (marked now p)) o.0 i (marked now p) × (o.1 ≡ none))
          (sym (marks d r))
          (
            keep-Kept (put later i (marked now p)) i (marked now p)
                (get_elem?-set_self s.pieces i (marked now p) (lt-length_of_get s.pieces i p e))
                refl (marked-Inv s i p e (rw r refl) v),
            refl,
          ))
]
  where
    marks :
        (d : List ℕ)
        → p.bytes ≡ some d
        → mark_complete s i p ≡ (
          evict_locked
              (put (record s { tick = s.tick + 1 }) i (marked (s.tick + 1) p))
              0
              (some (i, marked (s.tick + 1) p)),
          none,
        )
    marks d r = ground arith
