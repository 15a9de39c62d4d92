-- ===== src/MemStorage/Interleaving.antt =====
-- internal/engine/memstorage.go: what holds in every interleaving of its callers.
use stremio_server_go.Common.{
  ℕ, ◌+◌, ◌≤◌, ◌≡◌, refl, false, List, ◌∷◌, ◌++◌, some, subst, leb, get_elem?, arith, inl,
}
use stremio_server_go.Common.Weigh.{weigh, All-imp}
use stremio_server_go.MemStorage.Model.{
  MemPiece, MemStorage, store_at, copy_at, mark_not_complete, put, new_mem_storage,
}
use stremio_server_go.MemStorage.Writes.{rewrite-Good}
use stremio_server_go.MemStorage.Torrents.{Good, unmark-Good, close-Good, open-Good}
use stremio_server_go.MemStorage.Blank.{
  Keeps, Keeps-refl, put-Keeps, open_torrent-Keeps, close-Keeps,
}
use stremio_server_go.MemStorage.System.{
  Thread, copied, loaded, behind, ticked, System, Step, Reach, opened, overwrote, reserved,
  installed, copies, loads, finds_newest, finds_older, ticks, stamps, completed, uncompleted,
  closed, here, next, start,
}
use stremio_server_go.MemStorage.Sections.{
  tick-Good, stamp-Good, mark_complete-Good, reserved-IsGood, installed-IsGood,
}
use stremio_server_go.MemStorage.Threads.{
  reserved_bytes, Relies, Apart, IsGood, Relies-later, store-IsGood, split,
}

-- A step of `ReadAt`: the store may change, and the thread goes on as another, or ends.
moved-IsGood :
    (y : System) (pre post : List Thread) (t u : Thread) (s : MemStorage)
    → y.threads ≡ pre ++ t ∷ post
    → reserved_bytes t ≡ 0
    → reserved_bytes u ≡ 0
    → Relies s u
    → (Apart (pre ++ post) → Apart (u ∷ (pre ++ post)))
    → Keeps y.store s
    → ((held : ℕ) → Good held y.store → Good held s)
    → IsGood y
    → IsGood (record { store = s; threads = u ∷ (pre ++ post) })
moved-IsGood y pre post t u s e a b r f k g v =
    let c = split y pre post t e v in
    let same : reserved_bytes t + weigh reserved_bytes (pre ++ post)
        ≡ weigh reserved_bytes (u ∷ (pre ++ post)) =
      omega (arith, a, b) in
    record {
      good = g _ (subst (λ n. Good n y.store) same c.good);
      relies = (
        r,
        All-imp (Relies y.store) (Relies s) (pre ++ post) (Relies-later y.store s k) c.others,
      );
      apart = f c.apart;
    }

ended-IsGood :
    (y : System) (pre post : List Thread) (t : Thread) (s : MemStorage)
    → y.threads ≡ pre ++ t ∷ post
    → reserved_bytes t ≡ 0
    → Keeps y.store s
    → ((held : ℕ) → Good held y.store → Good held s)
    → IsGood y
    → IsGood (record { store = s; threads = pre ++ post })
ended-IsGood y pre post t s e a k g v =
    let c = split y pre post t e v in
    let same : reserved_bytes t + weigh reserved_bytes (pre ++ post)
        ≡ weigh reserved_bytes (pre ++ post) =
      omega (arith, a) in
    record {
      good = g _ (subst (λ n. Good n y.store) same c.good);
      relies =
          All-imp (Relies y.store) (Relies s) (pre ++ post) (Relies-later y.store s k) c.others;
      apart = c.apart;
    }

overwrote-IsGood :
    (y : System) (i : ℕ) (p : MemPiece) (dst b : List ℕ) (off : ℕ)
    → get_elem? y.store.pieces i ≡ some p
    → leb p.length off ≡ false
    → p.bytes ≡ some dst
    → IsGood y
    → IsGood (record y { store = (store_at (y.store, dst) i p off b).0 })
unfolding store_at
overwrote-IsGood y i p dst b off e l r v =
    store-IsGood y (store_at (y.store, dst) i p off b).0
      (put-Keeps y.store y.store.used y.store.tick i p
        (record p { bytes = some (copy_at dst off b) }) e (omega arith)
        (λ n. absurd (ground (arith, n, r))))
      (rewrite-Good y.store i p dst off b e r (ground arith) v.good) v

pub Step-IsGood : (y z : System) → Step y z → IsGood y → IsGood z
unfolding mark_not_complete
Step-IsGood y z (opened torrent lengths) v =
    store-IsGood y _ (open_torrent-Keeps y.store torrent lengths)
      (open-Good y.store torrent lengths v.good) v
Step-IsGood y z (overwrote i p dst b off e l r) v = overwrote-IsGood y i p dst b off e l r v
Step-IsGood y z (reserved i p e r o) v = reserved-IsGood y i p e r o v
Step-IsGood y z (installed pre post i n p buf b off e g l k) v =
    installed-IsGood y pre post i n p buf b off e g l k v
Step-IsGood y z (copies i p d e r) v =
    let same : weigh reserved_bytes y.threads ≡ weigh reserved_bytes (copied i ∷ y.threads) =
      omega arith in
    record {
      good = subst (λ n. Good n y.store) same v.good;
      relies = (tt, v.relies);
      apart = v.apart;
    }
Step-IsGood y z (loads pre post i p e g) v =
    moved-IsGood y pre post (copied i) (loaded i p.last_used) y.store e refl refl tt (λ a. a)
      (Keeps-refl y.store) (λ h g. g) v
Step-IsGood y z (finds_newest pre post i w e g) v =
    ended-IsGood y pre post (loaded i w) y.store e refl (Keeps-refl y.store) (λ h g. g) v
Step-IsGood y z (finds_older pre post i w e g) v =
    moved-IsGood y pre post (loaded i w) (behind i) y.store e refl refl tt (λ a. a)
      (Keeps-refl y.store) (λ h g. g) v
Step-IsGood y z (ticks pre post i e) v =
    moved-IsGood y pre post (behind i) (ticked i (y.store.tick + 1))
      (record y.store { tick = y.store.tick + 1 }) e refl refl (omega arith) (λ a. a)
      (record {
        blanks = λ j n b. record { piece = b.piece; at = b.at; empty = b.empty; sized = b.sized };
        later = omega arith;
      })
      (λ h g. tick-Good y.store g) v
Step-IsGood y z (stamps pre post i w p e g) v =
    let due : w ≤ y.store.tick = (split y pre post (ticked i w) e v).mine in
    ended-IsGood y pre post (ticked i w) (put y.store i (record p { last_used = w })) e refl
      (put-Keeps y.store y.store.used y.store.tick i p (record p { last_used = w }) g (omega arith)
        (λ r. (r, refl)))
      (λ h k. stamp-Good y.store i w p g due k) v
Step-IsGood y z (completed i p e) v =
    let (g, k) = mark_complete-Good y.store i p e v.good in store-IsGood y _ k g v
Step-IsGood y z (uncompleted i p e) v =
    store-IsGood y (mark_not_complete y.store i p)
      (put-Keeps y.store y.store.used y.store.tick i p
        (record p { complete = false; in_lru = false }) e (omega arith) (λ r. (r, refl)))
      (unmark-Good y.store i p e v.good) v
Step-IsGood y z (closed torrent) v =
    store-IsGood y _ (close-Keeps y.store torrent) (close-Good y.store torrent v.good) v

-- Whatever critical sections of its callers ran on a new store, and in whatever order: the bytes that
-- the budget has in use are those of the resident pieces and those reserved for the first writes that
-- have yet to install their buffer, of which no two are for the same piece, and none for a resident
-- one; a piece that is complete or in the heap is resident, at its full length; no heap key, last use or
-- stamp still to be stored is past the clock; and the bytes in use pass the capacity only while at most
-- one piece can be evicted.
pub Reach-start-IsGood : (capacity : ℕ) {y : System} → Reach (start capacity) y → IsGood y
unfolding new_mem_storage
Reach-start-IsGood capacity here = record {
  good = record { inv = record { accounts = refl; sound = tt }; snug = inl (omega arith) };
  relies = tt;
  apart = tt;
}
Reach-start-IsGood capacity (next {z = z} {u = u} r h) =
    Step-IsGood z u h (Reach-start-IsGood capacity r)
