-- ===== src/MemStorage/Threads.antt =====
-- internal/engine/memstorage.go: the store between any two critical sections of its callers.
use stremio_server_go.Common.{ℕ, ◌+◌, ◌≤◌, ◌≡◌, ap, List, [], ◌∷◌, ◌++◌, subst, arith, ◌∙◌}
use stremio_server_go.Common.Weigh.{weigh, weigh-append, All, All-imp, All-middle}
use stremio_server_go.MemStorage.Model.{MemStorage}
use stremio_server_go.MemStorage.Torrents.{Good}
use stremio_server_go.MemStorage.Blank.{IsBlank, Keeps}
use stremio_server_go.MemStorage.System.{
  Thread, reserving, copied, loaded, behind, ticked, System, IsElsewhere,
}

abbrev pub reserved_bytes : Thread → ℕ
reserved_bytes (reserving i n) = n
reserved_bytes (copied i) = 0
reserved_bytes (loaded i v) = 0
reserved_bytes (behind i) = 0
reserved_bytes (ticked i v) = 0

-- What a thread relies on.
abbrev pub Relies : MemStorage → Thread → Type 0
Relies s (reserving i n) = IsBlank s i n
Relies s (copied i) = Unit {0}
Relies s (loaded i v) = Unit {0}
Relies s (behind i) = Unit {0}
Relies s (ticked i v) = v ≤ s.tick

-- No two threads have reserved for the same piece.
abbrev pub Apart : List Thread → Type 0
Apart [] = Unit {0}
Apart (reserving i n ∷ ts) = All (IsElsewhere i) ts × Apart ts
Apart (copied i ∷ ts) = Apart ts
Apart (loaded i v ∷ ts) = Apart ts
Apart (behind i ∷ ts) = Apart ts
Apart (ticked i v ∷ ts) = Apart ts

pub record IsGood (y : System) : Type 0 where
  pub good : Good (weigh reserved_bytes y.threads) y.store
  pub relies : All (Relies y.store) y.threads
  pub apart : Apart y.threads

pub Relies-later : (s t : MemStorage) → Keeps s t → (u : Thread) → Relies s u → Relies t u
Relies-later s t k (reserving i n) r = k.blanks i n r
Relies-later s t k (copied i) r = tt
Relies-later s t k (loaded i v) r = tt
Relies-later s t k (behind i) r = tt
Relies-later s t k (ticked i v) r = omega (arith, k.later)

Apart-middle : (pre post : List Thread) (t : Thread) → Apart (pre ++ t ∷ post) → Apart (pre ++ post)
Apart-middle [] post (reserving i n) h = h.1
Apart-middle [] post (copied i) h = h
Apart-middle [] post (loaded i v) h = h
Apart-middle [] post (behind i) h = h
Apart-middle [] post (ticked i v) h = h
Apart-middle (reserving j m ∷ pre) post t h =
    ((All-middle (IsElsewhere j) pre post t h.0).1, Apart-middle pre post t h.1)
Apart-middle (copied j ∷ pre) post t h = Apart-middle pre post t h
Apart-middle (loaded j v ∷ pre) post t h = Apart-middle pre post t h
Apart-middle (behind j ∷ pre) post t h = Apart-middle pre post t h
Apart-middle (ticked j v ∷ pre) post t h = Apart-middle pre post t h

-- A thread that has reserved for a piece is the only one.
pub Apart-IsElsewhere :
    (pre post : List Thread) (i n : ℕ)
    → Apart (pre ++ reserving i n ∷ post)
    → All (IsElsewhere i) (pre ++ post)
Apart-IsElsewhere [] post i n h = h.0
Apart-IsElsewhere (reserving j m ∷ pre) post i n h =
    let other = (All-middle (IsElsewhere j) pre post (reserving i n) h.0).0 in
    (ground (arith, other), Apart-IsElsewhere pre post i n h.1)
Apart-IsElsewhere (copied j ∷ pre) post i n h = (tt, Apart-IsElsewhere pre post i n h)
Apart-IsElsewhere (loaded j v ∷ pre) post i n h = (tt, Apart-IsElsewhere pre post i n h)
Apart-IsElsewhere (behind j ∷ pre) post i n h = (tt, Apart-IsElsewhere pre post i n h)
Apart-IsElsewhere (ticked j v ∷ pre) post i n h = (tt, Apart-IsElsewhere pre post i n h)

weigh-middle :
    (pre post : List Thread) (t : Thread)
    → weigh reserved_bytes (pre ++ t ∷ post) ≡ reserved_bytes t + weigh reserved_bytes (pre ++ post)
weigh-middle pre post t =
    omega (arith, weigh-append reserved_bytes pre (t ∷ post), weigh-append reserved_bytes pre post)

-- A step that only changes the store.
pub store-IsGood :
    (y : System) (t : MemStorage)
    → Keeps y.store t
    → Good (weigh reserved_bytes y.threads) t
    → IsGood y
    → IsGood (record y { store = t })
store-IsGood y t k g v = record {
  good = g;
  relies = All-imp (Relies y.store) (Relies t) y.threads (Relies-later y.store t k) v.relies;
  apart = v.apart;
}

-- The thread `t` is between two steps, and the others.
pub record Split (y : System) (t : Thread) (rest : List Thread) : Type 0 where
  pub good : Good (reserved_bytes t + weigh reserved_bytes rest) y.store
  pub mine : Relies y.store t
  pub others : All (Relies y.store) rest
  pub apart : Apart rest

pub split :
    (y : System) (pre post : List Thread) (t : Thread)
    → y.threads ≡ pre ++ t ∷ post
    → IsGood y
    → Split y t (pre ++ post)
split y pre post t e v =
    let (m, o) = All-middle (Relies y.store) pre post t (subst (All (Relies y.store)) e v.relies) in
    record {
      good =
          subst (λ n. Good n y.store) (ap (weigh reserved_bytes) e ∙ weigh-middle pre post t)
            v.good;
      mine = m;
      others = o;
      apart = Apart-middle pre post t (subst Apart e v.apart);
    }
