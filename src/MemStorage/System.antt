-- ===== src/MemStorage/System.antt =====
-- internal/engine/memstorage.go under concurrent callers. A step is one critical section: of the store's
-- mutex, of a piece's, or one atomic load, add or store of `stamp`. A thread is a `WriteAt` or a
-- `ReadAt` between two of its steps; the other operations have no more than one. What a step under the
-- store's mutex reads of `lastUsed` it reads at one moment.
use stremio_server_go.Common.{
  ℕ, ◌+◌, ◌≡◌, true, false, List, [], ◌∷◌, ◌++◌, none, some, ◌==◌, leb, length, get_elem?,
}
use stremio_server_go.Common.Weigh.{All}
use stremio_server_go.MemStorage.Model.{
  MemPiece, MemStorage, reserve, store_at, mark_complete, mark_not_complete, close, open_torrent,
  new_mem_storage, put,
}

-- `reserving`: a first write of the piece at `i` has had its `n` bytes reserved, and holds `allocMu`
-- until its buffer is installed. The others are a read that has copied its bytes, and is in `stamp`:
-- it has yet to load `lastUsed`; has `v` of it to compare with the clock; found another time there; or
-- has `v` of the clock to store.
pub data Thread : Type 0 where
  reserving : (i n : ℕ) → Thread
  copied : (i : ℕ) → Thread
  loaded : (i v : ℕ) → Thread
  behind : (i : ℕ) → Thread
  ticked : (i v : ℕ) → Thread

pub record System : Type 0 where
  pub store : MemStorage
  pub threads : List Thread

-- `allocMu` of the piece at `i` is not held by this thread.
abbrev pub IsElsewhere : ℕ → Thread → Type 0
IsElsewhere i (reserving j n) = (i == j) ≡ false
IsElsewhere i (copied j) = Unit {0}
IsElsewhere i (loaded j v) = Unit {0}
IsElsewhere i (behind j) = Unit {0}
IsElsewhere i (ticked j v) = Unit {0}

pub data Step (y : System) : System → Type 0 where
  opened :
      (torrent : ℕ) (lengths : List ℕ)
      → Step y (record y { store = open_torrent y.store torrent lengths })
  -- `WriteAt` of a resident piece
  overwrote :
      (i : ℕ) (p : MemPiece) (dst b : List ℕ) (off : ℕ)
      → get_elem? y.store.pieces i ≡ some p
      → leb p.length off ≡ false
      → p.bytes ≡ some dst
      → Step y (record y { store = (store_at (y.store, dst) i p off b).0 })
  -- `reserve` of a first `WriteAt`, in `lockResident`: under `allocMu`, so nobody installs a buffer
  -- since the thread saw that there is none
  reserved :
      (i : ℕ) (p : MemPiece)
      → get_elem? y.store.pieces i ≡ some p
      → p.bytes ≡ none
      → All (IsElsewhere i) y.threads
      → Step y
          (record { store = reserve y.store p.length; threads = reserving i p.length ∷ y.threads })
  -- the rest of that `WriteAt`: under the piece's mutex, the buffer is installed and written
  installed :
      (pre post : List Thread) (i n : ℕ) (p : MemPiece) (buf b : List ℕ) (off : ℕ)
      → y.threads ≡ pre ++ reserving i n ∷ post
      → get_elem? y.store.pieces i ≡ some p
      → leb p.length off ≡ false
      → length buf ≡ p.length
      → Step y (record { store = (store_at (y.store, buf) i p off b).0; threads = pre ++ post })
  -- `ReadAt` copies bytes of a resident piece
  copies :
      (i : ℕ) (p : MemPiece) (d : List ℕ)
      → get_elem? y.store.pieces i ≡ some p
      → p.bytes ≡ some d
      → Step y (record y { threads = copied i ∷ y.threads })
  -- `stamp`, an atomic operation at a time
  loads :
      (pre post : List Thread) (i : ℕ) (p : MemPiece)
      → y.threads ≡ pre ++ copied i ∷ post
      → get_elem? y.store.pieces i ≡ some p
      → Step y (record y { threads = loaded i p.last_used ∷ (pre ++ post) })
  finds_newest :
      (pre post : List Thread) (i v : ℕ)
      → y.threads ≡ pre ++ loaded i v ∷ post
      → (v == y.store.tick) ≡ true
      → Step y (record y { threads = pre ++ post })
  finds_older :
      (pre post : List Thread) (i v : ℕ)
      → y.threads ≡ pre ++ loaded i v ∷ post
      → (v == y.store.tick) ≡ false
      → Step y (record y { threads = behind i ∷ (pre ++ post) })
  ticks :
      (pre post : List Thread) (i : ℕ)
      → y.threads ≡ pre ++ behind i ∷ post
      → Step y (record {
        store = record y.store { tick = y.store.tick + 1 };
        threads = ticked i (y.store.tick + 1) ∷ (pre ++ post);
      })
  stamps :
      (pre post : List Thread) (i v : ℕ) (p : MemPiece)
      → y.threads ≡ pre ++ ticked i v ∷ post
      → get_elem? y.store.pieces i ≡ some p
      → Step y
          (record { store = put y.store i (record p { last_used = v }); threads = pre ++ post })
  completed :
      (i : ℕ) (p : MemPiece)
      → get_elem? y.store.pieces i ≡ some p
      → Step y (record y { store = (mark_complete y.store i p).0 })
  uncompleted :
      (i : ℕ) (p : MemPiece)
      → get_elem? y.store.pieces i ≡ some p
      → Step y (record y { store = mark_not_complete y.store i p })
  closed : (torrent : ℕ) → Step y (record y { store = close y.store torrent })

pub data Reach (y : System) : System → Type 0 where
  here : Reach y y
  next : {z u : System} → Reach y z → Step z u → Reach y u

abbrev pub start : ℕ → System
start capacity = record { store = new_mem_storage capacity; threads = [] }
