-- ===== src/MemStorage/Model.antt =====
-- internal/engine/memstorage.go. All pieces of all torrents stand in one list, a piece of
-- `memTorrent.piece` being blank until it is first written, and are named by their position in it.
-- `lruHeap` is a min-heap on `key`; keys are ticks of one clock, each taken once, so the least one
-- is unique, and the heap is modelled by the pieces whose `in_lru` is set (`lruIdx >= 0`), with `top`
-- as their least key. A buffer from the pool holds any bytes: `buf` is an argument.
use stremio_server_go.Common.{
  ℕ, zero, suc, ◌+◌, ◌-◌, Bool, true, false, ◌&&◌, List, [], ◌∷◌, ◌++◌, Option, none, some, ltb,
  leb, ◌==◌, if◌then◌else◌, length, get_elem?, set, take, drop, min,
}

pub record MemPiece : Type 0 where
  pub torrent : ℕ
  pub length : ℕ
  pub bytes : Option (List ℕ)
  pub complete : Bool
  pub last_used : ℕ
  pub key : ℕ
  pub in_lru : Bool

pub record MemStorage : Type 0 where
  pub capacity : ℕ
  pub used : ℕ
  pub tick : ℕ
  pub pieces : List MemPiece

abbrev pub is_some {ℓ} : {A : Type ℓ} → Option A → Bool
is_some none = false
is_some (some a) = true

-- Replace the piece at `i`.
abbrev pub put : MemStorage → ℕ → MemPiece → MemStorage
put s i p = record s { pieces = set s.pieces i p }

-- `top`, given the top of the pieces after `p`.
unfoldable pub older : MemPiece → Option (ℕ × MemPiece) → Option (ℕ × MemPiece)
older p none = if p.in_lru then some (0, p) else none
older p (some (i, q)) = if p.in_lru && leb p.key q.key then some (0, p) else some (suc i, q)

-- The piece of the heap with the least key.
unfoldable pub top : List MemPiece → Option (ℕ × MemPiece)
top [] = none
top (p ∷ ps) = older p (top ps)

-- `heap.Pop` of the piece at `i`.
unfoldable pub take_out : MemStorage → ℕ → MemPiece → MemStorage × Option (ℕ × MemPiece)
take_out s i p = (put s i (record p { in_lru = false }), some (i, record p { in_lru = false }))

-- `popOldestLocked`, whose loop refreshes a stale key in each round.
unfoldable pub pop_oldest : ℕ → MemStorage → MemStorage × Option (ℕ × MemPiece)
pop_oldest zero s = (s, none)
pop_oldest (suc fuel) s = elim (top s.pieces) [
  | none ↦ (s, none)
  | some (i, p) ↦
      let again = pop_oldest fuel (put s i (record p { key = p.last_used })) in
      if ltb p.key p.last_used then again else take_out s i p
]

-- Each round makes one more key current.
unfoldable pub pop_oldest_locked : MemStorage → MemStorage × Option (ℕ × MemPiece)
pop_oldest_locked s = pop_oldest (suc (length s.pieces)) s

unfoldable pub free_locked : MemStorage → ℕ → MemPiece → MemStorage
free_locked s i p =
    put (record s { used = if is_some p.bytes then s.used - p.length else s.used }) i
      (record p { bytes = none; complete = false })

unfoldable pub drop_locked : MemStorage → ℕ → MemPiece → MemStorage
unfolding free_locked
drop_locked s i p = free_locked s i (record p { in_lru = false })

-- The loop of `evictLocked`.
unfoldable pub evict_loop : ℕ → MemStorage → ℕ → MemStorage
evict_loop zero s need = s
evict_loop (suc fuel) s need =
    let (t, victim) = pop_oldest_locked s in
    let freed : MemStorage = elim victim [
      | none ↦ t
      | some (i, p) ↦ evict_loop fuel (free_locked t i p) need
    ] in
    if ltb s.capacity (s.used + need) then freed else s

-- Each round but the last empties one slot of the heap.
unfoldable pub evict_unparked : MemStorage → ℕ → MemStorage
evict_unparked s need = evict_loop (suc (length s.pieces)) s need

-- `keep` is out of the heap while victims are chosen.
unfoldable pub unpark : MemStorage → ℕ → MemStorage
unpark s k = elim (get_elem? s.pieces k) [
  | none ↦ s
  | some p ↦ put s k (record p { in_lru = true })
]

unfoldable pub evict_locked : MemStorage → ℕ → Option (ℕ × MemPiece) → MemStorage
evict_locked s need none = evict_unparked s need
evict_locked s need (some (k, p)) =
    if leb (s.used + need) s.capacity
    then s
    else if p.in_lru
    then unpark (evict_unparked (put s k (record p { in_lru = false })) need) k
    else evict_unparked s need

unfoldable pub reserve : MemStorage → ℕ → MemStorage
reserve s need = let t = evict_locked s need none in record t { used = t.used + need }

-- `stamp` with no other stamp between its load, its add and its store; `System` has them as steps.
unfoldable pub stamp : MemStorage → ℕ → MemPiece → MemStorage
stamp s i p =
    if p.last_used == s.tick
    then s
    else put (record s { tick = s.tick + 1 }) i (record p { last_used = s.tick + 1 })

pub data Err : Type 0 where
  negative_offset eof piece_evicted : Err

-- `lockResident` with no other call between making room and installing the pooled buffer; `System` has
-- the two as steps.
unfoldable pub lock_resident : MemStorage → ℕ → MemPiece → List ℕ → MemStorage × List ℕ
lock_resident s i p buf = elim p.bytes [ some held ↦ (s, held) | none ↦ (reserve s p.length, buf) ]

-- `copy(dst[off:], b)`
unfoldable pub copy_at : List ℕ → ℕ → List ℕ → List ℕ
copy_at dst off b =
    let n = min (length dst - off) (length b) in take off dst ++ (take n b ++ drop (off + n) dst)

abbrev pub Outcome : Type 0
Outcome = MemStorage × ℕ × Option Err

-- The rest of `WriteAt` once the piece is resident with the given buffer.
unfoldable pub store_at : MemStorage × List ℕ → ℕ → MemPiece → ℕ → List ℕ → Outcome
store_at (s, dst) i p off b = (
  put s i (record p { bytes = some (copy_at dst off b) }),
  min (length dst - off) (length b),
  none,
)

-- Offsets below 0 are refused at once; `off` is not negative here.
unfoldable pub write_at : MemStorage → ℕ → MemPiece → List ℕ → ℕ → List ℕ → Outcome
write_at s i p buf off b =
    if leb p.length off then (s, 0, some eof) else store_at (lock_resident s i p buf) i p off b

-- The bytes read, and the error; `n` is the length of the destination.
unfoldable pub read_at : MemStorage → ℕ → MemPiece → ℕ → ℕ → MemStorage × List ℕ × Option Err
read_at s i p n off = elim p.bytes [
  | none ↦ (s, [], some piece_evicted)
  | some held ↦
      if ltb off p.length
      then (let out = take n (drop off (take p.length held)) in
          (stamp s i p, out, if ltb (length out) n then some eof else none))
      else (s, [], some eof)
]

unfoldable pub mark_complete : MemStorage → ℕ → MemPiece → MemStorage × Option Err
mark_complete s i p =
    let now = s.tick + 1 in
    let q = record p { complete = true; last_used = now; key = now; in_lru = true } in
    if is_some p.bytes
    then (evict_locked (put (record s { tick = now }) i q) 0 (some (i, q)), none)
    else (s, some piece_evicted)

unfoldable pub mark_not_complete : MemStorage → ℕ → MemPiece → MemStorage
mark_not_complete s i p = put s i (record p { complete = false; in_lru = false })

-- `Completion.Complete`; `Completion.Ok` is always true.
unfoldable pub completion : MemPiece → Bool
completion p = p.complete && is_some p.bytes

-- One round of `memTorrent.close`.
unfoldable pub close_at : MemStorage → ℕ → ℕ → MemStorage
close_at s torrent i = elim (get_elem? s.pieces i) [
  | none ↦ s
  | some p ↦ if p.torrent == torrent then drop_locked s i p else s
]

-- `memTorrent.close`, over the pieces from `i` on with `k` left.
unfoldable pub close_from : MemStorage → ℕ → ℕ → ℕ → MemStorage
close_from s torrent i zero = s
close_from s torrent i (suc k) = close_from (close_at s torrent i) torrent (i + 1) k

unfoldable pub close : MemStorage → ℕ → MemStorage
close s torrent = close_from s torrent 0 (length s.pieces)

unfoldable pub new_mem_storage : ℕ → MemStorage
new_mem_storage capacity = record { capacity = capacity; used = 0; tick = 0; pieces = [] }

-- `memTorrent.piece`, for each piece of a torrent.
unfoldable pub blank : ℕ → List ℕ → List MemPiece
blank torrent [] = []
blank torrent (n ∷ ns) =
    record {
      torrent = torrent;
      length = n;
      bytes = none;
      complete = false;
      last_used = 0;
      key = 0;
      in_lru = false;
    }
    ∷ blank torrent ns

-- `OpenTorrent`, with the lengths of the torrent's pieces.
unfoldable pub open_torrent : MemStorage → ℕ → List ℕ → MemStorage
open_torrent s torrent lengths = record s { pieces = s.pieces ++ blank torrent lengths }
