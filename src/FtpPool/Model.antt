-- ===== src/FtpPool/Model.antt =====
-- The pool of internal/ftpstream/pool.go. A key is a number, equal for interchangeable connections; a
-- session is its identity, its key and the time since when it is idle. The map `ftpPool` is the list
-- of its entries, and a `range` over it goes in their order, which Go leaves open. Times are in
-- seconds, and `now` is what `time.Now` returned.
use stremio_server_go.Common.{
  ℕ, zero, suc, ◌+◌, ◌-◌, Bool, List, [], ◌∷◌, ◌++◌, Option, none, some, ltb, leb, ◌==◌,
  if◌then◌else◌, length,
}

abbrev pub ftp_pool_ttl : ℕ
ftp_pool_ttl = 30

abbrev pub ftp_pool_max_idle : ℕ
ftp_pool_max_idle = 8

abbrev pub ftp_pool_max_per_key : ℕ
ftp_pool_max_per_key = 2

pub record FtpSession : Type 0 where
  pub id : ℕ
  pub key : ℕ
  pub idle_since : ℕ

pub record Bucket : Type 0 where
  pub name : ℕ
  pub idle : List FtpSession

-- `ftpPool` and `ftpPoolIdle`.
pub record FtpPool : Type 0 where
  pub buckets : List Bucket
  pub pool_idle : ℕ

-- `ftpPool[key]`, nil when absent.
unfoldable pub bucket : ℕ → List Bucket → List FtpSession
bucket k [] = []
bucket k (b ∷ bs) = if b.name == k then b.idle else bucket k bs

-- `ftpPool[key] = idle`, and `delete(ftpPool, key)` when `idle` is empty.
unfoldable pub set_bucket : ℕ → List FtpSession → List Bucket → List Bucket
set_bucket k [] [] = []
set_bucket k (s ∷ l) [] = record { name = k; idle = s ∷ l } ∷ []
set_bucket k [] (b ∷ bs) = if b.name == k then bs else b ∷ set_bucket k [] bs
set_bucket k (s ∷ l) (b ∷ bs) =
    if b.name == k then record { name = k; idle = s ∷ l } ∷ bs else b ∷ set_bucket k (s ∷ l) bs

-- `now.Sub(s.idleSince) >= ftpPoolTTL`
unfoldable pub is_expired : ℕ → FtpSession → Bool
is_expired now s = leb ftp_pool_ttl (now - s.idle_since)

pub record Picked : Type 0 where
  pub left : List FtpSession
  pub got : Option FtpSession
  pub expired : List FtpSession

-- The loop at `s`, once it has gone through what follows.
unfoldable pub pick_next : ℕ → FtpSession → Picked → Picked
pick_next now s p = elim p.got [
  | some g ↦ record p { left = s ∷ p.left }
  | none ↦
      if is_expired now s
      then record p { expired = p.expired ++ s ∷ [] }
      else record p { got = some s }
]

-- The loop of `ftpPoolGet`, which goes from the end of the slice to its start until it finds a session
-- that has not expired.
unfoldable pub pick : ℕ → List FtpSession → Picked
pick now [] = record { left = []; got = none; expired = [] }
pick now (s ∷ idle) = pick_next now s (pick now idle)

unfoldable pub ftp_pool_get : FtpPool → ℕ → ℕ → FtpPool × Picked
ftp_pool_get p now key =
    let r = pick now (bucket key p.buckets) in
    (
      record {
        buckets = set_bucket key r.left p.buckets;
        pool_idle = p.pool_idle - (length (bucket key p.buckets) - length r.left);
      },
      r,
    )

-- The first session of a slice is quit.
unfoldable pub evict_first : FtpPool → ℕ → List FtpSession → FtpPool × List FtpSession
evict_first p k [] = (p, [])
evict_first p k (s ∷ idle) =
    (record { buckets = set_bucket k idle p.buckets; pool_idle = p.pool_idle - 1 }, s ∷ [])

unfoldable pub older : Option (ℕ × ℕ) → ℕ → List FtpSession → Option (ℕ × ℕ)
older found k [] = found
older none k (s ∷ idle) = some (k, s.idle_since)
older (some (j, at)) k (s ∷ idle) =
    if ltb s.idle_since at then some (k, s.idle_since) else some (j, at)

-- The loop that looks for the oldest session of the pool; the result names its key and its time.
unfoldable pub oldest : Option (ℕ × ℕ) → List Bucket → Option (ℕ × ℕ)
oldest found [] = found
oldest found (b ∷ bs) = oldest (older found b.name b.idle) bs

-- `for ftpPoolIdle >= ftpPoolMaxIdle`; each round but the last takes a session out.
unfoldable pub make_room : ℕ → FtpPool → FtpPool × List FtpSession
make_room zero p = (p, [])
make_room (suc fuel) p = elim (oldest none p.buckets) [
  | none ↦ (p, [])
  | some (k, at) ↦
      let (q, evicted) = evict_first p k (bucket k p.buckets) in
      let (r, more) = make_room fuel q in
      if leb ftp_pool_max_idle p.pool_idle then (r, evicted ++ more) else (p, [])
]

-- A session of the same key is quit where there are too many.
unfoldable pub trim_key : FtpPool → ℕ → FtpPool × List FtpSession
trim_key p k =
    if leb ftp_pool_max_per_key (length (bucket k p.buckets))
    then evict_first p k (bucket k p.buckets)
    else (p, [])

-- The session is parked at the end of its slice.
unfoldable pub park : FtpPool → FtpSession → FtpPool
park p s = record {
  buckets = set_bucket s.key (bucket s.key p.buckets ++ s ∷ []) p.buckets;
  pool_idle = p.pool_idle + 1;
}

unfoldable pub ftp_pool_put : FtpPool → ℕ → FtpSession → FtpPool × List FtpSession
ftp_pool_put p now s =
    let (q, first) = trim_key p s.key in
    let (r, more) = make_room (suc q.pool_idle) q in
    (park r (record s { idle_since = now }), first ++ more)

-- The sessions of a slice that stay, and those that have expired.
unfoldable pub split_expired : ℕ → List FtpSession → List FtpSession × List FtpSession
split_expired now [] = ([], [])
split_expired now (s ∷ idle) =
    let (keep, expired) = split_expired now idle in
    if is_expired now s then (keep, s ∷ expired) else (s ∷ keep, expired)

unfoldable pub keep_bucket : Bucket → List FtpSession → List Bucket → List Bucket
keep_bucket b [] rest = rest
keep_bucket b (s ∷ l) rest = record b { idle = s ∷ l } ∷ rest

-- `ftpPoolEvict`, whose loop deletes the entries that become empty.
unfoldable pub evict_buckets : ℕ → List Bucket → List Bucket × List FtpSession
evict_buckets now [] = ([], [])
evict_buckets now (b ∷ bs) =
    let (keep, expired) = split_expired now b.idle in
    let (rest, more) = evict_buckets now bs in (keep_bucket b keep rest, expired ++ more)

unfoldable pub ftp_pool_evict : FtpPool → ℕ → FtpPool × List FtpSession
ftp_pool_evict p now =
    let (keep, expired) = evict_buckets now p.buckets in
    (record { buckets = keep; pool_idle = p.pool_idle - length expired }, expired)
