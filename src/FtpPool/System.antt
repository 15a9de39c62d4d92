-- ===== src/FtpPool/System.antt =====
-- The pool of internal/ftpstream/pool.go under any sequence of its operations.
use stremio_server_go.Common.{
  ℕ, ◌+◌, ◌≡◌, refl, sym, ap, ◌∙◌, true, false, List, [], ◌∷◌, ◌++◌, none, some, ◌==◌,
  if◌then◌else◌, inl, inr, arith, Bool-cases,
}
use stremio_server_go.Common.Weigh.{weigh, All}
use stremio_server_go.FtpPool.Model.{
  FtpSession, FtpPool, bucket, is_expired, Picked, pick, pick_next, ftp_pool_get, ftp_pool_put,
  ftp_pool_evict,
}
use stremio_server_go.FtpPool.Buckets.{total}
use stremio_server_go.FtpPool.Conserving.{ftp_pool_get-total, ftp_pool_put-total, weigh_some}
use stremio_server_go.FtpPool.Bounds.{IsValid, ftp_pool_put-IsValid}
use stremio_server_go.FtpPool.Leaving.{ftp_pool_get-IsValid, ftp_pool_evict-IsValid}

abbrev pub empty_pool : FtpPool
empty_pool = record { buckets = []; pool_idle = 0 }

pub data Step (p : FtpPool) : FtpPool → Type 0 where
  taken : (now key : ℕ) → Step p (ftp_pool_get p now key).0
  parked : (now : ℕ) (s : FtpSession) → Step p (ftp_pool_put p now s).0
  swept : (now : ℕ) → Step p (ftp_pool_evict p now).0

pub data Reach (p : FtpPool) : FtpPool → Type 0 where
  here : Reach p p
  next : {q r : FtpPool} → Reach p q → Step q r → Reach p r

step-IsValid : (p q : FtpPool) → Step p q → IsValid p → IsValid q
step-IsValid p q (taken now key) v = ftp_pool_get-IsValid p now key v
step-IsValid p q (parked now s) v = ftp_pool_put-IsValid p now s v
step-IsValid p q (swept now) v = ftp_pool_evict-IsValid p now v

-- After any sequence of gets, puts and sweeps: `ftpPoolIdle` is the number of idle sessions and at most
-- `ftpPoolMaxIdle`, each key has between one and `ftpPoolMaxPerKey` of them, all of that key, and no
-- key has two entries.
pub Reach-empty_pool-IsValid : (p : FtpPool) → Reach empty_pool p → IsValid p
Reach-empty_pool-IsValid p here = record {
  inside = record { counted = refl; sane = tt; distinct = tt };
  capped = omega arith;
}
Reach-empty_pool-IsValid p (next {q = q} r s) = step-IsValid q p s (Reach-empty_pool-IsValid q r)

-- How often the session `i` stands in a list.
abbrev pub is_id : ℕ → FtpSession → ℕ
is_id i s = if s.id == i then 1 else 0

-- Every session has one owner: as often as a session was in the pool before a get, it is in the pool,
-- in the hands of the caller or among the discarded ones after it; and as often as it was in the pool
-- or handed in before a put, it is in the pool or among the discarded ones after it.
pub ftp_pool_get-put_conserves :
    (p : FtpPool) (now key i : ℕ) (s : FtpSession)
    → (total (is_id i) p.buckets
        ≡ total (is_id i) (ftp_pool_get p now key).0.buckets
          + weigh_some (is_id i) (ftp_pool_get p now key).1.got
          + weigh (is_id i) (ftp_pool_get p now key).1.expired)
      × (total (is_id i) p.buckets + is_id i s
          ≡ total (is_id i) (ftp_pool_put p now s).0.buckets
            + weigh (is_id i) (ftp_pool_put p now s).1)
ftp_pool_get-put_conserves p now key i s =
    (ftp_pool_get-total (is_id i) p now key, ftp_pool_put-total (is_id i) p now s)

-- What a get finds in the slice of a key.
pub data Finding (now : ℕ) (idle : List FtpSession) (p : Picked) : Type 0 where
  nothing :
      p.got ≡ none → p.left ≡ [] → All (λ s. is_expired now s ≡ true) idle → Finding now idle p
  session :
      (g : FtpSession) (later : List FtpSession)
      → p.got ≡ some g
      → idle ≡ p.left ++ g ∷ later
      → is_expired now g ≡ false
      → All (λ s. is_expired now s ≡ true) later
      → Finding now idle p

pick_next-Finding :
    (now : ℕ) (s : FtpSession) (idle : List FtpSession) (p : Picked)
    → Finding now idle p
    → Finding now (s ∷ idle) (pick_next now s p)
unfolding pick_next
pick_next-Finding now s idle p (nothing g l a) = elim (Bool-cases (is_expired now s)) [
  | inl old ↦ nothing (ground arith) (ground arith) (old, a)
  | inr fresh ↦ session s idle (ground arith) (split (ground arith)) fresh a
]
  where
    split : (pick_next now s p).left ≡ [] → s ∷ idle ≡ (pick_next now s p).left ++ s ∷ idle
    split e = ap (λ v. v ++ s ∷ idle) (sym e)
pick_next-Finding now s idle p (session g later h i f a) =
    session g later (ground arith) (split (ground arith)) f a
  where
    split : (pick_next now s p).left ≡ s ∷ p.left → s ∷ idle ≡ (pick_next now s p).left ++ g ∷ later
    split e = ap (λ v. s ∷ v) i ∙ ap (λ v. v ++ g ∷ later) (sym e)

-- A get returns the session of its key that was parked last, unless that has expired; then the one
-- before, and so on, until one is left that has not expired. It returns none only when all have expired.
pub ftp_pool_get-Finding :
    (p : FtpPool) (now key : ℕ) → Finding now (bucket key p.buckets) (ftp_pool_get p now key).1
unfolding ftp_pool_get pick
ftp_pool_get-Finding p now key = go (bucket key p.buckets)
  where
    go : (l : List FtpSession) → Finding now l (pick now l)
    go [] = nothing refl refl tt
    go (s ∷ l) = pick_next-Finding now s l (pick now l) (go l)
