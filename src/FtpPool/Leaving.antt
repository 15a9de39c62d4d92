-- ===== src/FtpPool/Leaving.antt =====
-- What `ftpPoolGet` and `ftpPoolEvict` of internal/ftpstream/pool.go leave in the pool.
use stremio_server_go.Common.{
  ℕ, suc, ◌-◌, ◌≤◌, ◌<◌, ◌≡◌, sym, ap, subst, false, List, [], ◌∷◌, ◌==◌, length, ◌⊎◌, inl, inr,
  arith, Bool-cases, Option-cases,
}
use stremio_server_go.Common.Weigh.{All}
use stremio_server_go.FtpPool.Model.{
  FtpSession, Bucket, FtpPool, bucket, is_expired, Picked, pick, pick_next, ftp_pool_get,
  split_expired, evict_buckets, keep_bucket, ftp_pool_evict,
}
use stremio_server_go.FtpPool.Buckets.{Sane, Fresh, Distinct}
use stremio_server_go.FtpPool.Conserving.{ftp_pool_evict-total}
use stremio_server_go.FtpPool.Bounds.{
  one, SaneSlice, IsValid, set_bucket-Counted, bucket-SaneSlice, bucket-le, length-weigh,
}

pick_next_left :
    (now : ℕ) (s : FtpSession) (p : Picked)
    → ((pick_next now s p).left ≡ p.left) ⊎ ((pick_next now s p).left ≡ s ∷ p.left)
unfolding pick_next
pick_next_left now s p = elim (Option-cases p.got) [
  | inl e ↦ inl (ground arith)
  | inr (g, e) ↦ inr (ground arith)
]

pick_next-All :
    (P : FtpSession → Type 0) (now : ℕ) (s : FtpSession) (p : Picked)
    → P s
    → All P p.left
    → All P (pick_next now s p).left × (length (pick_next now s p).left ≤ suc (length p.left))
pick_next-All P now s p h k = elim (pick_next_left now s p) [
  | inl e ↦ (subst (All P) (sym e) k, omega (arith, ap (λ m. length m) e))
  | inr e ↦ (subst (All P) (sym e) (h, k), omega (arith, ap (λ m. length m) e))
]

-- What stays of a slice is a part of it.
pick-All :
    (P : FtpSession → Type 0) (now : ℕ) (l : List FtpSession)
    → All P l
    → All P (pick now l).left × (length (pick now l).left ≤ length l)
unfolding pick
pick-All P now [] h = (tt, omega arith)
pick-All P now (s ∷ l) h =
    let (a, n) = pick-All P now l h.1 in
    let (b, m) = pick_next-All P now s (pick now l) h.0 a in (b, omega arith)

pub ftp_pool_get-IsValid :
    (p : FtpPool) (now key : ℕ) → IsValid p → IsValid (ftp_pool_get p now key).0
unfolding ftp_pool_get
ftp_pool_get-IsValid p now key v =
    let q : SaneSlice key (bucket key p.buckets) = bucket-SaneSlice p key v.inside in
    let (own, fewer) = pick-All (λ s. s.key ≡ key) now (bucket key p.buckets) q.1 in
    record {
      inside =
          set_bucket-Counted p key
            (p.pool_idle
              - (length (bucket key p.buckets) - length (pick now (bucket key p.buckets)).left))
            (pick now (bucket key p.buckets)).left v.inside (omega (arith, q.0), own)
            (omega (arith, bucket-le p key v.inside));
      capped = omega (arith, v.capped);
    }

split_expired-All :
    (P : FtpSession → Type 0) (now : ℕ) (l : List FtpSession)
    → All P l
    → All P (split_expired now l).0 × (length (split_expired now l).0 ≤ length l)
unfolding split_expired
split_expired-All P now [] h = (tt, omega arith)
split_expired-All P now (s ∷ l) h = elim (Bool-cases (is_expired now s)) [
  | inl e ↦
      rw e ((split_expired-All P now l h.1).0, omega (arith, (split_expired-All P now l h.1).1))
  | inr e ↦
      rw e
        ((h.0, (split_expired-All P now l h.1).0), omega (arith, (split_expired-All P now l h.1).1))
]

keep_bucket-All :
    (P : Bucket → Type 0) (b : Bucket) (l : List FtpSession) (rest : List Bucket)
    → (0 < length l → P (record { name = b.name; idle = l }))
    → All P rest
    → All P (keep_bucket b l rest)
unfolding keep_bucket
keep_bucket-All P b [] rest f h = h
keep_bucket-All P b (s ∷ l) rest f h = (f (omega arith), h)

evict_buckets-All :
    (P : Bucket → Type 0) (now : ℕ) (bs : List Bucket)
    → ((b : Bucket)
        → P b
        → 0 < length (split_expired now b.idle).0
        → P (record { name = b.name; idle = (split_expired now b.idle).0 }))
    → All P bs
    → All P (evict_buckets now bs).0
unfolding evict_buckets
evict_buckets-All P now [] f h = tt
evict_buckets-All P now (b ∷ bs) f h =
    keep_bucket-All P b (split_expired now b.idle).0 (evict_buckets now bs).0 (f b h.0)
      (evict_buckets-All P now bs f h.1)

evict_buckets-Distinct :
    (now : ℕ) (bs : List Bucket) → Distinct bs → Distinct (evict_buckets now bs).0
unfolding evict_buckets keep_bucket
evict_buckets-Distinct now [] h = tt
evict_buckets-Distinct now (b ∷ bs) h =
    kept (split_expired now b.idle).0
      (evict_buckets-All (λ c. (c.name == b.name) ≡ false) now bs (λ c e _. e) h.0)
      (evict_buckets-Distinct now bs h.1)
  where
    kept :
        (l : List FtpSession)
        → Fresh b.name (evict_buckets now bs).0
        → Distinct (evict_buckets now bs).0
        → Distinct (keep_bucket b l (evict_buckets now bs).0)
    kept [] f d = d
    kept (s ∷ l) f d = (f, d)

pub ftp_pool_evict-IsValid : (p : FtpPool) (now : ℕ) → IsValid p → IsValid (ftp_pool_evict p now).0
unfolding ftp_pool_evict
ftp_pool_evict-IsValid p now v = record {
  inside = record {
    counted = omega (
      arith,
      v.inside.counted,
      ftp_pool_evict-total one p now,
      length-weigh (evict_buckets now p.buckets).1,
    );
    sane =
        evict_buckets-All Sane now p.buckets
          (λ b s i. record {
            inhabited = i;
            few =
                omega (arith, s.few, (split_expired-All (λ c. c.key ≡ b.name) now b.idle s.own).1);
            own = (split_expired-All (λ c. c.key ≡ b.name) now b.idle s.own).0;
          })
          v.inside.sane;
    distinct = evict_buckets-Distinct now p.buckets v.inside.distinct;
  };
  capped = omega (arith, v.capped);
}
