-- ===== src/FtpPool/Conserving.antt =====
-- No session of internal/ftpstream/pool.go is lost, or in two hands: what each operation does to the
-- sum of any `f` over the sessions.
use stremio_server_go.Common.{
  ℕ, zero, suc, ◌+◌, ◌≡◌, refl, sym, ap, subst, true, false, List, [], ◌∷◌, ◌++◌, Option, none,
  some, leb, length, inl, inr, arith, Bool-cases, Option-cases,
}
use stremio_server_go.Common.Weigh.{weigh, weigh-append}
use stremio_server_go.FtpPool.Model.{
  ftp_pool_max_idle, ftp_pool_max_per_key, FtpSession, Bucket, FtpPool, bucket, Picked, pick,
  pick_next, ftp_pool_get, evict_first, oldest, make_room, trim_key, park, ftp_pool_put,
  split_expired, evict_buckets, keep_bucket, ftp_pool_evict,
}
use stremio_server_go.FtpPool.Buckets.{total, total-set_bucket}

abbrev pub weigh_some : (FtpSession → ℕ) → Option FtpSession → ℕ
weigh_some f none = 0
weigh_some f (some s) = f s

-- The three ways of a round of the loop that makes room.
module _ (fuel : ℕ) (p : FtpPool) where
  pub make_room_empty : oldest none p.buckets ≡ none → make_room (suc fuel) p ≡ (p, [])
  unfolding make_room
  make_room_empty e = ground arith

  pub make_room_fits : leb ftp_pool_max_idle p.pool_idle ≡ false → make_room (suc fuel) p ≡ (p, [])
  unfolding make_room
  make_room_fits e = ground arith

  pub make_room_full :
      (k at : ℕ)
      → oldest none p.buckets ≡ some (k, at)
      → leb ftp_pool_max_idle p.pool_idle ≡ true
      → make_room (suc fuel) p ≡ (
        (make_room fuel (evict_first p k (bucket k p.buckets)).0).0,
        (evict_first p k (bucket k p.buckets)).1
            ++ (make_room fuel (evict_first p k (bucket k p.buckets)).0).1,
      )
  unfolding make_room
  make_room_full k at e l = ground arith

module _ (f : FtpSession → ℕ) where
  pick_next-weigh :
      (now : ℕ) (s : FtpSession) (idle : List FtpSession) (p : Picked)
      → weigh f idle ≡ weigh f p.left + weigh_some f p.got + weigh f p.expired
      → (p.got ≡ none → p.left ≡ [])
      → (weigh f (s ∷ idle)
          ≡ weigh f (pick_next now s p).left
            + weigh_some f (pick_next now s p).got
            + weigh f (pick_next now s p).expired)
        × ((pick_next now s p).got ≡ none → (pick_next now s p).left ≡ [])
  unfolding pick_next
  pick_next-weigh now s idle p h e = elim (Option-cases p.got) [
    | inl g ↦ ground (arith, e g, weigh-append f p.expired (s ∷ []))
    | inr (v, g) ↦ ground arith
  ]

  pick-weigh :
      (now : ℕ) (idle : List FtpSession)
      → (weigh f idle
          ≡ weigh f (pick now idle).left
            + weigh_some f (pick now idle).got
            + weigh f (pick now idle).expired)
        × ((pick now idle).got ≡ none → (pick now idle).left ≡ [])
  unfolding pick
  pick-weigh now [] = (refl, λ _. refl)
  pick-weigh now (s ∷ idle) =
      pick_next-weigh now s idle (pick now idle) (pick-weigh now idle).0 (pick-weigh now idle).1

  pub ftp_pool_get-total :
      (p : FtpPool) (now key : ℕ)
      → total f p.buckets
        ≡ total f (ftp_pool_get p now key).0.buckets
          + weigh_some f (ftp_pool_get p now key).1.got
          + weigh f (ftp_pool_get p now key).1.expired
  unfolding ftp_pool_get
  ftp_pool_get-total p now key = omega (
    arith,
    (pick-weigh now (bucket key p.buckets)).0,
    total-set_bucket f key (pick now (bucket key p.buckets)).left p.buckets,
  )

  pub evict_first-total :
      (p : FtpPool) (k : ℕ) (l : List FtpSession)
      → l ≡ bucket k p.buckets
      → total f p.buckets ≡ total f (evict_first p k l).0.buckets + weigh f (evict_first p k l).1
  unfolding evict_first
  evict_first-total p k [] e = omega arith
  evict_first-total p k (s ∷ idle) e =
      omega (arith, total-set_bucket f k idle p.buckets, ap (λ m. weigh f m) e)

  pub make_room-total :
      (fuel : ℕ) (p : FtpPool)
      → total f p.buckets ≡ total f (make_room fuel p).0.buckets + weigh f (make_room fuel p).1
  unfolding make_room
  make_room-total zero p = omega arith
  make_room-total (suc fuel) p = elim (Option-cases (oldest none p.buckets)) [
    | inl e ↦ same (make_room_empty fuel p e)
    | inr ((k, at), e) ↦ elim (Bool-cases (leb ftp_pool_max_idle p.pool_idle)) [
      | inl full ↦
          let (q, evicted) = evict_first p k (bucket k p.buckets) in
          subst Kept (sym (make_room_full fuel p k at e full)) (
            omega (
              arith,
              evict_first-total p k (bucket k p.buckets) refl,
              make_room-total fuel q,
              weigh-append f evicted (make_room fuel q).1,
            ))
      | inr room ↦ same (make_room_fits fuel p room)
    ]
  ]
    where
      Kept : FtpPool × List FtpSession → Type 0
      Kept r = total f p.buckets ≡ total f r.0.buckets + weigh f r.1

      same : make_room (suc fuel) p ≡ (p, []) → Kept (make_room (suc fuel) p)
      same e = subst Kept (sym e) (omega arith)

  pub trim_key-total :
      (p : FtpPool) (k : ℕ)
      → total f p.buckets ≡ total f (trim_key p k).0.buckets + weigh f (trim_key p k).1
  unfolding trim_key
  trim_key-total p k = elim (Bool-cases (leb ftp_pool_max_per_key (length (bucket k p.buckets)))) [
    | inl many ↦ rw many (evict_first-total p k (bucket k p.buckets) refl)
    | inr few ↦ rw few (omega arith)
  ]

  pub park-total :
      (p : FtpPool) (s : FtpSession) → total f (park p s).buckets ≡ total f p.buckets + f s
  unfolding park
  park-total p s = omega (
    arith,
    total-set_bucket f s.key (bucket s.key p.buckets ++ s ∷ []) p.buckets,
    weigh-append f (bucket s.key p.buckets) (s ∷ []),
  )

  -- The sessions that a put parks or quits are those that were parked and the one given.
  pub ftp_pool_put-total :
      (p : FtpPool) (now : ℕ) (s : FtpSession)
      → total f p.buckets + f (record s { idle_since = now })
        ≡ total f (ftp_pool_put p now s).0.buckets + weigh f (ftp_pool_put p now s).1
  unfolding ftp_pool_put
  ftp_pool_put-total p now s =
      let (q, first) = trim_key p s.key in
      let (r, more) = make_room (suc q.pool_idle) q in
      omega (
        arith,
        trim_key-total p s.key,
        make_room-total (suc q.pool_idle) q,
        park-total r (record s { idle_since = now }),
        weigh-append f first more,
      )

  split_expired-weigh :
      (now : ℕ) (l : List FtpSession)
      → weigh f l ≡ weigh f (split_expired now l).0 + weigh f (split_expired now l).1
  unfolding split_expired
  split_expired-weigh now [] = omega arith
  split_expired-weigh now (s ∷ l) = ground (arith, split_expired-weigh now l)

  keep_bucket-total :
      (b : Bucket) (l : List FtpSession) (rest : List Bucket)
      → total f (keep_bucket b l rest) ≡ weigh f l + total f rest
  unfolding keep_bucket
  keep_bucket-total b [] rest = omega arith
  keep_bucket-total b (s ∷ l) rest = omega arith

  evict_buckets-total :
      (now : ℕ) (bs : List Bucket)
      → total f bs ≡ total f (evict_buckets now bs).0 + weigh f (evict_buckets now bs).1
  unfolding evict_buckets
  evict_buckets-total now [] = omega arith
  evict_buckets-total now (b ∷ bs) = omega (
    arith,
    split_expired-weigh now b.idle,
    evict_buckets-total now bs,
    keep_bucket-total b (split_expired now b.idle).0 (evict_buckets now bs).0,
    weigh-append f (split_expired now b.idle).1 (evict_buckets now bs).1,
  )

  pub ftp_pool_evict-total :
      (p : FtpPool) (now : ℕ)
      → total f p.buckets
        ≡ total f (ftp_pool_evict p now).0.buckets + weigh f (ftp_pool_evict p now).1
  unfolding ftp_pool_evict
  ftp_pool_evict-total p now = evict_buckets-total now p.buckets
