-- ===== src/FtpPool/Bounds.antt =====
-- The counts and the caps of internal/ftpstream/pool.go.
use stremio_server_go.Common.{
  ℕ, zero, suc, ◌+◌, ◌-◌, ◌≤◌, ◌<◌, ◌≡◌, refl, sym, ap, subst, List, [], ◌∷◌, ◌++◌, none, some, leb,
  length, inl, inr, arith, Bool-cases, Option-cases, length-append,
}
use stremio_server_go.Common.Weigh.{weigh, All, All-imp, All-append}
use stremio_server_go.FtpPool.Model.{
  ftp_pool_max_idle, ftp_pool_max_per_key, FtpSession, FtpPool, bucket, set_bucket, evict_first,
  oldest, make_room, trim_key, park, ftp_pool_put,
}
use stremio_server_go.FtpPool.Buckets.{
  total, total-set_bucket, Sane, Distinct, All-set_bucket, Distinct-set_bucket, All-bucket,
  bucket-set_bucket, oldest-none, oldest-bucket,
}
use stremio_server_go.FtpPool.Conserving.{make_room_empty, make_room_fits, make_room_full}

abbrev pub one : FtpSession → ℕ
one s = 1

-- What holds of the pool but for the cap on all sessions.
pub record Counted (p : FtpPool) : Type 0 where
  pub counted : p.pool_idle ≡ total one p.buckets
  pub sane : All Sane p.buckets
  pub distinct : Distinct p.buckets

pub length-weigh : (l : List FtpSession) → length l ≡ weigh one l
length-weigh [] = refl
length-weigh (s ∷ l) = omega (arith, length-weigh l)

-- A slice that may stand under the key `k`.
abbrev pub SaneSlice : ℕ → List FtpSession → Type 0
SaneSlice k l = (length l ≤ ftp_pool_max_per_key) × All (λ s. s.key ≡ k) l

pub set_bucket-Counted :
    (p : FtpPool) (k n : ℕ) (l : List FtpSession)
    → Counted p
    → SaneSlice k l
    → n + length (bucket k p.buckets) ≡ p.pool_idle + length l
    → Counted (record { buckets = set_bucket k l p.buckets; pool_idle = n })
set_bucket-Counted p k n l h s e = record {
  counted = omega (
    arith,
    h.counted,
    total-set_bucket one k l p.buckets,
    length-weigh l,
    length-weigh (bucket k p.buckets),
  );
  sane =
      All-set_bucket Sane k l p.buckets (λ i. record { inhabited = i; few = s.0; own = s.1 })
        h.sane;
  distinct = Distinct-set_bucket k l p.buckets h.distinct;
}

pub bucket-SaneSlice : (p : FtpPool) (k : ℕ) → Counted p → SaneSlice k (bucket k p.buckets)
bucket-SaneSlice p k h =
    All-bucket SaneSlice k p.buckets (omega arith, tt)
      (All-imp Sane (λ b. SaneSlice b.name b.idle) p.buckets (λ b s. (s.few, s.own)) h.sane)

pub bucket-le : (p : FtpPool) (k : ℕ) → Counted p → length (bucket k p.buckets) ≤ p.pool_idle
bucket-le p k h =
    omega (arith, h.counted, total-set_bucket one k [] p.buckets, length-weigh (bucket k p.buckets))

evict_first-Counted :
    (p : FtpPool) (k : ℕ) (l : List FtpSession)
    → l ≡ bucket k p.buckets
    → Counted p
    → Counted (evict_first p k l).0
unfolding evict_first
evict_first-Counted p k [] e h = h
evict_first-Counted p k (s ∷ l) e h =
    let q : SaneSlice k (s ∷ l) = subst (SaneSlice k) (sym e) (bucket-SaneSlice p k h) in
    set_bucket-Counted p k (p.pool_idle - 1) l h (omega (arith, q.0), q.1.1)
      (omega (arith, ap (λ m. length m) e, bucket-le p k h))

make_room-Counted : (fuel : ℕ) (p : FtpPool) → Counted p → Counted (make_room fuel p).0
unfolding make_room
make_room-Counted zero p h = h
make_room-Counted (suc fuel) p h = elim (Option-cases (oldest none p.buckets)) [
  | inl e ↦ subst (λ r. Counted r.0) (sym (make_room_empty fuel p e)) h
  | inr ((k, at), e) ↦ elim (Bool-cases (leb ftp_pool_max_idle p.pool_idle)) [
    | inl full ↦
        subst (λ r. Counted r.0) (sym (make_room_full fuel p k at e full))
          (make_room-Counted fuel (evict_first p k (bucket k p.buckets)).0
            (evict_first-Counted p k (bucket k p.buckets) refl h))
    | inr room ↦ subst (λ r. Counted r.0) (sym (make_room_fits fuel p room)) h
  ]
]

trim_key-Counted : (p : FtpPool) (k : ℕ) → Counted p → Counted (trim_key p k).0
unfolding trim_key
trim_key-Counted p k h =
    elim (Bool-cases (leb ftp_pool_max_per_key (length (bucket k p.buckets)))) [
      | inl many ↦ rw many (evict_first-Counted p k (bucket k p.buckets) refl h)
      | inr few ↦ rw few h
    ]

-- An eviction leaves one session less under its key, and the other keys as they are.
evict_first-bucket :
    (p : FtpPool) (j k : ℕ) (l : List FtpSession)
    → l ≡ bucket k p.buckets
    → Counted p
    → length (bucket j (evict_first p k l).0.buckets) ≤ length (bucket j p.buckets)
unfolding evict_first
evict_first-bucket p j k [] e h = omega arith
evict_first-bucket p j k (s ∷ idle) e h =
    ground (arith, bucket-set_bucket j k idle p.buckets h.distinct, ap (λ m. length m) e)

evict_first_self :
    (p : FtpPool) (k : ℕ) (l : List FtpSession)
    → l ≡ bucket k p.buckets
    → Counted p
    → length (bucket k (evict_first p k l).0.buckets) ≡ length l - 1
unfolding evict_first
evict_first_self p k [] e h = omega (arith, ap (λ m. length m) e)
evict_first_self p k (s ∷ idle) e h =
    ground (arith, bucket-set_bucket k k idle p.buckets h.distinct)

evict_first_idle :
    (p : FtpPool) (k : ℕ) (l : List FtpSession)
    → 0 < length l
    → (evict_first p k l).0.pool_idle ≡ p.pool_idle - 1
unfolding evict_first
evict_first_idle p k [] e = absurd (omega arith)
evict_first_idle p k (s ∷ idle) e = refl

trim_key_room :
    (p : FtpPool) (k : ℕ)
    → Counted p
    → length (bucket k (trim_key p k).0.buckets) < ftp_pool_max_per_key
unfolding trim_key
trim_key_room p k h = elim (Bool-cases (leb ftp_pool_max_per_key (length (bucket k p.buckets)))) [
  | inl many ↦ rw many (evicted (bucket k p.buckets) refl)
  | inr few ↦ rw few (ground arith)
]
  where
    evicted :
        (l : List FtpSession)
        → l ≡ bucket k p.buckets
        → length (bucket k (evict_first p k l).0.buckets) < ftp_pool_max_per_key
    evicted l e =
        omega (arith, evict_first_self p k l e h, (bucket-SaneSlice p k h).0, ap (λ m. length m) e)

-- The loop ends with room for a session, and parks none.
make_room_lem :
    (fuel : ℕ) (p : FtpPool) (j : ℕ)
    → p.pool_idle < fuel
    → Counted p
    → ((make_room fuel p).0.pool_idle < ftp_pool_max_idle)
      × (length (bucket j (make_room fuel p).0.buckets) ≤ length (bucket j p.buckets))
make_room_lem zero p j f h = absurd (omega arith)
make_room_lem (suc fuel) p j f h = elim (Option-cases (oldest none p.buckets)) [
  | inl e ↦
      let empty : p.buckets ≡ [] = oldest-none p.buckets h.sane e in
      subst Roomy (sym (make_room_empty fuel p e))
        (omega (arith, h.counted, ap (λ bs. total one bs) empty), omega arith)
  | inr ((k, at), e) ↦ elim (Bool-cases (leb ftp_pool_max_idle p.pool_idle)) [
    | inl full ↦
        let (q, evicted) = evict_first p k (bucket k p.buckets) in
        let (i, l) =
          make_room_lem fuel q j (taken_one k at e)
            (evict_first-Counted p k (bucket k p.buckets) refl h) in
        subst Roomy (sym (make_room_full fuel p k at e full))
          (i, omega (arith, l, evict_first-bucket p j k (bucket k p.buckets) refl h))
    | inr room ↦ subst Roomy (sym (make_room_fits fuel p room)) (ground arith, omega arith)
  ]
]
  where
    taken_one :
        (k at : ℕ)
        → oldest none p.buckets ≡ some (k, at)
        → (evict_first p k (bucket k p.buckets)).0.pool_idle < fuel
    taken_one k at e = elim (oldest-bucket none p.buckets k at h.sane e) [
      | inl g ↦ absurd cc
      | inr g ↦ omega (arith, evict_first_idle p k (bucket k p.buckets), bucket-le p k h)
    ]

    Roomy : FtpPool × List FtpSession → Type 0
    Roomy r =
        (r.0.pool_idle < ftp_pool_max_idle)
        × (length (bucket j r.0.buckets) ≤ length (bucket j p.buckets))

park-Counted :
    (p : FtpPool) (s : FtpSession)
    → length (bucket s.key p.buckets) < ftp_pool_max_per_key
    → Counted p
    → Counted (park p s)
unfolding park
park-Counted p s l h =
    set_bucket-Counted p s.key (p.pool_idle + 1) (bucket s.key p.buckets ++ s ∷ []) h
      (
        omega (arith, length-append (bucket s.key p.buckets) (s ∷ [])),
        All-append (λ v. v.key ≡ s.key) (bucket s.key p.buckets) (s ∷ [])
            (bucket-SaneSlice p s.key h).1 (refl, tt),
      )
      (omega (arith, length-append (bucket s.key p.buckets) (s ∷ [])))

pub record IsValid (p : FtpPool) : Type 0 where
  pub inside : Counted p
  pub capped : p.pool_idle ≤ ftp_pool_max_idle

pub ftp_pool_put-IsValid :
    (p : FtpPool) (now : ℕ) (s : FtpSession) → IsValid p → IsValid (ftp_pool_put p now s).0
unfolding ftp_pool_put park
ftp_pool_put-IsValid p now s v =
    let (q, first) = trim_key p s.key in
    let (r, more) = make_room (suc q.pool_idle) q in
    let t : Counted q = trim_key-Counted p s.key v.inside in
    let (room, same) = make_room_lem (suc q.pool_idle) q s.key (omega arith) t in
    record {
      inside =
          park-Counted r (record s { idle_since = now })
            (omega (arith, same, trim_key_room p s.key v.inside))
            (make_room-Counted (suc q.pool_idle) q t);
      capped = omega arith;
    }
