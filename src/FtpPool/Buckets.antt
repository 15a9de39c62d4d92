-- ===== src/FtpPool/Buckets.antt =====
-- The map of internal/ftpstream/pool.go from keys to idle sessions.
use stremio_server_go.Common.{
  ℕ, ◌+◌, ◌≤◌, ◌<◌, ◌≡◌, ◌≢◌, refl, sym, ap, ◌∙◌, subst, false, List, [], ◌∷◌, Option, none, some,
  ltb, ◌==◌, if◌then◌else◌, length, ◌⊎◌, inl, inr, arith, Bool-cases, ==_iff,
}
use stremio_server_go.Common.Weigh.{weigh, All}
use stremio_server_go.FtpPool.Model.{
  ftp_pool_max_per_key, FtpSession, Bucket, bucket, set_bucket, oldest, older,
}

-- The sum of `f` over the idle sessions of the pool.
abbrev pub total : (FtpSession → ℕ) → List Bucket → ℕ
total f bs = weigh (λ b. weigh f b.idle) bs

pub total-set_bucket :
    (f : FtpSession → ℕ) (k : ℕ) (l : List FtpSession) (bs : List Bucket)
    → total f (set_bucket k l bs) + weigh f (bucket k bs) ≡ total f bs + weigh f l
unfolding set_bucket bucket
total-set_bucket f k [] [] = omega arith
total-set_bucket f k (s ∷ l) [] = omega arith
total-set_bucket f k [] (b ∷ bs) = ground (arith, total-set_bucket f k [] bs)
total-set_bucket f k (s ∷ l) (b ∷ bs) = ground (arith, total-set_bucket f k (s ∷ l) bs)

-- A map has no entry without sessions, few sessions for each key, and each session under its key.
pub record Sane (b : Bucket) : Type 0 where
  pub inhabited : 0 < length b.idle
  pub few : length b.idle ≤ ftp_pool_max_per_key
  pub own : All (λ s. s.key ≡ b.name) b.idle

abbrev pub Fresh : ℕ → List Bucket → Type 0
Fresh k = All (λ b. (b.name == k) ≡ false)

abbrev pub Distinct : List Bucket → Type 0
Distinct [] = Unit
Distinct (b ∷ bs) = Fresh b.name bs × Distinct bs

pub All-set_bucket :
    (P : Bucket → Type 0) (k : ℕ) (l : List FtpSession) (bs : List Bucket)
    → (0 < length l → P (record { name = k; idle = l }))
    → All P bs
    → All P (set_bucket k l bs)
unfolding set_bucket
All-set_bucket P k [] [] f h = tt
All-set_bucket P k (s ∷ l) [] f h = (f (omega arith), tt)
All-set_bucket P k [] (b ∷ bs) f h = elim (Bool-cases (b.name == k)) [
  | inl e ↦ rw e h.1
  | inr e ↦ rw e (h.0, All-set_bucket P k [] bs f h.1)
]
All-set_bucket P k (s ∷ l) (b ∷ bs) f h = elim (Bool-cases (b.name == k)) [
  | inl e ↦ rw e (f (omega arith), h.1)
  | inr e ↦ rw e (h.0, All-set_bucket P k (s ∷ l) bs f h.1)
]

pub Distinct-set_bucket :
    (k : ℕ) (l : List FtpSession) (bs : List Bucket) → Distinct bs → Distinct (set_bucket k l bs)
unfolding set_bucket
Distinct-set_bucket k [] [] h = tt
Distinct-set_bucket k (s ∷ l) [] h = (tt, tt)
Distinct-set_bucket k [] (b ∷ bs) h = elim (Bool-cases (b.name == k)) [
  | inl e ↦ rw e h.1
  | inr e ↦ rw e (
    All-set_bucket (λ c. (c.name == b.name) ≡ false) k [] bs (λ _. ground arith) h.0,
    Distinct-set_bucket k [] bs h.1,
  )
]
Distinct-set_bucket k (s ∷ l) (b ∷ bs) h = elim (Bool-cases (b.name == k)) [
  | inl e ↦ rw e (subst (λ n. Fresh n bs) ((==_iff b.name k).0 e) h.0, h.1)
  | inr e ↦ rw e (
    All-set_bucket (λ c. (c.name == b.name) ≡ false) k (s ∷ l) bs (λ _. ground arith) h.0,
    Distinct-set_bucket k (s ∷ l) bs h.1,
  )
]

pub All-bucket :
    (Q : ℕ → List FtpSession → Type 0) (k : ℕ) (bs : List Bucket)
    → Q k []
    → All (λ b. Q b.name b.idle) bs
    → Q k (bucket k bs)
unfolding bucket
All-bucket Q k [] q h = q
All-bucket Q k (b ∷ bs) q h = elim (Bool-cases (b.name == k)) [
  | inl e ↦ rw e (subst (λ n. Q n b.idle) ((==_iff b.name k).0 e) h.0)
  | inr e ↦ rw e (All-bucket Q k bs q h.1)
]

pub Fresh-bucket : (k : ℕ) (bs : List Bucket) → Fresh k bs → bucket k bs ≡ []
unfolding bucket
Fresh-bucket k [] h = refl
Fresh-bucket k (b ∷ bs) h = ground (arith, Fresh-bucket k bs h.1)

-- The map after a store.
pub bucket-set_bucket :
    (j k : ℕ) (l : List FtpSession) (bs : List Bucket)
    → Distinct bs
    → bucket j (set_bucket k l bs) ≡ (if k == j then l else bucket j bs)
unfolding bucket set_bucket
bucket-set_bucket j k [] [] d = ground arith
bucket-set_bucket j k (s ∷ l) [] d = ground arith
bucket-set_bucket j k [] (b ∷ bs) d = elim (Bool-cases (b.name == k)) [
  | inl e ↦ ground (arith, Fresh-bucket k bs (subst (λ n. Fresh n bs) ((==_iff b.name k).0 e) d.0))
  | inr e ↦ ground (arith, bucket-set_bucket j k [] bs d.1)
]
bucket-set_bucket j k (s ∷ l) (b ∷ bs) d = ground (arith, bucket-set_bucket j k (s ∷ l) bs d.1)

older-some : (x : ℕ × ℕ) (k : ℕ) (l : List FtpSession) → (y : ℕ × ℕ) × (older (some x) k l ≡ some y)
unfolding older
older-some (j, at) k [] = ((j, at), refl)
older-some (j, at) k (s ∷ l) = elim (Bool-cases (ltb s.idle_since at)) [
  | inl e ↦ ((k, s.idle_since), rw e refl)
  | inr e ↦ ((j, at), rw e refl)
]

oldest_some : (x : ℕ × ℕ) (bs : List Bucket) → oldest (some x) bs ≢ none
unfolding oldest
oldest_some x [] e = cc
oldest_some x (b ∷ bs) e =
    let (y, g) = older-some x b.name b.idle in oldest_some y bs (ap (λ o. oldest o bs) (sym g) ∙ e)

-- The loop finds no session only in an empty pool.
pub oldest-none : (bs : List Bucket) → All Sane bs → oldest none bs ≡ none → bs ≡ []
unfolding oldest older
oldest-none [] h e = refl
oldest-none (b ∷ bs) h e = absurd (found b.idle h.0.inhabited e)
  where
    found : (l : List FtpSession) → 0 < length l → oldest (older none b.name l) bs ≡ none → ⊥
    found [] i g = absurd (omega arith)
    found (s ∷ l) i g = oldest_some (b.name, s.idle_since) bs g

older-cases :
    (acc : Option (ℕ × ℕ)) (j : ℕ) (l : List FtpSession) (k at : ℕ)
    → older acc j l ≡ some (k, at)
    → (acc ≡ some (k, at)) ⊎ (j ≡ k)
unfolding older
older-cases acc j [] k at e = inl e
older-cases none j (s ∷ l) k at e = inr (ground arith)
older-cases (some (i, t)) j (s ∷ l) k at e = elim (Bool-cases (ltb s.idle_since t)) [
  | inl before ↦ inr (ground arith)
  | inr later ↦ inl (ground arith)
]

-- The key that the loop finds has sessions.
pub oldest-bucket :
    (acc : Option (ℕ × ℕ)) (bs : List Bucket) (k at : ℕ)
    → All Sane bs
    → oldest acc bs ≡ some (k, at)
    → (acc ≡ some (k, at)) ⊎ (0 < length (bucket k bs))
unfolding oldest bucket
oldest-bucket acc [] k at h e = inl e
oldest-bucket acc (b ∷ bs) k at h e = elim (Bool-cases (b.name == k)) [
  | inl own ↦ inr (rw own h.0.inhabited)
  | inr other ↦ elim (oldest-bucket (older acc b.name b.idle) bs k at h.1 e) [
    | inl f ↦ elim (older-cases acc b.name b.idle k at f) [
      | inl g ↦ inl g
      | inr g ↦ absurd (ground arith)
    ]
    | inr f ↦ inr (rw other f)
  ]
]
