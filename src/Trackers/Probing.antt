-- ===== src/Trackers/Probing.antt =====
-- Lists of probed trackers, and of those that answered (internal/engine/trackers.go).
use stremio_server_go.Common.{
  ℕ, zero, suc, ◌<◌, ◌≡◌, refl, sym, ap, subst, Bool, true, false, List, [], ◌∷◌, leb, ◌⊎◌, inl,
  inr, arith, Bool-cases, length, take,
}
use stremio_server_go.Common.Weigh.{All, All-imp}
use stremio_server_go.Common.Text.{same_text, same_text_refl, same_text-true}
use stremio_server_go.Trackers.Model.{
  Url, Result, filter_by, is_member, is_udp, answered, measured, probe_tracker, probe_max_rtt,
}

-- What sort.Slice keeps of the list that it sorts.
pub record Sorts (sort : List Result → List Result) : Type 1 where
  pub kept : (rs : List Result) (P : Result → Type 0) → All P rs → All P (sort rs)
  pub whole : (rs : List Result) (P : Result → Type 0) → All P (sort rs) → All P rs

pub All-take : (P : Url → Type 0) (n : ℕ) (us : List Url) → All P us → All P (take n us)
All-take P zero us a = tt
All-take P (suc n) [] a = tt
All-take P (suc n) (u ∷ us) a = (a.0, All-take P n us a.1)

pub All-filter_by :
    (P : Url → Type 0) (test : Url → Bool) (us : List Url) → All P us → All P (filter_by test us)
unfolding filter_by
All-filter_by P test [] a = tt
All-filter_by P test (u ∷ us) a = elim (Bool-cases (test u)) [
  | inl keep ↦ rw keep (a.0, All-filter_by P test us a.1)
  | inr drop ↦ rw drop (All-filter_by P test us a.1)
]

pub filter_by-All :
    (P : Url → Type 0) (test : Url → Bool) (us : List Url)
    → All P us
    → All (λ u. P u × (test u ≡ true)) (filter_by test us)
unfolding filter_by
filter_by-All P test [] a = tt
filter_by-All P test (u ∷ us) a = elim (Bool-cases (test u)) [
  | inl keep ↦ rw keep ((a.0, keep), filter_by-All P test us a.1)
  | inr drop ↦ rw drop (filter_by-All P test us a.1)
]

pub All-measured :
    (P : Url → Type 0) (measure : Url → ℕ) (us : List Url)
    → All P us
    → All (λ r. P r.0 × (r.1 ≡ probe_tracker measure r.0)) (measured measure us)
unfolding measured
All-measured P measure [] a = tt
All-measured P measure (u ∷ us) a = ((a.0, refl), All-measured P measure us a.1)

pub All-answered :
    (P : Url → Type 0) (measure : Url → ℕ) (rs : List Result)
    → All (λ r. P r.0 × (r.1 ≡ probe_tracker measure r.0)) rs
    → All (λ u. P u × (probe_tracker measure u < probe_max_rtt)) (answered rs)
unfolding answered
All-answered P measure [] a = tt
All-answered P measure ((u, t) ∷ rs) a = elim (Bool-cases (leb probe_max_rtt t)) [
  | inl dead ↦ rw dead (All-answered P measure rs a.1)
  | inr alive ↦ rw alive ((a.0.0, below t a.0.1 alive), All-answered P measure rs a.1)
]
  where
    below :
        (n : ℕ)
        → n ≡ probe_tracker measure u
        → leb probe_max_rtt n ≡ false
        → probe_tracker measure u < probe_max_rtt
    below n e h = ground arith

pub answered_head :
    (u : Url) (t : ℕ) (rs : List Result)
    → leb probe_max_rtt t ≡ false
    → is_member u (answered ((u, t) ∷ rs)) ≡ true
unfolding answered is_member
answered_head u t rs h = ground (arith, same_text_refl u)

pub answered_weaker :
    (v u : Url) (t : ℕ) (rs : List Result)
    → is_member v (answered rs) ≡ true
    → is_member v (answered ((u, t) ∷ rs)) ≡ true
unfolding answered is_member
answered_weaker v u t rs h = ground arith

pub answered_within :
    (us : List Url) (rs : List Result)
    → ((v : Url) → is_member v (answered rs) ≡ true → is_member v us ≡ true)
    → All (λ r. leb probe_max_rtt r.1 ≡ false → is_member r.0 us ≡ true) rs
answered_within us [] h = tt
answered_within us ((u, t) ∷ rs) h = (
  λ alive. h u (answered_head u t rs alive),
  answered_within us rs (λ v m. h v (answered_weaker v u t rs m)),
)

pub member-All :
    (P : Url → Type 0) (u : Url) (us : List Url) → is_member u us ≡ true → All P us → P u
unfolding is_member
member-All P u [] m a = absurd cc
member-All P u (v ∷ us) m a = elim (Bool-cases (same_text u v)) [
  | inl same ↦ subst P (sym (same_text-true u v same)) a.0
  | inr other ↦ member-All P u us (ground arith) a.1
]

pub member_weaker :
    (u v : Url) (us : List Url) → is_member u us ≡ true → is_member u (v ∷ us) ≡ true
unfolding is_member
member_weaker u v us m = ground arith

pub member_head : (u : Url) (us : List Url) → is_member u (u ∷ us) ≡ true
unfolding is_member
member_head u us = ground (arith, same_text_refl u)

pub member_self : (us : List Url) → All (λ u. is_member u us ≡ true) us
member_self [] = tt
member_self (u ∷ us) = (
  member_head u us,
  All-imp (λ v. is_member v us ≡ true) (λ v. is_member v (u ∷ us) ≡ true) us
      (λ v m. member_weaker v u us m) (member_self us),
)

pub take_all : (n : ℕ) (us : List Url) → length (take n us) < n → take n us ≡ us
take_all zero us h = absurd (omega arith)
take_all (suc n) [] h = refl
take_all (suc n) (u ∷ us) h = ap (λ l. u ∷ l) (take_all n us (omega arith))

pub measured-All :
    (measure : Url → ℕ) (P : Result → Type 0) (us : List Url)
    → All P (measured measure us)
    → All (λ u. P (u, probe_tracker measure u)) us
unfolding measured
measured-All measure P [] a = tt
measured-All measure P (u ∷ us) a = (a.0, measured-All measure P us a.1)

-- Why a URL was kept: its probe did not fail, or it could not be probed.
abbrev pub Kept : (Url → ℕ) → Bool → Url → Type 0
Kept measure proxied u =
    (probe_tracker measure u < probe_max_rtt) ⊎ ((proxied ≡ true) × (is_udp u ≡ true))
