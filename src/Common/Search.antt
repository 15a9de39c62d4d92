-- ===== src/Common/Search.antt =====
-- `sort.Search` of Go's standard library, on a test of the elements of a slice: on a slice whose
-- elements fail the test up to some point and pass it from there on, it counts those that fail.
use Prim.Native.Nat.{ℕ, zero, suc, ◌+◌, ◌-◌, ◌/◌, ◌≤◌, ◌<◌}
use mathlib.Core.Path.{◌≡◌}
use mathlib.Core.Logic.{inl, inr}
use mathlib.Core.Bool.{Bool, true, false}
use mathlib.Core.Option.{none, some}
use mathlib.Core.List.{List, [], ◌∷◌}
use native.Mathlib.Omega.{arith}
use stremio_server_go.Common.Lists.{length, get_elem?}
use stremio_server_go.Common.Tests.{ltb, if◌then◌else◌, Bool-cases}

-- `for i < j { h := (i + j) / 2; if !f(h) { i = h + 1 } else { j = h } }`
search_loop : ℕ → (ℕ → Bool) → ℕ → ℕ → ℕ
search_loop zero f i j = i
search_loop (suc k) f i j = elim (ltb i j) [
  | false ↦ i
  | true ↦ elim (f ((i + j) / 2)) [
    | false ↦ search_loop k f ((i + j) / 2 + 1) j
    | true ↦ search_loop k f i ((i + j) / 2)
  ]
]

-- Each round shrinks the interval, so `n` rounds are enough.
unfoldable pub search : ℕ → (ℕ → Bool) → ℕ
unfolding search_loop
search n f = search_loop n f 0 n

abbrev pub test {ℓ} : {A : Type ℓ} → (A → Bool) → List A → ℕ → Bool
test p xs i = elim (get_elem? xs i) [ none ↦ false | some x ↦ p x ]

-- The elements that fail the test before the first that passes it.
abbrev pub skip {ℓ} : {A : Type ℓ} → (A → Bool) → List A → ℕ
skip p [] = 0
skip p (x ∷ xs) = if p x then 0 else suc (skip p xs)

abbrev pub AllPass {ℓ} : {A : Type ℓ} → (A → Bool) → List A → Type 0
AllPass p [] = Unit
AllPass p (x ∷ xs) = (p x ≡ true) × AllPass p xs

-- Once an element passes, so do those behind it.
abbrev pub IsMonotone {ℓ} : {A : Type ℓ} → (A → Bool) → List A → Type 0
IsMonotone p [] = Unit
IsMonotone p (x ∷ xs) = (p x ≡ true → AllPass p xs) × IsMonotone p xs

module _ {ℓ} {A : Type ℓ} (p : A → Bool) where
  test_of_AllPass : (xs : List A) (i : ℕ) → AllPass p xs → i < length xs → test p xs i ≡ true
  test_of_AllPass [] i h l = elim l [ ]
  test_of_AllPass (x ∷ xs) zero h l = h.0
  test_of_AllPass (x ∷ xs) (suc i) h l = test_of_AllPass xs i h.1 (omega arith)

  test_below_skip : (xs : List A) (i : ℕ) → i < skip p xs → test p xs i ≡ false
  test_below_skip [] i l = elim l [ ]
  test_below_skip (x ∷ xs) zero l = ground arith
  test_below_skip (x ∷ xs) (suc i) l = ground (arith, test_below_skip xs i)

  test_from_skip :
      (xs : List A) (i : ℕ) → IsMonotone p xs → skip p xs ≤ i → i < length xs → test p xs i ≡ true
  test_from_skip [] i m l h = elim h [ ]
  test_from_skip (x ∷ xs) zero m l h = ground arith
  test_from_skip (x ∷ xs) (suc i) m l h = elim (Bool-cases (p x)) [
    | inl pass ↦ test_of_AllPass xs i (m.0 pass) (omega arith)
    | inr fail ↦ test_from_skip xs i m.1 (ground arith) (omega arith)
  ]

  skip-le-length : (xs : List A) → skip p xs ≤ length xs
  skip-le-length [] = omega arith
  skip-le-length (x ∷ xs) = ground (arith, skip-le-length xs)

-- The loop finds the point where a test changes from false to true.
search_loop-finds :
    (k : ℕ) (f : ℕ → Bool) (i j n b : ℕ)
    → ((m : ℕ) → m < b → f m ≡ false)
    → ((m : ℕ) → b ≤ m → m < n → f m ≡ true)
    → i ≤ b
    → b ≤ j
    → j ≤ n
    → j - i ≤ k
    → search_loop k f i j ≡ b
unfolding search_loop
search_loop-finds zero f i j n b low high ib bj jn jk = omega arith
search_loop-finds (suc k) f i j n b low high ib bj jn jk = elim (Bool-cases (ltb i j)) [
  | inr done ↦ rw (done, search_loop) (ground arith)
  | inl more ↦ elim (Bool-cases (f ((i + j) / 2))) [
    | inr fail ↦
        let above : (i + j) / 2 + 1 ≤ b = ground (arith, high ((i + j) / 2)) in
        rw (more, fail, search_loop)
          (search_loop-finds k f ((i + j) / 2 + 1) j n b low high above bj jn (ground arith))
    | inl pass ↦
        let below : b ≤ (i + j) / 2 = ground (arith, low ((i + j) / 2)) in
        rw (more, pass, search_loop)
          (search_loop-finds k f i ((i + j) / 2) n b low high ib below (ground arith)
            (ground arith))
  ]
]

pub search-skip {ℓ} :
    {A : Type ℓ} (p : A → Bool) (xs : List A)
    → IsMonotone p xs
    → search (length xs) (test p xs) ≡ skip p xs
unfolding search
search-skip p xs m =
    search_loop-finds (length xs) (test p xs) 0 (length xs) (length xs) (skip p xs)
      (λ i l. test_below_skip p xs i l) (λ i l h. test_from_skip p xs i m l h) (omega arith)
      (skip-le-length p xs) (omega arith) (omega arith)
