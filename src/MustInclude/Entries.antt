-- ===== src/MustInclude/Entries.antt =====
-- What the operations of the LRU of internal/api/regexcache.go keep of its entries.
use stremio_server_go.Common.{
  ℕ, zero, suc, ◌-◌, ◌≤◌, ◌<◌, ◌≡◌, refl, subst, true, false, List, [], ◌∷◌, Option, none, some,
  ltb, length, inl, inr, arith, Bool-cases, Option-cases,
}
use mathlib.Core.Option.{some-injective}
use stremio_server_go.Common.Weigh.{All}
use stremio_server_go.Common.Text.{same_text, same_text-true}
use stremio_server_go.MustInclude.Model.{
  must_include_cache_max, MustIncludeEntry, find, remove, get, drop_back, shrink, put,
}

module _ {ℓ} {Re : Type ℓ} (P : MustIncludeEntry Re → Type ℓ) where
  remove-All : (k : List ℕ) (l : List (MustIncludeEntry Re)) → All P l → All P (remove k l)
  unfolding remove
  remove-All k [] a = tt
  remove-All k (e ∷ l) a = elim (Bool-cases (same_text e.key k)) [
    | inl same ↦ rw same a.1
    | inr other ↦ rw other (a.0, remove-All k l a.1)
  ]

  drop_back-All : (l : List (MustIncludeEntry Re)) → All P l → All P (drop_back l)
  unfolding drop_back
  drop_back-All [] a = tt
  drop_back-All (e ∷ []) a = tt
  drop_back-All (e ∷ (f ∷ l)) a = (a.0, drop_back-All (f ∷ l) a.1)

  shrink-All : (n : ℕ) (l : List (MustIncludeEntry Re)) → All P l → All P (shrink n l)
  unfolding shrink
  shrink-All zero l a = a
  shrink-All (suc n) l a = elim (Bool-cases (ltb must_include_cache_max (length l))) [
    | inl over ↦ rw over (shrink-All n (drop_back l) (drop_back-All l a))
    | inr fits ↦ rw fits a
  ]

  find-All :
      (k : List ℕ) (l : List (MustIncludeEntry Re)) (e : MustIncludeEntry Re)
      → find k l ≡ some e
      → All P l
      → P e × (e.key ≡ k)
  unfolding find
  find-All k [] e f a = absurd cc
  find-All k (x ∷ l) e f a = elim (Bool-cases (same_text x.key k)) [
    | inl same ↦ subst (λ y. P y × (y.key ≡ k)) (first same f) (a.0, same_text-true x.key k same)
    | inr other ↦ find-All k l e (later other f) a.1
  ]
    where
      first : same_text x.key k ≡ true → find k (x ∷ l) ≡ some e → x ≡ e
      first s g = ground arith

      later : same_text x.key k ≡ false → find k (x ∷ l) ≡ some e → find k l ≡ some e
      later s g = ground arith

module _ {ℓ} {Re : Type ℓ} where
  length-remove : (k : List ℕ) (l : List (MustIncludeEntry Re)) → length (remove k l) ≤ length l
  unfolding remove
  length-remove k [] = omega arith
  length-remove k (e ∷ l) = ground (arith, length-remove k l)

  length-remove_found :
      (k : List ℕ) (l : List (MustIncludeEntry Re)) (e : MustIncludeEntry Re)
      → find k l ≡ some e
      → length (remove k l) < length l
  unfolding remove find
  length-remove_found k [] e f = absurd cc
  length-remove_found k (x ∷ l) e f = ground (arith, length-remove_found k l e)

  length-drop_back : (l : List (MustIncludeEntry Re)) → length (drop_back l) ≡ length l - 1
  unfolding drop_back
  length-drop_back [] = omega arith
  length-drop_back (e ∷ []) = omega arith
  length-drop_back (e ∷ (f ∷ l)) = omega (arith, length-drop_back (f ∷ l))

  -- One round for each entry is enough.
  length-shrink :
      (n : ℕ) (l : List (MustIncludeEntry Re))
      → length l ≤ n
      → length (shrink n l) ≤ must_include_cache_max
  unfolding shrink
  length-shrink zero l h = omega arith
  length-shrink (suc n) l h = ground (arith, length-shrink n (drop_back l), length-drop_back l)

  pub length-get : (l : List (MustIncludeEntry Re)) (k : List ℕ) → length (get l k).0 ≤ length l
  unfolding get
  length-get l k = elim (Option-cases (find k l)) [
    | inl e ↦ ground arith
    | inr (x, e) ↦ ground (arith, length-remove_found k l x e)
  ]

  pub length-put :
      (l : List (MustIncludeEntry Re)) (k : List ℕ) (re : Re)
      → length l ≤ must_include_cache_max
      → length (put l k re) ≤ must_include_cache_max
  unfolding put
  length-put l k re h = elim (Option-cases (find k l)) [
    | inl e ↦ ground (arith, length-shrink (suc (length l)) (record { key = k; re = re } ∷ l))
    | inr (x, e) ↦ ground (arith, length-remove_found k l x e)
  ]

  pub put-All :
      (P : MustIncludeEntry Re → Type ℓ) (l : List (MustIncludeEntry Re)) (k : List ℕ) (re : Re)
      → P (record { key = k; re = re })
      → All P l
      → All P (put l k re)
  unfolding put
  put-All P l k re p a = go (find k l)
    where
      go :
          (o : Option (MustIncludeEntry Re))
          → All P (elim o as (λ _. List (MustIncludeEntry Re)) [
            | some e ↦ record { key = k; re = re } ∷ remove k l
            | none ↦ shrink (suc (length l)) (record { key = k; re = re } ∷ l)
          ])
      go none = shrink-All P (suc (length l)) (record { key = k; re = re } ∷ l) (p, a)
      go (some e) = (p, remove-All P k l a)

  -- A get keeps the entries, and what it returns is in one with its key.
  pub get-All :
      (P : MustIncludeEntry Re → Type ℓ) (l : List (MustIncludeEntry Re)) (k : List ℕ)
      → All P l
      → All P (get l k).0 × ((re : Re) → (get l k).1 ≡ some re → P (record { key = k; re = re }))
  unfolding get
  get-All P l k a = go (find k l) (λ e f. find-All P k l e f a)
    where
      same :
          (e : MustIncludeEntry Re) (re : Re)
          → e.key ≡ k
          → some e.re ≡ some re
          → e ≡ record { key = k; re = re }
      same e re i f = λ j. record { key = i j; re = (some-injective e.re re f) j }

      go :
          (o : Option (MustIncludeEntry Re))
          → ((e : MustIncludeEntry Re) → o ≡ some e → P e × (e.key ≡ k))
          → All P
              (elim o as (λ _. List (MustIncludeEntry Re) × Option Re) [
                | none ↦ (l, none)
                | some e ↦ (e ∷ remove k l, some e.re)
              ]).0
            × ((re : Re)
                → (elim o as (λ _. List (MustIncludeEntry Re) × Option Re) [
                  | none ↦ (l, none)
                  | some e ↦ (e ∷ remove k l, some e.re)
                ]).1
                  ≡ some re
                → P (record { key = k; re = re }))
      go none h = (a, λ re f. absurd cc)
      go (some e) h = (
        ((h e refl).0, remove-All P k l a),
        λ re f. subst P (same e re (h e refl).1 f) (h e refl).0,
      )
