-- ===== src/Common/Slices.antt =====
-- The part of a list from one place on, of a given length.
use Prim.Native.Nat.{ℕ, zero, suc, ◌+◌, ◌≤◌}
use mathlib.Core.Path.{◌≡◌, refl, ap, sym, ◌∙◌}
use mathlib.Core.List.{List, [], ◌∷◌, ◌++◌}
use native.Mathlib.Omega.{arith}
use stremio_server_go.Common.Lists.{length, take, drop, length-take, length-drop}

module _ {ℓ} {A : Type ℓ} where
  unfoldable pub slice : List A → ℕ → ℕ → List A
  slice xs i n = take n (drop i xs)

suc_plus : (i k : ℕ) → suc (i + k) ≡ suc i + k
suc_plus i k = omega arith

module _ {ℓ} {A : Type ℓ} where
  pub length-slice : (xs : List A) (i n : ℕ) → i + n ≤ length xs → length (slice xs i n) ≡ n
  unfolding slice
  length-slice xs i n h = omega (arith, length-take n (drop i xs), length-drop i xs)

  take-drop-slice :
      (xs : List A) (k n m : ℕ) → k + m ≤ n → take m (drop k (take n xs)) ≡ take m (drop k xs)
  take-drop-slice xs zero zero zero h = refl
  take-drop-slice xs zero zero (suc m) h = absurd (omega arith)
  take-drop-slice [] zero (suc n) zero h = refl
  take-drop-slice [] zero (suc n) (suc m) h = refl
  take-drop-slice (x ∷ xs) zero (suc n) zero h = refl
  take-drop-slice (x ∷ xs) zero (suc n) (suc m) h =
      ap (λ l. x ∷ l) (take-drop-slice xs zero n m (omega arith))
  take-drop-slice xs (suc k) zero m h = absurd (omega arith)
  take-drop-slice [] (suc k) (suc n) m h = refl
  take-drop-slice (x ∷ xs) (suc k) (suc n) m h = take-drop-slice xs k n m (omega arith)

  drop_nil : (n : ℕ) → drop {A = A} n [] ≡ []
  drop_nil zero = refl
  drop_nil (suc n) = refl

  pub drop-drop : (i k : ℕ) (xs : List A) → drop k (drop i xs) ≡ drop (i + k) xs
  drop-drop zero k xs = ap (λ n. drop n xs) (omega arith)
  drop-drop (suc i) k [] = drop_nil k ∙ sym (drop_nil (suc i + k))
  drop-drop (suc i) k (x ∷ xs) = drop-drop i k xs ∙ ap (λ n. drop n (x ∷ xs)) (suc_plus i k)

  pub take-take-drop :
      (n m : ℕ) (xs : List A)
      → n + m ≤ length xs
      → take n xs ++ take m (drop n xs) ≡ take (n + m) xs
  take-take-drop zero m xs h = ap (λ k. take k xs) (omega arith)
  take-take-drop (suc n) m [] h = absurd (omega arith)
  take-take-drop (suc n) m (x ∷ xs) h =
      ap (λ l. x ∷ l) (take-take-drop n m xs (omega arith))
      ∙ ap (λ k. take k (x ∷ xs)) (suc_plus n m)

  pub slice-append :
      (xs : List A) (i n m : ℕ)
      → i + (n + m) ≤ length xs
      → slice xs i n ++ slice xs (i + n) m ≡ slice xs i (n + m)
  unfolding slice
  slice-append xs i n m h =
      ap (λ l. take n (drop i xs) ++ take m l) (sym (drop-drop i n xs))
      ∙ take-take-drop n m (drop i xs) (omega (arith, length-drop i xs))

  -- A part of a part.
  pub slice-slice :
      (xs : List A) (i n k m : ℕ) → k + m ≤ n → slice (slice xs i n) k m ≡ slice xs (i + k) m
  unfolding slice
  slice-slice xs i n k m h =
      take-drop-slice (drop i xs) k n m h ∙ ap (λ l. take m l) (drop-drop i k xs)
