-- ===== src/Common/Weigh.antt =====
-- Sums over a list of a number that each element has, and predicates of every element.
use Prim.Native.Nat.{ℕ, zero, suc, ◌+◌, ◌*◌, ◌≤◌, ◌<◌}
use mathlib.Core.Path.{◌≡◌, subst, sym}
use mathlib.Core.Option.{some, some-injective}
use mathlib.Core.List.{List, [], ◌∷◌, ◌++◌}
use native.Mathlib.Omega.{arith}
use stremio_server_go.Common.Lists.{length, get_elem?, set, replicate}

abbrev pub weigh {ℓ} : {A : Type ℓ} → (A → ℕ) → List A → ℕ
weigh f [] = 0
weigh f (x ∷ xs) = f x + weigh f xs

pub weigh-set {ℓ} :
    {A : Type ℓ} (f : A → ℕ) (xs : List A) (i : ℕ) (u v : A)
    → get_elem? xs i ≡ some u
    → weigh f (set xs i v) + f u ≡ weigh f xs + f v
weigh-set f [] i u v h = cc
weigh-set f (x ∷ xs) zero u v h = ground arith
weigh-set f (x ∷ xs) (suc i) u v h = omega (arith, weigh-set f xs i u v h)

pub le-weigh {ℓ} :
    {A : Type ℓ} (f : A → ℕ) (xs : List A) (i : ℕ) (u : A)
    → get_elem? xs i ≡ some u
    → f u ≤ weigh f xs
le-weigh f [] i u h = cc
le-weigh f (x ∷ xs) zero u h = ground arith
le-weigh f (x ∷ xs) (suc i) u h = omega (arith, le-weigh f xs i u h)

pub lt-length_of_get {ℓ} :
    {A : Type ℓ} (xs : List A) (i : ℕ) (u : A) → get_elem? xs i ≡ some u → i < length xs
lt-length_of_get [] i u h = cc
lt-length_of_get (x ∷ xs) zero u h = omega arith
lt-length_of_get (x ∷ xs) (suc i) u h = omega (arith, lt-length_of_get xs i u h)

pub weigh-replicate {ℓ} :
    {A : Type ℓ} (f : A → ℕ) (n : ℕ) (u : A) → weigh f (replicate n u) ≡ n * f u
weigh-replicate f zero u = omega arith
weigh-replicate f (suc n) u = grind (arith, weigh-replicate f n u)

pub weigh-append {ℓ} :
    {A : Type ℓ} (f : A → ℕ) (xs ys : List A) → weigh f (xs ++ ys) ≡ weigh f xs + weigh f ys
weigh-append f [] ys = omega arith
weigh-append f (x ∷ xs) ys = omega (arith, weigh-append f xs ys)

abbrev pub All {ℓ κ} : {A : Type ℓ} → (A → Type κ) → List A → Type κ
All P [] = Unit
All P (x ∷ xs) = P x × All P xs

pub All-set {ℓ κ} :
    {A : Type ℓ} (P : A → Type κ) (xs : List A) (i : ℕ) (v : A)
    → P v
    → All P xs
    → All P (set xs i v)
All-set P [] i v p h = h
All-set P (x ∷ xs) zero v p h = (p, h.1)
All-set P (x ∷ xs) (suc i) v p h = (h.0, All-set P xs i v p h.1)

pub All-get {ℓ κ} :
    {A : Type ℓ} (P : A → Type κ) (xs : List A) (i : ℕ) (u : A)
    → get_elem? xs i ≡ some u
    → All P xs
    → P u
All-get P [] i u e h = cc
All-get P (x ∷ xs) zero u e h = subst P (some-injective x u e) h.0
All-get P (x ∷ xs) (suc i) u e h = All-get P xs i u e h.1

pub All-unset {ℓ κ} :
    {A : Type ℓ} (P : A → Type κ) (xs : List A) (i : ℕ) (u v : A)
    → get_elem? xs i ≡ some u
    → (P v → P u)
    → All P (set xs i v)
    → All P xs
All-unset P [] i u v e f h = h
All-unset P (x ∷ xs) zero u v e f h = (subst P (sym (some-injective x u e)) (f h.0), h.1)
All-unset P (x ∷ xs) (suc i) u v e f h = (h.0, All-unset P xs i u v e f h.1)

pub All-imp {ℓ κ} :
    {A : Type ℓ} (P Q : A → Type κ) (xs : List A) → ((x : A) → P x → Q x) → All P xs → All Q xs
All-imp P Q [] f h = h
All-imp P Q (x ∷ xs) f h = (f x h.0, All-imp P Q xs f h.1)

pub All-imp_both {ℓ κ} :
    {A : Type ℓ} (P Q R : A → Type κ) (xs : List A)
    → ((x : A) → P x → Q x → R x)
    → All P xs
    → All Q xs
    → All R xs
All-imp_both P Q R [] f h g = h
All-imp_both P Q R (x ∷ xs) f h g = (f x h.0 g.0, All-imp_both P Q R xs f h.1 g.1)

pub le-length_of_weigh {ℓ} :
    {A : Type ℓ} (f : A → ℕ) (xs : List A) → ((x : A) → f x ≤ 1) → weigh f xs ≤ length xs
le-length_of_weigh f [] h = omega arith
le-length_of_weigh f (x ∷ xs) h = omega (arith, h x, le-length_of_weigh f xs h)

pub All-append {ℓ κ} :
    {A : Type ℓ} (P : A → Type κ) (xs ys : List A) → All P xs → All P ys → All P (xs ++ ys)
All-append P [] ys f g = g
All-append P (x ∷ xs) ys f g = (f.0, All-append P xs ys f.1 g)

pub All-middle {ℓ κ} :
    {A : Type ℓ} (P : A → Type κ) (pre post : List A) (x : A)
    → All P (pre ++ x ∷ post)
    → P x × All P (pre ++ post)
All-middle P [] post x h = h
All-middle P (y ∷ pre) post x h = let r = All-middle P pre post x h.1 in (r.0, (h.0, r.1))

pub All-insert {ℓ κ} :
    {A : Type ℓ} (P : A → Type κ) (pre post : List A) (x : A)
    → P x
    → All P (pre ++ post)
    → All P (pre ++ x ∷ post)
All-insert P [] post x p h = (p, h)
All-insert P (y ∷ pre) post x p h = (h.0, All-insert P pre post x p h.1)
