-- ===== src/Common/Text.antt =====
-- Texts as lists of character codes, with the tests of the strings and bytes packages.
use Prim.Native.Char.{code}
use Prim.Native.String.{String}
use stremio_server_go.Common.{
  ℕ, ◌≡◌, refl, Bool, true, false, ◌&&◌, ◌||◌, List, [], ◌∷◌, ◌==◌, arith, ==_iff,
}

-- `String` has its own `[]` and `∷`.
abbrev pub codes : String → List ℕ
codes String.[] = []
codes (String.◌∷◌ c s) = code c ∷ codes s

unfoldable pub has_prefix : List ℕ → List ℕ → Bool
has_prefix text [] = true
has_prefix [] (t ∷ tag) = false
has_prefix (b ∷ text) (t ∷ tag) = (b == t) && has_prefix text tag

unfoldable pub same_text : List ℕ → List ℕ → Bool
same_text [] [] = true
same_text [] (t ∷ tag) = false
same_text (b ∷ text) [] = false
same_text (b ∷ text) (t ∷ tag) = (b == t) && same_text text tag

unfoldable pub has_suffix : List ℕ → List ℕ → Bool
has_suffix [] tag = same_text [] tag
has_suffix (b ∷ text) tag = same_text (b ∷ text) tag || has_suffix text tag

unfoldable pub contains : List ℕ → List ℕ → Bool
contains [] tag = has_prefix [] tag
contains (b ∷ text) tag = has_prefix (b ∷ text) tag || contains text tag

pub same_text_refl : (s : List ℕ) → same_text s s ≡ true
unfolding same_text
same_text_refl [] = refl
same_text_refl (c ∷ s) = ground (arith, same_text_refl s)

pub same_text-true : (s t : List ℕ) → same_text s t ≡ true → s ≡ t
unfolding same_text
same_text-true [] [] h = refl
same_text-true [] (d ∷ t) h = absurd cc
same_text-true (c ∷ s) [] h = absurd cc
same_text-true (c ∷ s) (d ∷ t) h =
    cc ((==_iff c d).0 (ground arith), same_text-true s t (ground arith))
