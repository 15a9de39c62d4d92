-- ===== src/Trackers/Cache.antt =====
-- The cache file of internal/engine/trackers.go: what is written is what is read back.
use stremio_server_go.Common.{
  ℕ, ◌≡◌, refl, ap, ◌∙◌, true, false, List, [], ◌∷◌, ◌++◌, ◌==◌, if◌then◌else◌, inl, inr, arith,
  Bool-cases,
}
use stremio_server_go.Common.Weigh.{All}
use stremio_server_go.Common.Text.{has_prefix}
use stremio_server_go.Trackers.Model.{
  Url, is_tracker, split_lines, join_first, cache_text, parse_lines, parse_trackers,
}

abbrev pub NoNewline : Url → Type 0
NoNewline u = All (λ c. (c == 10) ≡ false) u

split_lines-newline : (s : List ℕ) → split_lines (10 ∷ s) ≡ [] ∷ split_lines s
unfolding split_lines
split_lines-newline s = refl

split_lines-other :
    (c : ℕ) (s : List ℕ) → (c == 10) ≡ false → split_lines (c ∷ s) ≡ join_first c (split_lines s)
unfolding split_lines
split_lines-other c s h = ground arith

-- The first line of a text ends at its first newline.
split_lines-line :
    (u : Url) (s : List ℕ) → NoNewline u → split_lines (u ++ (10 ∷ s)) ≡ u ∷ split_lines s
unfolding join_first
split_lines-line [] s h = split_lines-newline s
split_lines-line (c ∷ u) s h =
    split_lines-other c (u ++ (10 ∷ s)) h.0 ∙ ap (join_first c) (split_lines-line u s h.1)

-- A URL that survives being written to a line of its own.
pub record Storable (trim : Url → Url) (u : Url) : Type 0 where
  pub one_line : NoNewline u
  pub trimmed : trim u ≡ u
  pub scheme : is_tracker u ≡ true

module _ (trim : Url → Url) where
  parse_lines-keep :
      (u : Url) (ls : List Url)
      → Storable trim u
      → parse_lines trim (u ∷ ls) ≡ u ∷ parse_lines trim ls
  unfolding parse_lines
  parse_lines-keep u ls c =
      keep (trim u) (parse_lines trim ls) (ap is_tracker c.trimmed ∙ c.scheme)
      ∙ ap (λ v. v ∷ parse_lines trim ls) c.trimmed
    where
      keep :
          (v : Url) (r : List Url)
          → is_tracker v ≡ true
          → (if is_tracker v then v ∷ r else r) ≡ v ∷ r
      keep v r e = ground arith

  -- The empty line after the last newline is no tracker.
  parse_last : trim [] ≡ [] → parse_lines trim (split_lines []) ≡ []
  unfolding parse_lines split_lines is_tracker has_prefix
  parse_last e = ap (λ v. if is_tracker v then v ∷ [] else []) e

  parse_nil : (ls : List Url) → trim [] ≡ [] → parse_lines trim ([] ∷ ls) ≡ parse_lines trim ls
  unfolding parse_lines is_tracker has_prefix
  parse_nil ls e = ap (λ v. if is_tracker v then v ∷ parse_lines trim ls else parse_lines trim ls) e

  -- The URLs written to the cache file are those that are read back from it, in order, if each is a line
  -- that trimming leaves as it is and has a scheme that is kept.
  pub parse_trackers-cache_text :
      (us : List Url)
      → trim [] ≡ []
      → All (Storable trim) us
      → parse_trackers trim (cache_text us) ≡ us
  unfolding parse_trackers cache_text
  parse_trackers-cache_text [] e a =
      ap (parse_lines trim) (split_lines-newline []) ∙ parse_nil (split_lines []) e ∙ parse_last e
  parse_trackers-cache_text (u ∷ []) e a =
      ap (parse_lines trim) (split_lines-line u [] a.0.one_line)
      ∙ parse_lines-keep u (split_lines []) a.0
      ∙ ap (λ l. u ∷ l) (parse_last e)
  parse_trackers-cache_text (u ∷ (v ∷ us)) e a =
      ap (parse_lines trim) (split_lines-line u (cache_text (v ∷ us)) a.0.one_line)
      ∙ parse_lines-keep u (split_lines (cache_text (v ∷ us))) a.0
      ∙ ap (λ l. u ∷ l) (parse_trackers-cache_text (v ∷ us) e a.1)

-- What strings.TrimSpace is documented to do.
pub record Trims (trim : Url → Url) : Type 0 where
  pub blank : trim [] ≡ []
  pub again : (u : Url) → trim (trim u) ≡ trim u
  pub part : (u : Url) → NoNewline u → NoNewline (trim u)

join_first-NoNewline :
    (c : ℕ) (ls : List Url) → (c == 10) ≡ false → All NoNewline ls → All NoNewline (join_first c ls)
unfolding join_first
join_first-NoNewline c [] h a = ((h, tt), tt)
join_first-NoNewline c (l ∷ ls) h a = ((h, a.0), a.1)

split_lines-NoNewline : (s : List ℕ) → All NoNewline (split_lines s)
unfolding split_lines
split_lines-NoNewline [] = (tt, tt)
split_lines-NoNewline (c ∷ s) = elim (Bool-cases (c == 10)) [
  | inl end ↦ rw end (tt, split_lines-NoNewline s)
  | inr other ↦ rw other (join_first-NoNewline c (split_lines s) other (split_lines-NoNewline s))
]

parse_lines-Storable :
    (trim : Url → Url) (ls : List Url)
    → Trims trim
    → All NoNewline ls
    → All (Storable trim) (parse_lines trim ls)
unfolding parse_lines
parse_lines-Storable trim [] t a = tt
parse_lines-Storable trim (l ∷ ls) t a = elim (Bool-cases (is_tracker (trim l))) [
  | inl keep ↦ rw keep (
    record { one_line = t.part l a.0; trimmed = t.again l; scheme = keep },
    parse_lines-Storable trim ls t a.1,
  )
  | inr drop ↦ rw drop (parse_lines-Storable trim ls t a.1)
]

pub parse_trackers-Storable :
    (trim : Url → Url) (s : List ℕ) → Trims trim → All (Storable trim) (parse_trackers trim s)
unfolding parse_trackers
parse_trackers-Storable trim s t =
    parse_lines-Storable trim (split_lines s) t (split_lines-NoNewline s)
