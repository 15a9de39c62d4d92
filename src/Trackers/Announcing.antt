-- ===== src/Trackers/Announcing.antt =====
-- Which URLs `announceableTiers` of internal/engine/trackers.go lets through to the announcer.
use stremio_server_go.Common.{
  ◌<◌, ◌≡◌, refl, sym, ap, ◌∙◌, Bool, true, false, List, [], ◌∷◌, ◌++◌, ltb, if◌then◌else◌, ◌⊎◌,
  inl, inr, arith, Bool-cases, length,
}
use stremio_server_go.Common.Weigh.{All}
use stremio_server_go.Common.Text.{has_prefix}
use stremio_server_go.Trackers.Model.{
  Url, filter_by, is_ws, is_announceable, announceable_trackers, announceable_tiers,
}

abbrev pub concat : List (List Url) → List Url
concat [] = []
concat (t ∷ ts) = t ++ concat ts

filter_by-append :
    (test : Url → Bool) (xs ys : List Url)
    → filter_by test (xs ++ ys) ≡ filter_by test xs ++ filter_by test ys
unfolding filter_by
filter_by-append test [] ys = refl
filter_by-append test (x ∷ xs) ys = elim (Bool-cases (test x)) [
  | inl keep ↦ rw keep (ap (λ l. x ∷ l) (filter_by-append test xs ys))
  | inr drop ↦ rw drop (filter_by-append test xs ys)
]

-- Without WebSocket support no URL that is let through has a WebSocket scheme.
is_announceable-is_ws : (s : Url) → is_announceable false s ≡ true → is_ws s ≡ false
unfolding is_announceable is_ws has_prefix
is_announceable-is_ws [] h = refl
is_announceable-is_ws (c ∷ s) h = ground arith

abbrev pub Announceable : (Url → Url) → Bool → Url → Type 0
Announceable fold allow_ws u =
    (is_announceable allow_ws (fold u) ≡ true) × (allow_ws ≡ false → is_ws (fold u) ≡ false)

filter_by-Announceable :
    (fold : Url → Url) (allow_ws : Bool) (us : List Url)
    → All (Announceable fold allow_ws) (filter_by (λ u. is_announceable allow_ws (fold u)) us)
unfolding filter_by
filter_by-Announceable fold allow_ws [] = tt
filter_by-Announceable fold allow_ws (u ∷ us) =
    elim (Bool-cases (is_announceable allow_ws (fold u))) [
      | inl keep ↦ rw keep (
        (keep, λ e. is_announceable-is_ws (fold u) (without e keep)),
        filter_by-Announceable fold allow_ws us,
      )
      | inr drop ↦ rw drop (filter_by-Announceable fold allow_ws us)
    ]
  where
    without :
        allow_ws ≡ false
        → is_announceable allow_ws (fold u) ≡ true
        → is_announceable false (fold u) ≡ true
    without e k = ap (λ b. is_announceable b (fold u)) (sym e) ∙ k

length_zero : (l : List Url) → ltb 0 (length l) ≡ false → l ≡ []
length_zero [] h = refl
length_zero (x ∷ l) h = absurd (ground arith)

module _ (trim lower : Url → Url) where
  -- No tier that is passed on is empty, each URL in them has a scheme that the announcer serves, which
  -- without WebSocket support is no WebSocket scheme; and together the tiers are the given URLs with
  -- such a scheme, in order.
  pub announceable_tiers-Announceable :
      (allow_ws : Bool) (tiers : List (List Url))
      → All
          (λ t. (0 < length t) × All (Announceable (λ u. lower (trim u)) allow_ws) t)
          (announceable_tiers trim lower allow_ws tiers)
        × (concat (announceable_tiers trim lower allow_ws tiers)
            ≡ filter_by (λ u. is_announceable allow_ws (lower (trim u))) (concat tiers))
  unfolding announceable_tiers announceable_trackers filter_by
  announceable_tiers-Announceable allow_ws [] = (tt, refl)
  announceable_tiers-Announceable allow_ws (tier ∷ tiers) =
      go (announceable_tiers-Announceable allow_ws tiers) (Bool-cases (ltb 0 (length f)))
    where
      test : Url → Bool
      test u = is_announceable allow_ws (lower (trim u))

      f : List Url
      f = filter_by test tier

      Good : List (List Url) → Type 0
      Good ts = All (λ t. (0 < length t) × All (Announceable (λ u. lower (trim u)) allow_ws) t) ts

      rest : List (List Url)
      rest = announceable_tiers trim lower allow_ws tiers

      joined : List Url
      joined = filter_by test (concat tiers)

      go :
          Good rest × (concat rest ≡ joined)
          → (ltb 0 (length f) ≡ true) ⊎ (ltb 0 (length f) ≡ false)
          → Good (if ltb 0 (length f) then f ∷ rest else rest)
            × (concat (if ltb 0 (length f) then f ∷ rest else rest)
                ≡ filter_by test (tier ++ concat tiers))
      go (g, e) (inl some_left) = rw some_left (
        (((ground arith, filter_by-Announceable (λ u. lower (trim u)) allow_ws tier), g)),
        ap (λ l. f ++ l) e ∙ sym (filter_by-append test tier (concat tiers)),
      )
      go (g, e) (inr none_left) = rw none_left (
        g,
        e
            ∙ ap (λ l. l ++ joined) (sym (length_zero f none_left))
            ∙ sym (filter_by-append test tier (concat tiers)),
      )
