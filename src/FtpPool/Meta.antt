-- ===== src/FtpPool/Meta.antt =====
-- The caches of SIZE answers and of pre-flight verdicts of internal/ftpstream/pool.go: a map from keys
-- to values that expire, as the list of its entries. A `range` over the map goes in their order, which
-- Go leaves open.
use stremio_server_go.Common.{
  ℕ, ◌+◌, ◌≤◌, ◌<◌, ◌≡◌, ap, List, [], ◌∷◌, Option, none, some, ltb, leb, ◌==◌, if◌then◌else◌,
  length, inl, inr, arith, Option-cases,
}

abbrev pub ftp_size_ttl : ℕ
ftp_size_ttl = 15

abbrev pub preflight_ttl : ℕ
preflight_ttl = 30

abbrev pub meta_max_entries : ℕ
meta_max_entries = 256

pub record Entry {ℓ} (A : Type ℓ) : Type ℓ where
  pub key : ℕ
  pub value : A
  pub expires : ℕ

module _ {ℓ} {A : Type ℓ} where
  unfoldable pub lookup : ℕ → List (Entry A) → Option (Entry A)
  lookup k [] = none
  lookup k (e ∷ l) = if e.key == k then some e else lookup k l

  unfoldable pub delete : ℕ → List (Entry A) → List (Entry A)
  delete k [] = []
  delete k (e ∷ l) = if e.key == k then l else e ∷ delete k l

  unfoldable pub drop_expired : ℕ → List (Entry A) → List (Entry A)
  drop_expired now [] = []
  drop_expired now (e ∷ l) =
      let rest = drop_expired now l in if ltb now e.expires then e ∷ rest else rest

  -- Entries are deleted until there are fewer than `n`.
  unfoldable pub shorten : ℕ → List (Entry A) → List (Entry A)
  shorten n [] = []
  shorten n (e ∷ l) = let rest = shorten n l in if ltb (length (e ∷ l)) n then e ∷ l else rest

  unfoldable pub trim_locked : ℕ → List (Entry A) → List (Entry A)
  trim_locked now l = shorten meta_max_entries (drop_expired now l)

  unfoldable pub make_space : ℕ → ℕ → List (Entry A) → List (Entry A)
  make_space now k l = elim (lookup k l) [
    | some e ↦ l
    | none ↦ if leb meta_max_entries (length l) then trim_locked now l else l
  ]

  unfoldable pub store : ℕ → ℕ → ℕ → A → List (Entry A) → List (Entry A)
  store now ttl k v l =
      record { key = k; value = v; expires = now + ttl } ∷ delete k (make_space now k l)

  unfoldable pub fetch : ℕ → ℕ → List (Entry A) → Option A
  fetch now k l = elim (lookup k l) [
    | none ↦ none
    | some e ↦ if ltb now e.expires then some e.value else none
  ]

-- `ftpSizeGet`, with `none` for its -1 and false.
unfoldable pub ftp_size_get : ℕ → ℕ → List (Entry ℕ) → Option ℕ
unfolding fetch
ftp_size_get now k l = fetch now k l

unfoldable pub ftp_size_put : ℕ → ℕ → ℕ → List (Entry ℕ) → List (Entry ℕ)
unfolding store
ftp_size_put now k size l = store now ftp_size_ttl k size l

unfoldable pub ftp_size_forget : ℕ → List (Entry ℕ) → List (Entry ℕ)
unfolding delete
ftp_size_forget k l = delete k l

-- A verdict is the error, or none where the host passed.
unfoldable pub preflight_get : ℕ → ℕ → List (Entry (Option ℕ)) → Option (Option ℕ)
unfolding fetch
preflight_get now k l = fetch now k l

unfoldable pub preflight_put : ℕ → ℕ → Option ℕ → List (Entry (Option ℕ)) → List (Entry (Option ℕ))
unfolding store
preflight_put now k verdict l = store now preflight_ttl k verdict l

unfoldable pub ftp_meta_evict :
    ℕ → List (Entry ℕ) × List (Entry (Option ℕ)) → List (Entry ℕ) × List (Entry (Option ℕ))
unfolding drop_expired
ftp_meta_evict now (sizes, preflights) = (drop_expired now sizes, drop_expired now preflights)

module _ {ℓ} {A : Type ℓ} where
  length-drop_expired : (now : ℕ) (l : List (Entry A)) → length (drop_expired now l) ≤ length l
  unfolding drop_expired
  length-drop_expired now [] = omega arith
  length-drop_expired now (e ∷ l) = ground (arith, length-drop_expired now l)

  length-shorten : (n : ℕ) (l : List (Entry A)) → 0 < n → length (shorten n l) < n
  unfolding shorten
  length-shorten n [] h = h
  length-shorten n (e ∷ l) h = ground (arith, length-shorten n l)

  length-delete : (k : ℕ) (l : List (Entry A)) → length (delete k l) ≤ length l
  unfolding delete
  length-delete k [] = omega arith
  length-delete k (e ∷ l) = ground (arith, length-delete k l)

  length-delete_found :
      (k : ℕ) (l : List (Entry A)) (e : Entry A)
      → lookup k l ≡ some e
      → length (delete k l) < length l
  unfolding delete lookup
  length-delete_found k [] e h = cc
  length-delete_found k (x ∷ l) e h = ground (arith, length-delete_found k l e)

  make_space_new :
      (now k : ℕ) (l : List (Entry A))
      → length l ≤ meta_max_entries
      → lookup k l ≡ none
      → length (make_space now k l) < meta_max_entries
  unfolding make_space trim_locked
  make_space_new now k l h e =
      ground (arith, length-shorten meta_max_entries (drop_expired now l) (omega arith))

  make_space_old :
      (now k : ℕ) (l : List (Entry A)) (x : Entry A) → lookup k l ≡ some x → make_space now k l ≡ l
  unfolding make_space
  make_space_old now k l x e = ground arith

  pub length-store :
      (now ttl k : ℕ) (v : A) (l : List (Entry A))
      → length l ≤ meta_max_entries
      → length (store now ttl k v l) ≤ meta_max_entries
  unfolding store
  length-store now ttl k v l h = elim (Option-cases (lookup k l)) [
    | inl e ↦ omega (arith, make_space_new now k l h e, length-delete k (make_space now k l))
    | inr (x, e) ↦ omega (
      arith,
      length-delete_found k l x e,
      ap (λ m. length (delete k m)) (make_space_old now k l x e),
    )
  ]

  pub fetch-store :
      (now later ttl k : ℕ) (v : A) (l : List (Entry A))
      → fetch later k (store now ttl k v l) ≡ (if ltb later (now + ttl) then some v else none)
  unfolding fetch store lookup
  fetch-store now later ttl k v l = ground arith

-- A put into either cache leaves at most `meta_max_entries` entries, whatever it deletes for that, and
-- its value is what a get of its key returns until the entry's time is over, and not from then on.
pub ftp_size_put-preflight_put :
    (now later k size : ℕ) (verdict : Option ℕ) (sizes : List (Entry ℕ))
    (preflights : List (Entry (Option ℕ)))
    → length sizes ≤ meta_max_entries
    → length preflights ≤ meta_max_entries
    → (length (ftp_size_put now k size sizes) ≤ meta_max_entries)
      × (ftp_size_get later k (ftp_size_put now k size sizes)
          ≡ (if ltb later (now + ftp_size_ttl) then some size else none))
      × (length (preflight_put now k verdict preflights) ≤ meta_max_entries)
      × (preflight_get later k (preflight_put now k verdict preflights)
          ≡ (if ltb later (now + preflight_ttl) then some verdict else none))
unfolding ftp_size_put ftp_size_get preflight_put preflight_get
ftp_size_put-preflight_put now later k size verdict sizes preflights h g = (
  length-store now ftp_size_ttl k size sizes h,
  fetch-store now later ftp_size_ttl k size sizes,
  length-store now preflight_ttl k verdict preflights g,
  fetch-store now later preflight_ttl k verdict preflights,
)
