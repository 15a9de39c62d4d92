-- ===== src/SegCache/Entries.antt =====
-- The list of entries of internal/streamproxy/cache.go, when no key stands in it twice.
use stremio_server_go.Common.{
  ℕ, ◌+◌, ◌≡◌, refl, ap, ◌∙◌, subst, true, false, List, [], ◌∷◌, ◌++◌, none, some, ◌==◌, length,
  Bool-cases, Option-cases, inl, inr, arith,
}
use stremio_server_go.Common.Weigh.{weigh, All}
use stremio_server_go.SegCache.Model.{CacheEntry, find, remove, back}

abbrev pub size_of : CacheEntry → ℕ
size_of e = e.size

-- No entry has the key `k`.
abbrev pub Fresh : ℕ → List CacheEntry → Type 0
Fresh k = All (λ e. (e.key == k) ≡ false)

abbrev pub Distinct : List CacheEntry → Type 0
Distinct [] = Unit
Distinct (e ∷ es) = Fresh e.key es × Distinct es

pub find-key : (k : ℕ) (es : List CacheEntry) (e : CacheEntry) → find k es ≡ some e → e.key ≡ k
unfolding find
find-key k [] e h = cc
find-key k (x ∷ es) e h = ground (arith, find-key k es e)

pub weigh-remove :
    (k : ℕ) (es : List CacheEntry) (e : CacheEntry)
    → find k es ≡ some e
    → weigh size_of (remove k es) + e.size ≡ weigh size_of es
unfolding find remove
weigh-remove k [] e h = cc
weigh-remove k (x ∷ es) e h = ground (arith, weigh-remove k es e)

pub length-remove :
    (k : ℕ) (es : List CacheEntry) (e : CacheEntry)
    → find k es ≡ some e
    → length (remove k es) + 1 ≡ length es
unfolding find remove
length-remove k [] e h = cc
length-remove k (x ∷ es) e h = ground (arith, length-remove k es e)

pub All-remove :
    (P : CacheEntry → Type 0) (k : ℕ) (es : List CacheEntry) → All P es → All P (remove k es)
unfolding remove
All-remove P k [] h = h
All-remove P k (x ∷ es) h = elim (Bool-cases (x.key == k)) [
  | inl e ↦ rw e h.1
  | inr e ↦ rw e (h.0, All-remove P k es h.1)
]

pub Distinct-remove : (k : ℕ) (es : List CacheEntry) → Distinct es → Distinct (remove k es)
unfolding remove
Distinct-remove k [] h = h
Distinct-remove k (x ∷ es) h = elim (Bool-cases (x.key == k)) [
  | inl e ↦ rw e h.1
  | inr e ↦ rw e (All-remove (λ f. (f.key == x.key) ≡ false) k es h.0, Distinct-remove k es h.1)
]

pub find-Fresh : (k : ℕ) (es : List CacheEntry) → find k es ≡ none → Fresh k es
unfolding find
find-Fresh k [] h = tt
find-Fresh k (x ∷ es) h = elim (Bool-cases (x.key == k)) [
  | inl e ↦ absurd (ground arith)
  | inr e ↦ (e, find-Fresh k es (ground arith))
]

pub Fresh-find : (k : ℕ) (es : List CacheEntry) → Fresh k es → find k es ≡ none
unfolding find
Fresh-find k [] h = refl
Fresh-find k (x ∷ es) h = ground (arith, Fresh-find k es h.1)

pub find-remove_self : (k : ℕ) (es : List CacheEntry) → Distinct es → find k (remove k es) ≡ none
unfolding find remove
find-remove_self k [] h = refl
find-remove_self k (x ∷ es) h = elim (Bool-cases (x.key == k)) [
  | inl e ↦ ground (arith, Fresh-find k es (subst (λ n. Fresh n es) (ground arith) h.0))
  | inr e ↦ ground (arith, find-remove_self k es h.1)
]

pub find-remove_other :
    (j k : ℕ) (es : List CacheEntry) → (j == k) ≡ false → find j (remove k es) ≡ find j es
unfolding find remove
find-remove_other j k [] h = refl
find-remove_other j k (x ∷ es) h = ground (arith, find-remove_other j k es h)

Fresh-other :
    (k j : ℕ) (es : List CacheEntry) (e : CacheEntry)
    → Fresh k es
    → find j es ≡ some e
    → (k == j) ≡ false
unfolding find
Fresh-other k j [] e f h = cc
Fresh-other k j (x ∷ es) e f h = elim (Bool-cases (x.key == j)) [
  | inl a ↦ ground arith
  | inr a ↦ Fresh-other k j es e f.1 (ground arith)
]

pub find-back :
    (es : List CacheEntry) (e : CacheEntry)
    → Distinct es
    → back es ≡ some e
    → find e.key es ≡ some e
unfolding find back
find-back [] e d h = cc
find-back (x ∷ es) e d h = elim (Option-cases (back es)) [
  | inl b ↦ ground arith
  | inr (f, b) ↦
      let same : f ≡ e = ground arith in
      let there : find e.key es ≡ some e = find-back es e d.1 (b ∙ ap some same) in
      ground (arith, Fresh-other x.key e.key es e d.0 there)
]

pub back-none : (es : List CacheEntry) → back es ≡ none → es ≡ []
unfolding back
back-none [] h = refl
back-none (x ∷ es) h = elim (Option-cases (back es)) [
  | inl b ↦ absurd (ground arith)
  | inr (f, b) ↦ absurd (ground arith)
]

pub remove-back :
    (es : List CacheEntry) (e : CacheEntry)
    → Distinct es
    → back es ≡ some e
    → es ≡ remove e.key es ++ (e ∷ [])
unfolding back remove
remove-back [] e d h = cc
remove-back (x ∷ es) e d h = elim (Option-cases (back es)) [
  | inl b ↦
      let empty : es ≡ [] = back-none es b in
      let same : x ≡ e = ground arith in
      let own : (x.key == e.key) ≡ true = ground arith in rw (own, empty) (ap (λ y. y ∷ []) same)
  | inr (f, b) ↦
      let same : f ≡ e = ground arith in
      let there : find e.key es ≡ some e = find-back es e d.1 (b ∙ ap some same) in
      let other : (x.key == e.key) ≡ false = Fresh-other x.key e.key es e d.0 there in
      rw other (ap (λ l. x ∷ l) (remove-back es e d.1 (b ∙ ap some same)))
]

pub back-front :
    (f : CacheEntry) (es : List CacheEntry) (e : CacheEntry)
    → Distinct (f ∷ es)
    → back (f ∷ es) ≡ some e
    → (e.key == f.key) ≡ true
    → es ≡ []
unfolding back
back-front f es e d h k = elim (Option-cases (back es)) [
  | inl b ↦ back-none es b
  | inr (g, b) ↦ absurd (ground (arith, Fresh-other f.key g.key es g d.0 (find-back es g d.1 b)))
]

pub find-prefix : (k : ℕ) (es fs : List CacheEntry) → find k (es ++ fs) ≡ none → find k es ≡ none
unfolding find
find-prefix k [] fs h = refl
find-prefix k (x ∷ es) fs h = ground (arith, find-prefix k es fs)

pub find_first :
    (f : CacheEntry) (es : List CacheEntry) (k : ℕ) → (f.key == k) ≡ true → find k (f ∷ es) ≡ some f
unfolding find
find_first f es k h = ground arith

pub find_later :
    (f : CacheEntry) (es : List CacheEntry) (k : ℕ)
    → (f.key == k) ≡ false
    → find k (f ∷ es) ≡ find k es
unfolding find
find_later f es k h = ground arith

pub All-find :
    (P : CacheEntry → Type 0) (k : ℕ) (es : List CacheEntry) (e : CacheEntry)
    → All P es
    → find k es ≡ some e
    → P e
unfolding find
All-find P k [] e h f = cc
All-find P k (x ∷ es) e h f = elim (Bool-cases (x.key == k)) [
  | inl a ↦ let same : x ≡ e = ground arith in subst P same h.0
  | inr a ↦ All-find P k es e h.1 (ground arith)
]

-- Each entry is found under its key.
pub find_each : (es : List CacheEntry) → Distinct es → All (λ e. find e.key es ≡ some e) es
find_each [] d = tt
find_each (x ∷ es) d = (find_first x es x.key (ground arith), each es x d.0 (find_each es d.1))
  where
    each :
        (fs : List CacheEntry) (y : CacheEntry)
        → Fresh y.key fs
        → All (λ e. find e.key es ≡ some e) fs
        → All (λ e. find e.key (y ∷ es) ≡ some e) fs
    each [] y f h = tt
    each (z ∷ fs) y f h = (find_later y es z.key (ground arith) ∙ h.0, each fs y f.1 h.1)
