-- ===== src/SegCache/Eviction.antt =====
-- The two eviction loops of `putFull` of internal/streamproxy/cache.go.
use stremio_server_go.Common.{
  ℕ, zero, suc, ◌+◌, ◌≡◌, ◌≤◌, ◌<◌, sym, ap, ◌∙◌, subst, true, false, ◌||◌, List, [], ◌∷◌, none,
  some, ltb, leb, ◌==◌, length, Bool-cases, Option-cases, inl, inr, ◌⊎◌, arith,
}
use stremio_server_go.Common.Weigh.{weigh}
use stremio_server_go.SegCache.Model.{
  CacheEntry, SegCache, find, remove, back, remove_locked, shrink, make_room,
}
use stremio_server_go.SegCache.Entries.{
  size_of, Distinct, length-remove, find-back, back-none, back-front,
}
use stremio_server_go.SegCache.Invariant.{
  Inv, remove_locked-Inv, Trimmed, stay-Trimmed, back-Trimmed,
}

pub make_room-Trimmed :
    (fuel : ℕ) (c : SegCache) (need : ℕ)
    → length c.lru < fuel
    → Inv c
    → Trimmed c (make_room fuel c need)
      × (((make_room fuel c need).lru ≡ [])
          ⊎ (((make_room fuel c need).total_bytes + need ≤ c.max_bytes)
              × (length (make_room fuel c need).lru < c.max_entries)))
unfolding make_room remove_locked
make_room-Trimmed zero c need f v = absurd (omega arith)
make_room-Trimmed (suc fuel) c need f v = elim (Option-cases (back c.lru)) [
  | inl b ↦ subst Made (sym (ends b)) (stay-Trimmed c v, inl (back-none c.lru b))
  | inr (e, b) ↦
      elim (Bool-cases
        (leb c.max_entries (length c.lru) || ltb c.max_bytes (c.total_bytes + need))) [
          | inl more ↦
              let found : find e.key c.lru ≡ some e = find-back c.lru e v.distinct b in
              let (t, h) =
                make_room-Trimmed fuel (remove_locked c e) need (shorter e found f)
                  (remove_locked-Inv c e found v) in
              subst Made (sym (goes_on e b more))
                (back-Trimmed c (make_room fuel (remove_locked c e) need) e v b t, h)
          | inr fits ↦
              subst Made (sym (stops e b fits)) (stay-Trimmed c v, inr (ground arith, ground arith))
        ]
]
  where
    Made : SegCache → Type 0
    Made d =
        Trimmed c d
        × ((d.lru ≡ []) ⊎ ((d.total_bytes + need ≤ c.max_bytes) × (length d.lru < c.max_entries)))

    ends : back c.lru ≡ none → make_room (suc fuel) c need ≡ c
    ends b = ground arith

    goes_on :
        (e : CacheEntry)
        → back c.lru ≡ some e
        → (leb c.max_entries (length c.lru) || ltb c.max_bytes (c.total_bytes + need)) ≡ true
        → make_room (suc fuel) c need ≡ make_room fuel (remove_locked c e) need
    goes_on e b h = ground arith

    stops :
        (e : CacheEntry)
        → back c.lru ≡ some e
        → (leb c.max_entries (length c.lru) || ltb c.max_bytes (c.total_bytes + need)) ≡ false
        → make_room (suc fuel) c need ≡ c
    stops e b h = ground arith

    shorter :
        (e : CacheEntry)
        → find e.key c.lru ≡ some e
        → length c.lru < suc fuel
        → length (remove_locked c e).lru < fuel
    shorter e h f = omega (arith, length-remove e.key c.lru e h)

nil_cons : (x : CacheEntry) (xs : List CacheEntry) → [] ≡ x ∷ xs → ⊥
nil_cons x xs h = cc

remove-front :
    (f e : CacheEntry) (es : List CacheEntry)
    → (e.key == f.key) ≡ false
    → remove e.key (f ∷ es) ≡ f ∷ remove e.key es
unfolding remove
remove-front f e es h = ground arith

-- The loop after a replacement ends within the budget, and spares the entry at the front.
pub shrink-Trimmed :
    (fuel : ℕ) (c : SegCache) (f : CacheEntry) (es : List CacheEntry)
    → c.lru ≡ f ∷ es
    → f.size ≤ c.max_bytes
    → length es < fuel
    → Inv c
    → Trimmed c (shrink fuel c f.key)
      × ((shrink fuel c f.key).total_bytes ≤ c.max_bytes)
      × ((gs : List CacheEntry) × ((shrink fuel c f.key).lru ≡ f ∷ gs))
unfolding shrink remove_locked
shrink-Trimmed zero c f es l z n v = absurd (omega arith)
shrink-Trimmed (suc fuel) c f es l z n v = elim (Option-cases (back c.lru)) [
  | inl b ↦ absurd (nil_cons f es (sym (back-none c.lru b) ∙ l))
  | inr (e, b) ↦
      let d : Distinct (f ∷ es) = subst Distinct l v.distinct in
      let b' : back (f ∷ es) ≡ some e = subst (λ m. back m ≡ some e) l b in
      elim (Bool-cases (e.key == f.key)) [
        | inl own ↦ subst Shrunk (sym (spares e b own)) (
          stay-Trimmed c v,
          omega (
            arith,
            v.accounts,
            ap (λ m. weigh size_of m) (l ∙ ap (λ m. f ∷ m) (back-front f es e d b' own)),
          ),
          (es, l),
        )
        | inr other ↦ elim (Bool-cases (ltb c.max_bytes c.total_bytes)) [
          | inl more ↦
              let found : find e.key c.lru ≡ some e = find-back c.lru e v.distinct b in
              let front : remove e.key c.lru ≡ f ∷ remove e.key es =
                ap (λ m. remove e.key m) l ∙ remove-front f e es other in
              let (t, m, (gs, k)) =
                shrink-Trimmed fuel (remove_locked c e) f (remove e.key es) front z
                  (omega (
                    arith,
                    length-remove e.key c.lru e found,
                    ap (λ m. length m) l,
                    ap (λ m. length m) front,
                  ))
                  (remove_locked-Inv c e found v) in
              subst Shrunk (sym (goes_on e b other more))
                (back-Trimmed c (shrink fuel (remove_locked c e) f.key) e v b t, m, (gs, k))
          | inr fits ↦ subst Shrunk (sym (stops e b fits)) (stay-Trimmed c v, ground arith, (es, l))
        ]
      ]
]
  where
    Shrunk : SegCache → Type 0
    Shrunk d =
        Trimmed c d × (d.total_bytes ≤ c.max_bytes) × ((gs : List CacheEntry) × (d.lru ≡ f ∷ gs))

    spares :
        (e : CacheEntry)
        → back c.lru ≡ some e
        → (e.key == f.key) ≡ true
        → shrink (suc fuel) c f.key ≡ c
    spares e b h = ground arith

    goes_on :
        (e : CacheEntry)
        → back c.lru ≡ some e
        → (e.key == f.key) ≡ false
        → ltb c.max_bytes c.total_bytes ≡ true
        → shrink (suc fuel) c f.key ≡ shrink fuel (remove_locked c e) f.key
    goes_on e b h m = ground arith

    stops :
        (e : CacheEntry)
        → back c.lru ≡ some e
        → ltb c.max_bytes c.total_bytes ≡ false
        → shrink (suc fuel) c f.key ≡ c
    stops e b h = ground arith
