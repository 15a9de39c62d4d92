-- ===== src/SegCache/Stores.antt =====
-- `putFull` of internal/streamproxy/cache.go, when it replaces or inserts an entry.
use stremio_server_go.Common.{
  ℕ, suc, ◌≡◌, ◌≤◌, refl, sym, ap, ◌∙◌, subst, Bool, true, false, List, ◌∷◌, none, some, ◌==◌,
  length, length-append, Bool-cases, Option-cases, inl, inr, arith,
}
use stremio_server_go.Common.Weigh.{weigh}
use stremio_server_go.SegCache.Model.{
  CacheEntry, SegCache, find, remove, lookup, set_item, shrink, make_room, replaced, replace, push,
  insert, store,
}
use stremio_server_go.SegCache.Entries.{
  size_of, find-key, weigh-remove, length-remove, All-remove, Distinct-remove, find-Fresh,
  find-remove_self, find-remove_other, find-prefix, find_first, find_later,
}
use stremio_server_go.SegCache.Invariant.{holds, Sized, Inv, Bounded, lookup-find, Trimmed}
use stremio_server_go.SegCache.Eviction.{make_room-Trimmed, shrink-Trimmed}

pub record Good (c : SegCache) : Type 0 where
  pub inv : Inv c
  pub bounded : Bounded c

pub replaced-Inv :
    (c : SegCache) (e f : CacheEntry)
    → find f.key c.lru ≡ some e
    → Sized f
    → Inv c
    → Inv (replaced c e f)
unfolding replaced
replaced-Inv c e f h z v =
    let same : e.key ≡ f.key = find-key f.key c.lru e h in
    let gone : find f.key (remove e.key c.lru) ≡ none =
      ap (λ k. find f.key (remove k c.lru)) same ∙ find-remove_self f.key c.lru v.distinct in
    record {
      accounts = omega (
        arith,
        weigh-remove f.key c.lru e h,
        v.accounts,
        ap (λ k. weigh size_of (remove k c.lru)) same,
      );
      sized = (z, All-remove Sized e.key c.lru v.sized);
      distinct =
          (find-Fresh f.key (remove e.key c.lru) gone, Distinct-remove e.key c.lru v.distinct);
      indexed = λ k. elim (Bool-cases (f.key == k)) [
        | inl own ↦
            let same_key : f.key ≡ k = ground arith in
            v.indexed k
            ∙ (ap holds (subst (λ n. find n c.lru ≡ some e) same_key h)
                ∙ sym (ap holds (find_first f (remove e.key c.lru) k own)))
        | inr other ↦
            let differ : (k == e.key) ≡ false = ground arith in
            v.indexed k
            ∙ sym (
                ap holds (
                  find_later f (remove e.key c.lru) k other
                  ∙ find-remove_other k e.key c.lru differ))
      ];
    }

item_set : (items : ℕ → Bool) (j k : ℕ) → (j == k) ≡ true → set_item items j true k ≡ true
item_set items j k h = ground arith

item_other : (items : ℕ → Bool) (j k : ℕ) → (j == k) ≡ false → set_item items j true k ≡ items k
item_other items j k h = ground arith

push-Inv :
    (c : SegCache) (f : CacheEntry) → find f.key c.lru ≡ none → Sized f → Inv c → Inv (push c f)
unfolding push
push-Inv c f h z v = record {
  accounts = omega (arith, v.accounts);
  sized = (z, v.sized);
  distinct = (find-Fresh f.key c.lru h, v.distinct);
  indexed = λ k. elim (Bool-cases (f.key == k)) [
    | inl own ↦ item_set c.items f.key k own ∙ sym (ap holds (find_first f c.lru k own))
    | inr other ↦
        item_other c.items f.key k other
        ∙ (v.indexed k ∙ sym (ap holds (find_later f c.lru k other)))
  ];
}

Trimmed-length : (c d : SegCache) → Trimmed c d → length d.lru ≤ length c.lru
Trimmed-length c d t = omega (arith, ap (λ m. length m) t.rest, length-append d.lru t.evicted)

-- What storing `f` leaves: a good cache whose most recently used entry is `f`.
pub record IsStored (f : CacheEntry) (d : SegCache) : Type 0 where
  pub good : Good d
  pub others : List CacheEntry
  pub front : d.lru ≡ f ∷ others

replace-IsStored :
    (c : SegCache) (e f : CacheEntry)
    → find f.key c.lru ≡ some e
    → Sized f
    → f.size ≤ c.max_bytes
    → Good c
    → IsStored f (replace c e f)
unfolding replace replaced
replace-IsStored c e f h z m g =
    let d : SegCache = replaced c e f in
    let (t, w, (gs, l)) =
      shrink-Trimmed (suc (length d.lru)) d f (remove e.key c.lru) refl m (omega arith)
        (replaced-Inv c e f h z g.inv) in
    record {
      good = record {
        inv = t.inv;
        bounded = record {
          bytes = omega (arith, w, t.same_max_bytes);
          entries = omega (
            arith,
            Trimmed-length d (shrink (suc (length d.lru)) d f.key) t,
            t.same_max_entries,
            g.bounded.entries,
            length-remove e.key c.lru e
                (subst (λ k. find k c.lru ≡ some e) (sym (find-key f.key c.lru e h)) h),
          );
        };
      };
      others = gs;
      front = l;
    }

insert-IsStored :
    (c : SegCache) (f : CacheEntry)
    → find f.key c.lru ≡ none
    → Sized f
    → f.size ≤ c.max_bytes
    → Good c
    → IsStored f (insert c f)
unfolding insert push
insert-IsStored c f h z m g =
    let d : SegCache = make_room (suc (length c.lru)) c f.size in
    let (t, room) = make_room-Trimmed (suc (length c.lru)) c f.size (omega arith) g.inv in
    let absent : find f.key d.lru ≡ none =
      find-prefix f.key d.lru t.evicted (subst (λ l. find f.key l ≡ none) t.rest h) in
    record {
      good = record {
        inv = push-Inv d f absent z t.inv;
        bounded = record {
          bytes = elim room [
            | inl empty ↦
                omega (arith, t.inv.accounts, t.same_max_bytes, ap (λ l. weigh size_of l) empty)
            | inr fits ↦ omega (arith, fits.0, t.same_max_bytes)
          ];
          entries = elim room [
            | inl empty ↦ omega (arith, ap (λ l. length l) empty)
            | inr fits ↦ omega (arith, fits.1, t.same_max_entries)
          ];
        };
      };
      others = d.lru;
      front = refl;
    }

pub store-IsStored :
    (c : SegCache) (f : CacheEntry)
    → Sized f
    → f.size ≤ c.max_bytes
    → Good c
    → IsStored f (store c f)
unfolding store
store-IsStored c f z m g = elim (Option-cases (lookup c f.key)) [
  | inl e ↦
      subst (IsStored f) (sym (absent e))
        (insert-IsStored c f (sym (lookup-find c f.key g.inv) ∙ e) z m g)
  | inr (x, e) ↦
      subst (IsStored f) (sym (present x e))
        (replace-IsStored c x f (sym (lookup-find c f.key g.inv) ∙ e) z m g)
]
  where
    absent : lookup c f.key ≡ none → store c f ≡ insert c f
    absent e = ground arith

    present : (x : CacheEntry) → lookup c f.key ≡ some x → store c f ≡ replace c x f
    present x e = ground arith
