-- ===== src/Trackers/Lists.antt =====
-- Members and duplicates of the lists in internal/engine/trackers.go.
use stremio_server_go.Common.{
  ◌≡◌, refl, ap, Bool, true, false, ◌&&◌, ◌||◌, not, List, [], ◌∷◌, ◌++◌, inl, inr, arith,
  Bool-cases,
}
use stremio_server_go.Common.Text.{same_text, same_text_refl, same_text-true}
use stremio_server_go.Trackers.Model.{
  Url, filter_by, is_member, fresh_ones, dedup, merge_ws, is_ws, embedded_trackers,
}

abbrev pub Distinct : List Url → Type 0
Distinct [] = Unit
Distinct (x ∷ xs) = (is_member x xs ≡ false) × Distinct xs

pub is_member-append :
    (u : Url) (xs ys : List Url) → is_member u (xs ++ ys) ≡ (is_member u xs || is_member u ys)
unfolding is_member
is_member-append u [] ys = refl
is_member-append u (x ∷ xs) ys = ground (arith, is_member-append u xs ys)

pub is_member-filter_by :
    (test : Url → Bool) (u : Url) (xs : List Url)
    → is_member u (filter_by test xs) ≡ (test u && is_member u xs)
unfolding is_member filter_by
is_member-filter_by test u [] = ground arith
is_member-filter_by test u (x ∷ xs) = elim (Bool-cases (same_text u x)) [
  | inl same ↦ ground (arith, is_member-filter_by test u xs, ap test (same_text-true u x same))
  | inr other ↦ ground (arith, is_member-filter_by test u xs)
]

pub is_member-fresh_ones :
    (u : Url) (have xs : List Url)
    → is_member u (fresh_ones have xs) ≡ (is_member u xs && not (is_member u have))
unfolding is_member fresh_ones
is_member-fresh_ones u have [] = refl
is_member-fresh_ones u have (x ∷ xs) = elim (Bool-cases (same_text u x)) [
  | inl same ↦ ground (
    arith,
    is_member-fresh_ones u have xs,
    is_member-fresh_ones u (x ∷ have) xs,
    ap (λ v. is_member v have) (same_text-true u x same),
  )
  | inr other ↦ ground (arith, is_member-fresh_ones u have xs, is_member-fresh_ones u (x ∷ have) xs)
]

fresh_head : (x : Url) (have xs : List Url) → is_member x (fresh_ones (x ∷ have) xs) ≡ false
unfolding is_member
fresh_head x have xs = ground (arith, is_member-fresh_ones x (x ∷ have) xs, same_text_refl x)

pub fresh_ones-Distinct : (have xs : List Url) → Distinct (fresh_ones have xs)
unfolding fresh_ones
fresh_ones-Distinct have [] = tt
fresh_ones-Distinct have (x ∷ xs) = elim (Bool-cases (is_member x have)) [
  | inl seen ↦ rw seen (fresh_ones-Distinct have xs)
  | inr new ↦ rw new (fresh_head x have xs, fresh_ones-Distinct (x ∷ have) xs)
]

pub append-Distinct :
    (xs ys : List Url)
    → Distinct xs
    → Distinct ys
    → ((u : Url) → is_member u xs ≡ true → is_member u ys ≡ false)
    → Distinct (xs ++ ys)
unfolding is_member
append-Distinct [] ys d e h = e
append-Distinct (x ∷ xs) ys d e h = (
  ground (arith, is_member-append x xs ys, h x, same_text_refl x),
  append-Distinct xs ys d.1 e (λ u m. h u (ground arith)),
)

is_member_nil : (u : Url) → is_member u [] ≡ false
unfolding is_member
is_member_nil u = refl

-- The list after a merge has the given trackers and the embedded WebSocket ones, each once.
pub merge_ws_lem :
    (t : List Url)
    → Distinct (merge_ws t)
      × ((u : Url)
          → is_member u (merge_ws t)
            ≡ (is_member u t || (is_ws u && is_member u embedded_trackers)))
unfolding merge_ws dedup
merge_ws_lem t = (
  append-Distinct (fresh_ones [] t) added (fresh_ones-Distinct [] t) (fresh_ones-Distinct t ws)
      (λ u m.
        ground (arith, is_member_nil u, is_member-fresh_ones u [] t, is_member-fresh_ones u t ws)),
  λ u. ground (
    arith,
    is_member_nil u,
    is_member-append u (fresh_ones [] t) added,
    is_member-fresh_ones u [] t,
    is_member-fresh_ones u t ws,
    is_member-filter_by is_ws u embedded_trackers,
  ),
)
  where
    ws : List Url
    ws = filter_by is_ws embedded_trackers

    added : List Url
    added = fresh_ones t ws
