-- ===== src/Assembly/Picking.antt =====
-- internal/nzb/assembly.go: `pickLocked` and `nextSegment`, which give a worker what to fetch.
use stremio_server_go.Common.{
  ℕ, zero, suc, ◌+◌, ◌-◌, ◌≤◌, ◌<◌, ◌≡◌, ◌≢◌, refl, true, false, ◌⊎◌, inl, inr, List, [], ◌∷◌,
  Option, none, some, leb, length, get_elem?, arith, Bool-cases, Option-cases, if◌then◌else◌, subst,
}
use native.Mathlib.Decide.{ℕ_discrete}
use stremio_server_go.Assembly.Model.{
  SegStatus, seg_pending, seg_inflight, seg_done, Assembly, layout_unknown, layout_parallel,
  layout_sequential, LayoutMode, is_pending, pick_scan, pick_locked, claim, next_segment, fetch,
  first_segment, any_segment,
}
use stremio_server_go.Assembly.Counts.{pend, weigh, lt-length_of_get}

-- The index that a round of the scan looks at.
abbrev wrap : ℕ → ℕ → ℕ
wrap n t = if leb n t then t - n else t

pending_of : (o : Option SegStatus) → is_pending o ≡ true → o ≡ some seg_pending
pending_of none h = cc
pending_of (some seg_pending) h = refl
pending_of (some seg_inflight) h = cc
pending_of (some seg_done) h = cc

pub pick_scan-pending :
    (state : List SegStatus) (next k i j : ℕ)
    → pick_scan state next k i ≡ some j
    → get_elem? state j ≡ some seg_pending
unfolding pick_scan
pick_scan-pending state next zero i j h = cc
pick_scan-pending state next (suc k) i j h =
    let m = wrap (length state) (next + i) in
    elim (Bool-cases (is_pending (get_elem? state m))) [
      | inl found ↦
          subst (λ t. get_elem? state t ≡ some seg_pending) (ground arith) (pending_of _ found)
      | inr other ↦ pick_scan-pending state next k (i + 1) j (rw other at h)
    ]

pick_scan-none :
    (state : List SegStatus) (next k i t : ℕ)
    → pick_scan state next k i ≡ none
    → i ≤ t
    → t < i + k
    → is_pending (get_elem? state (wrap (length state) (next + t))) ≡ false
unfolding pick_scan
pick_scan-none state next zero i t h l u = absurd (omega arith)
pick_scan-none state next (suc k) i t h l u =
    elim (Bool-cases (is_pending (get_elem? state (wrap (length state) (next + i))))) [
      | inl found ↦ ground arith
      | inr other ↦ elim (ℕ_discrete i t) [
        | yes e ↦
            subst (λ v. is_pending (get_elem? state (wrap (length state) (next + v))) ≡ false) e
              other
        | no later ↦
            pick_scan-none state next k (i + 1) t (rw other at h) (omega arith) (omega arith)
      ]
    ]

no_pending :
    (state : List SegStatus)
    → ((m : ℕ) → m < length state → is_pending (get_elem? state m) ≡ false)
    → weigh pend state ≡ 0
no_pending [] h = refl
no_pending (seg_pending ∷ xs) h = cc (h 0 (omega arith))
no_pending (seg_inflight ∷ xs) h = omega (arith, no_pending xs (λ m l. h (suc m) (omega arith)))
no_pending (seg_done ∷ xs) h = omega (arith, no_pending xs (λ m l. h (suc m) (omega arith)))

-- The scan starts at the cursor, wraps round, and misses no index.
pick_scan-covers :
    (state : List SegStatus) (next m : ℕ)
    → next ≤ length state
    → pick_scan state next (length state) 0 ≡ none
    → m < length state
    → is_pending (get_elem? state m) ≡ false
pick_scan-covers state next m c h l = elim (Bool-cases (leb next m)) [
  | inl ahead ↦
      let r = pick_scan-none state next (length state) 0 (m - next) h (omega arith) (omega arith) in
      subst (λ v. is_pending (get_elem? state v) ≡ false) (ground arith) r
  | inr behind ↦
      let t = length state + m - next in
      let r = pick_scan-none state next (length state) 0 t h (omega arith) (ground arith) in
      subst (λ v. is_pending (get_elem? state v) ≡ false) (ground arith) r
]

-- `pickLocked`, with its cursor in range, claims a pending segment, whatever the cursor, and answers
-- -1 only when no segment is pending; then it changes nothing.
pub pick_locked_complete :
    (a : Assembly)
    → a.next ≤ length a.state
    → (pick_locked a ≡ (a, none)) × (weigh pend a.state ≡ 0)
      ⊎ (j k : ℕ) × (pick_locked a ≡ (record (claim a j) { next = k }, some j))
        × (get_elem? a.state j ≡ some seg_pending)
        × (k < length a.state)
unfolding pick_locked
pick_locked_complete a c = elim (Option-cases (pick_scan a.state a.next (length a.state) 0)) [
  | inl none_left ↦ inl (
    rw (none_left, pick_locked) refl,
    no_pending a.state λ m l. pick_scan-covers a.state a.next m c none_left l,
  )
  | inr (j, found) ↦
      let p = pick_scan-pending a.state a.next (length a.state) 0 j found in
      let l = lt-length_of_get a.state j seg_pending p in
      inr (
        j,
        (if leb (length a.state) (j + 1) then 0 else j + 1),
        rw (found, pick_locked) refl,
        p,
        ground arith,
      )
]

-- What `nextSegment` hands out, and what it changes.
pub record Claimed (a : Assembly) (idx : ℕ) (b : Assembly) : Type 0 where
  pub cursor : ℕ
  pub same : b ≡ record (claim a idx) { next = cursor }
  pub in_range : cursor ≤ length a.state
  pub was_pending : get_elem? a.state idx ≡ some seg_pending
  pub running : a.complete ≡ false
  pub first : a.layout ≡ layout_unknown → idx ≡ 0

pub first_segment-Claimed :
    (a b : Assembly) (idx : ℕ)
    → a.next ≤ length a.state
    → a.complete ≡ false
    → first_segment a ≡ (b, fetch idx)
    → Claimed a idx b
unfolding first_segment
first_segment-Claimed a b idx c r h = record {
  cursor = a.next;
  same = ground arith;
  in_range = c;
  was_pending = ground (arith, pending_of (get_elem? a.state 0));
  running = r;
  first = λ _. ground arith;
}

any_segment-Claimed :
    (a b : Assembly) (idx : ℕ)
    → a.next ≤ length a.state
    → a.complete ≡ false
    → a.layout ≢ layout_unknown
    → any_segment a ≡ (b, fetch idx)
    → Claimed a idx b
unfolding any_segment
any_segment-Claimed a b idx c r u h = elim (pick_locked_complete a c) [
  | inl (e, _) ↦ absurd (ground (arith, e))
  | inr (j, k, e, p, l) ↦
      let i : j ≡ idx = ground (arith, e) in
      record {
        cursor = k;
        same = ground (arith, e);
        in_range = omega arith;
        was_pending = subst (λ t. get_elem? a.state t ≡ some seg_pending) i p;
        running = r;
        first = λ w. absurd (u w);
      }
]

-- A worker is only handed a segment that was pending, of an assembly still running; and the first
-- segment, alone, while the layout is not known.
pub next_segment-Claimed :
    (a b : Assembly) (id idx : ℕ)
    → a.next ≤ length a.state
    → next_segment a id ≡ (b, fetch idx)
    → Claimed a idx b
unfolding next_segment
next_segment-Claimed a b id idx c h =
    let r : a.complete ≡ false = ground arith in by_layout a.layout refl r
  where
    by_layout : (m : LayoutMode) → a.layout ≡ m → a.complete ≡ false → Claimed a idx b
    by_layout layout_unknown e r = first_segment-Claimed a b idx c r (ground arith)
    by_layout layout_parallel e r = any_segment-Claimed a b idx c r (λ w. cc (e, w)) (ground arith)
    by_layout layout_sequential e r =
        any_segment-Claimed a b idx c r (λ w. cc (e, w)) (ground arith)
