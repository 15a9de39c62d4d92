-- ===== src/FileAt/Looping.antt =====
-- `ReadAt` of internal/archive/fileat.go in its loop.
use stremio_server_go.Common.{
  ℕ, zero, suc, ◌+◌, ◌-◌, ◌≤◌, ◌<◌, ◌≡◌, refl, sym, ap, ◌∙◌, subst, true, false, List, ◌++◌, Option,
  none, some, leb, length, min, inl, inr, arith, Bool-cases, length-append,
}
use native.Mathlib.Decide.{ℕ_discrete}
use stremio_server_go.Common.Slices.{slice, length-slice}
use stremio_server_go.FileAt.Model.{
  Disk, Err, FileAt, read_found, read_from, refill, in_block, direct, read_loop, reopen_max_block,
}
use stremio_server_go.FileAt.Reading.{
  Holds, Identifies, read_found-Answer, Refilled, refill-Refilled, Ends, block_part, out-append,
  rounds, direct-Ends, rounds-le, rounds-in_block, rounds_outside, in_block_lem,
}

-- The branches of a round.
module _ (disk : ℕ → Disk) (fuel : ℕ) (r : FileAt) (off : ℕ) (out : List ℕ) (want : ℕ)
    (end : Option Err) where
  next_copied : List ℕ
  next_copied =
      slice r.buf (off + length out - r.off) (min want (length r.buf - (off + length out - r.off)))

  loop_done : want ≡ 0 → read_loop disk (suc fuel) r off out want end ≡ (r, out, end)
  unfolding read_loop
  loop_done e = ground arith

  loop_copy :
      0 < want
      → in_block r (off + length out) ≡ true
      → read_loop disk (suc fuel) r off out want end
        ≡ read_loop disk fuel r off (out ++ next_copied) (want - length next_copied) end
  unfolding read_loop next_copied
  loop_copy p i = ground arith

  loop_direct :
      0 < want
      → in_block r (off + length out) ≡ false
      → leb reopen_max_block want ≡ true
      → read_loop disk (suc fuel) r off out want end
        ≡ direct (read_from disk r want (off + length out)) out end
  unfolding read_loop
  loop_direct p i b = ground arith

  loop_refill :
      0 < want
      → in_block r (off + length out) ≡ false
      → leb reopen_max_block want ≡ false
      → (refill disk r (off + length out) want).1 ≡ none
      → read_loop disk (suc fuel) r off out want end
        ≡ read_loop disk fuel (refill disk r (off + length out) want).0 off out want end
  unfolding read_loop
  loop_refill p i b e = ground arith

  loop_fails :
      (x : Err)
      → 0 < want
      → in_block r (off + length out) ≡ false
      → leb reopen_max_block want ≡ false
      → (refill disk r (off + length out) want).1 ≡ some x
      → read_loop disk (suc fuel) r off out want end
        ≡ ((refill disk r (off + length out) want).0, out, some x)
  unfolding read_loop
  loop_fails x p i b e = ground arith

module _ (t : ℕ) (c : List ℕ) (disk : ℕ → Disk) (u : Identifies t c disk) (off : ℕ)
    (end : Option Err) where
  Finishes : ℕ → FileAt → List ℕ → ℕ → Type 0
  Finishes fuel r out want =
      Ends t c disk off (length out + want) end (read_loop disk fuel r off out want end)

  -- One round that copies from the block.
  copy-Finishes :
      (fuel : ℕ) (r : FileAt) (out : List ℕ) (want : ℕ)
      → Holds t c r
      → out ≡ slice c off (length out)
      → off + (length out + want) ≤ length c
      → rounds r (off + length out) want < suc fuel
      → 0 < want
      → in_block r (off + length out) ≡ true
      → ((v : List ℕ) (w : ℕ)
          → v ≡ slice c off (length v)
          → off + (length v + w) ≤ length c
          → rounds r (off + length v) w < fuel
          → Finishes fuel r v w)
      → Finishes (suc fuel) r out want
  unfolding Finishes next_copied
  copy-Finishes fuel r out want h o l f p i go =
      let k : ℕ = off + length out - r.off in
      let m : ℕ = min want (length r.buf - k) in
      let (after, before) = in_block_lem r (off + length out) i in
      let copied : List ℕ = slice r.buf k m in
      let same : copied ≡ slice c (off + length out) m =
        block_part t c r (off + length out) m h after (omega arith) in
      let long : length copied ≡ m = length-slice r.buf k m (omega arith) in
      let grown : length (out ++ copied) ≡ length out + length copied = length-append out copied in
      let total : length (out ++ copied) + (want - length copied) ≡ length out + want =
        omega arith in
      subst (λ q. Ends t c disk off (length out + want) end q)
        (sym (loop_copy disk fuel r off out want end p i))
        (subst
          (λ n.
            Ends t c disk off n end
              (read_loop disk fuel r off (out ++ copied) (want - length copied) end))
          total
          (go (out ++ copied) (want - length copied)
            (out-append c off m out copied o same (omega arith)) (omega arith)
            (omega (
              arith,
              rounds-le r (off + length (out ++ copied)) (want - length copied),
              rounds-in_block r (off + length out) want i,
            ))))

  refill-Finishes :
      (fuel : ℕ) (r : FileAt) (out : List ℕ) (want : ℕ)
      → Holds t c r
      → out ≡ slice c off (length out)
      → off + (length out + want) ≤ length c
      → rounds r (off + length out) want < suc fuel
      → 0 < want
      → in_block r (off + length out) ≡ false
      → leb reopen_max_block want ≡ false
      → ((s : FileAt)
          → Holds t c s
          → rounds s (off + length out) want < fuel
          → Finishes fuel s out want)
      → Finishes (suc fuel) r out want
  unfolding Finishes
  refill-Finishes fuel r out want h o l f p i b go =
      by_refill (refill disk r (off + length out) want) refl
        (refill-Refilled t c disk r (off + length out) want u h p (omega arith))
    where
      by_refill :
          (a : FileAt × Option Err)
          → refill disk r (off + length out) want ≡ a
          → Refilled t c disk (off + length out) a
          → Ends t c disk off (length out + want) end (read_loop disk (suc fuel) r off out want end)
      by_refill (s, e) q (w, inl (n, ib)) =
          subst (λ v. Ends t c disk off (length out + want) end v)
            (sym (
              loop_refill disk fuel r off out want end p i b (ap (λ v. v.1) q ∙ n)
              ∙ ap (λ v. read_loop disk fuel v.0 off out want end) q))
            (go s w (
              omega (
                arith,
                rounds-in_block s (off + length out) want ib,
                rounds_outside r (off + length out) want i,
              )))
      by_refill (s, e) q (w, inr (x, n, g, d)) =
          subst (λ v. Ends t c disk off (length out + want) end v)
            (sym (loop_fails disk fuel r off out want end x p i b (ap (λ v. v.1) q ∙ n)))
            (subst (λ v. Holds t c v.0) (sym q) w, o, inr (x, refl, g, omega arith, d))

  pub read_loop-Ends :
      (fuel : ℕ) (r : FileAt) (out : List ℕ) (want : ℕ)
      → Holds t c r
      → out ≡ slice c off (length out)
      → off + (length out + want) ≤ length c
      → rounds r (off + length out) want < fuel
      → Ends t c disk off (length out + want) end (read_loop disk fuel r off out want end)
  unfolding Finishes read_from
  read_loop-Ends zero r out want h o l f = absurd (omega arith)
  read_loop-Ends (suc fuel) r out want h o l f = elim (ℕ_discrete want 0) [
    | yes none_left ↦
        subst (λ v. Ends t c disk off (length out + want) end v)
          (sym (loop_done disk fuel r off out want end none_left)) (h, o, inl (refl, omega arith))
    | no more ↦ elim (Bool-cases (in_block r (off + length out))) [
      | inl i ↦
          copy-Finishes fuel r out want h o l f (omega arith) i
            (λ v w ov lv fv. read_loop-Ends fuel r v w h ov lv fv)
      | inr i ↦ elim (Bool-cases (leb reopen_max_block want)) [
        | inl large ↦
            subst (λ v. Ends t c disk off (length out + want) end v)
              (sym (loop_direct disk fuel r off out want end (omega arith) i large))
              (direct-Ends t c disk (record r { opens = r.opens + 1 }) off want r.opens out end
                (read_found r (disk r.opens) want (off + length out))
                (record { same_size = h.same_size; same_mtime = h.same_mtime; block = h.block }) o l
                (omega arith)
                (read_found-Answer t c r (disk r.opens) want (off + length out) h (u r.opens)
                  (omega arith)))
        | inr b ↦
            refill-Finishes fuel r out want h o l f (omega arith) i b
              (λ s w fs. read_loop-Ends fuel s out want w o l fs)
      ]
    ]
  ]
