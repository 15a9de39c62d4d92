-- ===== src/NzbSession/Writing.antt =====
-- What the size-capped writer of internal/nzb/session.go passes on, over any number of writes.
use stremio_server_go.Common.{
  ℕ, ◌+◌, ◌-◌, ◌≤◌, ◌<◌, ◌≡◌, ◌≢◌, refl, sym, ap, ◌∙◌, Bool, List, [], ◌++◌, Option, none, some,
  ltb, leb, length, take, drop, inl, inr, arith, Bool-cases, take-append-drop, length-take,
}
use stremio_server_go.NzbSession.Model.{
  Err, exceeded, LimitedWriter, or_exceeded, taken, pass, limited_write,
}
use mathlib.Core.List.{append_assoc, append-nil}

-- A write of `p` appended `part` to the output, a prefix of `p`, and all of it when it succeeded.
pub record Wrote (w : LimitedWriter) (p : List ℕ) (r : LimitedWriter × Option Err) : Type 0 where
  pub part : List ℕ
  pub rest : List ℕ
  pub parts : p ≡ part ++ rest
  pub appended : r.0.out ≡ w.out ++ part
  pub counted : r.0.written ≡ w.written + length part
  pub same_limit : r.0.limit ≡ w.limit
  pub whole : r.1 ≡ none → rest ≡ []
  pub within : 0 < w.limit → w.written ≤ w.limit → r.0.written ≤ w.limit

pub nothing_written : (w : LimitedWriter) (p : List ℕ) (e : Err) → Wrote w p (w, some e)
nothing_written w p e = record {
  part = [];
  rest = p;
  parts = refl;
  appended = sym (append-nil w.out);
  counted = omega arith;
  same_limit = refl;
  whole = λ h. absurd cc;
  within = λ _ h. h;
}

module _ (dst : List ℕ → List ℕ → Option (ℕ × Bool)) where
  taken-Wrote :
      (w : LimitedWriter) (p : List ℕ) (a : Option (ℕ × Bool))
      → (0 < w.limit → w.written ≤ w.limit → w.written + length p ≤ w.limit)
      → Wrote w p (taken w p a)
  unfolding taken
  taken-Wrote w p none h = record {
    part = p;
    rest = [];
    parts = sym (append-nil p);
    appended = refl;
    counted = refl;
    same_limit = refl;
    whole = λ _. refl;
    within = h;
  }
  taken-Wrote w p (some (n, is_net)) h = record {
    part = take n p;
    rest = drop n p;
    parts = sym (take-append-drop n p);
    appended = refl;
    counted = refl;
    same_limit = refl;
    whole = λ e. absurd cc;
    within = λ i j. omega (arith, h i j, length-take n p);
  }

  cut_whole : (e : Option Err) → or_exceeded e ≢ none
  unfolding or_exceeded
  cut_whole none h = absurd cc
  cut_whole (some x) h = absurd cc

  -- A write of the first bytes, whose end is an error.
  cut-Wrote :
      (w : LimitedWriter) (n : ℕ) (p : List ℕ) (s : LimitedWriter) (e : Option Err)
      → Wrote w (take n p) (s, e)
      → Wrote w p (s, or_exceeded e)
  cut-Wrote w n p s e h = record {
    part = h.part;
    rest = h.rest ++ drop n p;
    parts =
        sym (take-append-drop n p)
        ∙ ap (λ l. l ++ drop n p) h.parts
        ∙ append_assoc h.part h.rest (drop n p);
    appended = h.appended;
    counted = h.counted;
    same_limit = h.same_limit;
    whole = λ i. absurd (cut_whole e i);
    within = h.within;
  }

  pub limited_write-Wrote : (w : LimitedWriter) (p : List ℕ) → Wrote w p (limited_write dst w p)
  unfolding limited_write pass
  limited_write-Wrote w p = elim (Bool-cases (ltb 0 w.limit)) [
    | inr free ↦ rw free (taken-Wrote w p (dst w.out p) (λ i _. absurd (ground arith)))
    | inl capped ↦ elim (Bool-cases (leb w.limit w.written)) [
      | inl full ↦ rw (capped, full) (nothing_written w p exceeded)
      | inr room ↦ elim (Bool-cases (ltb (w.limit - w.written) (length p))) [
        | inl long ↦
            let q : List ℕ = take (w.limit - w.written) p in
            rw (capped, room, long)
              (cut-Wrote w (w.limit - w.written) p (taken w q (dst w.out q)).0
                (taken w q (dst w.out q)).1
                (taken-Wrote w q (dst w.out q)
                  (λ i j. omega (arith, i, j, length-take (w.limit - w.written) p))))
        | inr short ↦
            rw (capped, room, short) (taken-Wrote w p (dst w.out p) (λ i j. ground (arith, i, j)))
      ]
    ]
  ]
