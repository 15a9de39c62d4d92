-- ===== src/NzbSession/Delivering.antt =====
-- What the body of an article, and a segment with its retry, leave in the output
-- (internal/nzb/session.go).
use stremio_server_go.Common.{
  ℕ, ◌≡◌, refl, sym, ap, ◌∙◌, Bool, List, [], ◌∷◌, ◌++◌, Option, none, some, length, arith,
  length-append,
}
use stremio_server_go.NzbSession.Model.{
  Err, rejected, Ending, complete, broken, truncated, Answer, LimitedWriter, limited_write,
  write_chunks, finish, body,
}
use stremio_server_go.NzbSession.Writing.{Wrote, limited_write-Wrote, nothing_written}
use mathlib.Core.List.{append_assoc, append-nil}

abbrev pub join : List (List ℕ) → List ℕ
join [] = []
join (c ∷ cs) = c ++ join cs

-- The bytes that follow the chunks.
abbrev pub flushed : Ending → List ℕ
flushed complete = []
flushed (broken e) = []
flushed (truncated c) = c

-- All the bytes of an answer.
abbrev pub text : Answer → List ℕ
text a = join a.chunks ++ flushed a.ending

-- A write of `p` that succeeds, and then one of `q`.
then-Wrote :
    (w s : LimitedWriter) (p q : List ℕ) (r : LimitedWriter × Option Err)
    → Wrote w p (s, none)
    → Wrote s q r
    → Wrote w (p ++ q) r
then-Wrote w s p q r h k = record {
  part = p ++ k.part;
  rest = k.rest;
  parts = ap (λ l. p ++ l) k.parts ∙ sym (append_assoc p k.part k.rest);
  appended =
      k.appended
      ∙ ap (λ l. l ++ k.part) (h.appended ∙ ap (λ l. w.out ++ l) all)
      ∙ append_assoc w.out p k.part;
  counted = omega (arith, k.counted, h.counted, length-append p k.part, ap (λ l. length l) all);
  same_limit = k.same_limit ∙ h.same_limit;
  whole = k.whole;
  within = λ i j. omega (arith, h.same_limit, h.within i j, k.within (omega (arith, h.same_limit)));
}
  where
    all : h.part ≡ p
    all = sym (h.parts ∙ ap (λ l. h.part ++ l) (h.whole refl) ∙ append-nil h.part)

-- A write of `p` that failed, as one of `p ++ q`.
cut_short :
    (w s : LimitedWriter) (p q : List ℕ) (x : Err)
    → Wrote w p (s, some x)
    → Wrote w (p ++ q) (s, some x)
cut_short w s p q x h = record {
  part = h.part;
  rest = h.rest ++ q;
  parts = ap (λ l. l ++ q) h.parts ∙ append_assoc h.part h.rest q;
  appended = h.appended;
  counted = h.counted;
  same_limit = h.same_limit;
  whole = λ i. absurd cc;
  within = h.within;
}

-- The error of a write replaced by another one.
failed_anyway :
    (w : LimitedWriter) (p : List ℕ) (r : LimitedWriter × Option Err) (x : Err)
    → Wrote w p r
    → Wrote w p (r.0, some x)
failed_anyway w p r x h = record {
  part = h.part;
  rest = h.rest;
  parts = h.parts;
  appended = h.appended;
  counted = h.counted;
  same_limit = h.same_limit;
  whole = λ i. absurd cc;
  within = h.within;
}

module _ (dst : List ℕ → List ℕ → Option (ℕ × Bool)) where
  pub write_chunks-Wrote :
      (w : LimitedWriter) (chunks : List (List ℕ))
      → Wrote w (join chunks) (write_chunks dst w chunks)
  unfolding write_chunks
  write_chunks-Wrote w [] = record {
    part = [];
    rest = [];
    parts = refl;
    appended = sym (append-nil w.out);
    counted = omega arith;
    same_limit = refl;
    whole = λ _. refl;
    within = λ _ h. h;
  }
  write_chunks-Wrote w (c ∷ chunks) =
      go (limited_write dst w c) (limited_write-Wrote dst w c)
        (write_chunks dst (limited_write dst w c).0 chunks)
        (write_chunks-Wrote (limited_write dst w c).0 chunks)
    where
      go :
          (r : LimitedWriter × Option Err)
          → Wrote w c r
          → (t : LimitedWriter × Option Err) → Wrote r.0 (join chunks) t
          → Wrote w (c ++ join chunks) (elim r.1 [ none ↦ t | some x ↦ (r.0, some x) ])
      go (s, none) h t k = then-Wrote w s c (join chunks) t h k
      go (s, some x) h t k = cut_short w s c (join chunks) x h

  finish-Wrote : (w : LimitedWriter) (e : Ending) → Wrote w (flushed e) (finish dst w e)
  unfolding finish write_chunks
  finish-Wrote w complete = write_chunks-Wrote w []
  finish-Wrote w (broken e) = nothing_written w [] e
  finish-Wrote w (truncated c) =
      failed_anyway w c (limited_write dst w c) rejected (limited_write-Wrote dst w c)

  pub body-Wrote : (w : LimitedWriter) (a : Answer) → Wrote w (text a) (body dst w a)
  unfolding body
  body-Wrote w a = go (write_chunks dst w a.chunks) (write_chunks-Wrote w a.chunks)
    where
      go :
          (r : LimitedWriter × Option Err)
          → Wrote w (join a.chunks) r
          → Wrote w (text a) (elim r.1 [ none ↦ finish dst r.0 a.ending | some x ↦ (r.0, some x) ])
      go (s, none) h =
          then-Wrote w s (join a.chunks) (flushed a.ending) (finish dst s a.ending) h
            (finish-Wrote s a.ending)
      go (s, some x) h = cut_short w s (join a.chunks) (flushed a.ending) x h
