-- ===== src/NzbSession/Fitting.antt =====
-- Writes that fit the cap of internal/nzb/session.go, to a destination that takes everything.
use stremio_server_go.Common.{
  ℕ, ◌+◌, ◌≤◌, ◌<◌, ◌≡◌, refl, sym, ap, ◌∙◌, Bool, List, [], ◌∷◌, ◌++◌, Option, none, some, length,
  ◌⊎◌, arith, length-append,
}
use stremio_server_go.Common.Weigh.{All}
use stremio_server_go.NzbSession.Model.{
  Err, lost, complete, broken, Answer, LimitedWriter, limited_write, pass, taken, write_chunks,
  finish, body,
}
use stremio_server_go.NzbSession.Delivering.{join}
use mathlib.Core.List.{append_assoc, append-nil}

-- A destination that takes everything.
abbrev pub accepting : List ℕ → List ℕ → Option (ℕ × Bool)
accepting out p = none

-- The writer after `p` has been written.
abbrev pub extended : LimitedWriter → List ℕ → LimitedWriter
extended w p = record w { out = w.out ++ p; written = w.written + length p }

-- Every answer is the whole article, in chunks that are not empty, or a lost connection before its
-- first byte; and a BODY after a lost one is answered.
pub record Reliable (answer : ℕ → ℕ → Answer) (content : ℕ → List ℕ) : Type 0 where
  pub either :
      (k id : ℕ)
      → ((answer k id).ending ≡ complete)
        ⊎ (answer k id ≡ record { chunks = []; ending = broken lost })
  pub same : (k id : ℕ) → (answer k id).ending ≡ complete → join (answer k id).chunks ≡ content id
  pub filled : (k id : ℕ) → All (λ c. 0 < length c) (answer k id).chunks
  pub again :
      (k id : ℕ)
      → answer k id ≡ record { chunks = []; ending = broken lost }
      → (answer (k + 1) id).ending ≡ complete

pub same_writer :
    (w v : LimitedWriter) → w.out ≡ v.out → w.written ≡ v.written → w.limit ≡ v.limit → w ≡ v
same_writer w v a b c = λ i. record { limit = c i; written = b i; out = a i }

pub extended-append :
    (w : LimitedWriter) (p q : List ℕ) → extended (extended w p) q ≡ extended w (p ++ q)
extended-append w p q =
    same_writer (extended (extended w p) q) (extended w (p ++ q)) (append_assoc w.out p q)
      (omega (arith, length-append p q)) refl

pub limited_write_fits :
    (w : LimitedWriter) (p : List ℕ)
    → 0 < length p
    → w.written + length p ≤ w.limit
    → limited_write accepting w p ≡ (extended w p, none)
unfolding limited_write pass taken
limited_write_fits w p h l = ground arith

pub write_chunks_fit :
    (w : LimitedWriter) (chunks : List (List ℕ))
    → All (λ c. 0 < length c) chunks
    → w.written + length (join chunks) ≤ w.limit
    → write_chunks accepting w chunks ≡ (extended w (join chunks), none)
unfolding write_chunks
write_chunks_fit w [] h l =
    ap (λ v. (v, none)) (same_writer w (extended w []) (sym (append-nil w.out)) (omega arith) refl)
write_chunks_fit w (c ∷ chunks) h l =
    ap
      (λ r. elim r.1 as (λ _. LimitedWriter × Option Err) [
        | none ↦ write_chunks accepting r.0 chunks
        | some x ↦ (r.0, some x)
      ])
      (limited_write_fits w c h.0 (omega (arith, length-append c (join chunks))))
    ∙ write_chunks_fit (extended w c) chunks h.1 (omega (arith, length-append c (join chunks)))
    ∙ ap (λ v. (v, none)) (extended-append w c (join chunks))

pub body_fits :
    (w : LimitedWriter) (a : Answer)
    → a.ending ≡ complete
    → All (λ c. 0 < length c) a.chunks
    → w.written + length (join a.chunks) ≤ w.limit
    → body accepting w a ≡ (extended w (join a.chunks), none)
unfolding body finish
body_fits w a e h l =
    ap
      (λ r. elim r.1 as (λ _. LimitedWriter × Option Err) [
        | none ↦ finish accepting r.0 a.ending
        | some x ↦ (r.0, some x)
      ])
      (write_chunks_fit w a.chunks h l)
    ∙ ap (finish accepting (extended w (join a.chunks))) e

pub body_lost :
    (w : LimitedWriter) (a : Answer)
    → a ≡ record { chunks = []; ending = broken lost }
    → body accepting w a ≡ (w, some lost)
unfolding body write_chunks finish
body_lost w a e = ap (body accepting w) e
