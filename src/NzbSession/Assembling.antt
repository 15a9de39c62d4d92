-- ===== src/NzbSession/Assembling.antt =====
-- `AssembleFile` of internal/nzb/session.go: what is in the output, whatever the server does.
use stremio_server_go.Common.{
  ℕ, ◌≡◌, refl, sym, ap, ◌∙◌, subst, Bool, false, ◌||◌, not, List, [], ◌∷◌, ◌++◌, Option, none,
  some, ◌==◌, length, ◌⊎◌, inl, inr, arith, Bool-cases, Option-cases,
}
use stremio_server_go.NzbSession.Model.{
  Err, no_dial, Ending, complete, broken, truncated, Answer, LimitedWriter, Session, write_chunks,
  finish, body, Outcome, ask, connect, retry, deliver, is_conn_err,
}
use stremio_server_go.NzbSession.Writing.{Wrote, nothing_written}
use stremio_server_go.NzbSession.Delivering.{text, body-Wrote}
use mathlib.Core.List.{append-nil}

length_zero : (l : List ℕ) → length l ≡ 0 → l ≡ []
length_zero [] h = refl
length_zero (x ∷ l) h = absurd (omega arith)

-- A write that did not change the count changed nothing.
pub unchanged :
    (w : LimitedWriter) (p : List ℕ) (r : LimitedWriter × Option Err)
    → Wrote w p r
    → r.0.written ≡ w.written
    → r.0 ≡ w
unchanged w p r h e = same r.0 h.same_limit e (
    h.appended
    ∙ ap (λ l. w.out ++ l) (length_zero h.part (omega (arith, h.counted)))
    ∙ append-nil w.out)
  where
    same : (v : LimitedWriter) → v.limit ≡ w.limit → v.written ≡ w.written → v.out ≡ w.out → v ≡ w
    same v a b c = λ i. record { limit = a i; written = b i; out = c i }

pub body_complete :
    (dst : List ℕ → List ℕ → Option (ℕ × Bool)) (w : LimitedWriter) (a : Answer)
    → (body dst w a).1 ≡ none
    → a.ending ≡ complete
unfolding body finish
body_complete dst w a = go (write_chunks dst w a.chunks) a.ending
  where
    go :
        (r : LimitedWriter × Option Err) (e : Ending)
        → (elim r.1 as (λ _. LimitedWriter × Option Err) [
          | none ↦ finish dst r.0 e
          | some x ↦ (r.0, some x)
        ]).1
          ≡ none
        → e ≡ complete
    go (s, some x) e h = absurd cc
    go (s, none) complete h = refl
    go (s, none) (broken x) h = absurd cc
    go (s, none) (truncated c) h = absurd cc

-- Of some answer to the article `id` a prefix was written, and the whole complete answer when there was
-- no error.
pub record Delivered (answer : ℕ → ℕ → Answer) (w : LimitedWriter) (id : ℕ)
    (r : LimitedWriter × Option Err) : Type 0 where
  pub call : ℕ
  pub wrote : Wrote w (text (answer call id)) r
  pub ended : r.1 ≡ none → (answer call id).ending ≡ complete

abbrev pub Ended : (ℕ → ℕ → Answer) → LimitedWriter → ℕ → Outcome → Type 0
Ended answer w id r = Delivered answer w id (r.1, r.2)

module _ (dial : ℕ → Bool) (answer : ℕ → ℕ → Answer)
    (dst : List ℕ → List ℕ → Option (ℕ × Bool)) where
  pub ask-Wrote :
      (s : Session) (w : LimitedWriter) (id : ℕ)
      → Wrote w
          (text (answer s.bodies id))
          ((ask dial answer dst s w id).1, (ask dial answer dst s w id).2)
  unfolding ask
  ask-Wrote s w id = body-Wrote dst w (answer s.bodies id)

  ask-Delivered :
      (s : Session) (w : LimitedWriter) (id : ℕ) → Ended answer w id (ask dial answer dst s w id)
  unfolding ask
  ask-Delivered s w id = record {
    call = s.bodies;
    wrote = body-Wrote dst w (answer s.bodies id);
    ended = body_complete dst w (answer s.bodies id);
  }

  retry-Delivered :
      (s : Session) (w : LimitedWriter) (id : ℕ) → Ended answer w id (retry dial answer dst s w id)
  unfolding retry connect ask
  retry-Delivered s w id =
      elim (Bool-cases (connect dial answer dst (record s { client = false })).client) [
        | inl e ↦ rw e (ask-Delivered (connect dial answer dst (record s { client = false })) w id)
        | inr e ↦ rw e (record {
          call = 0;
          wrote = nothing_written w (text (answer 0 id)) no_dial;
          ended = λ h. absurd cc;
        })
      ]

  pub deliver_ok :
      (s : Session) (w : LimitedWriter) (id : ℕ)
      → (ask dial answer dst s w id).2 ≡ none
      → deliver dial answer dst s w id ≡ ask dial answer dst s w id
  unfolding deliver
  deliver_ok s w id e = ground arith

  pub deliver-cases :
      (s : Session) (w : LimitedWriter) (id : ℕ) (x : Err)
      → (ask dial answer dst s w id).2 ≡ some x
      → (deliver dial answer dst s w id ≡ ask dial answer dst s w id)
        ⊎ (((ask dial answer dst s w id).1.written ≡ w.written)
            × (deliver dial answer dst s w id
                ≡ retry dial answer dst
                    (ask dial answer dst s w id).0
                    (ask dial answer dst s w id).1
                    id))
  unfolding deliver
  deliver-cases s w id x e =
      elim (Bool-cases
        (not (is_conn_err x) || not ((ask dial answer dst s w id).1.written == w.written))) [
          | inl stop ↦ inl (ground arith)
          | inr go ↦ inr (ground arith, ground arith)
        ]

  pub deliver-Delivered :
      (s : Session) (w : LimitedWriter) (id : ℕ)
      → Ended answer w id (deliver dial answer dst s w id)
  deliver-Delivered s w id = elim (Option-cases (ask dial answer dst s w id).2) [
    | inl e ↦ subst (Ended answer w id) (sym (deliver_ok s w id e)) (ask-Delivered s w id)
    | inr (x, e) ↦ elim (deliver-cases s w id x e) [
      | inl d ↦ subst (Ended answer w id) (sym d) (ask-Delivered s w id)
      | inr (z, d) ↦
          let (t, v, o) = ask dial answer dst s w id in
          let u : v ≡ w = unchanged w (text (answer s.bodies id)) (v, o) (ask-Wrote s w id) z in
          subst (Ended answer w id) (sym d) (
            subst (λ y. Ended answer y id (retry dial answer dst t v id)) u
              (retry-Delivered t v id))
    ]
  ]
