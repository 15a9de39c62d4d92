-- ===== src/NzbSession/Files.antt =====
-- What `AssembleFile` of internal/nzb/session.go leaves in the output, whatever the server does.
use stremio_server_go.Common.{
  ℕ, ◌≤◌, ◌<◌, ◌≡◌, ◌≢◌, refl, sym, ap, ◌∙◌, Bool, true, false, List, [], ◌∷◌, ◌++◌, Option, none,
  some, if◌then◌else◌, length, map, inl, inr, arith, Bool-cases, length-append,
}
use stremio_server_go.Common.Int.{pos, ltb_ℤ}
use stremio_server_go.NzbSession.Model.{
  Err, no_dial, complete, Answer, File, LimitedWriter, Session, file, size_cap, Outcome, deliver,
  deliver_all, ready, assemble, assemble_file,
}
use stremio_server_go.NzbSession.Writing.{Wrote}
use stremio_server_go.NzbSession.Delivering.{join, text, flushed}
use stremio_server_go.NzbSession.Assembling.{Delivered, deliver-Delivered}
use mathlib.Core.List.{append_assoc, append-nil}

-- The bytes of an article are the same whenever it comes whole: the decoder has checked length and CRC.
abbrev pub Faithful : (ℕ → ℕ → Answer) → (ℕ → List ℕ) → Type 0
Faithful answer content =
    (k id : ℕ) → (answer k id).ending ≡ complete → join (answer k id).chunks ≡ content id

-- How a download ends, as for its output.
pub data Downloaded (answer : ℕ → ℕ → Answer) (content : ℕ → List ℕ) (before : List ℕ)
    (ids out : List ℕ) (e : Option Err) : Type 0 where
  every :
      e ≡ none → out ≡ before ++ join (map content ids) → Downloaded answer content before ids out e
  until :
      (done : List ℕ) (id : ℕ) (later : List ℕ) (call : ℕ) (part rest : List ℕ)
      → e ≢ none
      → ids ≡ done ++ id ∷ later
      → text (answer call id) ≡ part ++ rest
      → out ≡ before ++ (join (map content done) ++ part)
      → Downloaded answer content before ids out e

-- What the result of a download of the file `f` is like.
pub data Assembled (answer : ℕ → ℕ → Answer) (content : ℕ → List ℕ) (f : File) (r : Outcome)
    : Type 0 where
  no_connection : r.1.out ≡ [] → r.2 ≡ some no_dial → Assembled answer content f r
  downloaded :
      Downloaded answer content [] f.segments r.1.out r.2
      → length r.1.out ≤ size_cap f
      → Assembled answer content f r

whole_part :
    (answer : ℕ → ℕ → Answer) (content : ℕ → List ℕ) (w v : LimitedWriter) (id : ℕ)
    → Faithful answer content
    → Delivered answer w id (v, none)
    → v.out ≡ w.out ++ content id
whole_part answer content w v id f d = d.wrote.appended ∙ ap (λ l. w.out ++ l) (sym all)
  where
    all : content id ≡ d.wrote.part
    all =
        sym (f d.call id (d.ended refl))
        ∙ sym (append-nil (join (answer d.call id).chunks))
        ∙ ap (λ e. join (answer d.call id).chunks ++ flushed e) (sym (d.ended refl))
        ∙ d.wrote.parts
        ∙ ap (λ l. d.wrote.part ++ l) (d.wrote.whole refl)
        ∙ append-nil d.wrote.part

after_one :
    (answer : ℕ → ℕ → Answer) (content : ℕ → List ℕ) (before mid : List ℕ) (id : ℕ)
    (ids out : List ℕ) (e : Option Err)
    → mid ≡ before ++ content id
    → Downloaded answer content mid ids out e
    → Downloaded answer content before (id ∷ ids) out e
after_one answer content before mid id ids out e m (every n o) = every n (
    o
    ∙ ap (λ l. l ++ join (map content ids)) m
    ∙ append_assoc before (content id) (join (map content ids)))
after_one answer content before mid id ids out e m (until done at later call part rest n i t o) =
    until (id ∷ done) at later call part rest n (ap (λ l. id ∷ l) i) t (
      o
      ∙ ap (λ l. l ++ (join (map content done) ++ part)) m
      ∙ append_assoc before (content id) (join (map content done) ++ part)
      ∙ ap (λ l. before ++ l) (sym (append_assoc (content id) (join (map content done)) part)))

module _ (dial : ℕ → Bool) (answer : ℕ → ℕ → Answer)
    (dst : List ℕ → List ℕ → Option (ℕ × Bool)) where
  deliver_all-Downloaded :
      (content : ℕ → List ℕ)
      → Faithful answer content
      → (s : Session) (w : LimitedWriter) (ids : List ℕ)
      → Downloaded answer content w.out ids
          (deliver_all dial answer dst s w ids).1.out
          (deliver_all dial answer dst s w ids).2
  unfolding deliver_all
  deliver_all-Downloaded content f s w [] = every refl (sym (append-nil w.out))
  deliver_all-Downloaded content f s w (id ∷ ids) =
      let (t, v, e) = deliver dial answer dst s w id in
      go t v e (deliver-Delivered dial answer dst s w id) (deliver_all dial answer dst t v ids)
        (deliver_all-Downloaded content f t v ids)
    where
      go :
          (t : Session) (v : LimitedWriter) (e : Option Err)
          → Delivered answer w id (v, e)
          → (r : Outcome) → Downloaded answer content v.out ids r.1.out r.2
          → Downloaded answer content w.out
              (id ∷ ids)
              (elim e as (λ _. Outcome) [ none ↦ r | some x ↦ (t, v, some x) ]).1.out
              (elim e as (λ _. Outcome) [ none ↦ r | some x ↦ (t, v, some x) ]).2
      go t v none d r h =
          after_one answer content w.out v.out id ids r.1.out r.2
            (whole_part answer content w v id f d) h
      go t v (some x) d r h =
          until [] id ids d.call d.wrote.part d.wrote.rest (λ i. absurd cc) refl d.wrote.parts
            d.wrote.appended

  -- The count is right, and within the limit.
  deliver_all-within :
      (s : Session) (w : LimitedWriter) (ids : List ℕ)
      → w.written ≡ length w.out
      → 0 < w.limit
      → w.written ≤ w.limit
      → length (deliver_all dial answer dst s w ids).1.out ≤ w.limit
  unfolding deliver_all
  deliver_all-within s w [] h l i = omega arith
  deliver_all-within s w (id ∷ ids) h l i =
      let (t, v, e) = deliver dial answer dst s w id in
      go t v e (deliver-Delivered dial answer dst s w id).wrote
        (deliver_all dial answer dst t v ids) (deliver_all-within t v ids)
    where
      go :
          (t : Session) (v : LimitedWriter) (e : Option Err)
          → {p : List ℕ} → Wrote w p (v, e)
          → (r : Outcome)
          → (v.written ≡ length v.out
              → 0 < v.limit
              → v.written ≤ v.limit
              → length r.1.out ≤ v.limit)
          → length (elim e as (λ _. Outcome) [ none ↦ r | some x ↦ (t, v, some x) ]).1.out ≤ w.limit
      go t v none d r g = omega (
        arith,
        d.same_limit,
        d.counted,
        d.within l i,
        ap (λ x. length x) d.appended,
        length-append w.out d.part,
        g (omega (arith, d.counted, ap (λ x. length x) d.appended, length-append w.out d.part))
            (omega (arith, d.same_limit)) (omega (arith, d.same_limit, d.within l i)),
      )
      go t v (some x) d r g = omega (
        arith,
        d.counted,
        d.within l i,
        ap (λ x. length x) d.appended,
        length-append w.out d.part,
      )

  size_cap_pos : (f : File) → 0 < size_cap f
  unfolding size_cap
  size_cap_pos f = elim (Bool-cases (ltb_ℤ (pos 0) f.size)) [
    | inl e ↦ rw e (ground arith)
    | inr e ↦ rw e (omega arith)
  ]

  assemble-Assembled :
      (content : ℕ → List ℕ)
      → Faithful answer content
      → (s : Session) (f : File) → Assembled answer content f (assemble dial answer dst s f)
  unfolding assemble
  assemble-Assembled content g s f =
      go (ready dial answer dst s).client
        (downloaded (deliver_all-Downloaded content g (ready dial answer dst s) w f.segments) (
          deliver_all-within (ready dial answer dst s) w f.segments refl (size_cap_pos f)
            (omega arith)))
        (no_connection refl refl)
    where
      w : LimitedWriter
      w = record { limit = size_cap f; written = 0; out = [] }

      go :
          (b : Bool) {x y : Outcome}
          → Assembled answer content f x
          → Assembled answer content f y
          → Assembled answer content f (if b then x else y)
      go true a c = a
      go false a c = c

  -- Whatever the server and the destination do, as long as an article that comes whole always has the
  -- same bytes: the output of a download is at most the size cap long. When it succeeds the output is
  -- the articles of the file, each once and in order. When it fails, the output is the articles up to
  -- one of the file's, and a prefix of a single answer to that one; or nothing, when the dial failed.
  pub assemble_file-Assembled :
      (content : ℕ → List ℕ) (s : Session) (name : ℕ) (f : File)
      → Faithful answer content
      → file name s.files ≡ some f
      → Assembled answer content f (assemble_file dial answer dst s name)
  unfolding assemble_file
  assemble_file-Assembled content s name f g e =
      rw (e, assemble_file) (assemble-Assembled content g s f)
