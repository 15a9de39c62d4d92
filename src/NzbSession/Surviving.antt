-- ===== src/NzbSession/Surviving.antt =====
-- Downloads with `AssembleFile` of internal/nzb/session.go from a server that may close the connection
-- between two articles.
use stremio_server_go.Common.{
  ℕ, ◌+◌, ◌≤◌, ◌≡◌, refl, sym, ap, ◌∙◌, Bool, true, ◌||◌, not, List, [], ◌∷◌, none, some, ◌==◌,
  if◌then◌else◌, length, map, inl, inr, arith, length-append,
}
use stremio_server_go.NzbSession.Model.{
  lost, no_dial, complete, broken, Answer, File, LimitedWriter, Session, file, size_cap, Outcome,
  ask, retry, connect, deliver, deliver_all, is_conn_err, ready, assemble, assemble_file,
}
use stremio_server_go.NzbSession.Delivering.{join}
use mathlib.Core.List.{append-nil}
use stremio_server_go.NzbSession.Fitting.{
  accepting, extended, Reliable, same_writer, extended-append, body_fits, body_lost,
}

module _ (dial : ℕ → Bool) (answer : ℕ → ℕ → Answer) (content : ℕ → List ℕ)
    (r : Reliable answer content) where
  ask_fits :
      (s : Session) (w : LimitedWriter) (id : ℕ)
      → (answer s.bodies id).ending ≡ complete
      → w.written + length (content id) ≤ w.limit
      → ask dial answer accepting s w id
        ≡ (record s { bodies = s.bodies + 1 }, extended w (content id), none)
  unfolding ask
  ask_fits s w id e l =
      let c : join (answer s.bodies id).chunks ≡ content id = r.same s.bodies id e in
      ap (λ v. (record s { bodies = s.bodies + 1 }, v.0, v.1))
        (body_fits w (answer s.bodies id) e (r.filled s.bodies id)
            (omega (arith, ap (λ x. length x) c))
          ∙ ap (λ x. (extended w x, none)) c)

  ask_lost :
      (s : Session) (w : LimitedWriter) (id : ℕ)
      → answer s.bodies id ≡ record { chunks = []; ending = broken lost }
      → ask dial answer accepting s w id ≡ (record s { bodies = s.bodies + 1 }, w, some lost)
  unfolding ask
  ask_lost s w id e =
      ap (λ v. (record s { bodies = s.bodies + 1 }, v.0, v.1)) (body_lost w (answer s.bodies id) e)

  after_ask :
      (s : Session) (w : LimitedWriter) (id : ℕ) (o : Outcome)
      → ask dial answer accepting s w id ≡ o
      → deliver dial answer accepting s w id ≡ (elim o.2 as (λ _. Outcome) [
        | none ↦ (o.0, o.1, none)
        | some x ↦
            if not (is_conn_err x) || not (o.1.written == w.written)
            then (o.0, o.1, some x)
            else retry dial answer accepting o.0 o.1 id
      ])
  unfolding deliver
  after_ask s w id o e =
      ap
        (λ o. elim o.2 as (λ _. Outcome) [
          | none ↦ (o.0, o.1, none)
          | some x ↦
              if not (is_conn_err x) || not (o.1.written == w.written)
              then (o.0, o.1, some x)
              else retry dial answer accepting o.0 o.1 id
        ])
        e

  same_count :
      (w : LimitedWriter) (n : ℕ) (x o : Outcome)
      → n ≡ w.written
      → (if not (is_conn_err lost) || not (n == w.written) then x else o) ≡ o
  unfolding is_conn_err
  same_count w n x o e = ground arith

  redialled :
      (s : Session) (w : LimitedWriter) (id : ℕ)
      → dial s.dials ≡ true
      → retry dial answer accepting s w id
        ≡ ask dial answer accepting (record s { client = true; dials = s.dials + 1 }) w id
  unfolding retry connect
  redialled s w id e =
      ap
        (λ b.
          if b
          then ask dial answer accepting (record s { client = b; dials = s.dials + 1 }) w id
          else (record s { client = b; dials = s.dials + 1 }, w, some no_dial))
        e

  -- One segment, whether the connection is lost or not.
  deliver_fits :
      (s : Session) (w : LimitedWriter) (id : ℕ)
      → ((k : ℕ) → dial k ≡ true)
      → w.written + length (content id) ≤ w.limit
      → (t : Session) × (deliver dial answer accepting s w id ≡ (t, extended w (content id), none))
  deliver_fits s w id d l = elim (r.either s.bodies id) [
    | inl e ↦ (
      record s { bodies = s.bodies + 1 },
      after_ask s w id (record s { bodies = s.bodies + 1 }, extended w (content id), none)
          (ask_fits s w id e l),
    )
    | inr e ↦
        let t : Session = record s { client = true; dials = s.dials + 1; bodies = s.bodies + 1 } in
        (
          record t { bodies = t.bodies + 1 },
          after_ask s w id (record s { bodies = s.bodies + 1 }, w, some lost) (ask_lost s w id e)
              ∙ same_count w w.written (record s { bodies = s.bodies + 1 }, w, some lost)
                  (retry dial answer accepting (record s { bodies = s.bodies + 1 }) w id) refl
              ∙ redialled (record s { bodies = s.bodies + 1 }) w id (d s.dials)
              ∙ ask_fits t w id (r.again s.bodies id e) l,
        )
  ]

  deliver_all_fits :
      (s : Session) (w : LimitedWriter) (ids : List ℕ)
      → ((k : ℕ) → dial k ≡ true)
      → w.written + length (join (map content ids)) ≤ w.limit
      → (t : Session) × (deliver_all dial answer accepting s w ids
          ≡ (t, extended w (join (map content ids)), none))
  unfolding deliver_all
  deliver_all_fits s w [] d l = (
    s,
    ap (λ v. (s, v, none))
        (same_writer w (extended w []) (sym (append-nil w.out)) (omega arith) refl),
  )
  deliver_all_fits s w (id ∷ ids) d l =
      let (t, e) =
        deliver_fits s w id d
          (omega (arith, length-append (content id) (join (map content ids)))) in
      let (u, g) =
        deliver_all_fits t (extended w (content id)) ids d
          (omega (arith, length-append (content id) (join (map content ids)))) in
      (
        u,
        ap
              (λ o. elim o.2 as (λ _. Outcome) [
                | none ↦ deliver_all dial answer accepting o.0 o.1 ids
                | some x ↦ (o.0, o.1, some x)
              ])
              e
            ∙ g
            ∙ ap (λ v. (u, v, none)) (extended-append w (content id) (join (map content ids))),
      )

  ready_lem :
      (s : Session) → ((k : ℕ) → dial k ≡ true) → (ready dial answer accepting s).client ≡ true
  unfolding ready connect
  ready_lem s d = ground (arith, d s.dials)

  assemble_fits :
      (s : Session) (f : File)
      → ((k : ℕ) → dial k ≡ true)
      → length (join (map content f.segments)) ≤ size_cap f
      → ((assemble dial answer accepting s f).2 ≡ none)
        × ((assemble dial answer accepting s f).1.out ≡ join (map content f.segments))
  unfolding assemble
  assemble_fits s f d l =
      let w : LimitedWriter = record { limit = size_cap f; written = 0; out = [] } in
      let t : Session = ready dial answer accepting s in
      let (u, e) = deliver_all_fits t w f.segments d (omega arith) in
      let g : assemble dial answer accepting s f
          ≡ (u, extended w (join (map content f.segments)), none) =
        ap
          (λ b.
            if b then deliver_all dial answer accepting t w f.segments else (t, w, some no_dial))
          (ready_lem s d)
        ∙ e in
      (ap (λ o. o.2) g, ap (λ o. o.1.out) g)

  -- From a server that may close the connection before any article but answers right after a dial with
  -- the whole article, where each dial succeeds, and to a destination that takes everything: a download
  -- of a file within its size cap succeeds, and its output is exactly the articles of the file in order.
  pub assemble_file-Reliable :
      (s : Session) (name : ℕ) (f : File)
      → ((k : ℕ) → dial k ≡ true)
      → file name s.files ≡ some f
      → length (join (map content f.segments)) ≤ size_cap f
      → ((assemble_file dial answer accepting s name).2 ≡ none)
        × ((assemble_file dial answer accepting s name).1.out ≡ join (map content f.segments))
  unfolding assemble_file
  assemble_file-Reliable s name f d e l = rw (e, assemble_file) (assemble_fits s f d l)
