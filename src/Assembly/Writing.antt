-- ===== src/Assembly/Writing.antt =====
-- internal/nzb/assembly.go: how the steps of a worker leave what is written.
use stremio_server_go.Common.{
  ℕ, ◌+◌, ◌≤◌, ◌≡◌, inl, inr, List, ◌∷◌, ◌++◌, some, arith, ap, subst, length,
}
use stremio_server_go.Common.Weigh.{All-imp, All-middle, All-insert}
use stremio_server_go.Assembly.Extents.{Extent}
use stremio_server_go.Assembly.Model.{Assembly, claim, fetch, next_segment}
use stremio_server_go.Assembly.Picking.{next_segment-Claimed}
use stremio_server_go.Assembly.Layout.{YencHeader, SegWriter, Opened, opened, open_segment, write}
use stremio_server_go.Assembly.System.{Job, begin_writing, claimed}
use stremio_server_go.Assembly.Placement.{Framed}
use stremio_server_go.Assembly.Written.{
  RoomBy, Ends, Within, Wrote, Written, Ends-Within, Within-step, write_lem, open_segment-off,
  open_segment-room, open_segment-known,
}

pub Framed-Written :
    (a b : Assembly) (js : List Job) (ws : List Extent)
    → Framed a b
    → Written a js ws
    → Written b js ws
Framed-Written a b js ws f v = record {
  inside = rw (f.layout_same, f.total_same) v.inside;
  wrote = v.wrote;
  backed = rw f.covered_same v.backed;
}

pub claiming-Written :
    (a b : Assembly) (js : List Job) (ws : List Extent) (id idx : ℕ)
    → a.next ≤ length a.state
    → next_segment a id ≡ (b, fetch idx)
    → Written a js ws
    → Written b (claimed id idx ∷ js) ws
unfolding claim
claiming-Written a b js ws id idx cursor h v =
    let c = next_segment-Claimed a b id idx cursor h in
    rw c.same (record {
      inside =
          Within-step a.layout a.total ws ws js (claimed id idx ∷ js)
            (λ bound i. (i.0, (omega arith, i.1))) v.inside;
      wrote = ((λ e x. cc), v.wrote);
      backed = v.backed;
    })

pub forgetting-Written :
    (a : Assembly) (pre post : List Job) (j : Job) (ws : List Extent)
    → Written a (pre ++ j ∷ post) ws
    → Written a (pre ++ post) ws
forgetting-Written a pre post j ws v = record {
  inside =
      Within-step a.layout a.total ws ws (pre ++ j ∷ post) (pre ++ post)
        (λ bound i. (i.0, (All-middle (RoomBy bound) pre post j i.1).1)) v.inside;
  wrote = (All-middle (Wrote ws) pre post j v.wrote).1;
  backed = v.backed;
}

-- A further write keeps what earlier ones wrote.
Wrote-more : (ws : List Extent) (d : Extent) (j : Job) → Wrote ws j → Wrote (d ∷ ws) j
Wrote-more ws d j h e x = ((h e x).0, λ y l u. let c = (h e x).1 y l u in ground (arith, c))

pub writing-Written :
    (a : Assembly) (pre post : List Job) (j : Job) (len done at : ℕ) (w : SegWriter)
    (ws : List Extent)
    → done ≤ len
    → write j.writer len done ≡ some (at, w)
    → Written a (pre ++ j ∷ post) ws
    → Written a
        (pre ++ record j { writer = w; taken = j.taken + done } ∷ post)
        (record { start = at; end = at + done } ∷ ws)
writing-Written a pre post j len done at w ws l p v =
    let d : Extent = record { start = at; end = at + done } in
    let k : Job = record j { writer = w; taken = j.taken + done } in
    let q = write_lem j.writer len done at w l p in
    let m = All-middle (Wrote ws) pre post j v.wrote in
    let mine : Wrote (d ∷ ws) k =
      λ e x. (omega (arith, q, (m.0 e x).0), λ y b u. ground (arith, q, (m.0 e x).1 y b)) in
    record {
      inside =
          Within-step a.layout a.total ws (d ∷ ws) (pre ++ j ∷ post) (pre ++ k ∷ post)
            (λ bound i.
              let r = All-middle (RoomBy bound) pre post j i.1 in
              (
                (omega (arith, q, r.0), i.0),
                All-insert (RoomBy bound) pre post k (omega (arith, q, r.0)) r.1,
              ))
            v.inside;
      wrote =
          All-insert (Wrote (d ∷ ws)) pre post k mine
            (All-imp (Wrote ws) (Wrote (d ∷ ws)) (pre ++ post) (Wrote-more ws d) m.1);
      backed = λ x c. let o = v.backed x c in ground (arith, o);
    }

-- The bound that holds before an article's headers are read holds after.
known-Within :
    (a : Assembly) (id : ℕ) (h : YencHeader) (ws : List Extent) (js : List Job)
    → Within a.layout a.total ws js
    → (let b = (open_segment a id h).0 in Within b.layout b.total ws js)
known-Within a id h ws js i = elim (open_segment-known a id h).1 [
  | inl unknown ↦ Ends-Within _ _ ws js (rw unknown at i)
  | inr (l, t) ↦ rw (l, t) i
]

pub refusing-Written :
    (a b : Assembly) (id : ℕ) (h : YencHeader) (o : Opened) (js : List Job) (ws : List Extent)
    → open_segment a id h ≡ (b, o)
    → Written a js ws
    → Written b js ws
refusing-Written a b id h o js ws e v =
    subst (λ t. Written t js ws) (ap (λ (t : Assembly × Opened). t.0) e)
      (record {
        inside = known-Within a id h ws js v.inside;
        wrote = v.wrote;
        backed = rw ((open_segment-known a id h).0) v.backed;
      })

pub opening-Written :
    (a b : Assembly) (id : ℕ) (h : YencHeader) (w : SegWriter) (e : Extent) (pre post : List Job)
    (j : Job) (ws : List Extent)
    → open_segment a id h ≡ (b, opened w e)
    → Written a (pre ++ j ∷ post) ws
    → Written b (pre ++ begin_writing j w e ∷ post) ws
opening-Written a b id h w e pre post j ws o v =
    let k = begin_writing j w e in
    let u =
      forgetting-Written b pre post j ws
        (refusing-Written a b id h (opened w e) (pre ++ j ∷ post) ws o v) in
    let fresh : Wrote ws k = λ f x.
      let same : e ≡ f = cc x in
      let off = open_segment-off a b id h w e o in
      (ground (arith, same, off), λ y l r. absurd (ground (arith, same, off, l, r))) in
    record {
      inside = elim (open_segment-room a b id h w e o) [
        | inl seq ↦ rw seq tt
        | inr (par, room) ↦
            let i : Ends b.total ws (pre ++ post) = rw par at u.inside in
            rw par (i.0, All-insert (RoomBy b.total) pre post k room i.1)
      ];
      wrote = All-insert (Wrote ws) pre post k fresh u.wrote;
      backed = u.backed;
    }
