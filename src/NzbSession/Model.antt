-- ===== src/NzbSession/Model.antt =====
-- `limitedWriter` and `Session` of internal/nzb/session.go. A file's name and an article's identifier
-- are numbers. What the server does is a parameter: `dial k` tells whether the k-th dial succeeds, and
-- `answer k id` is what the k-th BODY command, for the article `id`, brings. `dst` is the destination:
-- from the bytes written so far and those offered it gives none when it takes them all, or how many it
-- takes before its error, and whether that error is one of the network.
use stremio_server_go.Common.{
  ℕ, ◌+◌, ◌-◌, Bool, true, false, ◌||◌, not, List, [], ◌∷◌, ◌++◌, Option, none, some, ltb, leb,
  ◌==◌, if◌then◌else◌, length, take,
}
use stremio_server_go.Common.Int.{ℤ, pos, ltb_ℤ, pos_part}

pub data Err : Type 0 where
  exceeded lost rejected no_dial no_file : Err
  refused : (is_net : Bool) → Err

-- How an article's body ends. `truncated` is the end of a body without its trailer: what was decoded
-- until there is still flushed, and an error of that write ignored.
pub data Ending : Type 0 where
  complete : Ending
  broken : Err → Ending
  truncated : (flushed : List ℕ) → Ending

-- The decoded bytes that are passed to the writer, flush by flush.
pub record Answer : Type 0 where
  pub chunks : List (List ℕ)
  pub ending : Ending

pub record File : Type 0 where
  pub name : ℕ
  pub size : ℤ
  pub segments : List ℕ

abbrev pub nzb_default_max_bytes : ℕ
nzb_default_max_bytes = 53687091200

-- `out` are the bytes that the destination took.
pub record LimitedWriter : Type 0 where
  pub limit : ℕ
  pub written : ℕ
  pub out : List ℕ

pub record Session : Type 0 where
  pub files : List File
  pub client : Bool
  pub dials : ℕ
  pub bodies : ℕ

unfoldable pub file : ℕ → List File → Option File
file name [] = none
file name (f ∷ files) = if f.name == name then some f else file name files

unfoldable pub size_cap : File → ℕ
size_cap f = if ltb_ℤ (pos 0) f.size then pos_part f.size else nzb_default_max_bytes

unfoldable pub is_conn_err : Err → Bool
is_conn_err (refused is_net) = is_net
is_conn_err lost = true
is_conn_err exceeded = false
is_conn_err rejected = false
is_conn_err no_dial = false
is_conn_err no_file = false

-- The error of a write that was cut at the limit.
unfoldable pub or_exceeded : Option Err → Option Err
or_exceeded none = some exceeded
or_exceeded (some e) = some e

-- What a write to the destination leaves.
unfoldable pub taken : LimitedWriter → List ℕ → Option (ℕ × Bool) → LimitedWriter × Option Err
taken w p none = (record w { out = w.out ++ p; written = w.written + length p }, none)
taken w p (some (n, is_net)) = (
  record w { out = w.out ++ take n p; written = w.written + length (take n p) },
  some (refused is_net),
)

module _ (dst : List ℕ → List ℕ → Option (ℕ × Bool)) where
  unfoldable pub pass : LimitedWriter → List ℕ → LimitedWriter × Option Err
  pass w p = taken w p (dst w.out p)

  -- `limitedWriter.Write`
  unfoldable pub limited_write : LimitedWriter → List ℕ → LimitedWriter × Option Err
  limited_write w p =
      let (s, e) = pass w (take (w.limit - w.written) p) in
      if ltb 0 w.limit
      then (if leb w.limit w.written
          then (w, some exceeded)
          else if ltb (w.limit - w.written) (length p)
          then (s, or_exceeded e)
          else pass w p)
      else pass w p

  unfoldable pub write_chunks : LimitedWriter → List (List ℕ) → LimitedWriter × Option Err
  write_chunks w [] = (w, none)
  write_chunks w (c ∷ chunks) =
      let (s, e) = limited_write w c in
      let rest = write_chunks s chunks in elim e [ none ↦ rest | some x ↦ (s, some x) ]

  -- The end of a body, once all chunks are written.
  unfoldable pub finish : LimitedWriter → Ending → LimitedWriter × Option Err
  finish w complete = (w, none)
  finish w (broken e) = (w, some e)
  finish w (truncated c) = ((limited_write w c).0, some rejected)

  unfoldable pub body : LimitedWriter → Answer → LimitedWriter × Option Err
  body w a =
      let (s, e) = write_chunks w a.chunks in
      elim e [ none ↦ finish s a.ending | some x ↦ (s, some x) ]

abbrev pub Outcome : Type 0
Outcome = Session × LimitedWriter × Option Err

module _ (dial : ℕ → Bool) (answer : ℕ → ℕ → Answer)
    (dst : List ℕ → List ℕ → Option (ℕ × Bool)) where
  -- `sess.client.Body(seg.MessageID, w)`
  unfoldable pub ask : Session → LimitedWriter → ℕ → Outcome
  ask s w id =
      let (v, e) = body dst w (answer s.bodies id) in (record s { bodies = s.bodies + 1 }, v, e)

  -- `Dial`, and the client it gives.
  unfoldable pub connect : Session → Session
  connect s = record s { client = dial s.dials; dials = s.dials + 1 }

  -- The client is closed and dialled again, and the same segment asked for.
  unfoldable pub retry : Session → LimitedWriter → ℕ → Outcome
  retry s w id =
      let t = connect (record s { client = false }) in
      let again = ask t w id in if t.client then again else (t, w, some no_dial)

  -- One segment, with one retry after a lost connection where nothing of it was written.
  unfoldable pub deliver : Session → LimitedWriter → ℕ → Outcome
  deliver s w id =
      let (t, v, e) = ask s w id in
      let again = retry t v id in
      elim e [
        | none ↦ (t, v, none)
        | some x ↦
            if not (is_conn_err x) || not (v.written == w.written) then (t, v, some x) else again
      ]

  unfoldable pub deliver_all : Session → LimitedWriter → List ℕ → Outcome
  deliver_all s w [] = (s, w, none)
  deliver_all s w (id ∷ ids) =
      let (t, v, e) = deliver s w id in
      let rest = deliver_all t v ids in elim e [ none ↦ rest | some x ↦ (t, v, some x) ]

  -- The connection is dialled on first use.
  unfoldable pub ready : Session → Session
  ready s = if s.client then s else connect s

  -- The file `f`, with nothing written of it yet.
  unfoldable pub assemble : Session → File → Outcome
  assemble s f =
      let w : LimitedWriter = record { limit = size_cap f; written = 0; out = [] } in
      let t = ready s in
      let all = deliver_all t w f.segments in if t.client then all else (t, w, some no_dial)

  unfoldable pub assemble_file : Session → ℕ → Outcome
  assemble_file s name = elim (file name s.files) [
    | none ↦ (s, record { limit = 0; written = 0; out = [] }, some no_file)
    | some f ↦ assemble s f
  ]
