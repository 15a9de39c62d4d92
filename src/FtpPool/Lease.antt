-- ===== src/FtpPool/Lease.antt =====
-- The lease of a session by one request, of internal/ftpstream/pool.go and ftpstream.go: the request's
-- goroutine and the hook that runs when its context is done. A connection is a number; times and the
-- bytes of the transfer are left out.
use stremio_server_go.Common.{
  ℕ, ◌+◌, ◌≡◌, Bool, true, false, ◌&&◌, ◌||◌, not, List, [], ◌∷◌, leb, ◌==◌, if◌then◌else◌,
}

-- `leaseOpening`, `leaseTransferring` and `leaseAborted`.
pub data Phase : Type 0 where
  opening transferring aborted : Phase

-- How far the hook of context.AfterFunc is: registered, stopped before it ran, running, past the closing
-- of the data connections, done.
pub data Hook : Type 0 where
  waiting stopped fired data_closed finished : Hook

-- The request is opening the transfer, its caller reads the stream, or the session was given up.
pub data Request : Type 0 where
  opens streams over : Request

-- How a command of the control connection ends: a reply of the server with its code, a broken
-- connection, or a data connection that could not be dialled.
pub data Failure : Type 0 where
  no_error transport data_dial : Failure
  reply : (code : ℕ) → Failure

pub record FtpConns : Type 0 where
  pub conns : List ℕ
  pub closed : Bool

pub record FtpLease : Type 0 where
  pub phase : Phase
  pub data_conns : FtpConns
  pub ctl : FtpConns
  pub hook : Hook
  pub request : Request
  pub parks : ℕ
  pub discards : ℕ

unfoldable pub ftp_reply_synced : Failure → Bool
ftp_reply_synced no_error = true
ftp_reply_synced transport = false
ftp_reply_synced data_dial = false
ftp_reply_synced (reply code) = leb 200 code && not (code == 421)

unfoldable pub ftp_reply_refused : Failure → Bool
ftp_reply_refused no_error = false
ftp_reply_refused transport = false
ftp_reply_refused data_dial = false
ftp_reply_refused (reply code) = not (code == 421 || (code == 530 || code == 532)) && leb 400 code

unfoldable pub ftp_session_healthy : Failure → Bool
ftp_session_healthy no_error = false
ftp_session_healthy transport = false
ftp_session_healthy data_dial = true
ftp_session_healthy (reply code) = ftp_reply_refused (reply code)

-- `ftpConns.add`: whether the connection was taken; it is closed when it was not.
unfoldable pub add_conn : FtpConns → ℕ → FtpConns × Bool
add_conn t c = if t.closed then (t, false) else (record t { conns = c ∷ t.conns }, true)

unfoldable pub close_all : FtpConns → FtpConns
close_all t = record { conns = []; closed = true }

unfoldable pub bind : FtpConns → FtpLease
bind ctl = record {
  phase = opening;
  data_conns = record { conns = []; closed = false };
  ctl = ctl;
  hook = waiting;
  request = opens;
  parks = 0;
  discards = 0;
}

-- The compare-and-swap of the hook, which closes the control connection when it wins.
unfoldable pub abort : Phase → FtpLease → FtpLease
abort opening l = record l { phase = aborted; ctl = close_all l.ctl; hook = finished }
abort transferring l = record l { hook = finished }
abort aborted l = record l { hook = finished }

-- The compare-and-swap of `beginTransfer`.
unfoldable pub begin_transfer : FtpLease → FtpLease × Bool
begin_transfer l = elim l.phase [
  | opening ↦ (record l { phase = transferring }, true)
  | transferring ↦ (l, false)
  | aborted ↦ (l, false)
]

-- What `stop` returns, and the hook after it.
unfoldable pub stop : Hook → Hook × Bool
stop waiting = (stopped, true)
stop stopped = (stopped, false)
stop fired = (fired, false)
stop data_closed = (data_closed, false)
stop finished = (finished, false)

-- The start of `ftpPoolPut`: the session leaves the request for the pool.
unfoldable pub park_session : FtpLease → FtpLease
park_session l = record l {
  data_conns = close_all l.data_conns;
  request = over;
  parks = l.parks + 1;
}

unfoldable pub discard : FtpLease → FtpLease
discard l = record l {
  data_conns = close_all l.data_conns;
  ctl = close_all l.ctl;
  request = over;
  discards = l.discards + 1;
}

-- `fail` and `refused` of `open`.
unfoldable pub fail : FtpLease → FtpLease
fail l = discard (record l { hook = (stop l.hook).0 })

unfoldable pub refused : FtpLease → FtpLease
refused l =
    let s : FtpLease = record l { hook = (stop l.hook).0 } in
    if (stop l.hook).1 then park_session s else discard s

-- The end of an open whose RETR failed.
unfoldable pub retr_failed : Failure → FtpLease → FtpLease
retr_failed e l = if ftp_session_healthy e then refused l else fail l

-- The end of an open whose RETR succeeded.
unfoldable pub retr_done : FtpLease → FtpLease
retr_done l =
    let (s, won) = begin_transfer l in if won then record s { request = streams } else fail s

-- `ftpReadCloser.Close`, the first time.
unfoldable pub close_stream : Failure → FtpLease → FtpLease
close_stream e l =
    let s : FtpLease = record l { hook = (stop l.hook).0 } in
    if ftp_reply_synced e && not l.ctl.closed then park_session s else discard s

-- The steps of the request and of the hook, in any order.
pub data Step (l : FtpLease) : FtpLease → Type 0 where
  cancelled : l.hook ≡ waiting → Step l (record l { hook = fired })
  hook_data :
      l.hook ≡ fired → Step l (record l { data_conns = close_all l.data_conns; hook = data_closed })
  hook_phase : l.hook ≡ data_closed → Step l (abort l.phase l)
  dialled_ctl : (c : ℕ) → l.request ≡ opens → Step l (record l { ctl = (add_conn l.ctl c).0 })
  dialled_data :
      (c : ℕ) → l.request ≡ opens → Step l (record l { data_conns = (add_conn l.data_conns c).0 })
  failed : l.request ≡ opens → Step l (fail l)
  retr_refused : (e : Failure) → l.request ≡ opens → Step l (retr_failed e l)
  retr_ok : l.request ≡ opens → Step l (retr_done l)
  closed_stream : (e : Failure) → l.request ≡ streams → Step l (close_stream e l)

pub data Reach (l : FtpLease) : FtpLease → Type 0 where
  here : Reach l l
  next : {k m : FtpLease} → Reach l k → Step k m → Reach l m
