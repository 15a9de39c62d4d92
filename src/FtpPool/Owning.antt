-- ===== src/FtpPool/Owning.antt =====
-- Who may close the control connection of a leased session, and who owns it afterwards
-- (internal/ftpstream/pool.go and ftpstream.go).
use stremio_server_go.Common.{
  ◌+◌, ◌≡◌, refl, sym, ◌∙◌, Bool, true, false, ◌&&◌, not, inl, inr, if◌then◌else◌, arith,
  Bool-cases,
}
use stremio_server_go.FtpPool.Lease.{
  Phase, opening, transferring, aborted, Hook, waiting, fired, data_closed, finished, Request,
  opens, streams, over, Failure, FtpConns, FtpLease, ftp_reply_synced, ftp_session_healthy,
  add_conn, close_all, bind, abort, stop, park_session, discard, retr_failed, close_stream, Step,
  cancelled, hook_data, hook_phase, dialled_ctl, dialled_data, failed, retr_refused, retr_ok,
  closed_stream, Reach, here, next,
}
use stremio_server_go.FtpPool.Leasing.{
  Inv, bind-Inv, discard-Inv, park_session-Inv, add_conn-closed, moved-Inv, abort-Inv,
  stop_abort_done, fail-Inv, refused-Inv, retr_done-Inv,
}

close_stream-Inv :
    (l : FtpLease) (e : Failure) → l.request ≡ streams → Inv l → Inv (close_stream e l)
unfolding close_stream
close_stream-Inv l e r i =
    go (ftp_reply_synced e && not l.ctl.closed)
      (λ w. still_open (ftp_reply_synced e) l.ctl.closed w)
  where
    held : l.request ≡ over → ⊥
    held o = cc

    s : FtpLease
    s = record l { hook = (stop l.hook).0 }

    still_open : (a b : Bool) → (a && not b) ≡ true → b ≡ false
    still_open a b w = ground arith

    go :
        (b : Bool)
        → (b ≡ true → l.ctl.closed ≡ false)
        → Inv (if b then park_session s else discard s)
    go false w = discard-Inv s held (stop_abort_done l i) (i.owned held)
    go true w =
        park_session-Inv s (stop_abort_done l i) (i.owned held) (w refl) (inr (i.stream_phase r))

dialled-Inv :
    (l : FtpLease) (d c : FtpConns)
    → c.closed ≡ l.ctl.closed
    → Inv l
    → Inv (record l { data_conns = d; ctl = c })
dialled-Inv l d c e i = record {
  open_phase = i.open_phase;
  stream_phase = i.stream_phase;
  owned = i.owned;
  given_up = i.given_up;
  abort_done = i.abort_done;
  ctl_closed = λ s. i.ctl_closed (sym e ∙ s);
  ctl_open = λ p. (e ∙ (i.ctl_open p).0, (i.ctl_open p).1);
}

retr_failed-Inv :
    (l : FtpLease) (e : Failure) → (l.request ≡ over → ⊥) → Inv l → Inv (retr_failed e l)
unfolding retr_failed
retr_failed-Inv l e r i = elim (Bool-cases (ftp_session_healthy e)) [
  | inl healthy ↦ rw healthy (refused-Inv l r i)
  | inr dead ↦ rw dead (fail-Inv l r i)
]

opens_held : (l : FtpLease) → l.request ≡ opens → l.request ≡ over → ⊥
opens_held l a b = cc

before_finished :
    (l : FtpLease) (h k : Hook)
    → Inv l
    → l.hook ≡ h
    → (h ≡ finished → ⊥)
    → l.phase ≡ aborted
    → k ≡ finished
before_finished l h k i e n a = absurd (n (sym e ∙ i.abort_done a))

step-Inv : (l m : FtpLease) → Step l m → Inv l → Inv m
step-Inv l m (cancelled h) i =
    moved-Inv l l.data_conns fired (before_finished l waiting fired i h (λ e. cc)) (λ s. cc) i
step-Inv l m (hook_data h) i =
    moved-Inv l (close_all l.data_conns) data_closed
      (before_finished l fired data_closed i h (λ e. cc)) (λ s. cc) i
step-Inv l m (hook_phase h) i = abort-Inv l l.phase refl h i
step-Inv l m (dialled_ctl c r) i =
    dialled-Inv l l.data_conns (add_conn l.ctl c).0 (add_conn-closed l.ctl c) i
step-Inv l m (dialled_data c r) i = dialled-Inv l (add_conn l.data_conns c).0 l.ctl refl i
step-Inv l m (failed r) i = fail-Inv l (opens_held l r) i
step-Inv l m (retr_refused e r) i = retr_failed-Inv l e (opens_held l r) i
step-Inv l m (retr_ok r) i = retr_done-Inv l r i
step-Inv l m (closed_stream e r) i = close_stream-Inv l e r i

Reach-Inv : (k l : FtpLease) → Reach k l → Inv k → Inv l
Reach-Inv k l here i = i
Reach-Inv k l (next {k = m} r s) i = step-Inv m l s (Reach-Inv k m r i)

abbrev pub is_over : Request → Bool
is_over opens = false
is_over streams = false
is_over over = true

abort_parks : (p : Phase) (l : FtpLease) → (abort p l).parks ≡ l.parks
unfolding abort
abort_parks opening l = refl
abort_parks transferring l = refl
abort_parks aborted l = refl

-- No step of the request is left once it has given the session to the pool.
not_held : (l : FtpLease) (q : Request) → Inv l → l.parks ≡ 1 → l.request ≡ q → (q ≡ over → ⊥) → ⊥
not_held l q i p e n = absurd (omega (arith, p, i.owned (λ o. n (sym e ∙ o))))

step_parked : (l m : FtpLease) → Step l m → Inv l → l.parks ≡ 1 → m.parks ≡ 1
step_parked l m (cancelled h) i p = p
step_parked l m (hook_data h) i p = p
step_parked l m (hook_phase h) i p = abort_parks l.phase l ∙ p
step_parked l m (dialled_ctl c r) i p = p
step_parked l m (dialled_data c r) i p = p
step_parked l m (failed r) i p = absurd (not_held l opens i p r (λ e. cc))
step_parked l m (retr_refused e r) i p = absurd (not_held l opens i p r (λ e. cc))
step_parked l m (retr_ok r) i p = absurd (not_held l opens i p r (λ e. cc))
step_parked l m (closed_stream e r) i p = absurd (not_held l streams i p r (λ e. cc))

Reach-parked : (k l : FtpLease) → Reach k l → Inv k → k.parks ≡ 1 → l.parks ≡ 1
Reach-parked k l here i p = p
Reach-parked k l (next {k = m} r s) i p =
    step_parked m l s (Reach-Inv k m r i) (Reach-parked k m r i p)

given_up_once :
    (l : FtpLease) (q : Request)
    → Inv l
    → l.request ≡ q
    → l.parks + l.discards ≡ (if is_over q then 1 else 0)
given_up_once l opens i e = i.owned (opens_held l e)
given_up_once l streams i e = i.owned (λ o. cc)
given_up_once l over i e = i.given_up e

-- Of a session that was bound with an open control connection, whatever the request and the hook of its
-- context do in any order: the request gives it up at most once, to the pool or to be discarded. A
-- session that went to the pool has an open control connection, and no later step of the hook closes it.
pub Reach-bind-owned :
    (ctl : FtpConns) (l : FtpLease)
    → ctl.closed ≡ false
    → Reach (bind ctl) l
    → (l.parks + l.discards ≡ (if is_over l.request then 1 else 0))
      × (l.parks ≡ 1 → (l.ctl.closed ≡ false) × ((m : FtpLease) → Reach l m → m.ctl.closed ≡ false))
Reach-bind-owned ctl l h r =
    let i : Inv l = Reach-Inv (bind ctl) l r (bind-Inv ctl h) in
    (
      given_up_once l l.request i refl,
      λ p. ((i.ctl_open p).0, λ m s. ((Reach-Inv l m s i).ctl_open (Reach-parked l m s i p)).0),
    )
