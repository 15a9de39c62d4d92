-- ===== src/FtpPool/Leasing.antt =====
-- The invariant of the lease of a session (internal/ftpstream/pool.go and ftpstream.go), and what keeps it.
use stremio_server_go.Common.{
  ℕ, ◌+◌, ◌≡◌, refl, ap, ◌∙◌, Bool, true, false, ◌⊎◌, inl, inr, if◌then◌else◌, arith, Bool-cases,
}
use stremio_server_go.FtpPool.Lease.{
  Phase, opening, transferring, aborted, Hook, waiting, stopped, fired, data_closed, finished,
  opens, streams, over, FtpConns, FtpLease, add_conn, close_all, bind, abort, begin_transfer, stop,
  park_session, discard, fail, refused, retr_done,
}

-- What holds of a lease at any time.
pub record Inv (l : FtpLease) : Type 0 where
  pub open_phase : l.request ≡ opens → (l.phase ≡ transferring → ⊥)
  pub stream_phase : l.request ≡ streams → l.phase ≡ transferring
  pub owned : (l.request ≡ over → ⊥) → l.parks + l.discards ≡ 0
  pub given_up : l.request ≡ over → l.parks + l.discards ≡ 1
  pub abort_done : l.phase ≡ aborted → l.hook ≡ finished
  pub ctl_closed : l.ctl.closed ≡ true → (l.phase ≡ aborted) ⊎ (l.discards ≡ 1)
  pub ctl_open :
      l.parks ≡ 1 → (l.ctl.closed ≡ false) × ((l.hook ≡ stopped) ⊎ (l.phase ≡ transferring))

pub bind-Inv : (ctl : FtpConns) → ctl.closed ≡ false → Inv (bind ctl)
unfolding bind
bind-Inv ctl h = record {
  open_phase = λ e f. cc;
  stream_phase = λ e. absurd cc;
  owned = λ e. refl;
  given_up = λ e. absurd cc;
  abort_done = λ e. absurd cc;
  ctl_closed = λ e. absurd cc;
  ctl_open = λ e. absurd (omega arith);
}

pub discard-Inv :
    (l : FtpLease)
    → (l.request ≡ over → ⊥)
    → (l.phase ≡ aborted → l.hook ≡ finished)
    → (l.parks + l.discards ≡ 0)
    → Inv (discard l)
unfolding discard close_all
discard-Inv l r a o = record {
  open_phase = λ e f. cc;
  stream_phase = λ e. absurd cc;
  owned = λ e. absurd (e refl);
  given_up = λ e. omega arith;
  abort_done = a;
  ctl_closed = λ e. inr (omega arith);
  ctl_open = λ e. absurd (omega arith);
}

pub park_session-Inv :
    (l : FtpLease)
    → (l.phase ≡ aborted → l.hook ≡ finished)
    → (l.parks + l.discards ≡ 0)
    → l.ctl.closed ≡ false
    → (l.hook ≡ stopped) ⊎ (l.phase ≡ transferring)
    → Inv (park_session l)
unfolding park_session
park_session-Inv l a o c w = record {
  open_phase = λ e f. cc;
  stream_phase = λ e. absurd cc;
  owned = λ e. absurd (e refl);
  given_up = λ e. omega arith;
  abort_done = a;
  ctl_closed = λ e. absurd cc;
  ctl_open = λ e. (c, w);
}

pub add_conn-closed : (t : FtpConns) (c : ℕ) → (add_conn t c).0.closed ≡ t.closed
unfolding add_conn
add_conn-closed t c = elim (Bool-cases t.closed) [ inl e ↦ rw e refl | inr e ↦ rw e refl ]

pub stop_finished : (h : Hook) → h ≡ finished → (stop h).0 ≡ finished
unfolding stop
stop_finished h e = ap (λ x. (stop x).0) e

pub stop-true : (h : Hook) → (stop h).1 ≡ true → (h ≡ waiting) × ((stop h).0 ≡ stopped)
unfolding stop
stop-true waiting e = (refl, refl)
stop-true stopped e = absurd cc
stop-true fired e = absurd cc
stop-true data_closed e = absurd cc
stop-true finished e = absurd cc

-- The hook moved on without touching the control connection.
pub moved-Inv :
    (l : FtpLease) (d : FtpConns) (h : Hook)
    → (l.phase ≡ aborted → h ≡ finished)
    → (l.hook ≡ stopped → ⊥)
    → Inv l
    → Inv (record l { data_conns = d; hook = h })
moved-Inv l d h a n i = record {
  open_phase = i.open_phase;
  stream_phase = i.stream_phase;
  owned = i.owned;
  given_up = i.given_up;
  abort_done = a;
  ctl_closed = i.ctl_closed;
  ctl_open = λ p. ((i.ctl_open p).0, inr (moved (i.ctl_open p).1));
}
  where
    moved : (l.hook ≡ stopped) ⊎ (l.phase ≡ transferring) → l.phase ≡ transferring
    moved (inl e) = absurd (n e)
    moved (inr e) = e

pub abort-Inv :
    (l : FtpLease) (p : Phase) → p ≡ l.phase → l.hook ≡ data_closed → Inv l → Inv (abort p l)
unfolding abort close_all
abort-Inv l transferring e h i = moved-Inv l l.data_conns finished (λ _. refl) (λ s. cc) i
abort-Inv l aborted e h i = moved-Inv l l.data_conns finished (λ _. refl) (λ s. cc) i
abort-Inv l opening e h i = record {
  open_phase = λ _ f. cc;
  stream_phase = λ s. absurd (differ (e ∙ i.stream_phase s));
  owned = i.owned;
  given_up = i.given_up;
  abort_done = λ _. refl;
  ctl_closed = λ _. inl refl;
  ctl_open = λ p. absurd (unowned (i.ctl_open p).1);
}
  where
    differ : opening ≡ transferring → ⊥
    differ f = cc

    unowned : (l.hook ≡ stopped) ⊎ (l.phase ≡ transferring) → ⊥
    unowned (inl s) = cc
    unowned (inr t) = differ (e ∙ t)

-- While the request holds the session its control connection is open, unless the hook has closed it.
pub ctl_unless :
    (l : FtpLease) → Inv l → (l.request ≡ over → ⊥) → (l.phase ≡ aborted → ⊥) → l.ctl.closed ≡ false
ctl_unless l i r p = elim (Bool-cases l.ctl.closed) [
  | inr e ↦ e
  | inl e ↦ elim (i.ctl_closed e) [
    | inl a ↦ absurd (p a)
    | inr d ↦ absurd (omega (arith, d, i.owned r))
  ]
]

pub stop_abort_done : (l : FtpLease) → Inv l → l.phase ≡ aborted → (stop l.hook).0 ≡ finished
stop_abort_done l i e = stop_finished l.hook (i.abort_done e)

pub fail-Inv : (l : FtpLease) → (l.request ≡ over → ⊥) → Inv l → Inv (fail l)
unfolding fail
fail-Inv l r i =
    discard-Inv (record l { hook = (stop l.hook).0 }) r (stop_abort_done l i) (i.owned r)

pub not_both : (h : Hook) → h ≡ waiting → h ≡ finished → ⊥
not_both h a b = cc

pub open_or_shut : (b : Bool) → b ≡ true → b ≡ false → ⊥
open_or_shut b a c = cc

pub refused-Inv : (l : FtpLease) → (l.request ≡ over → ⊥) → Inv l → Inv (refused l)
unfolding refused
refused-Inv l r i = go (stop l.hook).1 (λ e. e)
  where
    s : FtpLease
    s = record l { hook = (stop l.hook).0 }

    go :
        (b : Bool)
        → (b ≡ true → (stop l.hook).1 ≡ true)
        → Inv (if b then park_session s else discard s)
    go false w = discard-Inv s r (stop_abort_done l i) (i.owned r)
    go true w =
        let (h, g) = stop-true l.hook (w refl) in
        park_session-Inv s (stop_abort_done l i) (i.owned r)
          (ctl_unless l i r (λ a. not_both l.hook h (i.abort_done a))) (inl g)

pub retr_done-Inv : (l : FtpLease) → l.request ≡ opens → Inv l → Inv (retr_done l)
unfolding retr_done begin_transfer
retr_done-Inv l r i = go l.phase refl
  where
    held : l.request ≡ over → ⊥
    held e = cc

    won : FtpLease
    won = record l { phase = transferring; request = streams }

    go :
        (p : Phase)
        → l.phase ≡ p
        → Inv (
            (λ (w : FtpLease × Bool). if w.1 then record w.0 { request = streams } else fail w.0)
              (elim p as (λ _. FtpLease × Bool) [
                | opening ↦ (record l { phase = transferring }, true)
                | transferring ↦ (l, false)
                | aborted ↦ (l, false)
              ]))
    go opening e = record {
      open_phase = λ s. absurd cc;
      stream_phase = λ _. refl;
      owned = λ _. i.owned held;
      given_up = λ s. absurd cc;
      abort_done = λ a. absurd cc;
      ctl_closed = λ c. absurd (open_or_shut l.ctl.closed c (ctl_unless l i held (λ a. cc)));
      ctl_open = λ p. absurd (omega (arith, p, i.owned held));
    }
    go transferring e = fail-Inv l held i
    go aborted e = fail-Inv l held i
