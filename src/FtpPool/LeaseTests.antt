-- ===== src/FtpPool/LeaseTests.antt =====
-- A lease on a small input, and its theorem there (internal/ftpstream/pool.go).
use stremio_server_go.Common.{◌+◌, ◌≡◌, refl, false, [], ◌∷◌, if◌then◌else◌}
use stremio_server_go.FtpPool.Lease.{
  FtpConns, FtpLease, Reach, here, next, fired, reply, bind, retr_done, close_stream,
  begin_transfer, stop, park_session, discard, ftp_reply_synced, close_all, retr_ok, cancelled,
  closed_stream,
}
use stremio_server_go.FtpPool.Owning.{is_over, Reach-bind-owned}

-- The request is cancelled while its stream is read, and the session parked nevertheless.
abbrev control : FtpConns
control = record { conns = 1 ∷ []; closed = false }

abbrev streaming : FtpLease
streaming = retr_done (bind control)

abbrev parked_lease : FtpLease
parked_lease = close_stream (reply 426) (record streaming { hook = fired })

parked_once : parked_lease.parks ≡ 1
unfolding close_stream retr_done begin_transfer bind stop park_session discard ftp_reply_synced
    close_all
parked_once = refl

parked_reached : Reach (bind control) parked_lease
unfolding close_stream retr_done begin_transfer bind stop park_session discard ftp_reply_synced
    close_all
parked_reached =
    next (next (next here (retr_ok refl)) (cancelled refl)) (closed_stream (reply 426) refl)

Reach-bind-owned_example :
    (parked_lease.parks + parked_lease.discards ≡ (if is_over parked_lease.request then 1 else 0))
    × (parked_lease.parks ≡ 1
        → (parked_lease.ctl.closed ≡ false)
          × ((m : FtpLease) → Reach parked_lease m → m.ctl.closed ≡ false))
Reach-bind-owned_example = Reach-bind-owned control parked_lease refl parked_reached
