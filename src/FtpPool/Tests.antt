-- ===== src/FtpPool/Tests.antt =====
-- Runs of the pool, and its theorems at inputs that meet their hypotheses.
use stremio_server_go.Common.{
  ℕ, ◌+◌, ◌≤◌, ◌≡◌, refl, [], ◌∷◌, none, some, ltb, if◌then◌else◌, length, arith,
}
use stremio_server_go.Common.Weigh.{weigh}
use stremio_server_go.FtpPool.Model.{
  FtpSession, FtpPool, bucket, set_bucket, is_expired, pick, pick_next, ftp_pool_get, evict_first,
  oldest, older, make_room, trim_key, park, ftp_pool_put,
}
use stremio_server_go.FtpPool.Buckets.{total}
use stremio_server_go.FtpPool.Conserving.{weigh_some}
use stremio_server_go.FtpPool.Bounds.{IsValid}
use stremio_server_go.FtpPool.System.{
  empty_pool, Reach, here, next, parked, Reach-empty_pool-IsValid, is_id,
  ftp_pool_get-put_conserves, Finding, ftp_pool_get-Finding,
}
use stremio_server_go.FtpPool.Meta.{
  meta_max_entries, ftp_size_ttl, preflight_ttl, ftp_size_put, ftp_size_get, preflight_put,
  preflight_get, ftp_size_put-preflight_put,
}

abbrev session_of : ℕ → ℕ → FtpSession
session_of i k = record { id = i; key = k; idle_since = 0 }

abbrev one_parked : FtpPool
one_parked = (ftp_pool_put empty_pool 10 (session_of 1 5)).0

abbrev two_parked : FtpPool
two_parked = (ftp_pool_put one_parked 20 (session_of 2 5)).0

-- A third session of the same key quits the first.
third_put :
    (ftp_pool_put two_parked 30 (session_of 3 5)).1
    ≡ record { id = 1; key = 5; idle_since = 10 } ∷ []
unfolding ftp_pool_put trim_key evict_first make_room oldest older park bucket set_bucket
third_put = refl

-- The session parked at 20 is reused at 45.
taken_at_45 :
    (ftp_pool_get two_parked 45 5).1.got ≡ some (record { id = 2; key = 5; idle_since = 20 })
unfolding ftp_pool_get pick pick_next is_expired ftp_pool_put trim_key evict_first make_room oldest
    older park bucket set_bucket
taken_at_45 = refl

two_reached : Reach empty_pool two_parked
two_reached = next (next here (parked 10 (session_of 1 5))) (parked 20 (session_of 2 5))

Reach-empty_pool-IsValid_example : IsValid two_parked
Reach-empty_pool-IsValid_example = Reach-empty_pool-IsValid two_parked two_reached

ftp_pool_get-Finding_example :
    Finding 45 (bucket 5 two_parked.buckets) (ftp_pool_get two_parked 45 5).1
ftp_pool_get-Finding_example = ftp_pool_get-Finding two_parked 45 5

ftp_pool_get-put_conserves_example :
    (total (is_id 1) two_parked.buckets
      ≡ total (is_id 1) (ftp_pool_get two_parked 45 5).0.buckets
        + weigh_some (is_id 1) (ftp_pool_get two_parked 45 5).1.got
        + weigh (is_id 1) (ftp_pool_get two_parked 45 5).1.expired)
    × (total (is_id 1) two_parked.buckets + is_id 1 (session_of 3 5)
        ≡ total (is_id 1) (ftp_pool_put two_parked 45 (session_of 3 5)).0.buckets
          + weigh (is_id 1) (ftp_pool_put two_parked 45 (session_of 3 5)).1)
ftp_pool_get-put_conserves_example = ftp_pool_get-put_conserves two_parked 45 5 1 (session_of 3 5)

ftp_size_put-preflight_put_example :
    (length (ftp_size_put 10 3 700 []) ≤ meta_max_entries)
    × (ftp_size_get 20 3 (ftp_size_put 10 3 700 [])
        ≡ (if ltb 20 (10 + ftp_size_ttl) then some 700 else none))
    × (length (preflight_put 10 3 none []) ≤ meta_max_entries)
    × (preflight_get 20 3 (preflight_put 10 3 none [])
        ≡ (if ltb 20 (10 + preflight_ttl) then some none else none))
ftp_size_put-preflight_put_example =
    ftp_size_put-preflight_put 10 20 3 700 none [] [] (omega arith) (omega arith)
