-- ===== src/Uip/Login/Locks.antt =====
-- When uip_get_user_is_lock_by_username finds a user locked, over the failure records of
-- pam_tally_ext.c.
use account.Base.{ℕ, ◌+◌, ◌%◌, ◌^◌, ◌≤◌, ◌<◌, ◌≡◌, some, List, leb, arith, Bytes, length, All}
use account.Base.Int.{ℤ, pos}
use account.Tally.{
  Files, TallySystem, fail_interval_of, get_pam_tally_with_fail_interval, reset_pam_tally,
}
use account.Tally.Lockout.{Writes, increments, increments-counted}
use account.Uip.Login.{uip_get_user_is_lock_by_username}

module _ (system : TallySystem) (user dir : Bytes) where
  -- After a reset, one or more failures, at most 1024, that are recorded at times from `a` to `b`, less
  -- than the interval apart, and a query before the duration has passed since `a`: the user is locked
  -- exactly when the failures are as many as a threshold that is not 0. The file can be written, and
  -- `b` and the duration fit 64 bits together.
  pub failures-lock_user :
      (path : Bytes) (now a b duration threshold : ℕ) (interval : ℤ) (ts : List ℕ) (files : Files)
      → Writes system user dir path
      → 1 ≤ length ts
      → length ts ≤ 1024
      → All (λ t. (a ≤ t) × (t ≤ b)) ts
      → b < a + fail_interval_of duration interval
      → now ≤ a + duration
      → b + duration < 2 ^ 64
      → 1 ≤ threshold
      → (uip_get_user_is_lock_by_username system
          (some (record {
            duration = pos duration;
            threshold = pos threshold;
            time_interval = interval;
          }))
          dir
          user
          now
          (increments system user dir ts (reset_pam_tally system user dir files).1)).0
        ≡ leb threshold (length ts)
  unfolding uip_get_user_is_lock_by_username get_pam_tally_with_fail_interval
  failures-lock_user path now a b duration threshold interval ts files w n m within apart soon fits
        some_threshold =
      let (l, lo, hi, counted) =
        increments-counted system user dir path now a b duration interval ts files w n m within
          apart soon fits in
      let kept : duration % 2 ^ 64 ≡ duration = omega arith in rw (kept, counted) (ground arith)
