-- ===== src/Tests/Tally.antt =====
-- The failure records of users.
use account.Base.{ℕ, ◌≤◌, ◌≡◌, refl, true, none, some, [], ◌∷◌, arith, Bytes}
use account.Base.Int.{negsuc}
use account.Clib.Text.{codes, str_eq, has_substring, starts_with}
use account.Tally.Count.{IsLastFailure, answer, get_user_info-counts}
use account.Tally.Lockout.{increments, increments-counted}
use account.Tally.Record.{whole, zero_record, failed_at}
use account.Tally.{
  Files, TallySystem, open_tally, tally_path, get_user_info, reset_pam_tally, fail_interval_of,
}

abbrev system : TallySystem
system = record {
  can_open = (λ path. true);
  ftruncate_errno = (λ path. none);
  short_write = (λ path. none);
}

abbrev user : Bytes
user = codes "root"

abbrev dir : Bytes
dir = codes "/dev/shm/tallylog"

abbrev path : Bytes
path = codes "/dev/shm/tallylog/<root>"

opened : open_tally system user dir ≡ some path
unfolding open_tally tally_path str_eq has_substring starts_with
opened = refl

abbrev files : Files
files = λ p. whole (failed_at 1000 zero_record ∷ failed_at 1400 zero_record ∷ [])

get_user_info-counts_example :
    (l : ℕ) × IsLastFailure l (failed_at 1000 zero_record ∷ failed_at 1400 zero_record ∷ [])
    × ((get_user_info system user dir 1500 60 (negsuc 0) files).0
        ≡ some (
            answer 1500 60
              (fail_interval_of 60 (negsuc 0))
              l
              (failed_at 1000 zero_record ∷ failed_at 1400 zero_record ∷ [])))
get_user_info-counts_example =
    get_user_info-counts system user dir path 1500 60 (negsuc 0) files
      (failed_at 1000 zero_record ∷ failed_at 1400 zero_record ∷ []) opened refl (omega arith)
      (omega arith) (omega arith, (omega arith, tt))

increments-counted_example :
    (l : ℕ) × (1000 ≤ l)
    × (l ≤ 1200)
    × ((get_user_info system user dir 1050 60 (negsuc 0) (
          increments system user dir
            (1000 ∷ 1200 ∷ [])
            (reset_pam_tally system user dir files).1)).0
        ≡ some (record { fail_cnt = 2; fail_time = l }))
increments-counted_example =
    increments-counted system user dir path 1050 1000 1200 60 (negsuc 0) (1000 ∷ 1200 ∷ []) files
      (opened, refl, refl) (omega arith) (omega arith) (ground arith) (omega arith) (omega arith)
      (omega arith)
