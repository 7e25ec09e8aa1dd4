-- ===== src/Tally.antt =====
-- The failure records of users, libiam/lualib-src/pam_tally_ext.c. A file is its contents, empty where
-- there is none, since opening it makes it. What fails in the file system is a parameter.
pub mod Record
pub mod Count
pub mod Lockout
use account.Base.{
  ℕ, zero, suc, ◌+◌, ◌^◌, Bool, true, false, ◌||◌, Option, none, some, List, [], ◌∷◌, ◌++◌, ◌==◌,
  if◌then◌else◌, Bytes, length, get_or, ◌-◌,
}
use account.Base.Int.{ℤ, pos, negsuc, eqb_ℤ, wrap}
use account.Clib.Text.{codes, str_eq, has_substring}
use account.Status.{Ret, ok, err, code}
use Record.{
  TallyRecord, TallyFile, TallyLog, empty_file, whole, read_tally, update_tally, latest_valid,
  failures_in, tally_log,
}

-- The files by their paths.
abbrev pub Files : Type 0
Files = Bytes → TallyFile

abbrev pub write_file : Bytes → TallyFile → Files → Files
write_file path f files = λ p. if str_eq p path then f else files p

-- What the system answers for a path: whether the file can be opened, the errno of a failing
-- ftruncate, and what an incomplete fwrite leaves.
pub record TallySystem : Type 0 where
  pub can_open : Bytes → Bool
  pub ftruncate_errno : Bytes → Option ℕ
  pub short_write : Bytes → Option TallyFile

-- dir, a slash unless it ends in one, and the name, which is <root> for root.
unfoldable pub tally_path : Bytes → Bytes → Bytes
tally_path user dir =
    let name = if str_eq user (codes "root") then codes "<root>" else user in
    if get_or dir (length dir - 1) 0 == b'/' then dir ++ name else dir ++ (b'/' ∷ name)

abbrev pub fail_interval_of : ℕ → ℤ → ℕ
fail_interval_of unlock_time interval =
    if eqb_ℤ interval (negsuc 0)
    then wrap (2 ^ 64) (pos (unlock_time + 300))
    else wrap (2 ^ 64) interval

module _ (system : TallySystem) where
  -- The path of the open file.
  unfoldable pub open_tally : Bytes → Bytes → Option Bytes
  open_tally user dir =
      if length dir == 0 || has_substring (codes "../") user
      then none
      else if system.can_open (tally_path user dir)
      then some (tally_path user dir)
      else none

  abbrev pub info_of_read : ℕ → ℕ → ℕ → Option (List TallyRecord) → Option TallyLog
  info_of_read now unlock_time fail_interval none = none
  info_of_read now unlock_time fail_interval (some records) =
      some (tally_log now unlock_time fail_interval records)

  abbrev pub info_of_opened : ℕ → ℕ → ℤ → Files → Option Bytes → Option TallyLog × Files
  info_of_opened now unlock_time interval files none = (none, files)
  info_of_opened now unlock_time interval files (some path) =
      let r = read_tally (files path) in
      (
        info_of_read now unlock_time (fail_interval_of unlock_time interval) r.0,
        write_file path r.1 files,
      )

  -- none is RET_ERR.
  unfoldable pub get_user_info : Bytes → Bytes → ℕ → ℕ → ℤ → Files → Option TallyLog × Files
  get_user_info user dir now unlock_time interval files =
      info_of_opened now unlock_time interval files (open_tally user dir)

  -- With a directory and a result that are not NULL.
  unfoldable pub get_pam_tally : Bytes → Bytes → ℕ → ℕ → Files → Option TallyLog × Files
  get_pam_tally user dir now unlock_time files =
      get_user_info user dir now unlock_time (negsuc 0) files

  unfoldable pub get_pam_tally_with_fail_interval :
      Bytes → Bytes → ℕ → ℕ → ℤ → Files → Option TallyLog × Files
  get_pam_tally_with_fail_interval user dir now unlock_time fail_interval files =
      get_user_info user dir now unlock_time fail_interval files

  abbrev pub reset_at : Files → Bytes → Option ℕ → Ret × Files
  reset_at files path none = (ok, write_file path empty_file files)
  reset_at files path (some errno) = (err, files)

  abbrev pub reset_opened : Files → Option Bytes → Ret × Files
  reset_opened files none = (err, files)
  reset_opened files (some path) = reset_at files path (system.ftruncate_errno path)

  unfoldable pub reset_pam_tally : Bytes → Bytes → Files → Ret × Files
  reset_pam_tally user dir files = reset_opened files (open_tally user dir)

  abbrev pub rewrite_at :
      Bytes → List TallyRecord → Files → Option ℕ → Option TallyFile → Ret × Files
  rewrite_at path records files (some errno) _ = (code errno, files)
  rewrite_at path records files none none = (ok, write_file path (whole records) files)
  rewrite_at path records files none (some left) = (err, write_file path left files)

  abbrev pub increment_read :
      ℕ → Bytes → Files → Option (List TallyRecord) × TallyFile → Ret × Files
  increment_read now path files (none, f) = (err, write_file path f files)
  increment_read now path files (some records, f) =
      rewrite_at path (update_tally now records) files (system.ftruncate_errno path)
        (system.short_write path)

  abbrev pub increment_opened : ℕ → Files → Option Bytes → Ret × Files
  increment_opened now files none = (err, files)
  increment_opened now files (some path) = increment_read now path files (read_tally (files path))

  unfoldable pub increment_pam_tally : ℕ → Bytes → Bytes → Files → Ret × Files
  increment_pam_tally now user dir files = increment_opened now files (open_tally user dir)
