-- ===== src/PamSession.antt =====
-- The PAM module of libiam/lualib-src/iam_core/pam_bmc_session/pam_bmc_session.c. The mutex has one
-- holder at a time, so that a call is one step; the parent's number, which is read, is not kept.
pub mod Limit
use account.Base.{
  ℕ, zero, suc, ◌+◌, ◌^◌, Bool, true, false, ◌&&◌, not, Option, none, some, [], ◌∷◌, leb,
  if◌then◌else◌, Bytes, length,
}
use account.Base.Int.{ℤ, pos, ltb_ℤ, signed}
use account.Clib.Strtol.{skip_space}
use account.Clib.Text.{codes, str_eq}
use account.Clib.Unsigned.{scan_unsigned}
use account.PamLogin.Status.{PamRet, success, service_err, session_err}

-- MAX_INTER_CHASSIS_PROCESSES
abbrev pub max_inter_chassis_processes : ℕ
max_inter_chassis_processes = 4

-- INTER_CHASSIS_USER_NAME
abbrev pub inter_chassis_user_name : Bytes
inter_chassis_user_name = codes "inter_chassis"

-- `proc_dir` tells whether /proc holds a directory for the process.
unfoldable pub is_process_alive : (ℤ → Bool) → ℤ → Bool
is_process_alive proc_dir pid = ltb_ℤ (pos 0) pid && proc_dir pid

unfoldable pub read_two : ℕ → Option ℕ × Bytes → ℕ × Bytes
unfolding scan_unsigned
read_two pid (none, rest) = (pid, rest)
read_two pid (some n, rest) = (n, (scan_unsigned rest).1)

-- Nothing but blanks in front of the end is EOF.
unfoldable pub read_from : ℕ → Bytes → Bytes → Option (ℕ × Bytes)
unfolding read_two scan_unsigned
read_from pid s [] = none
read_from pid s (_ ∷ _) = some (read_two pid (scan_unsigned s))

-- fscanf_s(fp, "%u %u", &pid, &ppid): none for EOF. A conversion that fails leaves `pid` as it is.
unfoldable pub read_pids : ℕ → Bytes → Option (ℕ × Bytes)
unfolding read_from skip_space
read_pids pid s = read_from pid s (skip_space s)

-- The loop over the output of ps: none where the fuel ends first.
unfoldable pub count_sessions : ℕ → (ℤ → Bool) → ℕ → ℕ → Bytes → Option ℕ
unfolding read_pids is_process_alive
count_sessions zero proc_dir pid session_count fp = none
count_sessions (suc fuel) proc_dir pid session_count fp = elim (read_pids pid fp) [
  | none ↦ some session_count
  | some got ↦
      count_sessions fuel proc_dir got.0
        (if is_process_alive proc_dir (signed (2 ^ 32) got.0)
          then suc session_count
          else session_count)
        got.1
]

-- What PAM and the system answer: whether the handle is there, the user's name as pam_get_item gives
-- it, the output of the ps command, none where popen fails, and the directories of /proc.
pub record SessionCall : Type 0 where
  pub handle : Bool
  pub user : Option Bytes
  pub ps : Option Bytes
  pub proc_dir : ℤ → Bool

unfoldable pub limit : Option ℕ → Option PamRet
limit none = none
limit (some session_count) =
    some (if leb max_inter_chassis_processes session_count then session_err else success)

unfoldable pub sessions : (ℤ → Bool) → Option Bytes → Option PamRet
unfolding limit count_sessions
sessions proc_dir none = some session_err
sessions proc_dir (some fp) = limit (count_sessions (suc (length fp)) proc_dir 0 0 fp)

unfoldable pub open_for : SessionCall → Option Bytes → Option PamRet
unfolding sessions str_eq
open_for call none = some session_err
open_for call (some []) = some session_err
open_for call (some (c ∷ name)) =
    if not (str_eq (c ∷ name) inter_chassis_user_name)
    then some success
    else sessions call.proc_dir call.ps

-- None where the loop over the output does not end.
unfoldable pub pam_sm_open_session : SessionCall → Option PamRet
unfolding open_for
pam_sm_open_session call = if call.handle then open_for call call.user else some service_err
