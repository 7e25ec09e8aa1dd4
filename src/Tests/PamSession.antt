-- ===== src/Tests/PamSession.antt =====
-- Sessions of the chassis user.
use account.Base.{
  ℕ, ◌≤◌, ◌<◌, ◌≡◌, ◌≢◌, ◌↔◌, ◌⊎◌, refl, Bool, not, true, some, List, [], ◌∷◌, arith,
}
use account.Base.Int.{ℤ, pos, eqb_ℤ}
use account.Clib.Strtol.{digits, skip_space}
use account.Clib.Text.{str_eq}
use account.Clib.Unsigned.{scan_unsigned}
use account.PamLogin.Status.{success, session_err}
use account.PamSession.{
  inter_chassis_user_name, is_process_alive, read_two, read_from, read_pids, count_sessions,
  SessionCall, limit, sessions, open_for, pam_sm_open_session,
}
use account.PamSession.Limit.{Row, ps_output, alive_rows, pam_sm_open_session_iff}

-- All processes but the one with the number 17.
abbrev proc_dir : ℤ → Bool
proc_dir pid = not (eqb_ℤ pid (pos 17))

abbrev row : ℕ → ℕ → Row
row a b = record { pid_first = a; pid_more = b ∷ []; ppid_first = 1; ppid_more = [] }

-- Five lines, four of them of processes that are alive.
abbrev rows : List Row
rows = row 1 2 ∷ row 1 7 ∷ row 2 5 ∷ row 4 0 ∷ row 9 9 ∷ []

abbrev chassis_call : List Row → SessionCall
chassis_call lines = record {
  handle = true;
  user = some inter_chassis_user_name;
  ps = some (ps_output lines);
  proc_dir = proc_dir;
}

refuses_fourth : pam_sm_open_session (chassis_call rows) ≡ some session_err
unfolding pam_sm_open_session open_for sessions limit count_sessions read_pids read_from read_two
    scan_unsigned digits skip_space is_process_alive str_eq
refuses_fourth = refl

opens_third : pam_sm_open_session (chassis_call (row 1 7 ∷ row 1 8 ∷ [])) ≡ some success
unfolding pam_sm_open_session open_for sessions limit count_sessions read_pids read_from read_two
    scan_unsigned digits skip_space is_process_alive str_eq
opens_third = refl

pam_sm_open_session_iff_example :
    ((pam_sm_open_session (chassis_call rows) ≡ some success)
      ↔ ((inter_chassis_user_name ≢ inter_chassis_user_name) ⊎ (alive_rows proc_dir rows < 4)))
    × ((pam_sm_open_session (chassis_call rows) ≡ some session_err)
        ↔ ((inter_chassis_user_name ≡ inter_chassis_user_name) × (4 ≤ alive_rows proc_dir rows)))
pam_sm_open_session_iff_example =
    pam_sm_open_session_iff (chassis_call rows) inter_chassis_user_name rows refl refl (λ e. cc)
      refl (omega arith, (omega arith, (omega arith, (omega arith, (omega arith, tt)))))
