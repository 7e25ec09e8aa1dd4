-- ===== src/PamSession/Limit.antt =====
-- The limit on the sessions of the chassis user, over the lines that ps prints.
use account.Base.{
  not, leb, ℕ, zero, suc, ◌+◌, ◌^◌, ◌≤◌, ◌<◌, ◌≡◌, ◌≢◌, ◌↔◌, ◌⊎◌, refl, ap, ◌∙◌, Bool, true, false,
  some, List, [], ◌∷◌, ◌++◌, arith, Bytes, length, All, if◌then◌else◌,
}
use account.Base.Int.{ℤ, pos, signed}
use account.Clib.Strtol.{skip_space}
use account.Clib.Strtol.Numbers.{skip_space-digit}
use account.Clib.Text.{str_eq, str_eq_iff}
use account.Clib.Unsigned.{numeral, value_of, scan_unsigned, scan_unsigned-numeral}
use account.PamLogin.Status.{PamRet, success, session_err}
use account.PamSession.{
  inter_chassis_user_name, is_process_alive, read_pids, read_two, read_from, sessions, limit,
  open_for, count_sessions, SessionCall, pam_sm_open_session,
}

-- A line of the output: the digits of the process and of its parent.
pub record Row : Type 0 where
  pub pid_first : ℕ
  pub pid_more : List ℕ
  pub ppid_first : ℕ
  pub ppid_more : List ℕ

abbrev pub pid_of : Row → ℕ
pid_of r = value_of 0 (r.pid_first ∷ r.pid_more)

-- awk '{print $2, $3}'
abbrev pub ps_output : List Row → Bytes
ps_output [] = []
ps_output (r ∷ rows) =
    numeral (r.pid_first ∷ r.pid_more)
    ++ (b' ' ∷ (numeral (r.ppid_first ∷ r.ppid_more) ++ (b'\n' ∷ ps_output rows)))

-- How many of the processes are alive.
abbrev pub alive_rows : (ℤ → Bool) → List Row → ℕ
alive_rows proc_dir [] = 0
alive_rows proc_dir (r ∷ rows) =
    let rest = alive_rows proc_dir rows in
    if is_process_alive proc_dir (pos (pid_of r)) then suc rest else rest

-- What is left is not blank, so that the call is not EOF.
read_pids-two :
    (pid c : ℕ) (s rest : Bytes)
    → skip_space s ≡ c ∷ rest
    → read_pids pid s ≡ some (read_two pid (scan_unsigned s))
unfolding read_pids read_from
read_pids-two pid c s rest h = ap (read_from pid s) h

read_row :
    (pid : ℕ) (r : Row) (rest : Bytes)
    → pid_of r < 2 ^ 31
    → read_pids pid (
        numeral (r.pid_first ∷ r.pid_more)
        ++ (b' ' ∷ (numeral (r.ppid_first ∷ r.ppid_more) ++ (b'\n' ∷ rest))))
      ≡ some (pid_of r, b'\n' ∷ rest)
unfolding read_two
read_row pid r rest h =
    let parent = numeral (r.ppid_first ∷ r.ppid_more) ++ (b'\n' ∷ rest) in
    let first = scan_unsigned-numeral r.pid_first r.pid_more (b' ' ∷ parent) refl in
    let second = scan_unsigned-numeral r.ppid_first r.ppid_more (b'\n' ∷ rest) refl in
    read_pids-two pid _ _ _ (skip_space-digit r.pid_first (numeral r.pid_more ++ (b' ' ∷ parent)))
    ∙ rw first (rw (scan_blank parent, second) (ground arith))
  where
    scan_blank : (s : Bytes) → scan_unsigned (b' ' ∷ s) ≡ scan_unsigned s
    scan_blank s = unfold scan_unsigned skip_space in refl

-- The end of a line is skipped before the next number.
count-newline :
    (fuel : ℕ) (proc_dir : ℤ → Bool) (pid n : ℕ) (s : Bytes)
    → count_sessions fuel proc_dir pid n (b'\n' ∷ s) ≡ count_sessions fuel proc_dir pid n s
unfolding count_sessions read_pids read_from scan_unsigned skip_space
count-newline zero proc_dir pid n s = refl
count-newline (suc fuel) proc_dir pid n s = refl

-- One turn of the loop.
count-turn :
    (fuel : ℕ) (proc_dir : ℤ → Bool) (pid n p : ℕ) (s rest : Bytes)
    → read_pids pid s ≡ some (p, rest)
    → p < 2 ^ 31
    → count_sessions (suc fuel) proc_dir pid n s
      ≡ count_sessions fuel proc_dir p (if is_process_alive proc_dir (pos p) then suc n else n) rest
unfolding count_sessions
count-turn fuel proc_dir pid n p s rest e h =
    let signed_pid : signed (2 ^ 32) p ≡ pos p = ground arith in
    rw (count_sessions, e) (rw signed_pid refl)

add_alive : (b : Bool) (n m : ℕ) → (if b then suc n else n) + m ≡ n + (if b then suc m else m)
add_alive true n m = omega arith
add_alive false n m = refl

count-end :
    (fuel : ℕ) (proc_dir : ℤ → Bool) (pid n : ℕ)
    → count_sessions (suc fuel) proc_dir pid n [] ≡ some n
unfolding count_sessions read_pids read_from skip_space
count-end fuel proc_dir pid n = refl

-- Fuel above the number of lines is enough.
count-rows :
    (fuel : ℕ) (proc_dir : ℤ → Bool) (pid n : ℕ) (rows : List Row)
    → length rows < fuel
    → All (λ r. pid_of r < 2 ^ 31) rows
    → count_sessions fuel proc_dir pid n (ps_output rows) ≡ some (n + alive_rows proc_dir rows)
count-rows zero proc_dir pid n rows h small = absurd (omega arith)
count-rows (suc fuel) proc_dir pid n [] h small =
    count-end fuel proc_dir pid n ∙ ap some (omega arith)
count-rows (suc fuel) proc_dir pid n (r ∷ rows) h small =
    let alive = is_process_alive proc_dir (pos (pid_of r)) in
    count-turn fuel proc_dir pid n (pid_of r) _ _ (read_row pid r (ps_output rows) small.0) small.0
    ∙ count-newline fuel proc_dir (pid_of r) _ (ps_output rows)
    ∙ count-rows fuel proc_dir (pid_of r) _ rows (omega arith) small.1
    ∙ ap some (add_alive alive n (alive_rows proc_dir rows))

numeral-nonempty : (ds : List ℕ) (c : ℕ) (s : Bytes) → length s < length (numeral ds ++ (c ∷ s))
numeral-nonempty [] c s = omega arith
numeral-nonempty (d ∷ ds) c s = let shorter = numeral-nonempty ds c s in omega arith

-- A line is not empty, so that the output has more bytes than lines.
rows_bound : (rows : List Row) → length rows ≤ length (ps_output rows)
rows_bound [] = omega arith
rows_bound (r ∷ rows) =
    let rest = rows_bound rows in
    let second = numeral-nonempty (r.ppid_first ∷ r.ppid_more) b'\n' (ps_output rows) in
    let parent = numeral (r.ppid_first ∷ r.ppid_more) ++ (b'\n' ∷ ps_output rows) in
    let first = numeral-nonempty (r.pid_first ∷ r.pid_more) b' ' parent in omega arith

abbrev judged : Bool → ℕ → PamRet
judged same n = if not same then success else if leb 4 n then session_err else success

sessions-rows :
    (proc_dir : ℤ → Bool) (rows : List Row)
    → All (λ r. pid_of r < 2 ^ 31) rows
    → sessions proc_dir (some (ps_output rows))
      ≡ some (if leb 4 (alive_rows proc_dir rows) then session_err else success)
unfolding sessions limit
sessions-rows proc_dir rows small =
    let bound = rows_bound rows in
    let fuel = suc (length (ps_output rows)) in
    let counted : count_sessions fuel proc_dir 0 0 (ps_output rows)
        ≡ some (alive_rows proc_dir rows) =
      count-rows fuel proc_dir 0 0 rows (omega arith) small ∙ ap some (omega arith) in
    ap limit counted

one_result :
    (same : Bool) (n : ℕ)
    → (if not same then some success else some (if leb 4 n then session_err else success))
      ≡ some (judged same n)
one_result true n = refl
one_result false n = refl

open_for-rows :
    (call : SessionCall) (name : Bytes) (rows : List Row)
    → name ≢ []
    → call.ps ≡ some (ps_output rows)
    → All (λ r. pid_of r < 2 ^ 31) rows
    → open_for call (some name)
      ≡ some (judged (str_eq name inter_chassis_user_name) (alive_rows call.proc_dir rows))
unfolding open_for
open_for-rows call [] rows c d small = absurd (c refl)
open_for-rows call (x ∷ name) rows c d small =
    let s = ap (sessions call.proc_dir) d ∙ sessions-rows call.proc_dir rows small in
    rw s (one_result (str_eq (x ∷ name) inter_chassis_user_name) _)

judged_iff :
    (same : Bool) (n : ℕ) (P : Type 0)
    → (same ≡ true) ↔ P
    → ((some (judged same n) ≡ some success) ↔ ((¬ P) ⊎ (n < 4)))
      × ((some (judged same n) ≡ some session_err) ↔ (P × (4 ≤ n)))
judged_iff true n P (there, back) = let p = there refl in ground arith
judged_iff false n P (there, back) = let no : ¬ P = (λ p. let h = back p in cc) in ground arith

-- For a user with a name, and where ps prints lines of two numbers, the first of them less than
-- 2 ^ 31, the loop ends, and the session is opened exactly when the user is not the chassis user or
-- fewer than four of the listed processes are alive; otherwise the call fails with PAM_SESSION_ERR.
pub pam_sm_open_session_iff :
    (call : SessionCall) (name : Bytes) (rows : List Row)
    → call.handle ≡ true
    → call.user ≡ some name
    → name ≢ []
    → call.ps ≡ some (ps_output rows)
    → All (λ r. pid_of r < 2 ^ 31) rows
    → ((pam_sm_open_session call ≡ some success)
        ↔ ((name ≢ inter_chassis_user_name) ⊎ (alive_rows call.proc_dir rows < 4)))
      × ((pam_sm_open_session call ≡ some session_err)
          ↔ ((name ≡ inter_chassis_user_name) × (4 ≤ alive_rows call.proc_dir rows)))
unfolding pam_sm_open_session
pam_sm_open_session_iff call name rows a b c d small =
    let result : pam_sm_open_session call
        ≡ some (judged (str_eq name inter_chassis_user_name) (alive_rows call.proc_dir rows)) =
      rw (a, b) (open_for-rows call name rows c d small) in
    rw result (judged_iff _ _ _ (str_eq_iff name inter_chassis_user_name))
