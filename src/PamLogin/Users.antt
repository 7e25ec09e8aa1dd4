-- ===== src/PamLogin/Users.antt =====
-- The lines of the privilege file, parse_line_to_struct and get_user of
-- libiam/lualib-src/iam_core/pam_bmc_login/pam_bmc_login.c.
pub mod Lookup
use account.Base.{
  ℕ, zero, suc, ◌+◌, ◌^◌, Bool, true, false, ◌&&◌, ◌||◌, not, Option, none, some, List, [], ◌∷◌,
  leb, ◌==◌, if◌then◌else◌, Bytes, length, set,
}
use account.Base.Int.{ℤ, pos, negsuc, eqb_ℤ}
use account.Clib.Scan.{to_int}
use account.Clib.Strtol.{strtol}
use account.Clib.Text.{strsep}
use account.Status.{Ret, ok, is_ok}
use account.User.{IpmiUser}
use account.LoginRule.File.{parse_line_token_to_uint8}
use account.PamLogin.Status.{PamRet, success, auth_err}

-- {0}
abbrev pub zero_user : IpmiUser
zero_user = record {
  user_id = 0;
  user_name = [];
  pass_word = [];
  is_20bytes_passwd = 0;
  max_session_num = 0;
  callin_enabled = 0;
  user_enabled = 0;
  auth_enabled = 0;
  ipmi_msg_enabled = 0;
  is_enable_by_passwd = 0;
  privilege = 0 ∷ 0 ∷ [];
  snmp_privacy_password = [];
  user_lock_status = 0;
  user_login_rule = 0;
  user_login_interface = 0;
  is_exclude_user = 0;
  is_password_expired = 0;
  role_id = 0;
}

-- A number of the line, if it is one.
abbrev pub stored : (ℕ → IpmiUser) → Ret × ℕ → Option IpmiUser
stored put (r, v) = if is_ok r then some (put v) else none

-- The `switch` on the position of a token; none where it ends in PAM_AUTH_ERR. A name of 17 bytes or
-- more is refused.
unfoldable pub store_token : ℕ → Bytes → IpmiUser → Option IpmiUser
store_token index token u =
    if index == 1
    then stored (λ v. record u { user_id = v }) (parse_line_token_to_uint8 token u.user_id)
    else if index == 2
    then (if leb 17 (length token) then none else some (record u { user_name = token }))
    else if index == 7
    then stored (λ v. record u { user_enabled = v })
        (parse_line_token_to_uint8 token u.user_enabled)
    else if index == 12
    then stored (λ v. record u { privilege = set u.privilege 1 v })
        (parse_line_token_to_uint8 token 0)
    else if index == 14
    then stored (λ v. record u { user_lock_status = v })
        (parse_line_token_to_uint8 token u.user_lock_status)
    else if index == 15
    then stored (λ v. record u { user_login_rule = v })
        (parse_line_token_to_uint8 token u.user_login_rule)
    else if index == 16
    then stored (λ v. record u { user_login_interface = v })
        (parse_line_token_to_uint8 token u.user_login_interface)
    else if index == 17
    then stored (λ v. record u { is_exclude_user = v })
        (parse_line_token_to_uint8 token u.is_exclude_user)
    else if index == 18
    then stored (λ v. record u { is_password_expired = v })
        (parse_line_token_to_uint8 token u.is_password_expired)
    else if index == 19
    then stored (λ v. record u { role_id = v }) (parse_line_token_to_uint8 token u.role_id)
    else some u

-- The loop over the tokens, from the number of those before, on the user so far.
unfoldable pub store_tokens : ℕ → List Bytes → Option IpmiUser → Option IpmiUser
store_tokens index tokens none = none
store_tokens index [] (some u) = some u
store_tokens index (token ∷ tokens) (some u) =
    store_tokens (index + 1) tokens (store_token (index + 1) token u)

unfoldable pub parse_line_to_struct : Bytes → IpmiUser → Option IpmiUser
parse_line_to_struct line u = store_tokens 0 (strsep b':' line) (some u)

abbrev pub first_token : List Bytes → Bytes
first_token [] = []
first_token (t ∷ _) = t

-- The loop over the lines, with errno != 0 at its start: the first line with this id decides, an
-- empty line ends the search. errno stays set once `strtol` has set it.
unfoldable pub get_user_from : Bool → ℤ → List Bytes → Option IpmiUser
get_user_from errno_set uid [] = none
get_user_from errno_set uid (line ∷ lines) =
    let r = strtol (first_token (strsep b':' line)) in
    let id = to_int r.value in
    let later = get_user_from (errno_set || r.erange) uid lines in
    if length line == 0
    then none
    else if (errno_set || r.erange) && eqb_ℤ id (pos 0) || not r.moved
    then later
    else if not (eqb_ℤ id uid)
    then later
    else parse_line_to_struct line zero_user

-- none where it ends in PAM_AUTH_ERR.
unfoldable pub get_user : Bool → ℤ → Bytes → Option IpmiUser
get_user errno_set uid text = get_user_from errno_set uid (strsep b'\n' text)
