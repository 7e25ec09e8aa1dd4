-- ===== src/PamLogin/Check.antt =====
-- The checks on a user, check_user and check_user_login_interface of
-- libiam/lualib-src/iam_core/pam_bmc_login/pam_bmc_login.c.
use account.Base.{
  ℕ, ◌/◌, ◌%◌, ◌^◌, Bool, false, ◌&&◌, ◌||◌, not, Option, none, some, ltb, ◌==◌, if◌then◌else◌,
  Bytes, get_or,
}
use account.Clib.Text.{codes, str_eq, starts_with, has_substring}
use account.Status.{Ret, is_ok}
use account.User.{IpmiUser}
use account.LoginRule.Check.{Machine, uart2_name, ftp_name, check_user_login_rule}
use account.PamLogin.Status.{PamRet, success, auth_err, perm_denied}

-- RESERVED_ROOT_USER_NAME and ACTUAL_ROOT_USER_NAME
abbrev pub reserved_root_user_name : Bytes
reserved_root_user_name = codes "<root>"

abbrev pub actual_root_user_name : Bytes
actual_root_user_name = codes "root"

-- The bit of `user_login_interface` for a device, none where another module checks it.
unfoldable pub interface_offset : Bytes → Option ℕ
interface_offset tty_name =
    if str_eq tty_name uart2_name
    then some 6
    else if str_eq tty_name (codes "ssh")
    then some 3
    else if str_eq tty_name ftp_name
    then some 4
    else if has_substring (codes "/dev/pts") tty_name
    then some 5
    else none

abbrev pub allowed_at : ℕ → Option ℕ → PamRet
allowed_at interfaces none = success
allowed_at interfaces (some offset) = if interfaces / 2 ^ offset % 2 == 0 then auth_err else success

unfoldable pub check_user_login_interface : IpmiUser → Bytes → PamRet
check_user_login_interface u tty_name =
    if u.is_exclude_user == 1
    then success
    else allowed_at u.user_login_interface (interface_offset tty_name)

-- What a failing access to the rules' memory would do is not modelled: it does not admit.
abbrev pub admitted : Option Ret → Bool
admitted none = false
admitted (some r) = is_ok r

module _ (m : Machine) (rule_file : Option Bytes) where
  -- `set_item` is that pam_set_item succeeds.
  unfoldable pub check_user : Bool → Bytes → Bytes → Bytes → IpmiUser → PamRet
  check_user set_item user_name tty_name ip_addr u =
      if not (str_eq u.user_name user_name)
      then auth_err
      else if u.user_enabled == 0
      then auth_err
      else if ltb (get_or u.privilege 1 0) 2 || ltb 4 (get_or u.privilege 1 0)
      then auth_err
      else if not (starts_with ftp_name tty_name) && u.user_lock_status == 1
      then perm_denied
      else if not (admitted (check_user_login_rule m ip_addr rule_file u tty_name))
      then auth_err
      else if str_eq user_name reserved_root_user_name && not set_item
      then auth_err
      else success
