-- ===== src/PamLogin/Entry.antt =====
-- The entry points pam_sm_authenticate and pam_sm_acct_mgmt, with pam_get_uid and get_ipmi_user, of
-- libiam/lualib-src/iam_core/pam_bmc_login/pam_bmc_login.c. What PAM and the system answer is a
-- parameter.
pub mod Sound
pub mod Account
use account.Base.{
  ℕ, ◌-◌, Bool, true, false, ◌&&◌, ◌||◌, not, Option, none, some, List, [], ◌∷◌, ltb, ◌==◌,
  if◌then◌else◌, Bytes, length,
}
use account.Base.Int.{ℤ, pos}
use account.Clib.Bounded.{c_string}
use account.Clib.Text.{str_eq}
use account.User.{IpmiUser}
use account.LoginRule.Check.{Machine}
use account.PamLogin.Args.{ImanaOptions, parse_args}
use account.PamLogin.Check.{
  reserved_root_user_name, actual_root_user_name, check_user, check_user_login_interface,
}
use account.PamLogin.Status.{
  PamRet, success, auth_err, service_err, user_unknown, perm_denied, minus_one, is_success,
}
use account.PamLogin.Uid.{imana_uid_base, check_uid_is_local_user}
use account.PamLogin.Users.{zero_user, get_user}

-- How far a file can be read: realpath, open, fstat and read may fail.
pub data FileRead : Type 0 where
  unresolved unopened unstated unread : FileRead
  contents : Bytes → FileRead

-- One call by PAM. An item is none where pam_get_item fails, and no item is a null pointer.
-- `user` is what pam_get_user gives, `passwd` the uid of a name.
pub record PamCall : Type 0 where
  pub argv : List (Option Bytes)
  pub user : Option Bytes
  pub rhost : Option Bytes
  pub tty : Option Bytes
  pub passwd : Bytes → Option ℕ
  pub set_item : Bool
  pub errno_set : Bool
  pub file : Bytes → FileRead
  pub machine : Machine
  pub rule_file : Option Bytes

-- (opts->ctrl & OPT_FAIL_ON_ERROR) ? rv : PAM_SUCCESS
abbrev pub on_error : ImanaOptions → PamRet → PamRet
on_error opts rv = if opts.opt_fail_on_error then rv else success

-- A uid and the name that it belongs to.
pub data GotUid : Type 0 where
  failed : PamRet → GotUid
  found : ℕ → Bytes → GotUid

abbrev pub uid_of : Bytes → Option ℕ → GotUid
uid_of name none = failed user_unknown
uid_of name (some uid) = found uid name

unfoldable pub pam_get_uid : (Bytes → Option ℕ) → Option Bytes → GotUid
pam_get_uid passwd none = failed auth_err
pam_get_uid passwd (some []) = failed auth_err
pam_get_uid passwd (some (c ∷ s)) =
    let name = if str_eq (c ∷ s) actual_root_user_name then reserved_root_user_name else c ∷ s in
    uid_of name (passwd name)

-- The user that was read, whole or as {0}, or the error.
pub data GotUser : Type 0 where
  refused : PamRet → GotUser
  got : IpmiUser → GotUser

abbrev pub refused_on_error : ImanaOptions → PamRet → GotUser
refused_on_error opts rv = if opts.opt_fail_on_error then refused rv else got zero_user

abbrev pub user_of : Option IpmiUser → GotUser
user_of none = refused auth_err
user_of (some u) = got u

unfoldable pub get_ipmi_user : Bool → (Bytes → FileRead) → ImanaOptions → ℕ → GotUser
get_ipmi_user errno_set file opts uid =
    if ltb 4096 (length opts.filename)
    then refused_on_error opts auth_err
    else elim (file opts.filename) [
      | unresolved ↦ refused_on_error opts auth_err
      | unopened ↦ refused_on_error opts minus_one
      | unstated ↦ refused_on_error opts minus_one
      | contents [] ↦ refused auth_err
      | unread ↦ refused_on_error opts minus_one
      | contents (c ∷ s) ↦ user_of (get_user errno_set (pos uid) (c_string (c ∷ s)))
    ]

module _ (call : PamCall) where
  -- The checks of pam_sm_authenticate on the user of a local uid.
  abbrev pub judge_user : Bytes → Bytes → Bytes → GotUser → PamRet
  judge_user tty rhost name (refused rv) = user_unknown
  judge_user tty rhost name (got u) =
      if is_success (check_user call.machine call.rule_file call.set_item name tty rhost u)
      then success
      else perm_denied

  abbrev pub judge_uid : ImanaOptions → Bytes → Bytes → GotUid → PamRet
  judge_uid opts tty rhost (failed rv) = on_error opts rv
  judge_uid opts tty rhost (found uid name) =
      if not (check_uid_is_local_user uid)
      then success
      else judge_user tty rhost name
          (get_ipmi_user call.errno_set call.file opts (uid - imana_uid_base))

  abbrev pub judge_items : ImanaOptions → Option Bytes → Option Bytes → PamRet
  judge_items opts (some rhost) (some tty) =
      judge_uid opts tty rhost (pam_get_uid call.passwd call.user)
  judge_items opts _ _ = auth_err

  -- With a handle that is no null pointer.
  unfoldable pub pam_sm_authenticate : PamRet
  pam_sm_authenticate =
      let (rv, opts) = parse_args call.argv in
      if is_success rv then judge_items opts call.rhost call.tty else on_error opts rv

  abbrev pub account_user : Bytes → GotUser → PamRet
  account_user tty (refused rv) = user_unknown
  account_user tty (got u) =
      if is_success (check_user_login_interface u tty) then success else perm_denied

  abbrev pub account_uid : ImanaOptions → Bytes → GotUid → PamRet
  account_uid opts tty (failed rv) = on_error opts rv
  account_uid opts tty (found uid name) =
      if not (check_uid_is_local_user uid)
      then success
      else account_user tty (get_ipmi_user call.errno_set call.file opts (uid - imana_uid_base))

  abbrev pub account_items : ImanaOptions → Option Bytes → PamRet
  account_items opts (some tty) = account_uid opts tty (pam_get_uid call.passwd call.user)
  account_items opts none = service_err

  unfoldable pub pam_sm_acct_mgmt : PamRet
  pam_sm_acct_mgmt =
      let (rv, opts) = parse_args call.argv in
      if is_success rv then account_items opts call.tty else on_error opts rv
