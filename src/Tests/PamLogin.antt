-- ===== src/Tests/PamLogin.antt =====
-- Logins through the PAM module.
use account.Base.{
  ℕ, ◌≤◌, ◌≡◌, refl, ◌↔◌, ◌⊎◌, ◌≢◌, true, false, Option, none, some, [], ◌∷◌, ◌++◌, if◌then◌else◌,
  arith, Bytes, get_or,
}
use account.Clib.Text.{codes, str_eq, starts_with, strsep}
use account.User.{IpmiUser}
use account.LoginRule.Check.{ftp_name, check_user_login_rule}
use account.Clib.Bounded.{c_string}
use account.Clib.Strtol.{strtol, digits, saturate, skip_space}
use account.LoginRule.File.{parse_line_token_to_uint8}
use account.PamLogin.Args.{parse_args, parse_args_from}
use account.PamLogin.Check.{reserved_root_user_name, admitted, check_user}
use account.PamLogin.Entry.{
  PamCall, contents, pam_get_uid, get_ipmi_user, pam_sm_authenticate, pam_sm_acct_mgmt,
}
use account.PamLogin.Entry.Sound.{check_user_iff, ItemsPass, pam_sm_authenticate_iff}
use account.PamLogin.Entry.Account.{ItemEnters, pam_sm_acct_mgmt_iff}
use account.PamLogin.Status.{success, perm_denied}
use account.PamLogin.Uid.{check_uid_is_local_user}
use account.PamLogin.Users.{
  zero_user, parse_line_to_struct, store_tokens, store_token, get_user, get_user_from,
}
use account.PamLogin.Users.Lookup.{OtherId, HasId}
use account.Tests.Data.{machine}

abbrev admin_line : Bytes
admin_line = codes "2:Administrator:x:1:5:0:1:1:1:0:0:4:x:0:0:255:0:0:15"

abbrev other_line : Bytes
other_line = codes "3:operator:x:1:5:0:1:1:1:0:0:3:x:1:0:8:0:0:14"

abbrev privilege_file : Bytes
privilege_file = other_line ++ (b'\n' ∷ (admin_line ++ (b'\n' ∷ [])))

abbrev passwd : Bytes → Option ℕ
passwd name =
    if str_eq name (codes "Administrator")
    then some 502
    else if str_eq name (codes "operator")
    then some 503
    else none

abbrev call_of : Bytes → PamCall
call_of name = record {
  argv = some (codes "onerr=fail") ∷ [];
  user = some name;
  rhost = some (codes "10.0.0.7");
  tty = some (codes "ssh");
  passwd = passwd;
  set_item = true;
  errno_set = false;
  file = (λ path. contents privilege_file);
  machine = machine;
  rule_file = none;
}

admits_administrator : pam_sm_authenticate (call_of (codes "Administrator")) ≡ success
unfolding pam_sm_authenticate parse_args parse_args_from starts_with str_eq pam_get_uid
    check_uid_is_local_user get_ipmi_user get_user get_user_from strtol digits saturate skip_space
    strsep parse_line_to_struct store_tokens store_token parse_line_token_to_uint8 check_user
    check_user_login_rule c_string
admits_administrator = refl

refuses_locked : pam_sm_authenticate (call_of (codes "operator")) ≡ perm_denied
unfolding pam_sm_authenticate parse_args parse_args_from starts_with str_eq pam_get_uid
    check_uid_is_local_user get_ipmi_user get_user get_user_from strtol digits saturate skip_space
    strsep parse_line_to_struct store_tokens store_token parse_line_token_to_uint8 check_user
    check_user_login_rule c_string
refuses_locked = refl

abbrev administrator : IpmiUser
administrator = record zero_user {
  user_id = 2;
  user_name = codes "Administrator";
  user_enabled = 1;
  privilege = 0 ∷ 4 ∷ [];
  user_login_interface = 255;
  role_id = 15;
}

pam_sm_authenticate_iff_example :
    (pam_sm_authenticate (call_of (codes "Administrator")) ≡ success) ↔ (
      (((parse_args (some (codes "onerr=fail") ∷ [])).0 ≢ success)
        × ((parse_args (some (codes "onerr=fail") ∷ [])).1.opt_fail_on_error ≡ false))
      ⊎ (((parse_args (some (codes "onerr=fail") ∷ [])).0 ≡ success)
          × ItemsPass
              (call_of (codes "Administrator"))
              (parse_args (some (codes "onerr=fail") ∷ [])).1
              (some (codes "10.0.0.7"))
              (some (codes "ssh"))))
pam_sm_authenticate_iff_example = pam_sm_authenticate_iff (call_of (codes "Administrator"))

pam_sm_acct_mgmt_iff_example : (pam_sm_acct_mgmt (call_of (codes "operator")) ≡ success) ↔ (
    (((parse_args (some (codes "onerr=fail") ∷ [])).0 ≢ success)
      × ((parse_args (some (codes "onerr=fail") ∷ [])).1.opt_fail_on_error ≡ false))
    ⊎ (((parse_args (some (codes "onerr=fail") ∷ [])).0 ≡ success)
        × ItemEnters
            (call_of (codes "operator"))
            (parse_args (some (codes "onerr=fail") ∷ [])).1
            (some (codes "ssh"))))
pam_sm_acct_mgmt_iff_example = pam_sm_acct_mgmt_iff (call_of (codes "operator"))

check_user_iff_example :
    (check_user machine none true
        (codes "Administrator")
        (codes "ssh")
        (codes "10.0.0.7")
        administrator
      ≡ success)
    ↔ ((codes "Administrator" ≡ codes "Administrator")
        × (administrator.user_enabled ≢ 0)
        × (2 ≤ get_or administrator.privilege 1 0)
        × (get_or administrator.privilege 1 0 ≤ 4)
        × ((starts_with ftp_name (codes "ssh") ≡ true) ⊎ (administrator.user_lock_status ≢ 1))
        × (admitted
              (check_user_login_rule machine (codes "10.0.0.7") none administrator (codes "ssh"))
            ≡ true)
        × ((str_eq (codes "Administrator") reserved_root_user_name ≡ false) ⊎ (true ≡ true)))
check_user_iff_example =
    check_user_iff machine none true (codes "Administrator") (codes "ssh") (codes "10.0.0.7")
      administrator

operator-OtherId : OtherId 2 other_line
unfolding strtol digits saturate skip_space strsep
operator-OtherId = ((λ e. omega arith), refl)

administrator-HasId : HasId 2 admin_line
unfolding strtol digits saturate skip_space strsep
administrator-HasId = ((λ e. omega arith), refl, refl)

lines : strsep b'\n' privilege_file ≡ (other_line ∷ []) ++ (admin_line ∷ [] ∷ [])
unfolding strsep
lines = refl
