-- ===== src/Tests/Uip.antt =====
-- The user library: LDAP users, privilege lines, role ids and decisions.
use account.Base.{
  ℕ, ◌+◌, ◌≤◌, ◌<◌, ◌≡◌, ◌≢◌, ◌↔◌, refl, true, false, none, some, [], ◌∷◌, ◌++◌, arith, Bytes, drop,
  if◌then◌else◌, ◌==◌, All,
}
use account.Base.Int.{ℤ, pos, negsuc}
use account.Clib.Bounded.{c_string}
use account.Clib.Strtol.{strtol, digits, saturate, skip_space}
use account.Clib.Text.{codes, str_eq, strsep, has_char, has_substring, starts_with}
use account.LoginRule.File.{parse_line_token_to_uint8}
use account.PamLogin.Entry.{FileRead, contents}
use account.PamLogin.Users
use account.PamLogin.Users.{zero_user}
use account.Status.{ok, err}
use account.Tally.Lockout.{increments}
use account.Tally.{TallySystem, Files, open_tally, tally_path, reset_pam_tally}
use account.Tally.Record.{whole}
use account.Tests.Data.{machine}
use account.Uip.Login.Decides.{
  IsLocal, ReadsUser, RulesAdmit, uip_get_privilege_iff, uip_check_login_rule_iff,
}
use account.Uip.Login.Locks.{failures-lock_user}
use account.Uip.Login.{
  Bus, UipSystem, uip_get_privilege, uip_check_login_rule, uip_get_user_is_lock_by_username,
}
use account.Uip.Roles.Fits.{parse_role_id-roles}
use account.Uip.Roles.{parse_role_id}
use account.Uip.Slots.Numbered.{start, call, alloc, IsOther, uip_alloc_ldap_uid_unique}
use account.Uip.Slots.Renew.{uip_read_ldap_user-renew}
use account.Uip.Slots.{
  LdapUser, LdapFile, LdapFileSystem, zero_ldap_user, empty_ldap_file, first_free, write_slot,
  uip_alloc_ldap_uid, uip_read_ldap_user, uip_renew_ldap_user,
}
use account.Uip.Users.Agrees.{user?, parse_line_to_struct-agrees}
use account.Uip.Users.File.{file_of, get_user-file}
use account.Uip.Users.Line.{Entry, IsEntry, line_of, user_of}
use account.Uip.Users.{
  failed, user, user_not_found_in_ipmi, get_user, get_user_from, get_ipmi_user,
  parse_line_to_struct, store_token, store_tokens, uip_is_login_interface_enable,
}

abbrev slots_system : LdapFileSystem
slots_system = record { can_open = true; short_write = none }

abbrev one_user : LdapFile
one_user = (uip_alloc_ldap_uid slots_system empty_ldap_file).1

second_uid : (uip_alloc_ldap_uid slots_system one_user).0 ≡ some (pos 1001)
unfolding uip_alloc_ldap_uid first_free write_slot
second_uid = refl

uip_alloc_ldap_uid_unique_example :
    ((n : ℕ) × (n < 32) × (pos 1001 ≡ pos (1000 + n))) × All (IsOther (pos 1001)) one_user.slots
uip_alloc_ldap_uid_unique_example =
    uip_alloc_ldap_uid_unique slots_system refl refl one_user (pos 1001)
      (call start (alloc empty_ldap_file)) second_uid

abbrev remote : LdapUser
remote = record zero_ldap_user { used = 1; uid = pos 1004; username = codes "remote" }

uip_read_ldap_user-renew_example :
    ((uip_renew_ldap_user slots_system remote one_user).0 ≡ ok)
    × (uip_read_ldap_user slots_system
          (pos 1004)
          (uip_renew_ldap_user slots_system remote one_user).1
        ≡ some remote)
    × ((uid : ℤ) (v : LdapUser)
        → uid ≢ pos 1004
        → uip_read_ldap_user slots_system uid one_user ≡ some v
        → uip_read_ldap_user slots_system uid (uip_renew_ldap_user slots_system remote one_user).1
          ≡ some v)
    × ((n : ℕ)
        → 1004 < n
        → uip_read_ldap_user slots_system (pos n) one_user ≡ none
        → uip_read_ldap_user slots_system
            (pos n)
            (uip_renew_ldap_user slots_system remote one_user).1
          ≡ none)
uip_read_ldap_user-renew_example =
    uip_read_ldap_user-renew slots_system refl refl remote one_user refl

abbrev entry : ℕ → Bytes → Entry
entry id name = record {
  id = id;
  name = name;
  password = codes "x";
  is_20bytes_passwd = codes "1";
  max_session_num = codes "5";
  is_callin = codes "0";
  enabled = 1;
  auth_enable = codes "1";
  ipmi_msg_enable = codes "1";
  is_enable_by_passwd = codes "0";
  privilege_0 = codes "0";
  privilege_1 = 4;
  snmp_password = codes "x";
  lock_state = 0;
  login_rule = 0;
  login_interface = 9;
  is_exclude_user = 0;
  is_password_expired = 0;
  role_id = 15;
}

operator_IsEntry : IsEntry (entry 3 (codes "operator"))
unfolding has_char
operator_IsEntry = record {
  id_byte = omega arith;
  enabled_byte = omega arith;
  privilege_1_byte = omega arith;
  lock_state_byte = omega arith;
  login_rule_byte = omega arith;
  login_interface_byte = omega arith;
  is_exclude_user_byte = omega arith;
  is_password_expired_byte = omega arith;
  role_id_byte = omega arith;
  name_fits = omega arith;
  name_token = (refl, refl);
  password_token = (refl, refl);
  is_20bytes_passwd_token = (refl, refl);
  max_session_num_token = (refl, refl);
  is_callin_token = (refl, refl);
  auth_enable_token = (refl, refl);
  ipmi_msg_enable_token = (refl, refl);
  is_enable_by_passwd_token = (refl, refl);
  privilege_0_token = (refl, refl);
  snmp_password_token = (refl, refl);
}

administrator_IsEntry : IsEntry (entry 2 (codes "Administrator"))
unfolding has_char
administrator_IsEntry = record {
  id_byte = omega arith;
  enabled_byte = omega arith;
  privilege_1_byte = omega arith;
  lock_state_byte = omega arith;
  login_rule_byte = omega arith;
  login_interface_byte = omega arith;
  is_exclude_user_byte = omega arith;
  is_password_expired_byte = omega arith;
  role_id_byte = omega arith;
  name_fits = omega arith;
  name_token = (refl, refl);
  password_token = (refl, refl);
  is_20bytes_passwd_token = (refl, refl);
  max_session_num_token = (refl, refl);
  is_callin_token = (refl, refl);
  auth_enable_token = (refl, refl);
  ipmi_msg_enable_token = (refl, refl);
  is_enable_by_passwd_token = (refl, refl);
  privilege_0_token = (refl, refl);
  snmp_password_token = (refl, refl);
}

abbrev operator : Entry
operator = entry 3 (codes "operator")

abbrev administrator : Entry
administrator = entry 2 (codes "Administrator")

get_user-file_example :
    (get_user
        (codes "Administrator")
        (file_of (operator ∷ []) (line_of administrator ++ (b'\n' ∷ [])))
      ≡ some (user (user_of administrator)))
    × (get_user (codes "Administrator") (file_of (operator ∷ []) [])
        ≡ some (failed user_not_found_in_ipmi))
get_user-file_example =
    get_user-file (operator ∷ []) administrator [] (operator_IsEntry, tt) ((λ e. ground arith), tt)
      administrator_IsEntry

parse_line_to_struct-agrees_example :
    user? (parse_line_to_struct (line_of operator) zero_user)
    ≡ Users.parse_line_to_struct (line_of operator) zero_user
parse_line_to_struct-agrees_example = parse_line_to_struct-agrees (line_of operator) zero_user

abbrev file : FileRead
file = contents (file_of (operator ∷ administrator ∷ []) [])

web_enabled : uip_is_login_interface_enable file (some (codes "Administrator")) 0 ≡ some 1
unfolding uip_is_login_interface_enable get_ipmi_user get_user get_user_from strsep c_string str_eq
    parse_line_to_struct store_tokens store_token parse_line_token_to_uint8 strtol digits saturate
    skip_space
web_enabled = refl

parse_role_id-roles_example :
    (2 ≤ 29
      → parse_role_id (codes "15,4") zero_ldap_user
        ≡ some (record zero_ldap_user {
          roleid = 15 ∷ (4 ∷ []) ++ (0 ∷ 0 ∷ 0 ∷ drop 5 zero_ldap_user.roleid);
        }))
    × (31 ≤ 2 → parse_role_id (codes "15,4") zero_ldap_user ≡ none)
parse_role_id-roles_example =
    parse_role_id-roles 15 (4 ∷ []) zero_ldap_user (omega arith, (omega arith, tt)) (omega arith)
      refl

abbrev uip_system : UipSystem
uip_system = record {
  file = file;
  rule_file = none;
  machine = machine;
  bus_system = record { env_file = none; env_match = (λ s. false); bus_get = true };
  login_rule_ids = none;
  passwd = (λ name. if str_eq name (codes "Administrator") then some 502 else none);
  set_last_login = (λ id name ip interface. some 0);
}

abbrev bus : Bus
bus = record { connected = true; env_set = true }

uip_get_privilege_iff_example :
    (uip_get_privilege uip_system (codes "Administrator") 4 ≡ some (ok, 4)) ↔ (
      IsLocal (uip_system.passwd (codes "Administrator"))
      × ReadsUser
          (λ u. (u.user_enabled ≢ 0) × (◌≡◌ {A = ℕ} 4 (if u.role_id == 0 then 15 else 4)))
          (get_ipmi_user file (codes "Administrator")))
uip_get_privilege_iff_example = uip_get_privilege_iff uip_system (codes "Administrator") 4 4

uip_check_login_rule_iff_example :
    (((uip_check_login_rule uip_system 0 (codes "Administrator") (codes "10.0.0.7") bus).0
        ≡ some ok)
      ↔ ReadsUser
          (RulesAdmit uip_system (codes "10.0.0.7"))
          (get_ipmi_user file (codes "Administrator")))
    × ((type : ℕ)
        → type ≢ 0
        → type ≢ 2
        → (uip_check_login_rule uip_system type (codes "Administrator") (codes "10.0.0.7") bus).0
          ≡ some err)
uip_check_login_rule_iff_example =
    uip_check_login_rule_iff uip_system (codes "Administrator") (codes "10.0.0.7") bus

abbrev tally_system : TallySystem
tally_system = record {
  can_open = (λ path. true);
  ftruncate_errno = (λ path. none);
  short_write = (λ path. none);
}

abbrev dir : Bytes
dir = codes "/dev/shm/tallylog"

opens : open_tally tally_system (codes "root") dir ≡ some (codes "/dev/shm/tallylog/<root>")
unfolding open_tally tally_path str_eq has_substring starts_with
opens = refl

abbrev files : Files
files = λ p. whole []

failures-lock_user_example :
    (uip_get_user_is_lock_by_username tally_system
      (some (record { duration = pos 60; threshold = pos 2; time_interval = negsuc 0 }))
      dir
      (codes "root")
      1050
      (increments tally_system
        (codes "root")
        dir
        (1000 ∷ 1200 ∷ [])
        (reset_pam_tally tally_system (codes "root") dir files).1)).0
    ≡ true
failures-lock_user_example =
    failures-lock_user tally_system (codes "root") dir (codes "/dev/shm/tallylog/<root>") 1050 1000
      1200 60 2 (negsuc 0) (1000 ∷ 1200 ∷ []) files (opens, refl, refl) (omega arith) (omega arith)
      ((omega arith, omega arith), ((omega arith, omega arith), tt)) (omega arith) (omega arith)
      (omega arith) (omega arith)
