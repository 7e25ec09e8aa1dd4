-- ===== src/Uip/Login.antt =====
-- What libiam/lualib-src/iam_core/uip/uip_user.c decides about a login, and its connection to the bus.
-- What the bus, the passwd data base and the configuration answer is a parameter.
pub mod Decides
pub mod Locks
use account.Base.{
  ℕ, ◌+◌, ◌-◌, ◌^◌, Bool, true, false, not, ◌||◌, Option, none, some, List, [], ◌∷◌, ◌==◌,
  if◌then◌else◌, Bytes, length, take,
}
use account.Base.Int.{ℤ, pos, ltb_ℤ, eqb_ℤ, wrap}
use account.Clib.Text.{codes, str_eq}
use account.Status.{Ret, ok, err, code, is_ok}
use account.LoginRule.Check.{Machine, check_user_login_rule, check_snmpv1v2_login_rule}
use account.PamLogin.Check.{reserved_root_user_name, actual_root_user_name}
use account.PamLogin.Entry.{FileRead}
use account.PamLogin.Uid.{imana_uid_base, check_uid_is_local_user}
use account.Tally.{Files, TallySystem, get_pam_tally_with_fail_interval}
use account.Tally.Record.{TallyLog}
use account.Uip.Users.{Parsed, failed, user, get_ipmi_user}

-- The pointer g_dbus_conn is set, and the variables of the bus stand in the environment.
pub record Bus : Type 0 where
  pub connected : Bool
  pub env_set : Bool

-- The file with the variables, whether the regular expression matches it, and whether the bus is
-- reached.
pub record BusSystem : Type 0 where
  pub env_file : Option Bytes
  pub env_match : Bytes → Bool
  pub bus_get : Bool

abbrev pub env_of : BusSystem → Bus → Option Bytes → Ret × Bus
env_of system bus none = (err, bus)
env_of system bus (some content) =
    if system.env_match content then (ok, record bus { env_set = true }) else (err, bus)

unfoldable pub init_dbus_env : BusSystem → Bus → Ret × Bus
init_dbus_env system bus = if bus.env_set then (ok, bus) else env_of system bus system.env_file

abbrev pub connect : BusSystem → Ret × Bus → Ret × Bus
connect system (r, bus) =
    if not (is_ok r)
    then (r, bus)
    else if system.bus_get
    then (ok, record bus { connected = true })
    else (err, bus)

unfoldable pub init_dbus_connection : BusSystem → Bus → Ret × Bus
unfolding init_dbus_env
init_dbus_connection system bus =
    if bus.connected then (ok, bus) else connect system (init_dbus_env system bus)

-- The bits of the rules that are named.
abbrev pub rule_bit : Bytes → ℕ
rule_bit name =
    if str_eq name (codes "Rule1")
    then 1
    else if str_eq name (codes "Rule2")
    then 2
    else if str_eq name (codes "Rule3")
    then 4
    else 0

unfoldable pub convert_login_rule_ids_str_to_num : List (Option Bytes) → ℕ
unfolding str_eq
convert_login_rule_ids_str_to_num [] = 0
convert_login_rule_ids_str_to_num (none ∷ rules) = convert_login_rule_ids_str_to_num rules
convert_login_rule_ids_str_to_num (some name ∷ rules) =
    rule_bit name + convert_login_rule_ids_str_to_num rules

-- What the calls below ask: the privilege file, the rule file, the machine, the bus, the texts of the
-- property LoginRuleIds, the uid of a name, and the byte that SetLastLogin replies for an id.
pub record UipSystem : Type 0 where
  pub file : FileRead
  pub rule_file : Option Bytes
  pub machine : Machine
  pub bus_system : BusSystem
  pub login_rule_ids : Option (List (Option Bytes))
  pub passwd : Bytes → Option ℕ
  pub set_last_login : ℕ → Bytes → Bytes → Bytes → Option ℕ

module _ (system : UipSystem) where
  -- OTHER_NAME
  abbrev pub rule_of_user : Bytes → Option Parsed → Option Ret
  rule_of_user ip_addr none = none
  rule_of_user ip_addr (some (failed r)) = some err
  rule_of_user ip_addr (some (user u)) =
      check_user_login_rule system.machine ip_addr system.rule_file u (codes "OTHER")

  -- MAX_RULE_COUNT texts are read.
  abbrev pub rule_of_snmp : Bytes → Option (List (Option Bytes)) → Option Ret
  rule_of_snmp ip_addr none = some err
  rule_of_snmp ip_addr (some rules) =
      check_snmpv1v2_login_rule system.machine ip_addr system.rule_file
        (pos (convert_login_rule_ids_str_to_num (take 3 rules)))

  -- none is an access outside the rules, or a strcmp on a null pointer.
  unfoldable pub uip_check_login_rule : ℕ → Bytes → Bytes → Bus → Option Ret × Bus
  unfolding convert_login_rule_ids_str_to_num
  uip_check_login_rule type user_name ip_addr bus =
      if type == 0
      then (rule_of_user ip_addr (get_ipmi_user system.file user_name), bus)
      else if type == 2
      then (let (r, opened) = init_dbus_connection system.bus_system bus in
          if is_ok r
          then (rule_of_snmp ip_addr system.login_rule_ids, opened)
          else (some err, opened))
      else (some err, bus)

  abbrev pub recorded : Option ℕ → Ret
  recorded none = err
  recorded (some result) = if result == 0 then ok else code result

  abbrev pub record_of_uid : Bytes → Bytes → Bytes → Option ℕ → Ret
  record_of_uid name ip_addr interface none = err
  record_of_uid name ip_addr interface (some uid) =
      if not (check_uid_is_local_user uid)
      then err
      else recorded (system.set_last_login (uid - imana_uid_base) name ip_addr interface)

  abbrev pub record_login : Bytes → Bytes → Bytes → Bus → Ret × Bus
  record_login user_name ip_addr interface bus =
      let name =
        if str_eq user_name actual_root_user_name then reserved_root_user_name else user_name in
      let (r, opened) = init_dbus_connection system.bus_system bus in
      if length user_name == 0 || length ip_addr == 0 || length interface == 0
      then (err, bus)
      else if not (is_ok r)
      then (err, opened)
      else (record_of_uid name ip_addr interface (system.passwd name), opened)

  unfoldable pub uip_record_login_info :
      Option Bytes → Option Bytes → Option Bytes → Bus → Ret × Bus
  unfolding init_dbus_connection check_uid_is_local_user str_eq
  uip_record_login_info (some user_name) (some ip_addr) (some interface) bus =
      record_login user_name ip_addr interface bus
  uip_record_login_info _ _ _ bus = (err, bus)

  -- 15 is no access. The privilege is the caller's, where nothing is stored.
  abbrev pub privilege_of_user : ℕ → Option Parsed → Option (Ret × ℕ)
  privilege_of_user privilege none = none
  privilege_of_user privilege (some (failed r)) = some (err, privilege)
  privilege_of_user privilege (some (user u)) =
      if u.user_enabled == 0
      then some (err, 15)
      else if u.role_id == 0
      then some (ok, 15)
      else some (ok, privilege)

  abbrev pub privilege_of_uid : Bytes → ℕ → Option ℕ → Option (Ret × ℕ)
  privilege_of_uid user_name privilege none = some (err, 15)
  privilege_of_uid user_name privilege (some uid) =
      if not (check_uid_is_local_user uid)
      then some (err, 15)
      else privilege_of_user privilege (get_ipmi_user system.file user_name)

  unfoldable pub uip_get_privilege : Bytes → ℕ → Option (Ret × ℕ)
  unfolding check_uid_is_local_user get_ipmi_user
  uip_get_privilege user_name privilege =
      privilege_of_uid user_name privilege (system.passwd user_name)

-- AccountLockoutDuration, AccountLockoutThreshold and AccountLockoutCounterResetAfter.
pub record LockoutConf : Type 0 where
  pub duration : ℤ
  pub threshold : ℤ
  pub time_interval : ℤ

abbrev pub locked_by : ℤ → Option TallyLog → Bool
locked_by threshold none = false
locked_by threshold (some log) =
    if eqb_ℤ threshold (pos 0) then false else not (ltb_ℤ (pos log.fail_cnt) threshold)

-- What fails does not block the authentication.
unfoldable pub uip_get_user_is_lock_by_username :
    TallySystem → Option LockoutConf → Bytes → Bytes → ℕ → Files → Bool × Files
unfolding get_pam_tally_with_fail_interval
uip_get_user_is_lock_by_username system none dir username now files = (false, files)
uip_get_user_is_lock_by_username system (some conf) dir username now files =
    let (log, files') =
      get_pam_tally_with_fail_interval system username dir now (wrap (2 ^ 64) conf.duration)
        conf.time_interval files in
    (locked_by conf.threshold log, files')
