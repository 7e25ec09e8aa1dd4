-- ===== src/Uip/Login/Decides.antt =====
-- When the calls of uip_user.c admit a login.
use account.Base.{
  ℕ, ◌-◌, ◌≡◌, ◌≢◌, ◌↔◌, ◌⊎◌, refl, inl, inr, true, Bool-cases, Option-cases, Option, none, some,
  List, ◌==◌, if◌then◌else◌, arith, Bytes, length,
}
use account.Status.{ok, err, is_ok_iff}
use account.User.{IpmiUser}
use account.LoginRule.Check.{check_rules}
use account.LoginRule.Check.Admission.{Exempt, check_user_login_rule_iff}
use account.LoginRule.File.{LoginRuleInfo, no_rules, get_login_rules}
use account.PamLogin.Uid.{imana_uid_base, check_uid_is_local_user}
use account.PamLogin.Check.{reserved_root_user_name, actual_root_user_name}
use account.Clib.Text.{codes, str_eq}
use account.Uip.Users.{Parsed, failed, user, get_ipmi_user}
use account.Uip.Login.{
  Bus, UipSystem, rule_of_user, privilege_of_user, privilege_of_uid, record_of_uid,
  uip_record_login_info, init_dbus_connection, uip_get_privilege, uip_check_login_rule,
}

-- A user is read, and satisfies `P`.
abbrev pub ReadsUser : (IpmiUser → Type 0) → Option Parsed → Type 0
ReadsUser P (some (user u)) = P u
ReadsUser P _ = ⊥

-- The name has the uid of a local user.
abbrev pub IsLocal : Option ℕ → Type 0
IsLocal (some uid) = check_uid_is_local_user uid ≡ true
IsLocal none = ⊥

-- The name that stands in the files.
abbrev pub file_name : Bytes → Bytes
file_name user_name =
    if str_eq user_name actual_root_user_name then reserved_root_user_name else user_name

module _ (system : UipSystem) where
  privilege_of_user_iff :
      (privilege stored : ℕ) (p : Option Parsed)
      → (privilege_of_user system privilege p ≡ some (ok, stored))
        ↔ ReadsUser
            (λ u. (u.user_enabled ≢ 0) × (stored ≡ (if u.role_id == 0 then 15 else privilege)))
            p
  privilege_of_user_iff privilege stored none = ((λ e. cc), (λ n. elim n [ ]))
  privilege_of_user_iff privilege stored (some (failed r)) = ((λ e. cc), (λ n. elim n [ ]))
  privilege_of_user_iff privilege stored (some (user u)) = ground arith

  privilege_of_uid_iff :
      (name : Bytes) (privilege stored : ℕ) (o : Option ℕ)
      → (privilege_of_uid system name privilege o ≡ some (ok, stored)) ↔ (
          IsLocal o
          × ReadsUser
              (λ u. (u.user_enabled ≢ 0) × (stored ≡ (if u.role_id == 0 then 15 else privilege)))
              (get_ipmi_user system.file name))
  privilege_of_uid_iff name privilege stored none = ((λ e. cc), (λ (n, r). elim n [ ]))
  privilege_of_uid_iff name privilege stored (some uid) =
      let reads = privilege_of_user_iff privilege stored (get_ipmi_user system.file name) in
      elim (Bool-cases (check_uid_is_local_user uid)) [
        | inl l ↦ rw l ((λ e. (refl, reads.0 e)), (λ (n, r). reads.1 r))
        | inr l ↦ rw l ((λ e. cc), (λ (n, r). cc))
      ]

  -- uip_get_privilege succeeds exactly when the name has the uid of a local user whose line is read and
  -- who is enabled; what it leaves in the privilege is 15 for a user with the role 0, and otherwise
  -- what was there.
  pub uip_get_privilege_iff :
      (name : Bytes) (privilege stored : ℕ)
      → (uip_get_privilege system name privilege ≡ some (ok, stored)) ↔ (
          IsLocal (system.passwd name)
          × ReadsUser
              (λ u. (u.user_enabled ≢ 0) × (stored ≡ (if u.role_id == 0 then 15 else privilege)))
              (get_ipmi_user system.file name))
  unfolding uip_get_privilege
  uip_get_privilege_iff name privilege stored =
      privilege_of_uid_iff name privilege stored (system.passwd name)

  -- The user is exempt from the rules, or the rule file is read and its rules admit the address.
  abbrev pub RulesAdmit : Bytes → IpmiUser → Type 0
  RulesAdmit ip_addr u =
      Exempt system.machine ip_addr u (codes "OTHER")
      ⊎ ((rules : List LoginRuleInfo) × (get_login_rules system.rule_file no_rules
            ≡ some (ok, rules))
          × (check_rules system.machine ip_addr u.user_login_rule rules ≡ ok))

  rule_of_user_iff :
      (ip_addr : Bytes) (p : Option Parsed)
      → (rule_of_user system ip_addr p ≡ some ok) ↔ ReadsUser (RulesAdmit ip_addr) p
  rule_of_user_iff ip_addr none = ((λ e. cc), (λ n. elim n [ ]))
  rule_of_user_iff ip_addr (some (failed r)) = ((λ e. cc), (λ n. elim n [ ]))
  rule_of_user_iff ip_addr (some (user u)) =
      check_user_login_rule_iff system.machine ip_addr system.rule_file u (codes "OTHER")

  -- For a local user, uip_check_login_rule admits exactly when the user's line is read and the user is
  -- exempt from the rules, or the rule file is read and its rules admit the address; for the types other
  -- than local and SNMP users it admits nobody.
  pub uip_check_login_rule_iff :
      (name ip_addr : Bytes) (bus : Bus)
      → (((uip_check_login_rule system 0 name ip_addr bus).0 ≡ some ok)
          ↔ ReadsUser (RulesAdmit ip_addr) (get_ipmi_user system.file name))
        × ((type : ℕ)
            → type ≢ 0
            → type ≢ 2
            → (uip_check_login_rule system type name ip_addr bus).0 ≡ some err)
  unfolding uip_check_login_rule
  uip_check_login_rule_iff name ip_addr bus =
      (rule_of_user_iff ip_addr (get_ipmi_user system.file name), λ type a b. ground arith)

  -- The byte that SetLastLogin replies for the id of a local user is 0.
  abbrev pub Records : Bytes → Bytes → Bytes → Option ℕ → Type 0
  Records name ip_addr interface none = ⊥
  Records name ip_addr interface (some uid) =
      (check_uid_is_local_user uid ≡ true)
      × (system.set_last_login (uid - imana_uid_base) name ip_addr interface ≡ some 0)

  record_of_uid_iff :
      (name ip_addr interface : Bytes) (o : Option ℕ)
      → (record_of_uid system name ip_addr interface o ≡ ok) ↔ Records name ip_addr interface o
  record_of_uid_iff name ip_addr interface none = ((λ e. cc), (λ n. elim n [ ]))
  record_of_uid_iff name ip_addr interface (some uid) =
      elim (Option-cases (system.set_last_login (uid - imana_uid_base) name ip_addr interface)) [
        | inl e ↦ rw e (ground arith)
        | inr (v, e) ↦ rw e (ground arith)
      ]

  -- uip_record_login_info, with three texts, succeeds exactly when none of them is empty, the bus is
  -- reached, and the name, <root> for root, has the uid of a local user for whom SetLastLogin replies 0.
  uip_record_login_info_iff :
      (user_name ip_addr interface : Bytes) (bus : Bus)
      → ((uip_record_login_info system (some user_name) (some ip_addr) (some interface) bus).0 ≡ ok)
        ↔ ((length user_name ≢ 0)
            × (length ip_addr ≢ 0)
            × (length interface ≢ 0)
            × ((init_dbus_connection system.bus_system bus).0 ≡ ok)
            × Records (file_name user_name) ip_addr interface (system.passwd (file_name user_name)))
  unfolding uip_record_login_info
  uip_record_login_info_iff user_name ip_addr interface bus =
      let r =
        record_of_uid_iff (file_name user_name) ip_addr interface
          (system.passwd (file_name user_name)) in
      let opened = is_ok_iff (init_dbus_connection system.bus_system bus).0 in ground arith
