-- ===== src/LoginRule/Check.antt =====
-- The decision on a login of libiam/lualib-src/iam_core/common/check_login_rule.c: `check_rules` and
-- the two entry points.
pub mod Admission
use account.Base.{
  ℕ, ◌+◌, ◌/◌, ◌%◌, ◌^◌, Bool, true, false, ◌&&◌, ◌||◌, not, Option, none, some, List, [], ◌∷◌,
  ◌==◌, if◌then◌else◌, Bytes, length,
}
use account.Base.Int.{ℤ, wrap}
use account.Clib.Text.{codes, starts_with}
use account.Status.{Ret, ok, err, limited, is_ok}
use account.Network.{Inet}
use account.User.{IpmiUser}
use account.LoginRule.Time.{Tm, check_time_rule}
use account.LoginRule.Address.{Host, check_ip_rule, check_mac_rule}
use account.LoginRule.File.{
  LoginRuleInfo, no_rules, time_text, ip_text, ipv6_text, mac_text, get_login_rules,
}

-- UART2_NAME and FTP_NAME of common.h
abbrev pub uart2_name : Bytes
uart2_name = codes "/dev/ttyS0"

abbrev pub ftp_name : Bytes
ftp_name = codes "ftp"

-- What the checks ask the machine.
pub record Machine : Type 0 where
  pub net : Inet
  pub host : Host
  pub clock : Option Tm

-- ret == RET_ERR after the read, or the verdict on the rules.
abbrev pub with_rules : (List LoginRuleInfo → Ret) → Option (Ret × List LoginRuleInfo) → Option Ret
with_rules check none = none
with_rules check (some (r, rules)) = some (if is_ok r then check rules else err)

module _ (m : Machine) (ip_addr : Bytes) where
  -- The IPv4 rule has priority over the IPv6 rule.
  abbrev pub address_rule : LoginRuleInfo → List LoginRuleInfo → Bytes
  address_rule r rs =
      if length (ip_text r rs) == 0 && not (length (ipv6_text r rs) == 0)
      then ipv6_text r rs
      else ip_text r rs

  -- The body of the loop on a rule that is not skipped, with the rules behind it.
  unfoldable pub check_rule : LoginRuleInfo → List LoginRuleInfo → Ret
  check_rule r rs =
      if not (is_ok (check_time_rule m.clock (time_text r rs)))
      then err
      else if not (is_ok (check_ip_rule m.net (address_rule r rs) ip_addr))
      then err
      else if not (is_ok (check_mac_rule m.net m.host (mac_text r rs) ip_addr))
      then err
      else ok

  -- The loop from the rule `idx` on, with the flag so far, which is a guint8.
  unfoldable pub check_rules_from : ℕ → ℕ → ℕ → List LoginRuleInfo → Ret
  check_rules_from rule_ids idx flag [] = if flag == 7 then ok else limited
  check_rules_from rule_ids idx flag (r ∷ rs) =
      let skipped = check_rules_from rule_ids (idx + 1) ((flag + 2 ^ idx % 256) % 256) rs in
      let failed = check_rules_from rule_ids (idx + 1) flag rs in
      if r.rule_enabled == 0 || rule_ids / 2 ^ idx % 2 == 0
      then skipped
      else if is_ok (check_rule r rs)
      then ok
      else failed

  -- rule_ids is a guint8.
  unfoldable pub check_rules : ℕ → List LoginRuleInfo → Ret
  check_rules rule_ids login_rules = check_rules_from (rule_ids % 256) 0 0 login_rules

  -- The file is an argument; none where its parser leaves the array of rules.
  unfoldable pub check_user_login_rule : Option Bytes → IpmiUser → Bytes → Option Ret
  check_user_login_rule file ipmi_user tty_name =
      if starts_with uart2_name tty_name || starts_with ftp_name tty_name
      then some ok
      else if ipmi_user.user_login_rule == 0
      then some ok
      else if ipmi_user.is_exclude_user == 1
      then some ok
      else with_rules (check_rules ipmi_user.user_login_rule) (get_login_rules file no_rules)

  -- The call cuts `ruleids` to a guint8.
  unfoldable pub check_snmpv1v2_login_rule : Option Bytes → ℤ → Option Ret
  check_snmpv1v2_login_rule file ruleids =
      with_rules (check_rules (wrap 256 ruleids)) (get_login_rules file no_rules)
