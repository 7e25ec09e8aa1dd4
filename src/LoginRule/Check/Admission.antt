-- ===== src/LoginRule/Check/Admission.antt =====
-- Whom the login rules admit.
use account.Base.{
  ℕ, ◌/◌, ◌%◌, ◌^◌, ◌<◌, ◌≡◌, refl, ap, ◌∙◌, ◌↔◌, ◌⊎◌, ◌≢◌, inr, true, Option, none, some, List, [],
  ◌∷◌, arith, Bytes, length, All,
}
use account.Clib.Bounded.{c_string-whole}
use account.Clib.Text.{starts_with}
use account.Status.{Ret, ok, err, limited, code, is_ok_iff}
use account.User.{IpmiUser}
use account.LoginRule.Time.{check_time_rule}
use account.LoginRule.Address.{check_ip_rule, check_mac_rule}
use account.LoginRule.File.{
  LoginRuleInfo, no_rules, time_text, mac_text, get_login_rules, parse_rules, drop_result,
}
use account.LoginRule.Check.{
  Machine, uart2_name, ftp_name, with_rules, address_rule, check_rule, check_rules_from,
  check_rules, check_user_login_rule,
}

module _ (m : Machine) (ip_addr : Bytes) where
  -- A rule admits a login exactly when its time, its address rule and its hardware rule all do; the
  -- IPv6 rule is the address rule only where the IPv4 rule is empty.
  check_rule_iff :
      (r : LoginRuleInfo) (rs : List LoginRuleInfo)
      → (check_rule m ip_addr r rs ≡ ok) ↔ (
          (check_time_rule m.clock (time_text r rs) ≡ ok)
          × (check_ip_rule m.net (address_rule m ip_addr r rs) ip_addr ≡ ok)
          × (check_mac_rule m.net m.host (mac_text r rs) ip_addr ≡ ok))
  unfolding check_rule
  check_rule_iff r rs =
      let t = is_ok_iff (check_time_rule m.clock (time_text r rs)) in
      let a = is_ok_iff (check_ip_rule m.net (address_rule m ip_addr r rs) ip_addr) in
      let h = is_ok_iff (check_mac_rule m.net m.host (mac_text r rs) ip_addr) in ground arith

  -- The user has the rule `idx`, and it is enabled.
  abbrev pub InForce : ℕ → ℕ → LoginRuleInfo → Type 0
  InForce rule_ids idx r = (r.rule_enabled ≢ 0) × (rule_ids % 256 / 2 ^ idx % 2 ≡ 1)

  -- With the three rules of the array, a login is admitted exactly when some rule that is in force
  -- for the user admits it, or no rule is in force.
  pub check_rules_iff :
      (rule_ids : ℕ) (a b c : LoginRuleInfo)
      → (check_rules m ip_addr rule_ids (a ∷ b ∷ c ∷ []) ≡ ok) ↔ (
          (InForce rule_ids 0 a × (check_rule m ip_addr a (b ∷ c ∷ []) ≡ ok))
          ⊎ (InForce rule_ids 1 b × (check_rule m ip_addr b (c ∷ []) ≡ ok))
          ⊎ (InForce rule_ids 2 c × (check_rule m ip_addr c [] ≡ ok))
          ⊎ ((¬ InForce rule_ids 0 a) × (¬ InForce rule_ids 1 b) × (¬ InForce rule_ids 2 c)))
  unfolding check_rules check_rules_from
  check_rules_iff rule_ids a b c =
      let ra = is_ok_iff (check_rule m ip_addr a (b ∷ c ∷ [])) in
      let rb = is_ok_iff (check_rule m ip_addr b (c ∷ [])) in
      let rc = is_ok_iff (check_rule m ip_addr c []) in ground arith

  -- No rule restricts the login.
  abbrev pub Exempt : IpmiUser → Bytes → Type 0
  Exempt user tty_name =
      (starts_with uart2_name tty_name ≡ true)
      ⊎ (starts_with ftp_name tty_name ≡ true)
      ⊎ (user.user_login_rule ≡ 0)
      ⊎ (user.is_exclude_user ≡ 1)

  abbrev Read : (List LoginRuleInfo → Ret) → Option (Ret × List LoginRuleInfo) → Type 0
  Read check read = (rules : List LoginRuleInfo) × (read ≡ some (ok, rules)) × (check rules ≡ ok)

  with_rules_iff :
      (check : List LoginRuleInfo → Ret) (read : Option (Ret × List LoginRuleInfo))
      → (with_rules check read ≡ some ok) ↔ Read check read
  with_rules_iff check none = ((λ h. cc), (λ h. cc))
  with_rules_iff check (some (ok, rules)) = (λ h. (rules, refl, cc), λ (rules', e, h). cc)
  with_rules_iff check (some (err, rules)) = ((λ h. cc), (λ h. cc))
  with_rules_iff check (some (limited, rules)) = ((λ h. cc), (λ h. cc))
  with_rules_iff check (some (code c, rules)) = ((λ h. cc), (λ h. cc))

  -- A login is admitted exactly when it is exempt, being on the serial port or by FTP, or by a user
  -- without rules or one that is excluded from them, or the rule file can be read and `check_rules`
  -- admits it by the rules that were read.
  pub check_user_login_rule_iff :
      (file : Option Bytes) (user : IpmiUser) (tty_name : Bytes)
      → (check_user_login_rule m ip_addr file user tty_name ≡ some ok) ↔ (
          Exempt user tty_name
          ⊎ ((rules : List LoginRuleInfo) × (get_login_rules file no_rules ≡ some (ok, rules))
              × (check_rules m ip_addr user.user_login_rule rules ≡ ok)))
  unfolding check_user_login_rule
  check_user_login_rule_iff file user tty_name =
      let w =
        with_rules_iff (check_rules m ip_addr user.user_login_rule)
          (get_login_rules file no_rules) in
      ground arith

  too_long : (s : Bytes) → 777 < length s → parse_rules s no_rules ≡ some (err, no_rules)
  unfolding parse_rules
  too_long s h = ground arith

  no_rules-admit : (rule_ids : ℕ) → check_rules m ip_addr rule_ids no_rules ≡ ok
  unfolding check_rules check_rules_from
  no_rules-admit rule_ids = refl

  unread :
      (s : Bytes)
      → 777 < length s
      → All (λ b. b ≢ 0) s
      → get_login_rules (some s) no_rules ≡ some (ok, no_rules)
  unfolding get_login_rules
  unread [] l w = absurd (omega arith)
  unread (c ∷ s) l w =
      ap (λ t. drop_result (parse_rules t no_rules)) (c_string-whole (c ∷ s) w)
      ∙ ap drop_result (too_long (c ∷ s) l)

  -- A rule file of more than 777 bytes, none of them a terminator, restricts nobody: every login of
  -- every user is admitted.
  pub check_user_login_rule-oversized :
      (file : Bytes) (user : IpmiUser) (tty_name : Bytes)
      → 777 < length file
      → All (λ b. b ≢ 0) file
      → check_user_login_rule m ip_addr (some file) user tty_name ≡ some ok
  check_user_login_rule-oversized file user tty_name long whole =
      (check_user_login_rule_iff (some file) user tty_name).1
        (inr (no_rules, unread file long whole, no_rules-admit user.user_login_rule))
