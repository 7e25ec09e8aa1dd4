-- ===== src/Tests/LoginRule.antt =====
-- Login rules: times, addresses, files and decisions.
use account.Base.{
  ℕ, zero, suc, ◌<◌, ◌≡◌, ◌↔◌, ◌⊎◌, ◌≢◌, true, none, some, List, [], ◌∷◌, arith, Bytes, All,
  replicate,
}
use account.Clib.Text.{codes}
use account.Status.{ok, err}
use account.User.{IpmiUser}
use account.LoginRule.Check.{check_rule, check_rules, check_user_login_rule}
use account.LoginRule.Check.Admission.{
  InForce, Exempt, check_rules_iff, check_user_login_rule_iff, check_user_login_rule-oversized,
}
use account.LoginRule.File.{LoginRuleInfo, empty_rule, no_rules, get_login_rules}
use account.LoginRule.File.Line.{Entry, IsEntry}
use account.LoginRule.File.RoundTrip.{file, ReadsAs, get_login_rules-file}
use account.LoginRule.Time.{
  TimeInfo, TimeRuleInfo, check_ymdhm, check_ymd, check_hm, check_time_rule,
}
use account.LoginRule.Time.Order.{IsBytes, TimeLe, clock_time, check_ymdhm_iff, check_ymd-wraps}
use account.LoginRule.Time.Layout.{IsPrintable, between, ymdhm, ymd, hm}
use account.LoginRule.Time.Text.{check_time_rule-text}
use account.PamLogin.Users.{zero_user}
use account.Tests.Data.{now, machine}

abbrev start : TimeInfo
start = record { year = 2026; mon = 1; mday = 1; hour = 8; min = 0 }

abbrev end : TimeInfo
end = record { year = 2047; mon = 12; mday = 31; hour = 20; min = 30 }

abbrev later : TimeInfo
later = record { year = 2048; mon = 1; mday = 1; hour = 0; min = 0 }

abbrev span : TimeRuleInfo
span = record { start_time = start; end_time = end }

start-IsPrintable : IsPrintable start
start-IsPrintable = record {
  year_digits = omega arith;
  mon_digits = omega arith;
  mday_digits = omega arith;
  hour_digits = omega arith;
  min_digits = omega arith;
}

end-IsPrintable : IsPrintable end
end-IsPrintable = record {
  year_digits = omega arith;
  mon_digits = omega arith;
  mday_digits = omega arith;
  hour_digits = omega arith;
  min_digits = omega arith;
}

IsBytes-of : (t : TimeInfo) → t.mon < 256 → t.mday < 256 → t.hour < 256 → t.min < 256 → IsBytes t
IsBytes-of t a b c d = record { mon_byte = a; mday_byte = b; hour_byte = c; min_byte = d }

now-IsBytes : IsBytes (clock_time now)
now-IsBytes = IsBytes-of (clock_time now) (omega arith) (omega arith) (omega arith) (omega arith)

start-IsBytes : IsBytes start
start-IsBytes = IsBytes-of start (omega arith) (omega arith) (omega arith) (omega arith)

end-IsBytes : IsBytes end
end-IsBytes = IsBytes-of end (omega arith) (omega arith) (omega arith) (omega arith)

check_ymdhm_iff_example :
    (check_ymdhm now span ≡ ok) ↔ (TimeLe start (clock_time now) × TimeLe (clock_time now) end)
check_ymdhm_iff_example = check_ymdhm_iff now span now-IsBytes start-IsBytes end-IsBytes

check_ymd-wraps_example : check_ymd now (record { start_time = end; end_time = later }) ≡ err
check_ymd-wraps_example =
    check_ymd-wraps now (record { start_time = end; end_time = later }) (omega arith) (omega arith)
      (omega arith)

check_time_rule-text_example :
    (check_time_rule (some now) (between (ymdhm start) (ymdhm end)) ≡ check_ymdhm now span)
    × (check_time_rule (some now) (between (ymd start) (ymd end)) ≡ check_ymd now span)
    × (check_time_rule (some now) (between (hm start) (hm end)) ≡ check_hm now span)
check_time_rule-text_example = check_time_rule-text now start end start-IsPrintable end-IsPrintable

abbrev mac_rule : Bytes
mac_rule = codes "01:02:AB"

abbrev ip : Bytes
ip = codes "10.0.0.7"

abbrev entry : Entry
entry = record {
  enabled = true;
  time = codes "08:00/20:30";
  ip = codes "10.0.0.0/24";
  mac = [];
  ipv6 = codes "fd00::/64";
}

entry-IsEntry : IsEntry entry
entry-IsEntry = record {
  time_fits = (omega arith, ground arith);
  ip_fits = (omega arith, ground arith);
  mac_fits = (omega arith, tt);
  ipv6_fits = (omega arith, ground arith);
  line_fits = omega arith;
}

get_login_rules-file_example :
    (x y z : LoginRuleInfo) × (get_login_rules (some (file entry entry entry)) no_rules
      ≡ some (ok, x ∷ y ∷ z ∷ []))
    × ReadsAs 1 entry x (y ∷ z ∷ [])
    × ReadsAs 2 entry y (z ∷ [])
    × ReadsAs 3 entry z []
get_login_rules-file_example =
    get_login_rules-file entry entry entry entry-IsEntry entry-IsEntry entry-IsEntry (omega arith)

abbrev enabled_rule : LoginRuleInfo
enabled_rule = record empty_rule { rule_id = 1; rule_enabled = 1 }

check_rules_iff_example :
    (check_rules machine ip 5 (enabled_rule ∷ empty_rule ∷ empty_rule ∷ []) ≡ ok) ↔ (
      (InForce machine ip 5 0 enabled_rule
        × (check_rule machine ip enabled_rule (empty_rule ∷ empty_rule ∷ []) ≡ ok))
      ⊎ (InForce machine ip 5 1 empty_rule
          × (check_rule machine ip empty_rule (empty_rule ∷ []) ≡ ok))
      ⊎ (InForce machine ip 5 2 empty_rule × (check_rule machine ip empty_rule [] ≡ ok))
      ⊎ ((¬ InForce machine ip 5 0 enabled_rule)
          × (¬ InForce machine ip 5 1 empty_rule)
          × (¬ InForce machine ip 5 2 empty_rule)))
check_rules_iff_example = check_rules_iff machine ip 5 enabled_rule empty_rule empty_rule

abbrev restricted : IpmiUser
restricted = record zero_user { user_login_rule = 1 }

check_user_login_rule_iff_example :
    (check_user_login_rule machine ip none restricted (codes "ssh") ≡ some ok) ↔ (
      Exempt machine ip restricted (codes "ssh")
      ⊎ ((rules : List LoginRuleInfo) × (get_login_rules none no_rules ≡ some (ok, rules))
          × (check_rules machine ip 1 rules ≡ ok)))
check_user_login_rule_iff_example =
    check_user_login_rule_iff machine ip none restricted (codes "ssh")

abbrev long_file : Bytes
long_file = replicate 778 b'1'

long_file-whole : (n : ℕ) → All (λ (b : ℕ). b ≢ 0) (replicate n b'1')
long_file-whole zero = tt
long_file-whole (suc n) = ((λ e. omega arith), long_file-whole n)

check_user_login_rule-oversized_example :
    check_user_login_rule machine ip (some long_file) restricted (codes "ssh") ≡ some ok
check_user_login_rule-oversized_example =
    check_user_login_rule-oversized machine ip long_file restricted (codes "ssh") (omega arith)
      (long_file-whole 778)
