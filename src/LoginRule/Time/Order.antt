-- ===== src/LoginRule/Time/Order.antt =====
-- The packed words of the time checks compare as the dates and times that they stand for.
use account.Base.{ℕ, ◌+◌, ◌%◌, ◌^◌, ◌≤◌, ◌<◌, ◌≡◌, ◌↔◌, ◌⊎◌, arith}
use account.Status.{ok, err}
use account.LoginRule.Time.{
  Tm, TimeInfo, TimeRuleInfo, time_year_base, parse_time_ymdhm, parse_time_ymd, parse_time_hm,
  check_ymdhm, check_ymd, check_hm,
}

-- First components first.
abbrev pub Before : ℕ → ℕ → Type 0 → Type 0
Before a b rest = (a < b) ⊎ ((a ≡ b) × rest)

-- The time of the clock, in the fields of a rule.
abbrev pub clock_time : Tm → TimeInfo
clock_time now = record {
  year = time_year_base + now.tm_year;
  mon = 1 + now.tm_mon;
  mday = now.tm_mday;
  hour = now.tm_hour;
  min = now.tm_min;
}

abbrev pub TimeLe : TimeInfo → TimeInfo → Type 0
TimeLe s t =
    Before s.year t.year
      (Before s.mon t.mon (Before s.mday t.mday (Before s.hour t.hour (s.min ≤ t.min))))

-- The four fields of one byte each.
pub record IsBytes (t : TimeInfo) : Type 0 where
  pub mon_byte : t.mon < 256
  pub mday_byte : t.mday < 256
  pub hour_byte : t.hour < 256
  pub min_byte : t.min < 256

ymdhm-lt :
    (s t : TimeInfo)
    → IsBytes s
    → IsBytes t
    → (parse_time_ymdhm s.mon s.mday s.hour s.min ≤ parse_time_ymdhm t.mon t.mday t.hour t.min)
      ↔ Before s.mon t.mon (Before s.mday t.mday (Before s.hour t.hour (s.min ≤ t.min)))
unfolding parse_time_ymdhm
ymdhm-lt s t hs ht = ground arith

-- A rule with both date and time lets through exactly the moments between its two ends, both
-- included. (Seconds are not looked at.)
pub check_ymdhm_iff :
    (now : Tm) (r : TimeRuleInfo)
    → IsBytes (clock_time now)
    → IsBytes r.start_time
    → IsBytes r.end_time
    → (check_ymdhm now r ≡ ok)
      ↔ (TimeLe r.start_time (clock_time now) × TimeLe (clock_time now) r.end_time)
unfolding check_ymdhm
check_ymdhm_iff now r hn hs he =
    let after_start = ymdhm-lt r.start_time (clock_time now) hs hn in
    let before_end = ymdhm-lt (clock_time now) r.end_time hn he in ground arith

-- A rule of hours and minutes lets through exactly the minutes of the day between its two ends.
check_hm_iff :
    (now : Tm) (r : TimeRuleInfo)
    → IsBytes (clock_time now)
    → IsBytes r.start_time
    → IsBytes r.end_time
    → (check_hm now r ≡ ok) ↔ (
        Before r.start_time.hour now.tm_hour (r.start_time.min ≤ now.tm_min)
        × Before now.tm_hour r.end_time.hour (now.tm_min ≤ r.end_time.min))
unfolding check_hm parse_time_hm
check_hm_iff now r hn hs he = ground arith

-- The order of dates that the packed words of `check_ymd` have: the year counts modulo 256.
abbrev pub DateLe : TimeInfo → TimeInfo → Type 0
DateLe s t = Before (s.year % 256) (t.year % 256) (Before s.mon t.mon (s.mday ≤ t.mday))

ymd-le :
    (s t : TimeInfo)
    → IsBytes s
    → IsBytes t
    → s.year < 2 ^ 16
    → t.year < 2 ^ 16
    → (parse_time_ymd s.year s.mon s.mday ≤ parse_time_ymd t.year t.mon t.mday) ↔ DateLe s t
unfolding parse_time_ymd
ymd-le s t hs ht ys yt = ground arith

-- A rule of dates lets through exactly the days between its two ends, when the years of the clock
-- and of both ends are reduced modulo 256.
check_ymd_iff :
    (now : Tm) (r : TimeRuleInfo)
    → IsBytes (clock_time now)
    → IsBytes r.start_time
    → IsBytes r.end_time
    → (clock_time now).year < 2 ^ 16
    → r.start_time.year < 2 ^ 16
    → r.end_time.year < 2 ^ 16
    → (check_ymd now r ≡ ok)
      ↔ (DateLe r.start_time (clock_time now) × DateLe (clock_time now) r.end_time)
unfolding check_ymd
check_ymd_iff now r hn hs he yn ys ye =
    let after_start = ymd-le r.start_time (clock_time now) hs hn ys yn in
    let before_end = ymd-le (clock_time now) r.end_time hn he yn ye in ground arith

-- A rule of dates whose first year is the larger one modulo 256, such as 2047 to 2048, refuses every
-- moment.
pub check_ymd-wraps :
    (now : Tm) (r : TimeRuleInfo)
    → r.start_time.year < 2 ^ 16
    → r.end_time.year < 2 ^ 16
    → r.end_time.year % 256 < r.start_time.year % 256
    → check_ymd now r ≡ err
unfolding check_ymd parse_time_ymd
check_ymd-wraps now r hs he h = ground arith
