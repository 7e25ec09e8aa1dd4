-- ===== src/LoginRule/Time/Text.antt =====
-- The three layouts of a time rule, as the files hold them: what `check_time_rule` reads from each.
use account.Base.{◌≡◌, refl, ap, ◌∙◌, true, false, ◌++◌, arith, Bytes, length, ◌==◌, some}
use account.LoginRule.Time.{
  Tm, TimeInfo, TimeRuleInfo, ten_values, timestr_to_numeric, check_ymdhm, check_ymd, check_hm,
  TimeType, is_time_limited, real_time_info, type_ymdhm, type_ymd, type_hm, time_type_flag,
  check_time_rule,
}
use account.LoginRule.Time.Layout.{
  IsPrintable, hm, ymd, ymdhm, between, date_values, time_values, filled_date, filled_time, hm_half,
  ymd_half, hm_half-IsHalf, ymd_half-IsHalf, ymdhm-IsHalf, scan_halves,
}

module _ (s e : TimeInfo) (sv : IsPrintable s) (ev : IsPrintable e) where
  -- A rule of hours and minutes, with fillers for the dates.
  numeric-hm :
      timestr_to_numeric (real_time_info type_hm (between (hm s) (hm e))).0
      ≡ some (record {
        start_time = record s { year = 65535; mon = 255; mday = 255 };
        end_time = record e { year = 65535; mon = 255; mday = 255 };
      })
  unfolding timestr_to_numeric real_time_info ten_values
  numeric-hm =
      ap ten_values (
        scan_halves (hm_half s) (hm_half e) (filled_date ++ time_values s)
          (filled_date ++ time_values e) (hm_half-IsHalf s sv) (hm_half-IsHalf e ev))
      ∙ ground arith

  numeric-ymd :
      timestr_to_numeric (real_time_info type_ymd (between (ymd s) (ymd e))).0
      ≡ some (record {
        start_time = record s { hour = 255; min = 255 };
        end_time = record e { hour = 255; min = 255 };
      })
  unfolding timestr_to_numeric real_time_info ten_values
  numeric-ymd =
      ap ten_values (
        scan_halves (ymd_half s) (ymd_half e) (date_values s ++ filled_time)
          (date_values e ++ filled_time) (ymd_half-IsHalf s sv) (ymd_half-IsHalf e ev))
      ∙ ground arith

  numeric-ymdhm :
      timestr_to_numeric (real_time_info type_ymdhm (between (ymdhm s) (ymdhm e))).0
      ≡ some (record { start_time = s; end_time = e })
  unfolding timestr_to_numeric real_time_info ten_values
  numeric-ymdhm =
      ap ten_values (
        scan_halves (ymdhm s) (ymdhm e) (date_values s ++ time_values s)
          (date_values e ++ time_values e) (ymdhm-IsHalf s sv) (ymdhm-IsHalf e ev))
      ∙ ground arith

-- The three layouts are told apart by their lengths.
flag_of :
    (s e : TimeInfo)
    → (time_type_flag (between (ymdhm s) (ymdhm e)) ≡ type_ymdhm)
      × (time_type_flag (between (ymd s) (ymd e)) ≡ type_ymd)
      × (time_type_flag (between (hm s) (hm e)) ≡ type_hm)
unfolding time_type_flag
flag_of s e = (refl, refl, refl)

-- What `check_time_rule` does once its steps are known.
check_by :
    (now : Tm) (r : Bytes) (k : TimeType) (info : TimeRuleInfo)
    → (length r == 0) ≡ false
    → time_type_flag r ≡ k
    → (real_time_info k r).1 ≡ true
    → timestr_to_numeric (real_time_info k r).0 ≡ some info
    → check_time_rule (some now) r ≡ is_time_limited now info k
unfolding check_time_rule
check_by now r k info a b c d = rw (a, b, c, d) refl

module _ (now : Tm) (s e : TimeInfo) (sv : IsPrintable s) (ev : IsPrintable e) where
  -- `check_time_rule` on the text of a rule is the check of its layout on the values that were
  -- written: with date and time, with dates alone, and with hours and minutes alone.
  pub check_time_rule-text :
      (check_time_rule (some now) (between (ymdhm s) (ymdhm e))
        ≡ check_ymdhm now (record { start_time = s; end_time = e }))
      × (check_time_rule (some now) (between (ymd s) (ymd e))
          ≡ check_ymd now (record { start_time = s; end_time = e }))
      × (check_time_rule (some now) (between (hm s) (hm e))
          ≡ check_hm now (record { start_time = s; end_time = e }))
  unfolding is_time_limited real_time_info check_ymd check_hm
  check_time_rule-text =
      let (f, g, h) = flag_of s e in
      (
        check_by now (between (ymdhm s) (ymdhm e)) type_ymdhm _ refl f refl
            (numeric-ymdhm s e sv ev),
        check_by now (between (ymd s) (ymd e)) type_ymd _ refl g refl (numeric-ymd s e sv ev),
        check_by now (between (hm s) (hm e)) type_hm _ refl h refl (numeric-hm s e sv ev),
      )
