-- ===== src/LoginRule/Time.antt =====
-- Time rules of libiam/lualib-src/iam_core/common/check_login_rule.c. Local time is an argument: none
-- where `gettimeofday` fails. The fields of `struct tm` are not negative.
pub mod Order
pub mod Layout
pub mod Text
use account.Base.{
  ℕ, ◌+◌, ◌-◌, ◌*◌, ◌%◌, ◌^◌, Bool, true, false, ◌&&◌, ◌||◌, not, Option, none, some, List, [], ◌∷◌,
  ◌++◌, ltb, leb, ◌==◌, if◌then◌else◌, Bytes, length, take, drop,
}
use account.Base.Int.{ℤ, wrap}
use account.Clib.Scan.{Directive, int, blank, lit, scan}
use account.Clib.Text.{codes}
use account.Status.{Ret, ok, err, ◌>>=◌}

-- struct tm
pub record Tm : Type 0 where
  pub tm_year : ℕ
  pub tm_mon : ℕ
  pub tm_mday : ℕ
  pub tm_hour : ℕ
  pub tm_min : ℕ

-- TIME_INFO: a guint16 and four guchar.
pub record TimeInfo : Type 0 where
  pub year : ℕ
  pub mon : ℕ
  pub mday : ℕ
  pub hour : ℕ
  pub min : ℕ

pub record TimeRuleInfo : Type 0 where
  pub start_time : TimeInfo
  pub end_time : TimeInfo

-- "%d-%d-%d %d:%d/%d-%d-%d %d:%d"
abbrev pub half_format : List Directive
half_format = int ∷ lit b'-' ∷ int ∷ lit b'-' ∷ int ∷ blank ∷ int ∷ lit b':' ∷ int ∷ []

abbrev pub time_format : List Directive
time_format = half_format ++ (lit b'/' ∷ half_format)

-- ((guint32)v) & 0XFFFF, & 0XFF
abbrev pub low16 : ℤ → ℕ
low16 v = wrap (2 ^ 32) v % 2 ^ 16

abbrev pub low8 : ℤ → ℕ
low8 v = wrap (2 ^ 32) v % 2 ^ 8

abbrev pub time_info : ℤ → ℤ → ℤ → ℤ → ℤ → TimeInfo
time_info y mo d h mi = record {
  year = low16 y;
  mon = low8 mo;
  mday = low8 d;
  hour = low8 h;
  min = low8 mi;
}

-- All ten values, or none.
unfoldable pub ten_values : List ℤ → Option TimeRuleInfo
ten_values (y ∷ mo ∷ d ∷ h ∷ mi ∷ y' ∷ mo' ∷ d' ∷ h' ∷ mi' ∷ []) =
    some (record { start_time = time_info y mo d h mi; end_time = time_info y' mo' d' h' mi' })
ten_values _ = none

unfoldable pub timestr_to_numeric : Bytes → Option TimeRuleInfo
timestr_to_numeric time_string = ten_values (scan time_format time_string)

-- The casts to guint8 cut the arguments, and the sums are 32 bits wide.
unfoldable pub parse_time_ymdhm : ℕ → ℕ → ℕ → ℕ → ℕ
parse_time_ymdhm mmon mday hour min =
    (mmon % 256 * 2 ^ 24 + mday % 256 * 2 ^ 16 + hour % 256 * 2 ^ 8 + min % 256) % 2 ^ 32

unfoldable pub parse_time_ymd : ℕ → ℕ → ℕ → ℕ
parse_time_ymd year mmon mday =
    (year % 2 ^ 16 % 256 * 2 ^ 16 + mmon % 256 * 2 ^ 8 + mday % 256) % 2 ^ 32

unfoldable pub parse_time_hm : ℕ → ℕ → ℕ
parse_time_hm hour min = (hour % 256 * 2 ^ 8 + min % 256) % 2 ^ 32

-- TIME_YEAR_BASE
abbrev pub time_year_base : ℕ
time_year_base = 1900

unfoldable pub check_ymdhm : Tm → TimeRuleInfo → Ret
check_ymdhm now r =
    let year = time_year_base + now.tm_year in
    let now_tmp = parse_time_ymdhm (1 + now.tm_mon) now.tm_mday now.tm_hour now.tm_min in
    let s = r.start_time in
    let e = r.end_time in
    if ltb year s.year || ltb e.year year
    then err
    else if year == s.year && ltb now_tmp (parse_time_ymdhm s.mon s.mday s.hour s.min)
    then err
    else if year == e.year && ltb (parse_time_ymdhm e.mon e.mday e.hour e.min) now_tmp
    then err
    else ok

unfoldable pub check_ymd : Tm → TimeRuleInfo → Ret
check_ymd now r =
    let now_tmp = parse_time_ymd (time_year_base + now.tm_year) (1 + now.tm_mon) now.tm_mday in
    let s = r.start_time in
    let e = r.end_time in
    if ltb now_tmp (parse_time_ymd s.year s.mon s.mday)
      || ltb (parse_time_ymd e.year e.mon e.mday) now_tmp
    then err
    else ok

unfoldable pub check_hm : Tm → TimeRuleInfo → Ret
check_hm now r =
    let now_tmp = parse_time_hm now.tm_hour now.tm_min in
    let s = r.start_time in
    let e = r.end_time in
    if ltb now_tmp (parse_time_hm s.hour s.min) || ltb (parse_time_hm e.hour e.min) now_tmp
    then err
    else ok

-- TIME_TYPE
pub data TimeType : Type 0 where
  type_ymdhm type_ymd type_hm unknown : TimeType

unfoldable pub is_time_limited : Tm → TimeRuleInfo → TimeType → Ret
is_time_limited now r type_ymdhm = check_ymdhm now r
is_time_limited now r type_ymd = check_ymd now r
is_time_limited now r type_hm = check_hm now r
is_time_limited now r unknown = err

-- snprintf_s into `size` bytes: what is stored, and whether all of it was.
abbrev pub snprintf_s : ℕ → Bytes → Bytes × Bool
snprintf_s size text = (take (size - 1) text, ltb (length text) size)

-- The buffer after a second snprintf_s at offset `at`.
abbrev pub overwrite : ℕ → Bytes → Bytes → Bytes
overwrite at buf text = take at buf ++ text

-- The rule in the layout of the scanner, and the result of the last snprintf_s.
unfoldable pub real_time_info : TimeType → Bytes → Bytes × Bool
real_time_info type_ymdhm time_rule = snprintf_s 64 time_rule
real_time_info type_ymd time_rule =
    let (first, fits) = snprintf_s 64 time_rule in
    let (rest, done) =
      snprintf_s (64 - 10) (codes " 255:255" ++ (drop 10 time_rule ++ codes " 255:255")) in
    (overwrite 10 first rest, done)
real_time_info type_hm time_rule =
    let (first, fits) = snprintf_s 64 (codes "65535-255-255 " ++ time_rule) in
    let (rest, done) = snprintf_s (64 - 20) (codes "65535-255-255 " ++ drop 6 time_rule) in
    (overwrite 20 first rest, done)
real_time_info unknown time_rule = ([], false)

-- YMDHM_TIME_RULE_LEN, YMD_TIME_RULE_LEN, HM_TIME_RULE_LEN; the length is cast to guint8.
unfoldable pub time_type_flag : Bytes → TimeType
time_type_flag time_rule =
    let rule_len = length time_rule % 256 in
    if rule_len == 33
    then type_ymdhm
    else if rule_len == 21
    then type_ymd
    else if rule_len == 11
    then type_hm
    else unknown

unfoldable pub check_time_rule : Option Tm → Bytes → Ret
check_time_rule clock time_rule = if length time_rule == 0 then ok else do
  now ← clock
  let flag = time_type_flag time_rule
  let (text, done) = real_time_info flag time_rule
  info ← timestr_to_numeric text
  if done then is_time_limited now info flag else err
