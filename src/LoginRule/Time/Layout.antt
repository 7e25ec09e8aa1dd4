-- ===== src/LoginRule/Time/Layout.antt =====
-- The layouts of a time rule as texts, with the fillers of `check_time_rule`, and what sscanf reads
-- from each half.
use mathlib.Core.List.{append-nil}
use account.Base.{ℕ, ◌/◌, ◌<◌, ◌≡◌, refl, ap, ◌∙◌, false, List, [], ◌∷◌, ◌++◌, arith, Bytes}
use account.Base.Int.{ℤ, pos}
use account.Clib.Scan.{Directive, int, blank, lit, scan}
use account.Clib.Strtol.{digits, skip_space, starts_with_digit}
use account.Clib.Strtol.Numbers.{skip_space-digit, two, four, strtol-two, strtol-four}
use account.Clib.Text.{codes}
use account.LoginRule.Time.{TimeInfo, half_format, time_format}

-- The fields print with four and two digits.
pub record IsPrintable (t : TimeInfo) : Type 0 where
  pub year_digits : t.year < 10000
  pub mon_digits : t.mon < 100
  pub mday_digits : t.mday < 100
  pub hour_digits : t.hour < 100
  pub min_digits : t.min < 100

-- HH:mm
abbrev pub hm : TimeInfo → Bytes
hm t = two t.hour ++ (b':' ∷ two t.min)

-- yyyy-MM-dd
abbrev pub ymd : TimeInfo → Bytes
ymd t = four t.year ++ (b'-' ∷ (two t.mon ++ (b'-' ∷ two t.mday)))

-- yyyy-MM-dd HH:mm
abbrev pub ymdhm : TimeInfo → Bytes
ymdhm t = ymd t ++ (b' ' ∷ hm t)

-- Two parts of a rule.
abbrev pub between : Bytes → Bytes → Bytes
between a b = a ++ (b'/' ∷ b)

abbrev NoDigit : Bytes → Type 0
NoDigit s = starts_with_digit s ≡ false

scan-two :
    (f : List Directive) (n : ℕ) (rest : Bytes)
    → n < 100
    → NoDigit rest
    → scan (int ∷ f) (two n ++ rest) ≡ pos n ∷ scan f rest
unfolding scan
scan-two f n rest h stop = rw (strtol-two n rest h stop) (ground arith)

scan-four :
    (f : List Directive) (n : ℕ) (rest : Bytes)
    → n < 10000
    → NoDigit rest
    → scan (int ∷ f) (four n ++ rest) ≡ pos n ∷ scan f rest
unfolding scan
scan-four f n rest h stop = rw (strtol-four n rest h stop) (ground arith)

-- The fillers that stand for the parts that a short rule does not have.
scan_date_filler :
    (f : List Directive) (s : Bytes)
    → scan (int ∷ lit b'-' ∷ int ∷ lit b'-' ∷ int ∷ blank ∷ f) (codes "65535-255-255 " ++ s)
      ≡ pos 65535 ∷ pos 255 ∷ pos 255 ∷ scan f (skip_space s)
unfolding scan digits
scan_date_filler f s = refl

scan_time_filler :
    (f : List Directive) (s : Bytes)
    → NoDigit s
    → scan (blank ∷ int ∷ lit b':' ∷ int ∷ f) (codes " 255:255" ++ s) ≡ pos 255 ∷ pos 255 ∷ scan f s
unfolding scan digits
scan_time_filler f [] stop = refl
scan_time_filler f (c ∷ s) stop = ground arith

scan_lit : (f : List Directive) (c : ℕ) (s : Bytes) → scan (lit c ∷ f) (c ∷ s) ≡ scan f s
unfolding scan
scan_lit f c s = ground arith

scan_blank : (f : List Directive) (s : Bytes) → scan (blank ∷ f) s ≡ scan f (skip_space s)
unfolding scan
scan_blank f s = refl

scan-hm :
    (f : List Directive) (t : TimeInfo) (rest : Bytes)
    → IsPrintable t
    → NoDigit rest
    → scan (int ∷ lit b':' ∷ int ∷ f) (hm t ++ rest) ≡ pos t.hour ∷ pos t.min ∷ scan f rest
scan-hm f t rest v stop =
    scan-two _ t.hour (b':' ∷ (two t.min ++ rest)) v.hour_digits refl
    ∙ ap (◌∷◌ (pos t.hour)) (scan_lit _ b':' _ ∙ scan-two f t.min rest v.min_digits stop)

-- Hours and minutes behind a blank of the format.
scan-blank_hm :
    (f : List Directive) (t : TimeInfo) (rest : Bytes)
    → IsPrintable t
    → NoDigit rest
    → scan (blank ∷ int ∷ lit b':' ∷ int ∷ f) (hm t ++ rest) ≡ pos t.hour ∷ pos t.min ∷ scan f rest
scan-blank_hm f t rest v stop =
    scan_blank _ _ ∙ rw (skip_space-digit (t.hour / 10) _) (scan-hm f t rest v stop)

scan-ymd :
    (f : List Directive) (t : TimeInfo) (rest : Bytes)
    → IsPrintable t
    → NoDigit rest
    → scan (int ∷ lit b'-' ∷ int ∷ lit b'-' ∷ int ∷ f) (ymd t ++ rest)
      ≡ pos t.year ∷ pos t.mon ∷ pos t.mday ∷ scan f rest
scan-ymd f t rest v stop =
    scan-four _ t.year (b'-' ∷ (two t.mon ++ (b'-' ∷ (two t.mday ++ rest)))) v.year_digits refl
    ∙ ap (◌∷◌ (pos t.year)) (
        scan_lit _ b'-' _
        ∙ scan-two _ t.mon (b'-' ∷ (two t.mday ++ rest)) v.mon_digits refl
        ∙ ap (◌∷◌ (pos t.mon)) (scan_lit _ b'-' _ ∙ scan-two f t.mday rest v.mday_digits stop))

-- The text `a` is one half of the layout, and holds the five values `vs`.
abbrev pub IsHalf : Bytes → List ℤ → Type 0
IsHalf a vs =
    (f : List Directive) (rest : Bytes)
    → NoDigit rest
    → scan (half_format ++ f) (a ++ rest) ≡ vs ++ scan f rest

scan-nil : (s : Bytes) → scan [] s ≡ []
unfolding scan
scan-nil s = refl

pub scan_halves :
    (a b : Bytes) (vs ws : List ℤ)
    → IsHalf a vs
    → IsHalf b ws
    → scan time_format (between a b) ≡ vs ++ ws
scan_halves a b vs ws ha hb =
    ha (lit b'/' ∷ half_format) (b'/' ∷ b) refl
    ∙ ap (◌++◌ vs) (scan_lit half_format b'/' b ∙ simp (append-nil, scan-nil) at (hb [] [] refl))

abbrev pub date_values : TimeInfo → List ℤ
date_values t = pos t.year ∷ pos t.mon ∷ pos t.mday ∷ []

abbrev pub time_values : TimeInfo → List ℤ
time_values t = pos t.hour ∷ pos t.min ∷ []

abbrev pub filled_date : List ℤ
filled_date = pos 65535 ∷ pos 255 ∷ pos 255 ∷ []

abbrev pub filled_time : List ℤ
filled_time = pos 255 ∷ pos 255 ∷ []

abbrev pub hm_half : TimeInfo → Bytes
hm_half t = codes "65535-255-255 " ++ hm t

abbrev pub ymd_half : TimeInfo → Bytes
ymd_half t = ymd t ++ codes " 255:255"

-- One half of each layout, with the fillers that `check_time_rule` writes in.
pub hm_half-IsHalf :
    (t : TimeInfo) → IsPrintable t → IsHalf (hm_half t) (filled_date ++ time_values t)
hm_half-IsHalf t v f rest stop =
    scan_date_filler _ _
    ∙ ap (λ l. pos 65535 ∷ pos 255 ∷ pos 255 ∷ l)
        (rw (skip_space-digit (t.hour / 10) _) (scan-hm f t rest v stop))

pub ymd_half-IsHalf :
    (t : TimeInfo) → IsPrintable t → IsHalf (ymd_half t) (date_values t ++ filled_time)
ymd_half-IsHalf t v f rest stop =
    scan-ymd _ t (codes " 255:255" ++ rest) v refl
    ∙ ap (λ l. date_values t ++ l) (scan_time_filler f rest stop)

pub ymdhm-IsHalf :
    (t : TimeInfo) → IsPrintable t → IsHalf (ymdhm t) (date_values t ++ time_values t)
ymdhm-IsHalf t v f rest stop =
    scan-ymd _ t (b' ' ∷ (hm t ++ rest)) v refl
    ∙ ap (λ l. date_values t ++ l) (skip_blank _ _ ∙ scan-blank_hm f t rest v stop)
  where
    skip_blank : (g : List Directive) (s : Bytes) → scan (blank ∷ g) (b' ' ∷ s) ≡ scan (blank ∷ g) s
    skip_blank g s = unfold scan in refl
