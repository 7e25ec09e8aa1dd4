-- ===== src/LoginRule/File/Line.antt =====
-- A line of a rule file in its printed form, and what it stores.
use account.Base.{
  ℕ, suc, ◌+◌, ◌<◌, ◌≤◌, ◌≡◌, refl, ap, ◌∙◌, ◌≢◌, Bool, true, false, some, List, [], ◌∷◌, ◌++◌,
  arith, Bytes, length, All-append, All-mono, set, get_elem?, drop, All, if◌then◌else◌,
  length-append,
}
use account.Base.Int.{pos}
use account.Clib.Bounded.{memcpy_s}
use account.Clib.Strtol.{strtol, digits, saturate}
use account.Clib.Text.{strsep, join, strsep-join, has_char}
use account.Status.{ok}
use account.LoginRule.File.{
  LoginRuleInfo, empty_rule, empty_buffer, parse_line_token_to_uint8, set_field, parse_tokens,
  parse_per_rule, first_id, line_id, put_line, store_line, parse_lines,
}

-- A rule as the file holds it.
pub record Entry : Type 0 where
  pub enabled : Bool
  pub time : Bytes
  pub ip : Bytes
  pub mac : Bytes
  pub ipv6 : Bytes

-- No terminator and no delimiter of the file.
abbrev pub PlainByte : ℕ → Type 0
PlainByte b = (b ≢ 0) × (b ≢ b',') × (b ≢ b'\n')

abbrev pub IsPlain : Bytes → Type 0
IsPlain s = All PlainByte s

abbrev pub Fits : Bytes → Type 0
Fits s = (length s ≤ 64) × IsPlain s

abbrev pub flag : Bool → ℕ
flag b = if b then 1 else 0

abbrev pub numeral : ℕ → Bytes
numeral n = (48 + n) ∷ []

-- id,enabled,time,ip,mac,ipv6
abbrev pub line : ℕ → Entry → Bytes
line id e = join b',' (numeral id) (numeral (flag e.enabled) ∷ e.time ∷ e.ip ∷ e.mac ∷ e.ipv6 ∷ [])

-- The fields fit their buffers, and the line its own.
pub record IsEntry (e : Entry) : Type 0 where
  pub time_fits : Fits e.time
  pub ip_fits : Fits e.ip
  pub mac_fits : Fits e.mac
  pub ipv6_fits : Fits e.ipv6
  pub line_fits : length e.time + length e.ip + length e.mac + length e.ipv6 ≤ 251

-- The contents of a cleared buffer after a string is copied in.
abbrev pub stored_text : Bytes → Bytes
stored_text s = s ++ drop (length s) empty_buffer

abbrev pub stored : ℕ → Entry → LoginRuleInfo
stored id e = record {
  rule_id = id;
  rule_enabled = flag e.enabled;
  time_rule = stored_text e.time;
  ip_rule = stored_text e.ip;
  mac_rule = stored_text e.mac;
  ipv6_rule = stored_text e.ipv6;
}

plain-no_comma : (s : Bytes) → IsPlain s → has_char b',' s ≡ false
unfolding has_char
plain-no_comma [] h = refl
plain-no_comma (c ∷ s) h = ground (arith, plain-no_comma s h.1)

memcpy_s-fits : (s : Bytes) → length s ≤ 64 → (memcpy_s empty_buffer s).0 ≡ stored_text s
unfolding memcpy_s
memcpy_s-fits s h = ground arith

abbrev entry_tokens : ℕ → Entry → List Bytes
entry_tokens id e = numeral id ∷ numeral (flag e.enabled) ∷ e.time ∷ e.ip ∷ e.mac ∷ e.ipv6 ∷ []

flag-lt : (b : Bool) → flag b < 10
flag-lt b = ground arith

numeral-no_comma : (n : ℕ) → n < 10 → has_char b',' (numeral n) ≡ false
unfolding has_char
numeral-no_comma n h = ground arith

tokens : (id : ℕ) (e : Entry) → id < 10 → IsEntry e → strsep b',' (line id e) ≡ entry_tokens id e
tokens id e h v =
    strsep-join b',' (numeral id) (numeral (flag e.enabled) ∷ e.time ∷ e.ip ∷ e.mac ∷ e.ipv6 ∷ []) (
      numeral-no_comma id h,
      (
        numeral-no_comma (flag e.enabled) (flag-lt e.enabled),
        (
          plain-no_comma e.time v.time_fits.1,
          (
            plain-no_comma e.ip v.ip_fits.1,
            (plain-no_comma e.mac v.mac_fits.1, (plain-no_comma e.ipv6 v.ipv6_fits.1, tt)),
          ),
        ),
      ),
    )

strtol-numeral :
    (n : ℕ)
    → n < 10
    → strtol (numeral n) ≡ record { value = pos n; rest = []; moved = true; erange = false }
unfolding strtol digits saturate
strtol-numeral n h = ground arith

to_uint8-numeral : (n target : ℕ) → n < 10 → parse_line_token_to_uint8 (numeral n) target ≡ (ok, n)
unfolding parse_line_token_to_uint8
to_uint8-numeral n target h = rw (strtol-numeral n h) (ground arith)

parse_tokens-entry :
    (id : ℕ) (e : Entry)
    → id < 10
    → IsEntry e
    → parse_tokens 0 (entry_tokens id e) empty_rule ≡ stored id e
unfolding parse_tokens set_field
parse_tokens-entry id e h v =
    rw
      (
        to_uint8-numeral id 0 h,
        to_uint8-numeral (flag e.enabled) 0 (flag-lt e.enabled),
        memcpy_s-fits e.time v.time_fits.0,
        memcpy_s-fits e.ip v.ip_fits.0,
        memcpy_s-fits e.mac v.mac_fits.0,
        memcpy_s-fits e.ipv6 v.ipv6_fits.0,
      )
      refl

parse_per_rule-line :
    (id : ℕ) (e : Entry) → id < 10 → IsEntry e → parse_per_rule (line id e) empty_rule ≡ stored id e
unfolding parse_per_rule
parse_per_rule-line id e h v =
    ap (λ ts. parse_tokens 0 ts empty_rule) (tokens id e h v) ∙ parse_tokens-entry id e h v

line_id-line : (id : ℕ) (e : Entry) → id < 10 → IsEntry e → line_id (line id e) ≡ id
unfolding line_id
line_id-line id e h v = ap first_id (tokens id e h v) ∙ rw (strtol-numeral id h) (ground arith)

-- No terminator and no line end.
abbrev pub LineByte : ℕ → Type 0
LineByte b = (b ≢ 0) × (b ≢ b'\n')

abbrev pub IsLine : Bytes → Type 0
IsLine s = All LineByte s

plain-IsLine : (s : Bytes) → IsPlain s → IsLine s
plain-IsLine s h = All-mono PlainByte LineByte (λ b p. (p.0, p.2)) s h

comma-IsLine : (s t : Bytes) → IsPlain s → IsLine t → IsLine (s ++ (b',' ∷ t))
comma-IsLine s t h g =
    All-append LineByte s (b',' ∷ t) (plain-IsLine s h)
      (((λ e. omega arith), (λ e. omega arith)), g)

pub line-IsLine : (id : ℕ) (e : Entry) → id < 10 → IsEntry e → IsLine (line id e)
line-IsLine id e h v =
    comma-IsLine (numeral id)
      (join b',' (numeral (flag e.enabled)) (e.time ∷ e.ip ∷ e.mac ∷ e.ipv6 ∷ [])) (plain id h)
      (comma-IsLine (numeral (flag e.enabled)) (join b',' e.time (e.ip ∷ e.mac ∷ e.ipv6 ∷ []))
        (plain (flag e.enabled) (flag-lt e.enabled))
        (comma-IsLine e.time (join b',' e.ip (e.mac ∷ e.ipv6 ∷ [])) v.time_fits.1 (
          comma-IsLine e.ip (join b',' e.mac (e.ipv6 ∷ [])) v.ip_fits.1
            (comma-IsLine e.mac e.ipv6 v.mac_fits.1 (plain-IsLine e.ipv6 v.ipv6_fits.1)))))
  where
    plain : (n : ℕ) → n < 10 → IsPlain (numeral n)
    plain n h' = (((λ p. omega arith), (λ p. omega arith), (λ p. omega arith)), tt)

pub length-line : (id : ℕ) (e : Entry) → IsEntry e → length (line id e) ≤ 258
length-line id e v = omega (
  arith,
  v.line_fits,
  length-append e.time (b',' ∷ (e.ip ++ (b',' ∷ (e.mac ++ (b',' ∷ e.ipv6))))),
  length-append e.ip (b',' ∷ (e.mac ++ (b',' ∷ e.ipv6))),
  length-append e.mac (b',' ∷ e.ipv6),
)

store_line-line :
    (i : ℕ) (e : Entry) (rules : List LoginRuleInfo)
    → suc i < 10
    → IsEntry e
    → get_elem? rules i ≡ some empty_rule
    → store_line (line_id (line (suc i) e)) (line (suc i) e) rules
      ≡ some (set rules i (stored (suc i) e))
unfolding store_line
store_line-line i e rules h v g =
    rw (line_id-line (suc i) e h v)
      (ap (put_line i (line (suc i) e) rules) g ∙ rw (parse_per_rule-line (suc i) e h v) refl)

pub parse_lines-line :
    (i : ℕ) (e : Entry) (lines : List Bytes) (rules : List LoginRuleInfo)
    → suc i < 10
    → IsEntry e
    → get_elem? rules i ≡ some empty_rule
    → parse_lines true (line (suc i) e ∷ lines) rules
      ≡ parse_lines true lines (set rules i (stored (suc i) e))
unfolding parse_lines
parse_lines-line i e lines rules h v g =
    let bound = length-line (suc i) e v in rw (store_line-line i e rules h v g) (ground arith)
