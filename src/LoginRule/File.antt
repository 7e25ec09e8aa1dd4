-- ===== src/LoginRule/File.antt =====
-- The rule file of libiam/lualib-src/iam_core/common/check_login_rule.c, and parse_line_token_to_uint8
-- of common.c. A string of a rule is read from its buffer on, so that a buffer without a terminator
-- runs into the memory behind it; the memory behind the last rule is not modelled.
pub mod Line
pub mod RoundTrip
use account.Base.{
  ℕ, zero, suc, ◌+◌, ◌-◌, ◌*◌, ◌^◌, Bool, true, false, not, ◌&&◌, Option, none, some, List, [], ◌∷◌,
  ◌++◌, ltb, ◌==◌, if◌then◌else◌, Bytes, length, set, get_elem?, replicate,
}
use account.Base.Int.{wrap}
use account.Clib.Bounded.{c_string, memcpy_s}
use account.Clib.Strtol.{strtol}
use account.Clib.Text.{strsep, has_char}
use account.Status.{Ret, ok, err}

-- LOGIN_RULE_INFO: two guint8 and four buffers of MAX_RULE_LEN + 1 bytes.
pub record LoginRuleInfo : Type 0 where
  pub rule_id : ℕ
  pub rule_enabled : ℕ
  pub time_rule : Bytes
  pub ip_rule : Bytes
  pub mac_rule : Bytes
  pub ipv6_rule : Bytes

abbrev pub empty_buffer : Bytes
empty_buffer = replicate 65 0

-- {0}
abbrev pub empty_rule : LoginRuleInfo
empty_rule = record {
  rule_id = 0;
  rule_enabled = 0;
  time_rule = empty_buffer;
  ip_rule = empty_buffer;
  mac_rule = empty_buffer;
  ipv6_rule = empty_buffer;
}

abbrev pub no_rules : List LoginRuleInfo
no_rules = empty_rule ∷ empty_rule ∷ empty_rule ∷ []

-- The bytes of an array of rules, which has no padding.
abbrev pub memory : List LoginRuleInfo → Bytes
memory [] = []
memory (r ∷ rs) =
    r.rule_id
    ∷ r.rule_enabled
    ∷ (r.time_rule ++ (r.ip_rule ++ (r.mac_rule ++ (r.ipv6_rule ++ memory rs))))

-- The strings of a rule, with the rules behind it.
abbrev pub ipv6_text : LoginRuleInfo → List LoginRuleInfo → Bytes
ipv6_text r rs = c_string (r.ipv6_rule ++ memory rs)

abbrev pub mac_text : LoginRuleInfo → List LoginRuleInfo → Bytes
mac_text r rs = c_string (r.mac_rule ++ (r.ipv6_rule ++ memory rs))

abbrev pub ip_text : LoginRuleInfo → List LoginRuleInfo → Bytes
ip_text r rs = c_string (r.ip_rule ++ (r.mac_rule ++ (r.ipv6_rule ++ memory rs)))

abbrev pub time_text : LoginRuleInfo → List LoginRuleInfo → Bytes
time_text r rs = c_string (r.time_rule ++ (r.ip_rule ++ (r.mac_rule ++ (r.ipv6_rule ++ memory rs))))

-- The new value of the target, which a text without a number leaves as it was. The test of errno
-- compares a guint8 with the ends of `long` and never holds.
unfoldable pub parse_line_token_to_uint8 : Bytes → ℕ → Ret × ℕ
parse_line_token_to_uint8 token target =
    let r = strtol token in if r.moved then (ok, wrap 256 r.value) else (err, target)

-- The `switch` on the position of a token.
unfoldable pub set_field : ℕ → Bytes → LoginRuleInfo → LoginRuleInfo
set_field pos token r =
    if pos == 1
    then record r { rule_id = (parse_line_token_to_uint8 token r.rule_id).1 }
    else if pos == 2
    then record r { rule_enabled = (parse_line_token_to_uint8 token r.rule_enabled).1 }
    else if pos == 3
    then record r { time_rule = (memcpy_s r.time_rule token).0 }
    else if pos == 4
    then record r { ip_rule = (memcpy_s r.ip_rule token).0 }
    else if pos == 5
    then record r { mac_rule = (memcpy_s r.mac_rule token).0 }
    else if pos == 6
    then record r { ipv6_rule = (memcpy_s r.ipv6_rule token).0 }
    else r

-- The loop over the tokens, from the number of those before.
unfoldable pub parse_tokens : ℕ → List Bytes → LoginRuleInfo → LoginRuleInfo
parse_tokens pos [] r = r
parse_tokens pos (token ∷ tokens) r = parse_tokens (pos + 1) tokens (set_field (pos + 1) token r)

unfoldable pub parse_per_rule : Bytes → LoginRuleInfo → LoginRuleInfo
parse_per_rule line r = parse_tokens 0 (strsep b',' line) r

-- MAX_RULE_LINE_LEN
abbrev pub max_rule_line_len : ℕ
max_rule_line_len = 64 * 4 + 3

-- id = strtol(token, …) as a guint8, of the first token of the line.
abbrev pub first_id : List Bytes → ℕ
first_id [] = 0
first_id (token ∷ _) = wrap 256 (strtol token).value

unfoldable pub line_id : Bytes → ℕ
line_id line = first_id (strsep b',' line)

abbrev pub put_line :
    ℕ → Bytes → List LoginRuleInfo → Option LoginRuleInfo → Option (List LoginRuleInfo)
put_line i line rules none = none
put_line i line rules (some r) = some (set rules i (parse_per_rule line r))

-- login_rules[id - 1] after its line is parsed: none is an access outside the array.
unfoldable pub store_line : ℕ → Bytes → List LoginRuleInfo → Option (List LoginRuleInfo)
store_line zero line rules = none
store_line (suc i) line rules = put_line i line rules (get_elem? rules i)

-- The loop over the lines, which an empty line ends; what does not fit `tmp_line` ends it in an
-- error, with the lines before it stored. `terminated` tells whether `tmp_buf` has a terminator behind
-- the lines; without one, the search for the next line goes on behind the buffer, an access outside
-- it. So does the search for the comma, in a line that fills `tmp_line` and has none.
unfoldable pub parse_lines :
    Bool → List Bytes → List LoginRuleInfo → Option (Ret × List LoginRuleInfo)
parse_lines terminated [] rules = if terminated then some (ok, rules) else none
parse_lines terminated (line ∷ lines) rules =
    if length line == 0
    then some (ok, rules)
    else if ltb max_rule_line_len (length line)
    then some (err, rules)
    else if length line == max_rule_line_len && not (has_char b',' line)
    then none
    else elim (store_line (line_id line) line rules) [
      | none ↦ none
      | some rules' ↦ parse_lines terminated lines rules'
    ]

-- The pieces that a delimiter ends.
abbrev pub but_last : List Bytes → List Bytes
but_last [] = []
but_last (piece ∷ []) = []
but_last (piece ∷ next ∷ pieces) = piece ∷ but_last (next ∷ pieces)

-- What does not fit `tmp_buf` is an error, with nothing stored. A text that fills `tmp_buf` leaves no
-- room for a terminator, so that the piece behind the last line end has no end.
unfoldable pub parse_rules : Bytes → List LoginRuleInfo → Option (Ret × List LoginRuleInfo)
parse_rules filebuf rules =
    if ltb (max_rule_line_len * 3) (length filebuf)
    then some (err, rules)
    else if length filebuf == max_rule_line_len * 3
    then parse_lines false (but_last (strsep b'\n' filebuf)) rules
    else parse_lines true (strsep b'\n' filebuf) rules

abbrev pub drop_result : Option (Ret × List LoginRuleInfo) → Option (Ret × List LoginRuleInfo)
drop_result none = none
drop_result (some (_, rules)) = some (ok, rules)

-- The file is its bytes, none where a call on it fails. The result of `parse_rules` is dropped.
unfoldable pub get_login_rules :
    Option Bytes → List LoginRuleInfo → Option (Ret × List LoginRuleInfo)
get_login_rules none rules = some (err, rules)
get_login_rules (some []) rules = some (err, rules)
get_login_rules (some (c ∷ s)) rules = drop_result (parse_rules (c_string (c ∷ s)) rules)
