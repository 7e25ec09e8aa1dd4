-- ===== src/Uip/Users.antt =====
-- The lines of the privilege file as libiam/lualib-src/iam_core/uip/uip_user.c reads them, by the
-- name of a user: parse_line_to_struct, get_user, get_ipmi_user and uip_is_login_interface_enable.
pub mod Agrees
pub mod Interface
pub mod Line
pub mod RoundTrip
pub mod File
use account.Base.{
  ℕ, suc, ◌+◌, ◌-◌, ◌*◌, ◌/◌, ◌^◌, bit_and, true, false, Option, none, some, List, [], ◌∷◌, leb,
  ◌==◌, if◌then◌else◌, Bytes, length, set,
}
use account.Clib.Bounded.{c_string}
use account.Clib.Text.{str_eq, strsep}
use account.Status.{Ret, ok, err, code, is_ok}
use account.User.{IpmiUser}
use account.LoginRule.File.{parse_line_token_to_uint8}
use account.PamLogin.Check.{reserved_root_user_name, actual_root_user_name}
use account.PamLogin.Entry.{FileRead, unresolved, unopened, unstated, unread, contents}
use account.PamLogin.Users.{zero_user}

-- The user that was read, or the code of the failure.
pub data Parsed : Type 0 where
  failed : Ret → Parsed
  user : IpmiUser → Parsed

-- TOKEN_TOO_LONG, USER_NOT_FOUND_IN_IPMI
abbrev pub token_too_long : Ret
token_too_long = code 7

abbrev pub user_not_found_in_ipmi : Ret
user_not_found_in_ipmi = code 1

abbrev pub uint8_field : (ℕ → IpmiUser) → Ret × ℕ → Parsed
uint8_field put (r, v) = if is_ok r then user (put v) else failed r

-- The name has a buffer of 17 bytes, which is zeroed.
unfoldable pub parse_line_token_to_user_name : Bytes → IpmiUser → Parsed
parse_line_token_to_user_name token u =
    if leb 17 (length token) then failed token_too_long else user (record u { user_name = token })

-- The `switch` on the position of a token.
unfoldable pub store_token : ℕ → Bytes → IpmiUser → Parsed
unfolding parse_line_token_to_user_name
store_token pos token u =
    if pos == 1
    then uint8_field (λ v. record u { user_id = v }) (parse_line_token_to_uint8 token u.user_id)
    else if pos == 2
    then parse_line_token_to_user_name token u
    else if pos == 7
    then uint8_field (λ v. record u { user_enabled = v })
        (parse_line_token_to_uint8 token u.user_enabled)
    else if pos == 12
    then uint8_field (λ v. record u { privilege = set u.privilege 1 v })
        (parse_line_token_to_uint8 token 0)
    else if pos == 14
    then uint8_field (λ v. record u { user_lock_status = v })
        (parse_line_token_to_uint8 token u.user_lock_status)
    else if pos == 15
    then uint8_field (λ v. record u { user_login_rule = v })
        (parse_line_token_to_uint8 token u.user_login_rule)
    else if pos == 16
    then uint8_field (λ v. record u { user_login_interface = v })
        (parse_line_token_to_uint8 token u.user_login_interface)
    else if pos == 17
    then uint8_field (λ v. record u { is_exclude_user = v })
        (parse_line_token_to_uint8 token u.is_exclude_user)
    else if pos == 18
    then uint8_field (λ v. record u { is_password_expired = v })
        (parse_line_token_to_uint8 token u.is_password_expired)
    else if pos == 19
    then uint8_field (λ v. record u { role_id = v }) (parse_line_token_to_uint8 token u.role_id)
    else user u

-- The loop over the tokens, from the number of those before.
unfoldable pub store_tokens : ℕ → List Bytes → Parsed → Parsed
store_tokens pos tokens (failed r) = failed r
store_tokens pos [] (user u) = user u
store_tokens pos (token ∷ tokens) (user u) =
    store_tokens (pos + 1) tokens (store_token (pos + 1) token u)

unfoldable pub parse_line_to_struct : Bytes → IpmiUser → Parsed
parse_line_to_struct line u = store_tokens 0 (strsep b':' line) (user u)

-- The second token, a null pointer where the line has no colon.
abbrev pub second_token : List Bytes → Option Bytes
second_token (_ ∷ t ∷ _) = some t
second_token _ = none

-- The loop over the lines, which an empty line ends; none is a strcmp on a null pointer.
unfoldable pub get_user_from : Bytes → List Bytes → Option Parsed
unfolding str_eq
get_user_from username [] = some (failed user_not_found_in_ipmi)
get_user_from username (line ∷ lines) =
    if length line == 0
    then some (failed user_not_found_in_ipmi)
    else elim (second_token (strsep b':' line)) [
      | none ↦ none
      | some token ↦ elim (str_eq token username) [
        | true ↦ some (parse_line_to_struct line zero_user)
        | false ↦ get_user_from username lines
      ]
    ]

unfoldable pub get_user : Bytes → Bytes → Option Parsed
get_user username text = get_user_from username (strsep b'\n' text)

-- root stands in the file as <root>.
unfoldable pub get_ipmi_user : FileRead → Bytes → Option Parsed
unfolding str_eq
get_ipmi_user file username =
    let name =
      if str_eq username actual_root_user_name then reserved_root_user_name else username in
    elim file [
      | unresolved ↦ some (failed (code 2))
      | unopened ↦ some (failed (code 3))
      | unstated ↦ some (failed (code 4))
      | contents [] ↦ some (failed (code 5))
      | unread ↦ some (failed (code 6))
      | contents (c ∷ s) ↦ get_user name (c_string (c ∷ s))
    ]

-- USER_LOGIN_INTERFACE_MAX, and LOGIN_INTERFACE_ALL_ENABLE.
abbrev pub user_login_interface_max : ℕ
user_login_interface_max = 8

abbrev pub login_interface_all_enable : ℕ
login_interface_all_enable = 0xFFFFFFFF

abbrev pub interface_bit : ℕ → Option Parsed → Option ℕ
interface_bit offset none = none
interface_bit offset (some (failed r)) = some 0
interface_bit offset (some (user u)) =
    let login_interface =
      if u.is_exclude_user == 1 then login_interface_all_enable else u.user_login_interface in
    some (bit_and login_interface (2 ^ offset) / 2 ^ offset)

-- No name is a null pointer; none is the strcmp on a null pointer.
unfoldable pub uip_is_login_interface_enable : FileRead → Option Bytes → ℕ → Option ℕ
uip_is_login_interface_enable file none offset = some 0
uip_is_login_interface_enable file (some username) offset =
    if leb user_login_interface_max offset
    then some 1
    else interface_bit offset (get_ipmi_user file username)
