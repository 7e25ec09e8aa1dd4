-- ===== src/Ldap/Escape.antt =====
-- escape_string of libiam/lualib-src/iam_core/ldap_auth.c, the escapes of LDAP search filters.
pub mod Safe
use account.Base.{
  ℕ, ◌+◌, ◌-◌, ◌%◌, ◌^◌, Option, none, some, List, [], ◌∷◌, ◌++◌, ltb, ◌==◌, if◌then◌else◌, Bytes,
  length,
}
use account.Clib.Text.{codes}

-- ESCAPE_LEN
abbrev pub escape_len : ℕ
escape_len = 3

-- The inner loop: what stands for a byte of the name, by to_be_replaced and replace.
abbrev pub escape_byte : ℕ → Bytes
escape_byte c =
    if c == b'('
    then codes "\\28"
    else if c == b')'
    then codes "\\29"
    else if c == b'*'
    then codes "\\2a"
    else if c == b'\\'
    then codes "\\5c"
    else c ∷ []

abbrev pub prepend : Bytes → Option Bytes → Option Bytes
prepend s none = none
prepend s (some t) = some (s ++ t)

-- The outer loop from `count`, a guint16, on. The bound `str_len - ESCAPE_LEN` is a size_t.
unfoldable pub escape_from : ℕ → ℕ → Bytes → Option Bytes
escape_from str_len count [] = some []
escape_from str_len count (c ∷ s) =
    let bytes = escape_byte c in
    let rest = escape_from str_len ((count + length bytes) % 2 ^ 16) s in
    if ltb count ((str_len + (2 ^ 64 - escape_len)) % 2 ^ 64) then prepend bytes rest else none

-- The escaped text, none for LDAP_AUTH_ERROR.
abbrev pub escape_string : Bytes → ℕ → Option Bytes
escape_string username str_len = escape_from str_len 0 username
