-- ===== src/IpLock/Address.antt =====
-- remove_port_from_ip of libiam/lualib-src/iam_core/ip_lock/ip_lock.c: the address of a text that may
-- hold a port.
pub mod Forms
use account.Base.{
  ℕ, suc, zero, suc, ◌+◌, ◌-◌, ◌<◌, ◌≡◌, ◌≢◌, Bool, true, false, ◌&&◌, ◌||◌, not, Option, none,
  some, List, [], ◌∷◌, ◌++◌, ltb, ◌==◌, if◌then◌else◌, Bytes, length, take, get_or, refl, arith,
  sym, ap, ◌∙◌, take_append, drop_append, length-append, drop,
}
use account.Clib.Bounded.{strncpy_s}
use account.Clib.Text.{strchr, strrchr, has_char}

-- MAX_IP_LENGTH
abbrev pub max_ip_length : ℕ
max_ip_length = 64

-- first_colon and last_colon found, and equal.
abbrev same_offset : Option ℕ → Option ℕ → Option ℕ
same_offset (some i) (some j) = if i == j then some j else none
same_offset _ _ = none

-- What stands between the brackets, the text behind the opening one being given with the offset of
-- the closing one.
abbrev inside_brackets : Bytes → Option ℕ → Option Bytes
inside_brackets rest none = none
inside_brackets rest (some i) =
    let after = get_or rest (suc i) 0 in
    if not (after == b':') && not (after == 0) then none else strncpy_s max_ip_length rest i

abbrev before_port : Bytes → Option ℕ → Option Bytes
before_port ip (some i) = strncpy_s max_ip_length ip i
before_port ip none = strncpy_s max_ip_length ip (length ip)

abbrev without_brackets : Bytes → Option Bytes
without_brackets ip = before_port ip (same_offset (strchr b':' ip) (strrchr b':' ip))

unfoldable pub remove_port_from_ip : Bytes → Option Bytes
remove_port_from_ip [] = without_brackets []
remove_port_from_ip (c ∷ s) =
    if c == b'[' then inside_brackets s (strchr b']' s) else without_brackets (c ∷ s)
