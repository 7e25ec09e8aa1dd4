-- ===== src/Password.antt =====
-- libiam/lualib-src/password.c: the complexity rules for passwords, the byte reversal of the VNC
-- key, and the checks on a password pattern. SHA256 and the regular expressions of GLib are
-- parameters. A pointer that may be NULL is an Option.
pub mod Diff
pub mod Compare
pub mod Complexity
pub mod Key
pub mod Pattern
use account.Base.{
  ℕ, ◌+◌, ◌-◌, ◌%◌, ◌^◌, ◌*◌, ◌/◌, bit_and, bit_or, bit_xor, Bool, true, false, ◌&&◌, ◌||◌, not,
  Option, none, some, [], ◌∷◌, ltb, ◌==◌, if◌then◌else◌, Bytes, length, get_or,
}
use account.Clib.Ctype.{islower, isupper, isdigit}
use account.Clib.Text.{codes, has_char}
use account.Status.{Ret, ok, err, is_ok}
use Diff.{or_diff}

-- SHA256 returns NULL on failure, and 32 bytes otherwise. The comparison reads every byte.
unfoldable pub user_strcmp_s : (Bytes → Option Bytes) → Option Bytes → Option Bytes → Ret
user_strcmp_s sha256 none new_str = err
user_strcmp_s sha256 (some old_str) none = err
user_strcmp_s sha256 (some old_str) (some new_str) = elim (sha256 old_str) [
  | none ↦ err
  | some old_sha ↦ elim (sha256 new_str) [
    | none ↦ err
    | some new_sha ↦
        if or_diff 32 0 (λ i. get_or old_sha i 0) (λ i. get_or new_sha i 0) 0 == 0 then ok else err
  ]
]

-- `ret` is a guint32, and so is the first length under the exclusive or.
unfoldable pub isstrrev : Option Bytes → Option Bytes → Bool
isstrrev none old_str = false
isstrrev (some new_str) none = false
isstrrev (some new_str) (some old_str) =
    let new_len = length new_str in
    let old_len = length old_str in
    if new_len == 0 || old_len == 0
    then false
    else or_diff new_len 0 (λ i. get_or new_str (i % new_len) 0)
        (λ i. get_or old_str ((new_len - 1 - i) % old_len) 0)
        (bit_xor (new_len % 2 ^ 32) old_len % 2 ^ 32)
      == 0

-- PWD_PASS_SPECIAL
abbrev pub pwd_pass_special : Bytes
pwd_pass_special = codes "`~!@#$%^&*()-_=+|\\[{}];:'\",<.>/? "

unfoldable pub isspecial : ℕ → ℕ
isspecial c = if has_char c pwd_pass_special then 1 else 0

-- The four flags of the loop over the password.
pub record Flags : Type 0 where
  pub isconlows : ℕ
  pub isconsups : ℕ
  pub iscondigs : ℕ
  pub isconspcs : ℕ

unfoldable pub flags_step : Flags → ℕ → Flags
flags_step f c = record {
  isconlows = if f.isconlows == 0 then if islower c then 1 else 0 else f.isconlows;
  isconsups = if f.isconsups == 0 then if isupper c then 1 else 0 else f.isconsups;
  iscondigs = if f.iscondigs == 0 then if isdigit c then 1 else 0 else f.iscondigs;
  isconspcs = if f.isconspcs == 0 then isspecial c else f.isconspcs;
}

unfoldable pub flags_loop : Flags → Bytes → Flags
flags_loop f [] = f
flags_loop f (c ∷ pw) = flags_loop (flags_step f c) pw

unfoldable pub dal_check_complexity_status : Option Bytes → Ret
dal_check_complexity_status none = err
dal_check_complexity_status (some pw) =
    let f = flags_loop (record { isconlows = 0; isconsups = 0; iscondigs = 0; isconspcs = 0 }) pw in
    if not (1 == f.isconspcs) || ltb (f.isconlows + f.isconsups + f.iscondigs) 2 then err else ok

unfoldable pub is_pass_complexity_check_pass :
    (Bytes → Option Bytes) → Option Bytes → Option Bytes → ℕ → Bool
is_pass_complexity_check_pass sha256 none passwd min_pwd_length = false
is_pass_complexity_check_pass sha256 (some name) none min_pwd_length = false
is_pass_complexity_check_pass sha256 (some name) (some passwd) min_pwd_length =
    if length name == 0
    then false
    else if ltb (length passwd) min_pwd_length
    then false
    else if is_ok (user_strcmp_s sha256 (some name) (some passwd))
        || isstrrev (some passwd) (some name)
    then false
    else is_ok (dal_check_complexity_status (some passwd))

unfoldable pub is_vnc_password_complexity_check_pass : Option Bytes → Bool
is_vnc_password_complexity_check_pass none = false
is_vnc_password_complexity_check_pass (some password) =
    if not (length password == 8)
    then false
    else is_ok (dal_check_complexity_status (some password))

-- Each shift to the left is cut to eight bits by the assignment.
abbrev swap_bits : ℕ → ℕ → ℕ → ℕ → ℕ
swap_bits high low k byte = bit_or (bit_and byte high / 2 ^ k) (bit_and byte low * 2 ^ k) % 256

unfoldable pub reverse_byte : ℕ → ℕ
reverse_byte byte = swap_bits 0xaa 0x55 1 (swap_bits 0xcc 0x33 2 (swap_bits 0xf0 0x0f 4 byte))
