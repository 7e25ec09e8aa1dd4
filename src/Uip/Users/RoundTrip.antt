-- ===== src/Uip/Users/RoundTrip.antt =====
-- The user that is read from a line of the privilege file.
use account.Base.{
  ℕ, ◌+◌, ◌<◌, ◌≤◌, ◌≡◌, refl, ap, ◌∙◌, false, List, [], ◌∷◌, leb, arith, Bytes, length,
}
use account.User.{IpmiUser}
use account.LoginRule.File.{parse_line_token_to_uint8}
use account.PamLogin.Users.{zero_user}
use account.Uip.Users.{
  user, uint8_field, store_token, store_tokens, parse_line_to_struct, parse_line_token_to_user_name,
}
use account.Uip.Users.Line.{
  Entry, IsEntry, byte_text, parse-byte_text, tokens_behind, line_of, user_of, strsep-line_of,
}

-- The loop stores the tokens one by one, from the number of those before, and ends with `out`.
infixr 3 ◌next◌
data Stores (out : IpmiUser) : ℕ → List Bytes → IpmiUser → Type 0 where
  done : (i : ℕ) → Stores out i [] out
  ◌next◌ :
      {i : ℕ} {t : Bytes} {ts : List Bytes} {u u' : IpmiUser}
      → store_token (i + 1) t u ≡ user u'
      → Stores out (i + 1) ts u'
      → Stores out i (t ∷ ts) u

Stores-store_tokens :
    {out : IpmiUser} {i : ℕ} {ts : List Bytes} {u : IpmiUser}
    → Stores out i ts u
    → store_tokens i ts (user u) ≡ user out
unfolding store_tokens
Stores-store_tokens (done i) = refl
Stores-store_tokens (◌next◌ {i} {t} {ts} e s) =
    ap (store_tokens (i + 1) ts) e ∙ Stores-store_tokens s

number :
    (put : ℕ → IpmiUser) (v old : ℕ)
    → v < 256
    → uint8_field put (parse_line_token_to_uint8 (byte_text v) old) ≡ user (put v)
number put v old h = rw (parse-byte_text v old h) refl

name_stored :
    (t : Bytes) (u : IpmiUser)
    → length t ≤ 16
    → parse_line_token_to_user_name t u ≡ user (record u { user_name = t })
unfolding parse_line_token_to_user_name
name_stored t u h = let short : leb 17 (length t) ≡ false = ground arith in rw short refl

-- The user after the first tokens.
abbrev with_id : Entry → IpmiUser
with_id e = record zero_user { user_id = e.id }

abbrev with_name : Entry → IpmiUser
with_name e = record (with_id e) { user_name = e.name }

abbrev with_enabled : Entry → IpmiUser
with_enabled e = record (with_name e) { user_enabled = e.enabled }

abbrev with_privilege_1 : Entry → IpmiUser
with_privilege_1 e = record (with_enabled e) { privilege = 0 ∷ e.privilege_1 ∷ [] }

abbrev with_lock_state : Entry → IpmiUser
with_lock_state e = record (with_privilege_1 e) { user_lock_status = e.lock_state }

abbrev with_login_rule : Entry → IpmiUser
with_login_rule e = record (with_lock_state e) { user_login_rule = e.login_rule }

abbrev with_login_interface : Entry → IpmiUser
with_login_interface e = record (with_login_rule e) { user_login_interface = e.login_interface }

abbrev with_is_exclude_user : Entry → IpmiUser
with_is_exclude_user e = record (with_login_interface e) { is_exclude_user = e.is_exclude_user }

abbrev with_is_password_expired : Entry → IpmiUser
with_is_password_expired e = record (with_is_exclude_user e) {
  is_password_expired = e.is_password_expired;
}

Stores-line_of :
    (e : Entry) → IsEntry e → Stores (user_of e) 0 (byte_text e.id ∷ tokens_behind e) zero_user
unfolding store_token
Stores-line_of e h =
    number (λ v. record zero_user { user_id = v }) e.id 0 h.id_byte
    next name_stored e.name (with_id e) h.name_fits
    next refl
    next refl
    next refl
    next refl
    next number (λ v. record (with_name e) { user_enabled = v }) e.enabled 0 h.enabled_byte
    next refl
    next refl
    next refl
    next refl
    next number (λ v. record (with_enabled e) { privilege = 0 ∷ v ∷ [] }) e.privilege_1 0
        h.privilege_1_byte
    next refl
    next number (λ v. record (with_privilege_1 e) { user_lock_status = v }) e.lock_state 0
        h.lock_state_byte
    next number (λ v. record (with_lock_state e) { user_login_rule = v }) e.login_rule 0
        h.login_rule_byte
    next number (λ v. record (with_login_rule e) { user_login_interface = v }) e.login_interface 0
        h.login_interface_byte
    next number (λ v. record (with_login_interface e) { is_exclude_user = v }) e.is_exclude_user 0
        h.is_exclude_user_byte
    next number (λ v. record (with_is_exclude_user e) { is_password_expired = v })
        e.is_password_expired 0 h.is_password_expired_byte
    next number (λ v. record (with_is_password_expired e) { role_id = v }) e.role_id 0
        h.role_id_byte
    next done 19

-- The line of a user is read back as the user.
pub parse_line_to_struct-line_of :
    (e : Entry) → IsEntry e → parse_line_to_struct (line_of e) zero_user ≡ user (user_of e)
unfolding parse_line_to_struct
parse_line_to_struct-line_of e h =
    ap (λ ts. store_tokens 0 ts (user zero_user)) (strsep-line_of e h)
    ∙ Stores-store_tokens (Stores-line_of e h)
