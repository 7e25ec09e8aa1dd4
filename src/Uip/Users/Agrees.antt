-- ===== src/Uip/Users/Agrees.antt =====
-- The two copies of the parser of a line, in uip_user.c and in pam_bmc_login.c, read the same.
use account.Base.{
  ℕ, ◌+◌, ◌≡◌, refl, ap, ◌∙◌, Bool, true, false, Option, none, some, List, [], ◌∷◌, arith, Bytes,
  ◌==◌, if◌then◌else◌, leb, length, set,
}
use account.Clib.Text.{strsep}
use account.Status.{Ret}
use account.User.{IpmiUser}
use account.LoginRule.File.{parse_line_token_to_uint8}
use account.PamLogin.Users
use account.PamLogin.Users.{stored}
use account.Uip.Users.{
  Parsed, failed, user, uint8_field, parse_line_token_to_user_name, store_token, store_tokens,
  parse_line_to_struct,
}

-- The user, if one was read.
abbrev pub user? : Parsed → Option IpmiUser
user? (failed r) = none
user? (user u) = some u

uint8_field-agrees : (put : ℕ → IpmiUser) (t : Ret × ℕ) → user? (uint8_field put t) ≡ stored put t
uint8_field-agrees put (r, v) = ground arith

name-agrees :
    (t : Bytes) (u : IpmiUser)
    → user? (parse_line_token_to_user_name t u)
      ≡ (if leb 17 (length t) then none else some (record u { user_name = t }))
unfolding parse_line_token_to_user_name
name-agrees t u = ground arith

if-agrees :
    (b : Bool) (x y : Parsed) (x' y' : Option IpmiUser)
    → user? x ≡ x'
    → user? y ≡ y'
    → user? (if b then x else y) ≡ (if b then x' else y')
if-agrees true x y x' y' e f = e
if-agrees false x y x' y' e f = f

store_token-agrees :
    (i : ℕ) (t : Bytes) (u : IpmiUser) → user? (store_token i t u) ≡ Users.store_token i t u
unfolding store_token Users.store_token
store_token-agrees i t u =
    if-agrees (i == 1) _ _ _ _ (field (λ v. record u { user_id = v }) u.user_id) (
      if-agrees (i == 2) _ _ _ _ (name-agrees t u) (
        if-agrees (i == 7) _ _ _ _ (field (λ v. record u { user_enabled = v }) u.user_enabled) (
          if-agrees (i == 12) _ _ _ _ (field (λ v. record u { privilege = set u.privilege 1 v }) 0)
            (if-agrees (i == 14) _ _ _ _
              (field (λ v. record u { user_lock_status = v }) u.user_lock_status)
              (if-agrees (i == 15) _ _ _ _
                (field (λ v. record u { user_login_rule = v }) u.user_login_rule)
                (if-agrees (i == 16) _ _ _ _
                  (field (λ v. record u { user_login_interface = v }) u.user_login_interface)
                  (if-agrees (i == 17) _ _ _ _
                    (field (λ v. record u { is_exclude_user = v }) u.is_exclude_user)
                    (if-agrees (i == 18) _ _ _ _
                      (field (λ v. record u { is_password_expired = v }) u.is_password_expired)
                      (if-agrees (i == 19) _ _ _ _ (field (λ v. record u { role_id = v }) u.role_id)
                        refl)))))))))
  where
    field :
        (put : ℕ → IpmiUser) (old : ℕ)
        → user? (uint8_field put (parse_line_token_to_uint8 t old))
          ≡ stored put (parse_line_token_to_uint8 t old)
    field put old = uint8_field-agrees put (parse_line_token_to_uint8 t old)

store_tokens-agrees :
    (i : ℕ) (ts : List Bytes) (p : Parsed)
    → user? (store_tokens i ts p) ≡ Users.store_tokens i ts (user? p)
unfolding store_tokens Users.store_tokens
store_tokens-agrees i [] (failed r) = refl
store_tokens-agrees i [] (user u) = refl
store_tokens-agrees i (t ∷ ts) (failed r) = refl
store_tokens-agrees i (t ∷ ts) (user u) =
    store_tokens-agrees (i + 1) ts (store_token (i + 1) t u)
    ∙ ap (Users.store_tokens (i + 1) ts) (store_token-agrees (i + 1) t u)

-- For every line, the parser of the user library gives a user exactly where the parser of the PAM
-- module does, and then the same user.
pub parse_line_to_struct-agrees :
    (line : Bytes) (u : IpmiUser)
    → user? (parse_line_to_struct line u) ≡ Users.parse_line_to_struct line u
unfolding parse_line_to_struct Users.parse_line_to_struct
parse_line_to_struct-agrees line u = store_tokens-agrees 0 (strsep b':' line) (user u)
