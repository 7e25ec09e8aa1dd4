-- ===== src/Ldap/User/Found.antt =====
-- When ldap_search_user of libiam/lualib-src/iam_core/ldap_auth.c succeeds.
use account.Base.{
  ℕ, ◌≡◌, refl, ◌∙◌, inl, inr, Bool, true, false, ◌||◌, Option, none, some, List, [], ◌∷◌, arith,
  Bytes, Option-cases,
}
use account.Clib.Text.{codes}
use account.Ldap.{
  LdapRet, success, error, invalid_passwd, unavail, unknown, is_success, LdapConfig, LdapAuthInfo,
}
use account.Ldap.Escape.{escape_string}
use account.Ldap.User.{
  ldap_filt_maxsiz, filter_of, login_attr, full_name, copy_cn, or_else, ldap_find_user_cn,
  result_of, window_logon_name, search_escaped, ldap_search_user,
}

abbrev pub is_some : Option Bytes → Bool
is_some none = false
is_some (some s) = true

-- The server has an entry with a name.
unfoldable pub has_entry : Option (List Bytes) → Bool
has_entry none = false
has_entry (some vs) = true

copy_cn-success :
    (cn_size : ℕ) (o : Option (List Bytes)) (cn : Bytes)
    → is_success (copy_cn cn_size o cn).0 ≡ has_entry o
unfolding copy_cn has_entry
copy_cn-success cn_size none cn = refl
copy_cn-success cn_size (some []) cn = refl
copy_cn-success cn_size (some (v ∷ vs)) cn = refl

or_else-success :
    (p : LdapRet × Bytes) (next : Bytes → LdapRet × Bytes) (b c : Bool)
    → is_success p.0 ≡ b
    → is_success (next p.1).0 ≡ c
    → is_success (or_else p next).0 ≡ (b || c)
unfolding or_else
or_else-success (success, cn) next b c h k = ground arith
or_else-success (error, cn) next b c h k = ground arith
or_else-success (invalid_passwd, cn) next b c h k = ground arith
or_else-success (unavail, cn) next b c h k = ground arith
or_else-success (unknown, cn) next b c h k = ground arith

result_of-success : (o : Option Bytes) → is_success (result_of o) ≡ is_some o
unfolding result_of
result_of-success none = refl
result_of-success (some s) = refl

absorb : (a b c d : Bool) → (a || ((b || (c || d)) || (c || false))) ≡ (a || b || c || d)
absorb a b c d = ground arith

module _ (entry : Bytes → Bytes → Option (List Bytes)) (conf : LdapConfig) (cn_size : ℕ) where
  -- The server has an entry, with a name, for this value of an attribute.
  abbrev pub is_known : Bytes → Bytes → Bool
  is_known attr value = has_entry (entry (filter_of attr value) (login_attr conf))

  window_logon_name-success :
      (info : LdapAuthInfo) (s cn : Bytes)
      → is_success (window_logon_name entry conf cn_size info s cn).0 ≡ (
          is_known (codes "sAMAccountName") s
          || (is_known (codes "userPrincipalName") s
              || is_some (escape_string (full_name info) ldap_filt_maxsiz)))
  unfolding window_logon_name ldap_find_user_cn
  window_logon_name-success info s cn =
      or_else-success _ _ _ _ (copy_cn-success cn_size _ cn)
        (or_else-success _ _ _ _ (copy_cn-success cn_size _ _) (result_of-success _))

  search_escaped-success :
      (info : LdapAuthInfo) (s cn : Bytes)
      → is_success (search_escaped entry conf cn_size info s cn).0 ≡ (
          is_known (login_attr conf) s
          || ((is_known (codes "sAMAccountName") s
                || (is_known (codes "userPrincipalName") s
                    || is_some (escape_string (full_name info) ldap_filt_maxsiz)))
              || (is_known (codes "userPrincipalName") s || false)))
  unfolding search_escaped ldap_find_user_cn
  search_escaped-success info s cn = or_else-success _ _ _ _ (copy_cn-success cn_size _ cn) (
      or_else-success _ _ _ _ (window_logon_name-success info s _)
        (or_else-success _ _ _ _ (copy_cn-success cn_size _ _) refl))

  -- What the search answers for the name escaped, or for a name that is too long to be.
  abbrev pub is_found : LdapAuthInfo → Option Bytes → Bool
  is_found info none = false
  is_found info (some s) =
      is_known (login_attr conf) s
      || is_known (codes "sAMAccountName") s
      || is_known (codes "userPrincipalName") s
      || is_some (escape_string (full_name info) ldap_filt_maxsiz)

  search_escaped-is_found :
      (info : LdapAuthInfo) (s cn : Bytes)
      → is_success (search_escaped entry conf cn_size info s cn).0 ≡ is_found info (some s)
  search_escaped-is_found info s cn =
      search_escaped-success info s cn
      ∙ absorb (is_known (login_attr conf) s) (is_known (codes "sAMAccountName") s)
          (is_known (codes "userPrincipalName") s)
          (is_some (escape_string (full_name info) ldap_filt_maxsiz))

  -- ldap_search_user succeeds exactly when the name of the user can be escaped and the server has an
  -- entry with a name for it as login attribute, sAMAccountName or userPrincipalName, or else, without
  -- an entry, the name with the domain can be escaped.
  pub ldap_search_user-is_found :
      (info : LdapAuthInfo) (cn : Bytes)
      → is_success (ldap_search_user entry conf cn_size info cn).0
        ≡ is_found info (escape_string info.username ldap_filt_maxsiz)
  unfolding ldap_search_user
  ldap_search_user-is_found info cn =
      elim (Option-cases (escape_string info.username ldap_filt_maxsiz)) [
        | inl e ↦ rw (ldap_search_user, e) refl
        | inr (s, e) ↦ rw (ldap_search_user, e) (search_escaped-is_found info s cn)
      ]
