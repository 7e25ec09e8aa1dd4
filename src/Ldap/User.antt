-- ===== src/Ldap/User.antt =====
-- The search for the entry of a user: ldap_find_user_cn, window_logon_name and ldap_search_user of
-- libiam/lualib-src/iam_core/ldap_auth.c. What the server answers is a parameter, `entry`: for a
-- filter and an attribute, the values of the attribute of the first entry that a search at the base
-- finds, none where the search fails, finds no entry, or the entry has no such attribute.
pub mod Found
use account.Base.{
  ℕ, ◌-◌, Bool, true, false, Option, none, some, List, [], ◌∷◌, ◌++◌, ◌==◌, if◌then◌else◌, Bytes,
  take,
}
use account.Clib.Text.{codes}
use account.Ldap.{LdapRet, success, error, unknown, is_success, LdapConfig, LdapAuthInfo}
use account.Ldap.Escape.{escape_string}

-- LDAP_FILT_MAXSIZ
abbrev pub ldap_filt_maxsiz : ℕ
ldap_filt_maxsiz = 1024

-- snprintf_s into a buffer of this size.
abbrev pub filled : Bytes → Bytes
filled = take (ldap_filt_maxsiz - 1)

-- The filter for an attribute.
abbrev pub filter_of : Bytes → Bytes → Bytes
filter_of attr value =
    filled (codes "(&(objectClass=*)(" ++ (attr ++ (b'=' ∷ (value ++ codes "))"))))

-- The result of ldap_find_user_cn for the values of the attribute, and the buffer `cn`, of `cn_size`
-- bytes.
unfoldable pub copy_cn : ℕ → Option (List Bytes) → Bytes → LdapRet × Bytes
copy_cn cn_size none cn = (unknown, cn)
copy_cn cn_size (some []) cn = (success, [])
copy_cn cn_size (some (v ∷ vs)) cn = (success, take (cn_size - 1) v)

-- `if (ret == LDAP_AUTH_SUCCESS) return`, and what follows, with the buffer as it is then.
unfoldable pub or_else : LdapRet × Bytes → (Bytes → LdapRet × Bytes) → LdapRet × Bytes
or_else (ret, cn) next = elim (is_success ret) [ true ↦ (success, cn) | false ↦ next cn ]

unfoldable pub result_of : Option Bytes → LdapRet
result_of none = error
result_of (some s) = success

-- The attribute that names a user.
unfoldable pub login_attr : LdapConfig → Bytes
login_attr conf = if conf.dn_with_uid == 0 then codes "cn" else codes "uid"

abbrev pub full_name : LdapAuthInfo → Bytes
full_name info = filled (info.username ++ (b'@' ∷ info.user_domain))

module _ (entry : Bytes → Bytes → Option (List Bytes)) (conf : LdapConfig) (cn_size : ℕ) where
  unfoldable pub ldap_find_user_cn : Bytes → Bytes → LdapRet × Bytes
  ldap_find_user_cn filter cn = copy_cn cn_size (entry filter (login_attr conf)) cn

  -- `escaped_user` is in the structure that is passed by value, so that the text escaped last is lost.
  unfoldable pub window_logon_name : LdapAuthInfo → Bytes → Bytes → LdapRet × Bytes
  window_logon_name info escaped_user cn =
      or_else (ldap_find_user_cn (filter_of (codes "sAMAccountName") escaped_user) cn) (λ cn1.
        or_else (ldap_find_user_cn (filter_of (codes "userPrincipalName") escaped_user) cn1)
          (λ cn2. (result_of (escape_string (full_name info) ldap_filt_maxsiz), cn2)))

  -- What ldap_search_user does with the name escaped.
  unfoldable pub search_escaped : LdapAuthInfo → Bytes → Bytes → LdapRet × Bytes
  search_escaped info escaped_user cn =
      or_else (ldap_find_user_cn (filter_of (login_attr conf) escaped_user) cn) (λ cn1.
        or_else (window_logon_name info escaped_user cn1) (λ cn2.
          or_else (ldap_find_user_cn (filter_of (codes "userPrincipalName") escaped_user) cn2)
            (λ cn3. (error, cn3))))

  unfoldable pub ldap_search_user : LdapAuthInfo → Bytes → LdapRet × Bytes
  ldap_search_user info cn = elim (escape_string info.username ldap_filt_maxsiz) [
    | none ↦ (error, cn)
    | some escaped_user ↦ search_escaped info escaped_user cn
  ]
