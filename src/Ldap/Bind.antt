-- ===== src/Ldap/Bind.antt =====
-- The binds of libiam/lualib-src/iam_core/ldap_auth.c: add_prefix_userdn, do_direct_bind,
-- do_sasl_bind_set_userdn, try_ldap_sasl_interactive_bind, do_sasl_bind, do_direct_bind_dn and
-- ldap_bind_user. The LDAP and SASL libraries are the parameter `server`; memory does not run out, and
-- sasl_set_path succeeds.
pub mod Password
pub mod Userdn
pub mod Keeps
use account.Base.{
  ℕ, ◌-◌, Bool, true, false, not, ◌&&◌, Option, none, some, List, [], ◌∷◌, ◌++◌, if◌then◌else◌,
  Bytes, take,
}
use account.Clib.Text.{codes, has_substring_nocase}
use account.Ldap.{
  LdapRet, success, error, invalid_passwd, is_success, LdapConfig, ldap_userdn_max_len,
  LdapAuthInfo,
}

-- Whether a handle is made; and whether the server accepts a simple bind of a DN with a password, by
-- the answer of ldap_simple_bind and ldap_result or of ldap_simple_bind_s, and a SASL bind of a DN
-- with the name and the password that the callback gives.
pub record Server : Type 0 where
  pub opens : Bool
  pub simple_bind : Bytes → Bytes → Bool
  pub sasl_bind : Bytes → Bytes → Bytes → Bool

-- PAM_LDAP_SESSION_S: whether `ld` is a handle, and the configuration.
pub record Session : Type 0 where
  pub ld : Bool
  pub conf : LdapConfig

-- LDAP_USERDN_TRY_UID, LDAP_USERDN_START_WITH_UID, and 0.
pub data DnFlag : Type 0 where
  no_flag try_uid start_with_uid : DnFlag

-- `tag=username,base` in a buffer for a DN.
abbrev pub tagged_dn : Bytes → Bytes → Bytes → Bytes
tagged_dn tag username base = take (ldap_userdn_max_len - 1) (tag ++ (username ++ (b',' ∷ base)))

abbrev pub base_dn : Bytes → Bytes
base_dn base = take (ldap_userdn_max_len - 1) base

-- The base holds the name with this tag, as far as a buffer of LDAP_USERFOLDER_MAX_LEN holds both.
abbrev pub has_tagged : Bytes → Bytes → Bytes → Bool
has_tagged tag username base = has_substring_nocase (take 255 (tag ++ username)) base

unfoldable pub add_prefix_userdn : Bytes → Bytes → Bytes × DnFlag
add_prefix_userdn base username =
    if not (has_tagged (codes "CN=") username base) && not (has_tagged (codes "UID=") username base)
    then (tagged_dn (codes "CN=") username base, try_uid)
    else if has_tagged (codes "CN=") username base
    then (base_dn base, no_flag)
    else (base_dn base, start_with_uid)

unfoldable pub do_sasl_bind_set_userdn : Bytes → Bytes → Bytes × DnFlag
do_sasl_bind_set_userdn base username =
    if not (has_tagged (codes "CN=") username base) && not (has_tagged (codes "UID=") username base)
    then (tagged_dn (codes "CN=") username base, try_uid)
    else if not (has_tagged (codes "CN=") username base)
    then (base_dn base, no_flag)
    else (base_dn base, start_with_uid)

abbrev pub with_uid : Session → Session
with_uid s = record { ld = s.ld; conf = record s.conf { dn_with_uid = 1 } }

-- The session after a bind that is accepted at once.
unfoldable pub after_bind : DnFlag → Session → Session
after_bind start_with_uid s = with_uid s
after_bind _ s = s

-- The bind with the DN and the flag, and then with UID= where the flag asks for it.
unfoldable pub bind_with : (Bytes → Bool) → Bytes → Bytes × DnFlag → Session → LdapRet × Session
bind_with accepts uid_dn (dn, flag) s =
    if accepts dn then (success, after_bind flag s) else elim flag [
      | try_uid ↦ if accepts uid_dn then (success, with_uid s) else (invalid_passwd, s)
      | no_flag ↦ (invalid_passwd, s)
      | start_with_uid ↦ (invalid_passwd, s)
    ]

-- `ldap_unbind` where there is a handle, and session->ld = NULL.
abbrev pub unbound : Session → Session
unbound s = record s { ld = false }

module _ (server : Server) where
  -- A step that first opens the session where there is no handle; open_session's error is handed on.
  unfoldable pub opened : Session → (Session → LdapRet × Session) → LdapRet × Session
  opened s next =
      if s.ld then next s else if server.opens then next (record s { ld = true }) else (error, s)

  unfoldable pub do_direct_bind : Bytes → Bytes → Session → LdapRet × Session
  do_direct_bind username password s = opened s (λ t.
      bind_with (λ dn. server.simple_bind dn password)
        (tagged_dn (codes "UID=") username t.conf.base) (add_prefix_userdn t.conf.base username) t)

  -- A refused bind may also give LDAP_AUTH_ERROR; the callers do not tell it from the other error.
  unfoldable pub do_sasl_bind : Bytes → Bytes → Session → LdapRet × Session
  do_sasl_bind username password s = opened s (λ t.
      bind_with (λ dn. server.sasl_bind dn username password)
        (tagged_dn (codes "UID=") username t.conf.base)
        (do_sasl_bind_set_userdn t.conf.base username) t)

  -- With the DN and the password of the proxy user.
  unfoldable pub do_direct_bind_dn : Bytes → Bytes → Session → LdapRet × Session
  do_direct_bind_dn bind_dn bind_dn_pwd s =
      opened s
        (λ t. if server.simple_bind bind_dn bind_dn_pwd then (success, t) else (invalid_passwd, t))

  -- A SASL bind and then a simple bind, on a new session: ldap_bind_user, and the second bind of
  -- ldap_proxyuser_auth, where the name of the simple bind is the one found.
  unfoldable pub bind_user : Bytes → Bytes → Bytes → Session → LdapRet × Session
  bind_user username cn password s =
      let (ret, s1) = do_sasl_bind username password s in
      elim (is_success ret) [
        | true ↦ (success, s1)
        | false ↦ do_direct_bind cn password (unbound s1)
      ]

  abbrev pub ldap_bind_user : Bytes → Bytes → Session → LdapRet × Session
  ldap_bind_user username password = bind_user username username password
