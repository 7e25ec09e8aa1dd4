-- ===== src/Ldap/Login/Found.antt =====
-- The name that a login by libiam/lualib-src/iam_core/ldap_auth.c finds for its user, and the
-- configuration with which it then looks for the groups.
use account.Base.{◌≡◌, ◌⊎◌, Bool, true, false, not, ◌&&◌, [], Bytes}
use account.Clib.Text.{str_eq}
use account.Ldap.{is_success, LdapConfig, LdapAuthInfo}
use account.Ldap.Bind.{Server, Session, bind_user}
use account.Ldap.Login.{Directory, cn_size, proxy_cn_size, bind_three_ways, bind_proxy}
use account.Ldap.User.{ldap_search_user}

-- The session that ldap_get_session makes.
abbrev pub session_of : LdapConfig → Session
session_of conf = record { ld = false; conf = conf }

-- A proxy is configured: its DN and its password are not empty.
abbrev pub has_proxy : LdapAuthInfo → Bool
has_proxy info = not (str_eq info.bind_dn []) && not (str_eq info.bind_dn_pwd [])

module _ (server : Server) (dir : Directory) where
  -- The way of ldap_auth: the user is bound, and `cn` is the name of the entry that ldap_search_user
  -- finds for the user, both in the configuration of the session then.
  abbrev pub FoundDirectly : LdapAuthInfo → Session → LdapConfig → Bytes → Type 0
  FoundDirectly info s conf cn =
      let bound = bind_three_ways server info s in
      let found = ldap_search_user dir.entry bound.1.conf cn_size info [] in
      (is_success bound.0 ≡ true)
      × (is_success found.0 ≡ true)
      × (conf ≡ bound.1.conf)
      × (cn ≡ found.1)

  -- The way of ldap_proxyuser_auth: the proxy is bound, ldap_search_user finds `cn` for the user in the
  -- configuration then, and the user is bound, which leaves the configuration `conf`.
  abbrev pub FoundByProxy : LdapAuthInfo → Session → LdapConfig → Bytes → Type 0
  FoundByProxy info s conf cn =
      let bound = bind_proxy server info s in
      let found = ldap_search_user dir.entry bound.1.conf proxy_cn_size info [] in
      let user = bind_user server info.username found.1 info.password bound.1 in
      (is_success bound.0 ≡ true)
      × (is_success found.0 ≡ true)
      × (is_success user.0 ≡ true)
      × (conf ≡ user.1.conf)
      × (cn ≡ found.1)

  -- The way that ldap_authenticate takes.
  abbrev pub FoundFor : LdapAuthInfo → Session → LdapConfig → Bytes → Type 0
  FoundFor info s conf cn =
      ((has_proxy info ≡ true) × FoundByProxy info s conf cn)
      ⊎ ((has_proxy info ≡ false) × FoundDirectly info s conf cn)
