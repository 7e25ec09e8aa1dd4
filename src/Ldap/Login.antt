-- ===== src/Ldap/Login.antt =====
-- The authentication of libiam/lualib-src/iam_core/ldap_auth.c: ldap_auth, ldap_proxyuser_auth,
-- ldap_authenticate and mscm_ldap_authenticate.
pub mod Password
pub mod Answers
pub mod Found
pub mod Groups
pub mod Earned
use account.Base.{
  ℕ, Bool, true, false, ◌||◌, not, ◌&&◌, Option, none, some, List, [], ◌∷◌, if◌then◌else◌, Bytes,
  replicate,
}
use account.Clib.Text.{codes, str_eq, starts_with_nocase}
use account.Ldap.{LdapRet, success, error, is_success, LdapConfig, LdapAuthInfo}
use account.Ldap.Bind.{
  Server, Session, unbound, with_uid, do_sasl_bind, do_direct_bind, do_direct_bind_dn, bind_user,
  ldap_bind_user,
}
use account.Ldap.Config.{read_ldap_config}
use account.Ldap.Owner.{Response, do_get_user_group}
use account.Ldap.Privilege.{no_group, Granted, MscmRet, grant}
use account.Ldap.User.{full_name, ldap_search_user}

-- What the server answers to searches: for the entry of a user, for the entries of a user with their
-- memberOf, for the groups of a group, and for the members of a group.
pub record Directory : Type 0 where
  pub entry : Bytes → Bytes → Option (List Bytes)
  pub user : Bytes → Option (List (Option (List Bytes)))
  pub owners : Bytes → Option Response
  pub members : Bytes → Option (List Bytes)

-- LDAP_USERFOLDER_MAX_LEN and SMALL_BUFFER_SIZE, the sizes of the buffers for the name found.
abbrev pub cn_size : ℕ
cn_size = 255

abbrev pub proxy_cn_size : ℕ
proxy_cn_size = 256

-- The third way of ldap_auth, a simple bind with the name and the domain.
unfoldable pub bind_full_name : Server → LdapAuthInfo → Session → LdapRet × Session
bind_full_name server info s =
    if str_eq info.user_domain []
    then (error, s)
    else if not s.ld
    then (error, s)
    else if server.simple_bind (full_name info) info.password
    then (success, s)
    else (error, s)

-- The binds of ldap_auth.
unfoldable pub bind_three_ways : Server → LdapAuthInfo → Session → LdapRet × Session
bind_three_ways server info s =
    let (ret, s1) = bind_user server info.username info.username info.password s in
    elim (is_success ret) [ true ↦ (success, s1) | false ↦ bind_full_name server info s1 ]

unfoldable pub ldap_auth : Server → Directory → LdapAuthInfo → Session → List ℕ → LdapRet × List ℕ
ldap_auth server dir info s group =
    let (ret, s1) = bind_three_ways server info s in
    let (found, cn) = ldap_search_user dir.entry s1.conf cn_size info [] in
    if not (is_success ret)
    then (error, group)
    else if not (is_success found)
    then (error, group)
    else do_get_user_group dir.user dir.owners dir.members s1.conf cn group

abbrev pub uid_on_success : LdapRet × Session → LdapRet × Session
uid_on_success (ret, s) = if is_success ret then (ret, with_uid s) else (ret, s)

-- The bind as the proxy user: with its DN, or, where only its name is configured, as that user, the
-- names and passwords changing places for the call by switch_dn_and_user.
unfoldable pub bind_proxy : Server → LdapAuthInfo → Session → LdapRet × Session
bind_proxy server info s =
    if starts_with_nocase (codes "CN=") info.bind_dn
    then do_direct_bind_dn server info.bind_dn info.bind_dn_pwd s
    else if starts_with_nocase (codes "UID=") info.bind_dn
    then uid_on_success (do_direct_bind_dn server info.bind_dn info.bind_dn_pwd s)
    else ldap_bind_user server info.bind_dn info.bind_dn_pwd s

-- The end of ldap_proxyuser_auth: the bind as the user, with the name found for a simple bind, and the
-- groups.
unfoldable pub rebind :
    Server → Directory → LdapAuthInfo → Bytes → Session → List ℕ → LdapRet × List ℕ
rebind server dir info cn s group =
    let (bound, s1) = bind_user server info.username cn info.password s in
    if is_success bound
    then do_get_user_group dir.user dir.owners dir.members s1.conf cn group
    else (error, group)

unfoldable pub ldap_proxyuser_auth :
    Server → Directory → LdapAuthInfo → Session → List ℕ → LdapRet × List ℕ
ldap_proxyuser_auth server dir info s group =
    let (ret, s1) = bind_proxy server info s in
    let (found, cn) = ldap_search_user dir.entry s1.conf proxy_cn_size info [] in
    if not (is_success ret)
    then (error, group)
    else if not (is_success found)
    then (error, group)
    else rebind server dir info cn s1 group

-- With the configuration that was read.
unfoldable pub authenticate_with :
    Server → Directory → LdapAuthInfo → LdapConfig → List ℕ → LdapRet × List ℕ
authenticate_with server dir info conf group =
    if not (str_eq info.bind_dn []) && not (str_eq info.bind_dn_pwd [])
    then ldap_proxyuser_auth server dir info (record { ld = false; conf = conf }) group
    else ldap_auth server dir info (record { ld = false; conf = conf }) group

-- On the session that ldap_get_session makes.
unfoldable pub ldap_authenticate : Server → Directory → LdapAuthInfo → List ℕ → LdapRet × List ℕ
ldap_authenticate server dir info group =
    authenticate_with server dir info (read_ldap_config info) group

-- With pointers that are not NULL: the result, the privilege and the groups, and the information.
abbrev pub mscm_ldap_authenticate :
    Server → Directory → LdapAuthInfo → List ℕ → MscmRet × Granted × LdapAuthInfo
mscm_ldap_authenticate server dir info group =
    grant (ldap_authenticate server dir info (replicate 5 no_group)) info group
