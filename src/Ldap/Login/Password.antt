-- ===== src/Ldap/Login/Password.antt =====
-- The password behind a login by ldap_authenticate of libiam/lualib-src/iam_core/ldap_auth.c.
use account.Base.{
  ℕ, ◌≡◌, refl, inl, inr, Bool, true, false, not, ◌&&◌, List, [], arith, Bytes, Bool-cases,
}
use mathlib.Core.Path.{subst}
use account.Clib.Text.{str_eq}
use account.Ldap.{LdapRet, error, is_success, LdapConfig, LdapAuthInfo}
use account.Ldap.Bind.{Server, Session, bind_user}
use account.Ldap.Bind.Password.{HasBound, bind_user-HasBound}
use account.Ldap.User.{full_name, ldap_search_user}
use account.Ldap.Config.{read_ldap_config}
use account.Ldap.Login.{
  Directory, proxy_cn_size, bind_full_name, bind_three_ways, ldap_auth, bind_proxy, rebind,
  authenticate_with, ldap_proxyuser_auth, ldap_authenticate,
}

is_success_along :
    {A : Type 0} (p q : LdapRet × A) → p ≡ q → is_success p.0 ≡ true → is_success q.0 ≡ true
is_success_along p q e h = subst (λ r. is_success r.0 ≡ true) e h

no_success : (group : List ℕ) → ¬ (◌≡◌ {A = Bool} false true)
no_success group h = cc

module _ (server : Server) where
  bind_full_name-success :
      (info : LdapAuthInfo) (s : Session)
      → is_success (bind_full_name server info s).0 ≡ true
      → server.simple_bind (full_name info) info.password ≡ true
  unfolding bind_full_name
  bind_full_name-success info s h = ground arith

  bind_three_ways-last :
      (info : LdapAuthInfo) (s : Session)
      → is_success (bind_user server info.username info.username info.password s).0 ≡ false
      → bind_three_ways server info s
        ≡ bind_full_name server info
            (bind_user server info.username info.username info.password s).1
  unfolding bind_three_ways
  bind_three_ways-last info s e = rw (bind_three_ways, e) refl

  bind_three_ways-HasBound :
      (info : LdapAuthInfo) (s : Session)
      → is_success (bind_three_ways server info s).0 ≡ true
      → HasBound server info.username info.password
  bind_three_ways-HasBound info s h =
      elim (Bool-cases
        (is_success (bind_user server info.username info.username info.password s).0)) [
          | inl e ↦ bind_user-HasBound server info.username info.username info.password s e
          | inr e ↦ inl (
            full_name info,
            bind_full_name-success info
                (bind_user server info.username info.username info.password s).1
                (is_success_along _ _ (bind_three_ways-last info s e) h),
          )
        ]

  ldap_auth-unbound :
      (dir : Directory) (info : LdapAuthInfo) (s : Session) (group : List ℕ)
      → is_success (bind_three_ways server info s).0 ≡ false
      → ldap_auth server dir info s group ≡ (error, group)
  unfolding ldap_auth
  ldap_auth-unbound dir info s group e = rw (ldap_auth, e) refl

  ldap_auth-HasBound :
      (dir : Directory) (info : LdapAuthInfo) (s : Session) (group : List ℕ)
      → is_success (ldap_auth server dir info s group).0 ≡ true
      → HasBound server info.username info.password
  ldap_auth-HasBound dir info s group h =
      elim (Bool-cases (is_success (bind_three_ways server info s).0)) [
        | inl e ↦ bind_three_ways-HasBound info s e
        | inr e ↦
            absurd
              (no_success group (is_success_along _ _ (ldap_auth-unbound dir info s group e) h))
      ]

  rebind-unbound :
      (dir : Directory) (info : LdapAuthInfo) (cn : Bytes) (s : Session) (group : List ℕ)
      → is_success (bind_user server info.username cn info.password s).0 ≡ false
      → rebind server dir info cn s group ≡ (error, group)
  unfolding rebind
  rebind-unbound dir info cn s group e = rw (rebind, e) refl

  ldap_proxyuser_auth-rebind :
      (dir : Directory) (info : LdapAuthInfo) (s : Session) (group : List ℕ)
      → is_success (ldap_proxyuser_auth server dir info s group).0 ≡ true
      → is_success
          (rebind server dir info
            (ldap_search_user dir.entry (bind_proxy server info s).1.conf proxy_cn_size info []).1
            (bind_proxy server info s).1
            group).0
        ≡ true
  unfolding ldap_proxyuser_auth
  ldap_proxyuser_auth-rebind dir info s group h = ground arith

  rebind-HasBound :
      (dir : Directory) (info : LdapAuthInfo) (cn : Bytes) (s : Session) (group : List ℕ)
      → is_success (rebind server dir info cn s group).0 ≡ true
      → HasBound server info.username info.password
  rebind-HasBound dir info cn s group h =
      elim (Bool-cases (is_success (bind_user server info.username cn info.password s).0)) [
        | inl e ↦ bind_user-HasBound server info.username cn info.password s e
        | inr e ↦
            absurd
              (no_success group (is_success_along _ _ (rebind-unbound dir info cn s group e) h))
      ]

  ldap_proxyuser_auth-HasBound :
      (dir : Directory) (info : LdapAuthInfo) (s : Session) (group : List ℕ)
      → is_success (ldap_proxyuser_auth server dir info s group).0 ≡ true
      → HasBound server info.username info.password
  ldap_proxyuser_auth-HasBound dir info s group h =
      let s1 = (bind_proxy server info s).1 in
      let cn = (ldap_search_user dir.entry s1.conf proxy_cn_size info []).1 in
      rebind-HasBound dir info cn s1 group (ldap_proxyuser_auth-rebind dir info s group h)

  authenticate_with-HasBound :
      (dir : Directory) (info : LdapAuthInfo) (conf : LdapConfig) (group : List ℕ)
      → is_success (authenticate_with server dir info conf group).0 ≡ true
      → HasBound server info.username info.password
  unfolding authenticate_with
  authenticate_with-HasBound dir info conf group =
      let s : Session = record { ld = false; conf = conf } in
      elim (Bool-cases (not (str_eq info.bind_dn []) && not (str_eq info.bind_dn_pwd []))) [
        | inl e ↦ rw e (ldap_proxyuser_auth-HasBound dir info s group)
        | inr e ↦ rw e (ldap_auth-HasBound dir info s group)
      ]

  -- ldap_authenticate succeeds only where the server has accepted the password of the user, for some
  -- DN: in a simple bind, or in a SASL bind with the name of the user.
  pub ldap_authenticate-HasBound :
      (dir : Directory) (info : LdapAuthInfo) (group : List ℕ)
      → is_success (ldap_authenticate server dir info group).0 ≡ true
      → HasBound server info.username info.password
  unfolding ldap_authenticate
  ldap_authenticate-HasBound dir info = authenticate_with-HasBound dir info (read_ldap_config info)
