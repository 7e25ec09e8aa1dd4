-- ===== src/Ldap/Login/Groups.antt =====
-- The groups behind the ids that ldap_authenticate of libiam/lualib-src/iam_core/ldap_auth.c gives.
use account.Base.{
  ℕ, ◌≡◌, refl, ◌∙◌, ◌⊎◌, inl, inr, true, some, List, [], arith, Bytes, Bool-cases, get_elem?,
}
use mathlib.Core.Path.{subst}
use account.Clib.Text.{codes, starts_with_nocase}
use account.Ldap.{LdapRet, is_success, LdapConfig, LdapAuthInfo}
use account.Ldap.Bind.{Server, Session, bind_user, do_direct_bind_dn}
use account.Ldap.Bind.Keeps.{settings_of, bind_user-settings_of, do_direct_bind_dn-settings_of}
use account.Ldap.Config.{read_ldap_config}
use account.Ldap.Escape.{escape_string}
use account.Ldap.Login.Found.{FoundDirectly, FoundByProxy, has_proxy, FoundFor, session_of}
use account.Ldap.Login.{
  Directory, cn_size, proxy_cn_size, bind_full_name, bind_three_ways, ldap_auth, bind_proxy, rebind,
  uid_on_success, authenticate_with, ldap_proxyuser_auth, ldap_authenticate,
}
use account.Ldap.Owner.Groups.{IsGroupOf, do_get_user_group-IsGroupOf}
use account.Ldap.Owner.{do_get_user_group}
use account.Ldap.User.{ldap_search_user}

module _ (server : Server) (dir : Directory) where
  -- An entry is kept, or it is its number, for a group, of the configured ones, of the name that was
  -- found, with the settings but for dn_with_uid.
  abbrev pub IsEarned : (LdapConfig → Bytes → Type 0) → LdapConfig → ℕ → List ℕ → List ℕ → Type 0
  IsEarned Found settings j before after =
      (get_elem? after j ≡ get_elem? before j)
      ⊎ ((conf : LdapConfig) × (cn : Bytes) × (name : Bytes) × Found conf cn
          × (record conf { dn_with_uid = 0 } ≡ settings)
          × (escape_string cn 1024 ≡ some name)
          × IsGroupOf dir.user dir.owners dir.members conf name j
          × (get_elem? after j ≡ some j))

  get-IsEarned :
      (Found : LdapConfig → Bytes → Type 0) (s t : Session) (cn : Bytes) (group : List ℕ) (j : ℕ)
      → Found t.conf cn
      → settings_of t ≡ settings_of s
      → IsEarned Found
          (settings_of s)
          j
          group
          (do_get_user_group dir.user dir.owners dir.members t.conf cn group).1
  get-IsEarned Found s t cn group j p e =
      elim (do_get_user_group-IsGroupOf dir.user dir.owners dir.members t.conf cn group j) [
        | inl k ↦ inl k
        | inr (name, q, g, k) ↦ inr (t.conf, cn, name, p, e, q, g, k)
      ]

  bind_full_name-settings_of :
      (info : LdapAuthInfo) (s : Session)
      → settings_of (bind_full_name server info s).1 ≡ settings_of s
  unfolding bind_full_name
  bind_full_name-settings_of info s = ground arith

  bind_three_ways-settings_of :
      (info : LdapAuthInfo) (s : Session)
      → settings_of (bind_three_ways server info s).1 ≡ settings_of s
  unfolding bind_three_ways
  bind_three_ways-settings_of info s =
      let first = bind_user server info.username info.username info.password s in
      let kept = bind_user-settings_of server info.username info.username info.password s in
      elim (Bool-cases (is_success first.0)) [
        | inl e ↦ rw (bind_three_ways, e) kept
        | inr e ↦ rw (bind_three_ways, e) (bind_full_name-settings_of info first.1 ∙ kept)
      ]

  uid_on_success-settings_of :
      (p : LdapRet × Session) → settings_of (uid_on_success p).1 ≡ settings_of p.1
  uid_on_success-settings_of p = ground arith

  bind_proxy-settings_of :
      (info : LdapAuthInfo) (s : Session) → settings_of (bind_proxy server info s).1 ≡ settings_of s
  unfolding bind_proxy
  bind_proxy-settings_of info s =
      let kept = do_direct_bind_dn-settings_of server info.bind_dn info.bind_dn_pwd s in
      elim (Bool-cases (starts_with_nocase (codes "CN=") info.bind_dn)) [
        | inl e ↦ rw (bind_proxy, e) kept
        | inr e ↦ elim (Bool-cases (starts_with_nocase (codes "UID=") info.bind_dn)) [
          | inl u ↦
              rw (bind_proxy, e, u)
                (uid_on_success-settings_of
                    (do_direct_bind_dn server info.bind_dn info.bind_dn_pwd s)
                  ∙ kept)
          | inr u ↦
              rw (bind_proxy, e, u)
                (bind_user-settings_of server info.bind_dn info.bind_dn info.bind_dn_pwd s)
        ]
      ]

  ldap_auth-IsEarned :
      (Found : LdapConfig → Bytes → Type 0) (info : LdapAuthInfo) (s : Session) (group : List ℕ)
      (j : ℕ)
      → ((conf : LdapConfig) (cn : Bytes) → FoundDirectly server dir info s conf cn → Found conf cn)
      → IsEarned Found (settings_of s) j group (ldap_auth server dir info s group).1
  unfolding ldap_auth
  ldap_auth-IsEarned Found info s group j h =
      let bound = bind_three_ways server info s in
      let found = ldap_search_user dir.entry bound.1.conf cn_size info [] in
      elim (Bool-cases (is_success bound.0)) [
        | inr e ↦ rw (ldap_auth, e) (inl refl)
        | inl e ↦ elim (Bool-cases (is_success found.0)) [
          | inr f ↦ rw (ldap_auth, e, f) (inl refl)
          | inl f ↦
              let named = h bound.1.conf found.1 (e, f, refl, refl) in
              rw (ldap_auth, e, f)
                (get-IsEarned Found s bound.1 found.1 group j named
                  (bind_three_ways-settings_of info s))
        ]
      ]

  rebind-IsEarned :
      (Found : LdapConfig → Bytes → Type 0) (info : LdapAuthInfo) (cn : Bytes) (s : Session)
      (group : List ℕ) (j : ℕ)
      → (is_success (bind_user server info.username cn info.password s).0 ≡ true
          → Found (bind_user server info.username cn info.password s).1.conf cn)
      → IsEarned Found (settings_of s) j group (rebind server dir info cn s group).1
  unfolding rebind
  rebind-IsEarned Found info cn s group j p =
      let bound = bind_user server info.username cn info.password s in
      elim (Bool-cases (is_success bound.0)) [
        | inr e ↦ rw (rebind, e) (inl refl)
        | inl e ↦
            rw (rebind, e)
              (get-IsEarned Found s bound.1 cn group j (p e)
                (bind_user-settings_of server info.username cn info.password s))
      ]

  ldap_proxyuser_auth-IsEarned :
      (Found : LdapConfig → Bytes → Type 0) (info : LdapAuthInfo) (s : Session) (group : List ℕ)
      (j : ℕ)
      → ((conf : LdapConfig) (cn : Bytes) → FoundByProxy server dir info s conf cn → Found conf cn)
      → IsEarned Found (settings_of s) j group (ldap_proxyuser_auth server dir info s group).1
  unfolding ldap_proxyuser_auth
  ldap_proxyuser_auth-IsEarned Found info s group j h =
      let bound = bind_proxy server info s in
      let found = ldap_search_user dir.entry bound.1.conf proxy_cn_size info [] in
      let user = bind_user server info.username found.1 info.password bound.1 in
      elim (Bool-cases (is_success bound.0)) [
        | inr e ↦ rw (ldap_proxyuser_auth, e) (inl refl)
        | inl e ↦ elim (Bool-cases (is_success found.0)) [
          | inr f ↦ rw (ldap_proxyuser_auth, e, f) (inl refl)
          | inl f ↦
              let named : is_success user.0 ≡ true → Found user.1.conf found.1 =
                (λ u. h user.1.conf found.1 (e, f, u, refl, refl)) in
              rw (ldap_proxyuser_auth, e, f)
                (subst
                  (λ kept.
                    IsEarned Found kept j group (rebind server dir info found.1 bound.1 group).1)
                  (bind_proxy-settings_of info s)
                  (rebind-IsEarned Found info found.1 bound.1 group j named))
        ]
      ]

  authenticate_with-IsEarned :
      (Found : LdapConfig → Bytes → Type 0) (info : LdapAuthInfo) (conf : LdapConfig)
      (group : List ℕ) (j : ℕ)
      → ((c : LdapConfig) (cn : Bytes)
          → FoundFor server dir info (session_of conf) c cn
          → Found c cn)
      → IsEarned Found
          (settings_of (session_of conf))
          j
          group
          (authenticate_with server dir info conf group).1
  unfolding authenticate_with
  authenticate_with-IsEarned Found info conf group j h =
      let s = session_of conf in
      elim (Bool-cases (has_proxy info)) [
        | inl e ↦
            let way : (c : LdapConfig) (cn : Bytes)
                → FoundByProxy server dir info s c cn
                → Found c cn =
              (λ c cn p. h c cn (inl (e, p))) in
            rw e (ldap_proxyuser_auth-IsEarned Found info s group j way)
        | inr e ↦
            let way : (c : LdapConfig) (cn : Bytes)
                → FoundDirectly server dir info s c cn
                → Found c cn =
              (λ c cn p. h c cn (inr (e, p))) in
            rw e (ldap_auth-IsEarned Found info s group j way)
      ]

  -- An entry of the array of ids that ldap_authenticate changes then holds its own number, and a
  -- configured group with this number is a group, by the attribute memberOf or the attribute member, at
  -- any depth, of the name that ldap_search_user found for the user, in the configuration of the
  -- session, which is the one that was read but for dn_with_uid.
  pub ldap_authenticate-IsEarned :
      (info : LdapAuthInfo) (group : List ℕ) (j : ℕ)
      → IsEarned
          (FoundFor server dir info (session_of (read_ldap_config info)))
          (settings_of (session_of (read_ldap_config info)))
          j
          group
          (ldap_authenticate server dir info group).1
  unfolding ldap_authenticate
  ldap_authenticate-IsEarned info group j =
      let conf = read_ldap_config info in
      authenticate_with-IsEarned (FoundFor server dir info (session_of conf)) info conf group j
        (λ c cn p. p)
