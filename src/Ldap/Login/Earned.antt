-- ===== src/Ldap/Login/Earned.antt =====
-- What stands behind a privilege that mscm_ldap_authenticate of
-- libiam/lualib-src/iam_core/ldap_auth.c gives.
use account.Base.{
  ℕ, zero, suc, ◌+◌, ◌≡◌, ◌≢◌, refl, sym, ◌∙◌, inl, inr, true, some, List, [], ◌∷◌, arith, Bytes,
  replicate, get_elem?,
}
use mathlib.Core.Path.{subst}
use account.Ldap.{
  LdapRet, success, error, invalid_passwd, unavail, unknown, is_success, LdapGroupInfo, LdapConfig,
  LdapAuthInfo,
}
use account.Ldap.Bind.{Server}
use account.Ldap.Bind.Password.{HasBound}
use account.Ldap.Config.{read_ldap_config}
use account.Ldap.Escape.{escape_string}
use account.Ldap.Login.{Directory, ldap_authenticate, mscm_ldap_authenticate}
use account.Ldap.Login.Answers.{mscm_ldap_authenticate-AnswersAs}
use account.Ldap.Login.Found.{FoundFor, session_of}
use account.Ldap.Login.Groups.{IsEarned, ldap_authenticate-IsEarned}
use account.Ldap.Login.Password.{ldap_authenticate-HasBound}
use account.Ldap.Owner.Groups.{IsGroupOf}
use account.Ldap.Privilege.{no_privilege, no_group, Granted, MscmRet}
use account.Ldap.Privilege.Highest.{HasPriv, HasId, AnswersAs}

-- An id that is named is in the array, behind `k` others.
HasId-entry :
    (k : ℕ) (ids : List ℕ) (gs : List LdapGroupInfo) (p : ℕ)
    → HasId k ids gs p
    → (i : ℕ) × (id : ℕ) × (get_elem? ids i ≡ some id) × (id ≢ no_group) × HasPriv (k + i) gs p
HasId-entry k [] gs p h = elim h [ ]
HasId-entry k (id ∷ ids) gs p (inl (n, h)) =
    let same : k ≡ k + 0 = omega arith in (0, id, refl, n, subst (λ m. HasPriv m gs p) same h)
HasId-entry k (id ∷ ids) gs p (inr h) =
    let (i, x, e, n, g) = HasId-entry (suc k) ids gs p h in
    let same : suc k + i ≡ k + suc i = omega arith in
    (suc i, x, e, n, subst (λ m. HasPriv m gs p) same g)

privilege-HasId :
    (answer : LdapRet × List ℕ) (info : LdapAuthInfo) (group : List ℕ)
    (out : MscmRet × Granted × LdapAuthInfo)
    → AnswersAs answer info group out
    → out.1.privilege ≢ no_privilege
    → (is_success answer.0 ≡ true) × HasId 0 answer.1 info.groups out.1.privilege
privilege-HasId (success, ids) info group out (r, (up, inl e), c) n = absurd (n e)
privilege-HasId (success, ids) info group out (r, (up, inr h), c) n = (refl, h)
privilege-HasId (error, ids) info group out (r, e, g, c) n = absurd (n e)
privilege-HasId (invalid_passwd, ids) info group out (r, e, g, c) n = absurd (n e)
privilege-HasId (unavail, ids) info group out (r, e, g, c) n = absurd (n e)
privilege-HasId (unknown, ids) info group out (r, e, g, c) n = absurd (n e)

-- What was there before is no id of a group.
untouched : (i id : ℕ) → get_elem? (replicate 5 no_group) i ≡ some id → id ≡ no_group
untouched zero id e = ground arith
untouched (suc zero) id e = ground arith
untouched (suc (suc zero)) id e = ground arith
untouched (suc (suc (suc zero))) id e = ground arith
untouched (suc (suc (suc (suc zero)))) id e = ground arith
untouched (suc (suc (suc (suc (suc i))))) id e = cc

module _ (server : Server) (dir : Directory) where
  -- The group with number `i` is one of the user's: of the name that ldap_search_user found for the
  -- user, in the configuration of the session, which is the one that was read but for dn_with_uid.
  abbrev pub IsInGroup : LdapAuthInfo → ℕ → Type 0
  IsInGroup info i =
      (conf : LdapConfig) × (cn : Bytes) × (name : Bytes) × FoundFor server dir info
        (session_of (read_ldap_config info)) conf cn
      × (record conf { dn_with_uid = 0 } ≡ record (read_ldap_config info) { dn_with_uid = 0 })
      × (escape_string cn 1024 ≡ some name)
      × IsGroupOf dir.user dir.owners dir.members conf name i

  earned :
      (info : LdapAuthInfo) (ids : List ℕ) (i id : ℕ)
      → IsEarned server dir
          (FoundFor server dir info (session_of (read_ldap_config info)))
          (record (read_ldap_config info) { dn_with_uid = 0 })
          i
          (replicate 5 no_group)
          ids
      → get_elem? ids i ≡ some id
      → id ≢ no_group
      → IsInGroup info i
  earned info ids i id (inl k) e n = absurd (n (untouched i id (sym k ∙ e)))
  earned info ids i id (inr (conf, cn, name, p, c, q, g, k)) e n = (conf, cn, name, p, c, q, g)

  -- Where mscm_ldap_authenticate leaves a privilege other than 15, the server has accepted the password
  -- of the user, and some group of the information has this privilege and, for its number, a
  -- configured DN that is a group, by memberOf or by member, at any depth, of the name that
  -- ldap_search_user found for the user, after the bind as the proxy where one is configured and as
  -- the user otherwise. The configuration is the one read from the information but for dn_with_uid, as
  -- the binds leave it.
  pub mscm_ldap_authenticate-HasBound :
      (info : LdapAuthInfo) (group : List ℕ)
      → (mscm_ldap_authenticate server dir info group).1.privilege ≢ no_privilege
      → HasBound server info.username info.password
        × ((i : ℕ) × HasPriv i info.groups
              (mscm_ldap_authenticate server dir info group).1.privilege
            × IsInGroup info i)
  mscm_ldap_authenticate-HasBound info group n =
      let ids = ldap_authenticate server dir info (replicate 5 no_group) in
      let (ok, named) =
        privilege-HasId ids info group (mscm_ldap_authenticate server dir info group)
          (mscm_ldap_authenticate-AnswersAs server dir info group) n in
      let (i, id, e, m, h) =
        HasId-entry 0 ids.1 info.groups (mscm_ldap_authenticate server dir info group).1.privilege
          named in
      let same : 0 + i ≡ i = omega arith in
      (
        ldap_authenticate-HasBound server dir info (replicate 5 no_group) ok,
        (
          i,
          subst
              (λ k.
                HasPriv k info.groups (mscm_ldap_authenticate server dir info group).1.privilege)
              same h,
          earned info ids.1 i id
              (ldap_authenticate-IsEarned server dir info (replicate 5 no_group) i) e m,
        ),
      )
