-- ===== src/Ldap/Privilege.antt =====
-- The privilege that mscm_ldap_authenticate of libiam/lualib-src/iam_core/ldap_auth.c gives to a user
-- whose groups ldap_authenticate has found.
pub mod Highest
use account.Base.{
  ℕ, suc, ◌+◌, Bool, true, false, not, ◌&&◌, ◌||◌, List, [], ◌∷◌, ltb, ◌==◌, if◌then◌else◌, Bytes,
  set, replicate, length,
}
use account.Ldap.{LdapRet, success, is_success, LdapGroupInfo, LdapAuthInfo}

-- What stands for no privilege, and for no group.
abbrev pub no_privilege : ℕ
no_privilege = 15

abbrev pub no_group : ℕ
no_group = 255

-- What the caller gets.
pub record Granted : Type 0 where
  pub privilege : ℕ
  pub group : List ℕ

-- A turn of the inner loop, for the number `i`.
unfoldable pub match_group : ℕ → ℕ → LdapGroupInfo → Granted → Granted
match_group i id g st =
    let taken =
      st.privilege == no_privilege
      || not (g.group_priv == no_privilege) && ltb st.privilege g.group_priv in
    if g.group_inner_id == suc i
    then record {
      privilege = if taken then g.group_priv else st.privilege;
      group = set st.group i id;
    }
    else st

unfoldable pub match_groups : ℕ → ℕ → List LdapGroupInfo → Granted → Granted
match_groups i id [] st = st
match_groups i id (g ∷ gs) st = match_groups i id gs (match_group i id g st)

-- A turn of the outer loop, for the number `i`.
unfoldable pub match_id : ℕ → ℕ → List LdapGroupInfo → Granted → Granted
match_id i id gs st = if id == no_group then st else match_groups i id gs st

unfoldable pub match_ids : ℕ → List ℕ → List LdapGroupInfo → Granted → Granted
match_ids i [] gs st = st
match_ids i (id ∷ ids) gs st = match_ids (suc i) ids gs (match_id i id gs st)

-- USER_LDAP_LOGIN_FAIL
pub data MscmRet : Type 0 where
  mscm_ok login_fail : MscmRet

-- What follows the call of ldap_authenticate, given its result and the ids that it leaves. The
-- password is cleared after a success.
unfoldable pub grant : LdapRet × List ℕ → LdapAuthInfo → List ℕ → MscmRet × Granted × LdapAuthInfo
grant (retv, group_id) info group =
    let none_yet : Granted = record { privilege = no_privilege; group = group } in
    if is_success retv
    then (mscm_ok, match_ids 0 group_id info.groups none_yet, record info { password = [] })
    else (login_fail, none_yet, info)
