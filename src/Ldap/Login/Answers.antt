-- ===== src/Ldap/Login/Answers.antt =====
-- What mscm_ldap_authenticate of libiam/lualib-src/iam_core/ldap_auth.c leaves.
use account.Base.{ℕ, List, replicate}
use account.Ldap.{LdapAuthInfo}
use account.Ldap.Bind.{Server}
use account.Ldap.Login.{Directory, ldap_authenticate, mscm_ldap_authenticate}
use account.Ldap.Privilege.{no_group}
use account.Ldap.Privilege.Highest.{AnswersAs, grant-AnswersAs}

-- Where ldap_authenticate succeeds, mscm_ldap_authenticate returns RET_OK and the highest privilege
-- of the configured groups whose numbers it has found, 15 being none and the lowest, and 15 where
-- there is no such group; the password is cleared. Where it fails, the result is
-- USER_LDAP_LOGIN_FAIL, the privilege is 15, and the groups and the information stay.
pub mscm_ldap_authenticate-AnswersAs :
    (server : Server) (dir : Directory) (info : LdapAuthInfo) (group : List ℕ)
    → AnswersAs
        (ldap_authenticate server dir info (replicate 5 no_group))
        info
        group
        (mscm_ldap_authenticate server dir info group)
mscm_ldap_authenticate-AnswersAs server dir info =
    grant-AnswersAs (ldap_authenticate server dir info (replicate 5 no_group)) info
