-- ===== src/PamLogin/Status.antt =====
-- The return codes of PAM that the modules use.
use account.Base.{Bool, true, false}

-- PAM_SUCCESS, PAM_AUTH_ERR, PAM_SERVICE_ERR, PAM_USER_UNKNOWN, PAM_PERM_DENIED,
-- PAM_SESSION_ERR, and the result of a failing system call that is handed on, -1.
pub data PamRet : Type 0 where
  success auth_err service_err user_unknown perm_denied session_err minus_one : PamRet

abbrev pub is_success : PamRet → Bool
is_success success = true
is_success _ = false
