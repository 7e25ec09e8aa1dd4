-- ===== src/PamLogin.antt =====
-- The PAM module of libiam/lualib-src/iam_core/pam_bmc_login/pam_bmc_login.c.
pub mod Status
pub mod Uid
pub mod Args
pub mod Users
pub mod Check
pub mod Entry
