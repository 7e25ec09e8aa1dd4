-- ===== src/LoginRule.antt =====
-- Login rules of libiam/lualib-src/iam_core/common/check_login_rule.c.
pub mod Time
pub mod Address
pub mod File
pub mod Check
