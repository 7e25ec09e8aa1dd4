-- ===== src/Uip.antt =====
-- The user library of libiam/lualib-src/iam_core/uip/uip_user.c.
pub mod Users
pub mod Slots
pub mod Roles
pub mod Login
