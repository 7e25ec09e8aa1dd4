-- ===== src/IpLock.antt =====
-- The lock on addresses of libiam/lualib-src/iam_core/ip_lock/ip_lock.c.
pub mod Address
pub mod Record
pub mod Store
