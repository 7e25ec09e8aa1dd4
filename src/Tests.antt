-- ===== src/Tests.antt =====
-- The theorems at concrete inputs, and runs of the definitions.
mod Data
mod Password
mod Network
mod LoginRule
mod IpLock
mod PamLogin
mod PamSession
mod Tally
mod Uip
mod Ldap
