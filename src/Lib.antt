-- ===== src/Lib.antt =====
-- The C core of the account application of openUBMC: passwords, login rules, the lock on addresses
-- after failed logins, the failure records of users, the LDAP login, and the PAM modules that
-- decide about a login and a session on the board.
--
-- The parts and how they interact. The PAM module (libiam/lualib-src/iam_core/pam_bmc_login) reads
-- the privilege file, finds the user's line and checks the user; for the login rules it calls
-- libiam/lualib-src/iam_core/common/check_login_rule.c, which reads the rule file, the clock, the
-- interfaces and the neighbour table, and which uses the subnet tests and the number parser of
-- common.c. The lock on addresses (iam_core/ip_lock) keeps one file of failure records for each
-- address and a table of the addresses. The failure records of users
-- (libiam/lualib-src/pam_tally_ext.c) are files of the same kind. The password checks
-- (libiam/lualib-src/password.c) are called by the service. The user library (iam_core/uip) answers
-- the service about users, their lock and their rules, with the parsers, rules and records above. The
-- LDAP login (iam_core/ldap_auth.c) makes its configuration, binds to the server, looks for the user
-- and for the groups, and gives the privilege; the user library keeps the users it lets in.
--
-- Base: numbers, lists and signed integers; its Tests has the Boolean tests and the conditional.
-- Clib: the character classes, string functions, strtol, sscanf and bounded copies that the C code
--   uses. A C string is the list of its bytes. The scanner covers the conversions in the sources'
--   formats.
-- Status, User: the status codes and the user record of iam_core/common/common.h.
-- Password: libiam/lualib-src/password.c. user_strcmp_s, isstrrev, dal_check_complexity_status and
--   the rest keep their names; a pointer that may be NULL is an Option.
-- Network: is_ip_in_subnet and is_ipv6_in_subnet of iam_core/common/common.c, and the address
--   checks.
-- LoginRule: iam_core/common/check_login_rule.c. Time has the three layouts of a time rule, Address
--   the address and hardware rules, File the rule file, Check the decision. An array of rules is a
--   list, and its strings are read from the memory behind them.
-- IpLock: iam_core/ip_lock/ip_lock.c. Record is the contents of one record file, Store the table of
--   addresses and the directory, whose operations take the state and return it.
-- PamLogin: iam_core/pam_bmc_login/pam_bmc_login.c. Args, Users, Check and Entry follow the file
--   from parse_args to pam_sm_acct_mgmt; Uid is check_uid_is_local_user of common.c.
-- PamSession: iam_core/pam_bmc_session/pam_bmc_session.c. Limit has what the loop over the output
--   of ps counts.
-- Tally: pam_tally_ext.c. Record is the contents of one record file; the operations take the files
--   by their paths and return them.
-- Uip: iam_core/uip/uip_user.c. Users reads the privilege file by the name of a user, Slots is the
--   file of LDAP users, Roles takes the reply to a remote authentication, and Login has the
--   decisions and the connection to the bus.
-- Ldap: iam_core/ldap_auth.c and ldap_auth_parse_info.c. Escape is the escape of filters, Dn makes
--   the DNs, Bind has the binds on a session, User the search for the entry of a user, Search the
--   search for the groups by their members and Owner the one by memberOf, Compare the comparison of
--   DNs, Config the configuration, Login the ways to log in up to mscm_ldap_authenticate, and
--   Privilege the choice of the privilege.
-- Tests: concrete inputs, with a machine, a digest and a hash table made for them.
--
-- Parameters. inet_pton, SHA256, the messages of the bus, the regular expressions and the hash
-- table of GLib, PAM, the answers of the LDAP and SASL libraries, the passwd data base, the
-- interfaces, the neighbour table, the clock and what fails in the file system are arguments of the
-- definitions that use them. The laws of inet_pton say that an address has four or sixteen octets;
-- those of the hash table say what a set of keys contains and counts.
--
-- Bounds and fuel. Every loop is structural recursion; the printer of two hexadecimal digits has
-- fuel 8, the number of such digits in 32 bits, and the loop over the output of ps has fuel for one
-- turn more than the output has bytes, since a turn that takes no byte leaves the loop or repeats
-- for ever. The escape of a folder has fuel for 256 turns, one more than a folder has bytes. The
-- search for groups recurses on the levels that are left below the limit of the code, 51 for the
-- first group; without a level left the code refuses every group. Machine integers keep their
-- widths: the casts to 8 and 16 bits, the 32-bit sums of the time checks, the 64-bit differences of
-- the lock, saturation in strtol.
--
-- Not modelled: the encryption of VNC keys and the RSA wrappers of password.c, comm_utils.c, the
-- options of an LDAP connection, the bindings to Lua, and the service itself, which is written in
-- Lua. Logging, the owners and modes of files, flock, and failures of the allocator are left out.
-- Memory behind the last login rule is not modelled: an access outside the array of rules, or behind
-- the copy of the rule file where that has no room for a terminator, is a result of its own, none; a
-- DN stored outside the array of groups is lost.
pub mod Base
pub mod Clib
pub mod Status
pub mod Password
pub mod Network
pub mod User
pub mod LoginRule
pub mod IpLock
pub mod PamLogin
pub mod PamSession
pub mod Tally
pub mod Uip
pub mod Ldap
pub mod Tests
