-- ===== src/Clib.antt =====
-- What the C sources use of the C library: character classes, string functions, `strtol`, the
-- formatted scanner and the bounded copies. A C string is the list of its bytes, no terminator.
pub mod Ctype
pub mod Text
pub mod Search
pub mod Strtol
pub mod Scan
pub mod Unsigned
pub mod Bounded
