-- ===== src/Uip/Slots.antt =====
-- The file of LDAP users, LDAP_USER_FILE of libiam/lualib-src/iam_core/uip/uip_user.h, and the calls
-- uip_alloc_ldap_uid, uip_read_ldap_user and uip_renew_ldap_user of uip_user.c. The locks on the file
-- make each call one step; a read that the device fails is left out.
pub mod Alloc
pub mod Numbered
pub mod Renew
use account.Base.{
  ℕ, zero, suc, ◌+◌, ◌-◌, Bool, not, Option, none, some, List, [], ◌∷◌, ◌++◌, ltb, leb, ◌==◌,
  if◌then◌else◌, Bytes, length, get_elem?, set, replicate,
}
use account.Base.Int.{ℤ, pos, ltb_ℤ, pos_part}
use account.Status.{Ret, ok, err}

-- LDAP_USER, of 472 bytes.
pub record LdapUser : Type 0 where
  pub used : ℕ
  pub uid : ℤ
  pub username : Bytes
  pub fromip : Bytes
  pub serverid : ℕ
  pub groupid : ℕ
  pub privilege : ℕ
  pub roleid : List ℕ

-- {0}
abbrev pub zero_ldap_user : LdapUser
zero_ldap_user = record {
  used = 0;
  uid = pos 0;
  username = [];
  fromip = [];
  serverid = 0;
  groupid = 0;
  privilege = 0;
  roleid = replicate 32 0;
}

-- The whole records of the file, and what its bytes behind them make with zeros, if there are any.
pub record LdapFile : Type 0 where
  pub slots : List LdapUser
  pub tail : Option LdapUser

abbrev pub empty_ldap_file : LdapFile
empty_ldap_file = record { slots = []; tail = none }

-- LDAP_USER_ID_BASE, LDAP_USER_MAX_COUNT
abbrev pub ldap_user_id_base : ℕ
ldap_user_id_base = 1000

abbrev pub ldap_user_max_count : ℕ
ldap_user_max_count = 32

-- What a gap of `n` records reads as: the bytes at the end, and zeros.
abbrev pub gap : ℕ → Option LdapUser → List LdapUser
gap zero tail = []
gap (suc n) none = zero_ldap_user ∷ gap n none
gap (suc n) (some u) = u ∷ gap n none

-- fseek to the record `i` and fwrite of one.
unfoldable pub write_slot : ℕ → LdapUser → LdapFile → LdapFile
write_slot i u f =
    if ltb i (length f.slots)
    then record f { slots = set f.slots i u }
    else record { slots = f.slots ++ (gap (i - length f.slots) f.tail ++ (u ∷ [])); tail = none }

-- The loop of uip_alloc_ldap_uid, with the record read before: how many records it passes, and the
-- last one that it reads.
unfoldable pub first_free : LdapUser → List LdapUser → ℕ × LdapUser
first_free last [] = (0, last)
first_free last (u ∷ us) =
    let (n, usr) = first_free u us in if u.used == 0 then (0, u) else (suc n, usr)

-- What the system answers: whether the file is opened, and what a failing fwrite leaves.
pub record LdapFileSystem : Type 0 where
  pub can_open : Bool
  pub short_write : Option LdapFile

abbrev pub written : ℤ → LdapFile → Option LdapFile → Option ℤ × LdapFile
written uid f none = (some uid, f)
written uid f (some left) = (none, left)

-- The new uid, none for RET_ERR, and the file. The record that is written has the other fields of the
-- record read last.
unfoldable pub uip_alloc_ldap_uid : LdapFileSystem → LdapFile → Option ℤ × LdapFile
unfolding first_free
uip_alloc_ldap_uid system f =
    let (n, usr) = first_free zero_ldap_user f.slots in
    let uid = pos (ldap_user_id_base + n) in
    if not system.can_open
    then (none, f)
    else if leb ldap_user_max_count n
    then (none, f)
    else written uid (write_slot n (record usr { used = 1; uid = uid }) f) system.short_write

-- With a result that is no null pointer; a short record is not stored whole and counts as RET_ERR.
unfoldable pub uip_read_ldap_user : LdapFileSystem → ℤ → LdapFile → Option LdapUser
uip_read_ldap_user system uid f =
    if ltb_ℤ uid (pos ldap_user_id_base)
    then none
    else if not system.can_open
    then none
    else get_elem? f.slots (pos_part uid - ldap_user_id_base)

abbrev pub renewed : LdapFile → Option LdapFile → Ret × LdapFile
renewed f none = (ok, f)
renewed f (some left) = (err, left)

unfoldable pub uip_renew_ldap_user : LdapFileSystem → LdapUser → LdapFile → Ret × LdapFile
uip_renew_ldap_user system usr f =
    if ltb_ℤ usr.uid (pos ldap_user_id_base)
    then (err, f)
    else if not system.can_open
    then (err, f)
    else renewed (write_slot (pos_part usr.uid - ldap_user_id_base) usr f) system.short_write
