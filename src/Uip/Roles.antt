-- ===== src/Uip/Roles.antt =====
-- The reply to a remote authentication: parse_role_id, parse_extra_data and auth_user of
-- libiam/lualib-src/iam_core/uip/uip_user.c. What the bus answers is a parameter.
pub mod Fits
use account.Base.{
  ℕ, ◌+◌, ◌/◌, ◌%◌, ◌^◌, Option, none, some, List, [], ◌∷◌, leb, if◌then◌else◌, Bytes, set, take,
}
use account.Base.Int.{ℤ, wrap}
use account.Clib.Bounded.{strcpy_s}
use account.Clib.Strtol.{strtol}
use account.Clib.Text.{codes, str_eq, strtok}
use account.Clib.Unsigned.{scan_unsigned}
use account.Status.{Ret, ok, err}
use account.Uip.Slots.{LdapUser}

-- sscanf_s(token, "%u", &roleid[count]) stores four bytes; the record has room for one byte behind the
-- 32 of roleid, which is not used. none is a store behind the record.
unfoldable pub store_role : ℕ → ℕ → List ℕ → Option (List ℕ)
store_role count v roleid =
    if leb (count + 3) 32
    then some (
        set
          (set (set (set roleid count (v % 256)) (count + 1) (v / 2 ^ 8 % 256)) (count + 2)
            (v / 2 ^ 16 % 256))
          (count + 3) (v / 2 ^ 24 % 256))
    else none

-- The loop over the tokens; one without a number ends it.
unfoldable pub store_roles : ℕ → List Bytes → List ℕ → Option (List ℕ)
unfolding store_role scan_unsigned
store_roles count [] roleid = some roleid
store_roles count (token ∷ tokens) roleid =
    if leb 32 count then some roleid else elim (scan_unsigned token).0 [
      | none ↦ some roleid
      | some v ↦ elim (store_role count v roleid) [
        | none ↦ none
        | some stored ↦ store_roles (count + 1) tokens stored
      ]
    ]

abbrev pub with_roles : LdapUser → Option (List ℕ) → Option LdapUser
with_roles user none = none
with_roles user (some roleid) = some (record user { roleid = roleid })

-- The first 64 bytes are copied.
unfoldable pub parse_role_id : Bytes → LdapUser → Option LdapUser
unfolding store_roles
parse_role_id value user = with_roles user (store_roles 0 (strtok b',' (take 64 value)) user.roleid)

-- What an entry of the dictionary stores, and whether the loop goes on.
pub data Stored : Type 0 where
  outside : Stored
  stop : LdapUser → Stored
  go_on : LdapUser → Stored

abbrev pub with_parsed : Option LdapUser → Stored
with_parsed none = outside
with_parsed (some user) = go_on user

-- One entry: its key and its value, a text. A name that does not fit ends the loop; strcpy_s then
-- leaves an empty name.
unfoldable pub store_entry : Bytes → Bytes → LdapUser → Stored
unfolding parse_role_id str_eq
store_entry key value user =
    if str_eq key (codes "UserName")
    then elim (strcpy_s 300 value) [
      | none ↦ stop (record user { username = [] })
      | some name ↦ go_on (record user { username = name })
    ]
    else if str_eq key (codes "ServerId")
    then go_on (record user { serverid = wrap 256 (strtol value).value })
    else if str_eq key (codes "GroupId")
    then go_on (record user { groupid = wrap 256 (strtol value).value })
    else if str_eq key (codes "RoleId")
    then with_parsed (parse_role_id value user)
    else go_on user

-- The loop over the entries of the dictionary.
unfoldable pub parse_entries : List (Bytes × Bytes) → LdapUser → Option LdapUser
unfolding store_entry
parse_entries [] user = some user
parse_entries ((key, value) ∷ entries) user = elim (store_entry key value user) [
  | outside ↦ none
  | stop u ↦ some u
  | go_on u ↦ parse_entries entries u
]

-- The fourth value of the reply, none where it is no dictionary.
unfoldable pub parse_extra_data : Option (List (Bytes × Bytes)) → LdapUser → Option LdapUser
unfolding parse_entries
parse_extra_data none user = some user
parse_extra_data (some entries) user = parse_entries entries user

-- The values of a reply: the uid and the privilege, none where they are of another type.
pub record AuthReply : Type 0 where
  pub uid : Option ℤ
  pub privilege : Option ℕ
  pub extra_data : Option (List (Bytes × Bytes))

abbrev pub replied : Option LdapUser → Option (Ret × LdapUser)
replied none = none
replied (some user) = some (ok, user)

abbrev pub take_privilege : AuthReply → LdapUser → Option (Ret × LdapUser)
take_privilege reply user = elim reply.privilege [
  | none ↦ some (err, user)
  | some p ↦ replied (
      parse_extra_data reply.extra_data
        (record user { roleid = set user.roleid 0 p; privilege = p }))
]

abbrev pub take_uid : AuthReply → LdapUser → Option (Ret × LdapUser)
take_uid reply user = elim reply.uid [
  | none ↦ some (err, user)
  | some uid ↦ take_privilege reply (record user { uid = uid })
]

-- No reply is RET_ERR; none is a store behind the record.
unfoldable pub auth_user : Option AuthReply → LdapUser → Option (Ret × LdapUser)
unfolding parse_extra_data
auth_user none user = some (err, user)
auth_user (some reply) user = take_uid reply user
