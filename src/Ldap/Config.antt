-- ===== src/Ldap/Config.antt =====
-- The configuration of an LDAP login: alloc_config, ldap_special_char_escape, read_groupdn,
-- get_ldap_scope, get_ldap_base_info and read_ldap_config of
-- libiam/lualib-src/iam_core/ldap_auth_parse_info.c. Memory does not run out, so that no call fails.
pub mod Special
pub mod Groupdn
use account.Base.{
  ℕ, zero, suc, ◌+◌, ◌-◌, ◌%◌, ◌^◌, Bool, true, false, not, ◌&&◌, ◌||◌, Option, none, some, List,
  [], ◌∷◌, ◌++◌, ltb, leb, ◌==◌, if◌then◌else◌, Bytes, length, take, drop, get_elem?, set,
  replicate,
}
use account.Base.Int.{pos, eqb_ℤ}
use account.Clib.Text.{codes, has_char, str_eq_nocase, starts_with_nocase}
use account.Ldap.{LdapConfig, Scope, base_scope, onelevel, subtree, LdapGroupInfo, LdapAuthInfo}
use account.Ldap.Dn.{upper, parse_ldap_base_info, parse_ldap_group_info}

-- ldap_special_char1
abbrev pub special_chars : Bytes
special_chars = codes "\\\";<>#+=,"

-- The bytes that are compared with a tag: those up to a `=`, or those behind a `,`.
unfoldable pub tag_at : Bytes → ℕ → ℕ → Bytes
tag_at string c i =
    if c == b'=' && leb 2 i
    then take 3 (drop (i - 2) string)
    else if c == b',' && ltb i ((length string + (2 ^ 64 - 3)) % 2 ^ 64)
    then take 3 (drop (i + 1) string)
    else []

unfoldable pub uid_tag_at : Bytes → ℕ → ℕ → Bytes
uid_tag_at string c i = if c == b'=' && leb 3 i then take 4 (drop (i - 3) string) else []

-- Whether ldap_check_special_char_escape finds that the byte `c`, at `i`, needs the escape.
unfoldable pub ldap_check_special_char_escape : Bytes → ℕ → ℕ → Bool
ldap_check_special_char_escape string c i = not (
    str_eq_nocase (codes "CN=") (tag_at string c i)
    || str_eq_nocase (codes "OU=") (tag_at string c i)
    || str_eq_nocase (codes "DC=") (tag_at string c i)
    || str_eq_nocase (codes "UID=") (uid_tag_at string c i))

unfoldable pub is_need_escape : Bytes → ℕ → ℕ → Bool
is_need_escape string c i =
    has_char c special_chars
    && (not (c == b'=' || c == b',') || ldap_check_special_char_escape string c i)

-- The loop of ldap_special_char_escape from `i` on. The bytes from `i` on are copied through folder_tmp,
-- which holds the first 255 bytes of the string. Of a string of at most 255 bytes, with a bound of at
-- most 256, it takes 256 turns at most, since `i` grows and the string does not grow beyond 255 bytes.
unfoldable pub escape_loop : ℕ → ℕ → ℕ → Bytes → Bytes
escape_loop zero max i string = string
escape_loop (suc fuel) max i string = elim (get_elem? string i) [
  | none ↦ string
  | some c ↦ elim (is_need_escape string c i) [
    | true ↦
        escape_loop fuel max (i + 2)
          (take i string ++ take (max - i - 1) (b'\\' ∷ drop i (take 255 string)))
    | false ↦ escape_loop fuel max (i + 1) string
  ]
]

abbrev pub ldap_special_char_escape : Bytes → ℕ → Bytes
ldap_special_char_escape string string_max_len = escape_loop 256 string_max_len 0 string

-- The DN of a configured group.
unfoldable pub group_dn : LdapAuthInfo → LdapGroupInfo → Bytes
group_dn info g =
    parse_ldap_group_info upper (take 255 info.user_domain)
      (ldap_special_char_escape (take 255 g.group_folder) 255) (take 255 g.group_name)

-- The loop of read_groupdn. The place is a guint8, and a place outside the array is written all the
-- same; what it hits is not modelled.
unfoldable pub read_groupdn_from :
    LdapAuthInfo → List LdapGroupInfo → List (Option Bytes) → List (Option Bytes)
read_groupdn_from info [] groupdn = groupdn
read_groupdn_from info (g ∷ gs) groupdn =
    read_groupdn_from info gs
      (set groupdn ((g.group_inner_id + (2 ^ 8 - 1)) % 2 ^ 8) (some (group_dn info g)))

abbrev pub read_groupdn : LdapAuthInfo → List (Option Bytes) → List (Option Bytes)
read_groupdn info = read_groupdn_from info (take info.group_cnt info.groups)

unfoldable pub get_ldap_scope : Bytes → Scope → Scope
get_ldap_scope scope default =
    if starts_with_nocase (codes "sub") scope
    then subtree
    else if starts_with_nocase (codes "one") scope
    then onelevel
    else if starts_with_nocase (codes "base") scope
    then base_scope
    else default

-- LDAP_PORT
abbrev pub ldap_port : ℕ
ldap_port = 389

-- The steps of alloc_config and get_ldap_base_info in one record.
unfoldable pub read_ldap_config : LdapAuthInfo → LdapConfig
read_ldap_config info = record {
  uri = none;
  host = some (take 255 info.hostaddr);
  port = if eqb_ℤ info.server_port (pos 0) then pos ldap_port else info.server_port;
  base = parse_ldap_base_info (take 255 info.user_domain) (take 255 info.folder);
  groupdn = read_groupdn info (replicate 5 none);
  scope = get_ldap_scope info.search_scope subtree;
  version = info.server_version;
  timelimit = info.time_limit;
  bind_timelimit = info.bind_time_limit;
  restart = 0;
  cert_status = info.cert_verify_enabled;
  cert_verifi_level = info.cert_verify_level;
  dn_with_uid = 0;
}
