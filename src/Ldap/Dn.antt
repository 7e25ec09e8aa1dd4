-- ===== src/Ldap/Dn.antt =====
-- The DNs that libiam/lualib-src/iam_core/ldap_auth_parse_info.c makes of a configured domain and
-- folder: parse_ldap_base_info, parse_ldap_group_info and their helpers, given no null pointer.
pub mod Join
use account.Base.{ℕ, ◌-◌, Bool, ◌||◌, List, [], ◌∷◌, ◌++◌, reverse, if◌then◌else◌, Bytes, take}
use account.Clib.Text.{codes, str_eq, starts_with_nocase, strtok}
use account.Ldap.{ldap_userdn_max_len}

-- LDAP_GROUPDN_MAX_LEN, LDAP_GROUPFOLDER_MAX_LEN
abbrev pub ldap_groupdn_max_len : ℕ
ldap_groupdn_max_len = 1021

abbrev pub ldap_groupfolder_max_len : ℕ
ldap_groupfolder_max_len = 255

-- snprintf_truncated_s behind what a buffer of `size` bytes holds already, and snprintf_s with all
-- the space that is left as its count: what does not fit is cut off.
abbrev pub append_truncated : ℕ → Bytes → Bytes → Bytes
append_truncated size s t = take (size - 1) (s ++ t)

-- `tag=value,`
abbrev pub part : Bytes → Bytes → Bytes
part tag value = tag ++ (b'=' ∷ (value ++ (b',' ∷ [])))

-- The parts, one after the other.
unfoldable pub append_parts : ℕ → Bytes → Bytes → List Bytes → Bytes
append_parts size tag s [] = s
append_parts size tag s (t ∷ ts) = append_parts size tag (append_truncated size s (part tag t)) ts

-- The terminator over the last byte.
unfoldable pub drop_last : Bytes → Bytes
drop_last [] = []
drop_last (c ∷ []) = []
drop_last (c ∷ d ∷ s) = c ∷ drop_last (d ∷ s)

-- What both functions do with the domain: a part for each of its tokens, without the last comma. A
-- domain without a token is written as it is.
unfoldable pub append_domain : ℕ → Bytes → Bytes → Bytes → Bytes
append_domain size tag s domain = elim (strtok b'.' domain) [
  | [] ↦ append_truncated size s (tag ++ (b'=' ∷ domain))
  | (t ∷ ts) ↦ drop_last (append_parts size tag s (t ∷ ts))
]

-- The folder, as a prefix of the base.
abbrev pub base_folder : Bytes → Bytes
base_folder folder =
    if str_eq folder (codes "Users")
    then codes "CN=" ++ (folder ++ codes ",")
    else if str_eq folder []
    then []
    else folder ++ codes ","

-- Into the zeros of the base.
unfoldable pub parse_ldap_base_info : Bytes → Bytes → Bytes
parse_ldap_base_info domain folder =
    append_domain ldap_userdn_max_len (codes "DC")
      (append_truncated ldap_userdn_max_len [] (base_folder folder)) domain

-- LDAP_TAG_CASE_UPPER, LDAP_TAG_CASE_LOWER; any other value is refused.
pub data TagCase : Type 0 where
  upper lower : TagCase

-- The columns of `tag`.
abbrev pub ou_tag : TagCase → Bytes
ou_tag TagCase.upper = codes "OU"
ou_tag TagCase.lower = codes "ou"

abbrev pub dc_tag : TagCase → Bytes
dc_tag TagCase.upper = codes "DC"
dc_tag TagCase.lower = codes "dc"

abbrev pub cn_tag : TagCase → Bytes
cn_tag TagCase.upper = codes "CN"
cn_tag TagCase.lower = codes "cn"

-- Whether ldap_group_forder_check returns RET_OK.
abbrev pub ldap_group_forder_check : Bytes → Bool
ldap_group_forder_check folder =
    starts_with_nocase (codes "OU=") folder || starts_with_nocase (codes "CN=") folder

-- The parts for the folders of a path, the innermost first.
unfoldable pub parse_mutil_path : TagCase → Bytes → Bytes → Bytes
parse_mutil_path tag_case s folder = elim (strtok b'/' folder) [
  | [] ↦ append_parts ldap_groupdn_max_len (ou_tag tag_case) s (folder ∷ [])
  | (t ∷ ts) ↦ append_parts ldap_groupdn_max_len (ou_tag tag_case) s (reverse (t ∷ ts))
]

-- The part of the DN for the folder.
abbrev pub append_folder : TagCase → Bytes → Bytes → Bytes
append_folder tag_case s folder =
    if ldap_group_forder_check folder
    then append_truncated ldap_groupdn_max_len s (folder ++ codes ",")
    else if str_eq folder []
    then s
    else parse_mutil_path tag_case s folder

-- Into the zeros of the DN. The copies of the domain and the folder are cut off.
unfoldable pub parse_ldap_group_info : TagCase → Bytes → Bytes → Bytes → Bytes
parse_ldap_group_info tag_case domain folder name =
    let s = append_truncated ldap_groupdn_max_len [] (part (cn_tag tag_case) name) in
    append_domain ldap_groupdn_max_len (dc_tag tag_case)
      (append_folder tag_case s (take ldap_groupfolder_max_len folder))
      (take ldap_groupfolder_max_len domain)
