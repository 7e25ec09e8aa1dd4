-- ===== src/Tests/Ldap.antt =====
-- The LDAP login: a small directory, and its groups.
mod Login
mod Groups
use account.Base.{
  ℕ, ◌≡◌, ◌↔◌, ◌⊎◌, refl, arith, Bool, true, false, Option, none, some, List, [], ◌∷◌, ◌++◌, Bytes,
  replicate, Bool-cases, inl, inr,
}
use account.Base.{if◌then◌else◌}
use account.Base.Int.{pos}
use account.Clib.Text.{codes, str_eq, str_eq_nocase, strsep, starts_with_nocase}
use account.Ldap.{
  LdapRet, success, error, is_success, LdapConfig, subtree, LdapGroupInfo, LdapAuthInfo,
}
use account.Ldap.Bind.{Server}
use account.Ldap.Compare.{compare_ldap_sentence_without_tag, same_contents}
use account.Ldap.Dn.{
  parse_ldap_base_info, parse_ldap_group_info, parse_mutil_path, append_domain, append_parts,
  drop_last, TagCase, upper,
}
use account.Ldap.Escape.{escape_string}
use account.Ldap.Login.{Directory, ldap_authenticate, mscm_ldap_authenticate}
use account.Ldap.Search.{
  do_search_user_group, do_search_by_username, search_groups, search_group, check_hash, contains,
  user_dn, is_member, search_each,
}

abbrev pub alice : Bytes
alice = codes "CN=alice,DC=x"

abbrev pub admins : Bytes
admins = codes "CN=admins,DC=x"

abbrev pub staff : Bytes
staff = codes "CN=staff,DC=x"

-- The staff are members of the admins, and alice is one of the staff.
abbrev pub members : Bytes → Option (List Bytes)
members g =
    if str_eq g admins
    then some (staff ∷ [])
    else if str_eq g staff
    then some (alice ∷ admins ∷ [])
    else none

abbrev pub conf : LdapConfig
conf = record {
  uri = none;
  host = some (codes "h");
  port = pos 636;
  base = codes "DC=x";
  groupdn = some admins ∷ some staff ∷ none ∷ none ∷ none ∷ [];
  scope = subtree;
  version = 3;
  timelimit = 0;
  bind_timelimit = 10;
  restart = 0;
  cert_status = 0;
  cert_verifi_level = 0;
  dn_with_uid = 0;
}

-- The user is found in the admins, by the way of the staff, but the staff, searched already, are not
-- found again.
by_username :
    do_search_by_username members conf (codes "alice") (replicate 5 255)
    ≡ (success, 0 ∷ 255 ∷ 255 ∷ 255 ∷ 255 ∷ [])
unfolding do_search_by_username search_groups search_group do_search_user_group check_hash contains
    user_dn is_member search_each compare_ldap_sentence_without_tag same_contents str_eq_nocase
    str_eq
by_username = refl

base : parse_ldap_base_info (codes "a.b.c") (codes "Users") ≡ codes "CN=Users,DC=a,DC=b,DC=c"
unfolding parse_ldap_base_info append_domain append_parts drop_last strsep str_eq
base = refl

group :
    parse_ldap_group_info upper (codes "a.b") (codes "x/y") (codes "ops")
    ≡ codes "CN=ops,OU=y,OU=x,DC=a,DC=b"
unfolding parse_ldap_group_info parse_mutil_path append_domain append_parts drop_last strsep str_eq
    starts_with_nocase
group = refl
