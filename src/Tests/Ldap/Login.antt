-- ===== src/Tests/Ldap/Login.antt =====
-- A login to a small directory.
use account.Base.{ℕ, arith, sym, ◌∙◌, ◌≡◌, refl, true, false, none, some, [], ◌∷◌, replicate}
use account.Base.Int.{pos}
use account.Clib.Text.{
  strsep, codes, str_eq, has_substring_nocase, starts_with_nocase, str_eq_nocase,
}
use account.Ldap.{is_success, LdapAuthInfo}
use account.Ldap.Compare.{compare_ldap_sentence_without_tag, same_contents}
use account.Ldap.Search.{check_hash, contains}
use account.Ldap.Config.{read_ldap_config, read_groupdn_from, get_ldap_scope, group_dn, escape_loop}
use account.Ldap.Dn.{
  parse_ldap_base_info, parse_ldap_group_info, append_domain, append_parts, drop_last,
  parse_mutil_path,
}
use account.Ldap.Bind.Password.{HasBound}
use account.Ldap.Bind.{
  Server, bind_user, do_sasl_bind, opened, bind_with, do_sasl_bind_set_userdn, do_direct_bind,
  add_prefix_userdn, after_bind,
}
use account.Ldap.Escape.{escape_string, escape_from}
use account.Ldap.Login.Answers.{mscm_ldap_authenticate-AnswersAs}
use account.Ldap.Login.Password.{ldap_authenticate-HasBound}
use account.Ldap.Login.{
  Directory, ldap_authenticate, mscm_ldap_authenticate, authenticate_with, ldap_auth,
  bind_three_ways, bind_full_name,
}
use account.Ldap.Owner.{
  do_get_user_group, all_values, do_search_by_memberof, do_search_group_owner, is_configured,
  mark_groups, search_groups_of, values, visit,
}
use account.Ldap.Privilege.{grant, match_ids, match_id, match_groups, match_group}
use account.Ldap.Privilege.Highest.{AnswersAs, HasPriv}
use account.Ldap.Login.Earned.{IsInGroup, mscm_ldap_authenticate-HasBound}
use account.Ldap.User.Found.{is_found, ldap_search_user-is_found}
use account.Ldap.User.{
  ldap_search_user, search_escaped, or_else, ldap_find_user_cn, copy_cn, login_attr,
}
use account.Tests.Ldap.{staff, members, conf}

-- Of the passwords, the server accepts one; it knows no SASL.
abbrev server : Server
server = record {
  opens = true;
  simple_bind = (λ dn pw. str_eq pw (codes "secret"));
  sasl_bind = (λ dn name pw. false);
}

abbrev directory : Directory
directory = record {
  entry = (λ filter attr. some (codes "alice" ∷ []));
  user = (λ filter. some (some (staff ∷ []) ∷ []));
  owners = (λ g. none);
  members = members;
}

abbrev info : LdapAuthInfo
info = record {
  serverid = 1;
  hostaddr = codes "h";
  server_port = pos 636;
  user_domain = codes "x";
  folder = [];
  bind_dn = [];
  bind_dn_pwd = [];
  cert_verify_enabled = 0;
  cert_verify_level = 0;
  search_scope = codes "sub";
  time_limit = 0;
  bind_time_limit = 10;
  server_version = 3;
  group_cnt = 1;
  groups =
      record { group_inner_id = 2; group_name = codes "staff"; group_folder = []; group_priv = 4 }
      ∷ [];
  username = codes "alice";
  password = codes "secret";
}

logs_in : is_success (ldap_authenticate server directory info (replicate 5 255)).0 ≡ true
unfolding ldap_authenticate read_ldap_config read_groupdn_from get_ldap_scope group_dn escape_loop
    parse_ldap_base_info parse_ldap_group_info append_domain append_parts drop_last strsep
    parse_mutil_path authenticate_with ldap_auth bind_three_ways bind_full_name bind_user
    do_sasl_bind opened bind_with do_sasl_bind_set_userdn do_direct_bind add_prefix_userdn
    after_bind str_eq has_substring_nocase starts_with_nocase str_eq_nocase ldap_search_user
    search_escaped or_else ldap_find_user_cn copy_cn login_attr escape_from
    compare_ldap_sentence_without_tag same_contents all_values do_get_user_group
    do_search_by_memberof do_search_group_owner is_configured mark_groups search_groups_of values
    visit check_hash contains
logs_in = refl

ldap_authenticate-HasBound_example : HasBound server (codes "alice") (codes "secret")
ldap_authenticate-HasBound_example =
    ldap_authenticate-HasBound server directory info (replicate 5 255) logs_in

mscm_ldap_authenticate-AnswersAs_example :
    AnswersAs
      (ldap_authenticate server directory info (replicate 5 255))
      info
      (replicate 5 255)
      (mscm_ldap_authenticate server directory info (replicate 5 255))
mscm_ldap_authenticate-AnswersAs_example =
    mscm_ldap_authenticate-AnswersAs server directory info (replicate 5 255)

grants : ◌≡◌ {A = ℕ} (mscm_ldap_authenticate server directory info (replicate 5 255)).1.privilege 4
unfolding grant match_ids match_id match_groups match_group ldap_authenticate read_ldap_config
    read_groupdn_from get_ldap_scope group_dn escape_loop parse_ldap_base_info parse_ldap_group_info
    append_domain append_parts drop_last strsep parse_mutil_path authenticate_with ldap_auth
    bind_three_ways bind_full_name bind_user do_sasl_bind opened bind_with do_sasl_bind_set_userdn
    do_direct_bind add_prefix_userdn after_bind str_eq has_substring_nocase starts_with_nocase
    str_eq_nocase ldap_search_user search_escaped or_else ldap_find_user_cn copy_cn login_attr
    escape_from compare_ldap_sentence_without_tag same_contents all_values do_get_user_group
    do_search_by_memberof do_search_group_owner is_configured mark_groups search_groups_of values
    visit check_hash contains
grants = refl

mscm_ldap_authenticate-HasBound_example :
    HasBound server (codes "alice") (codes "secret")
    × ((i : ℕ) × HasPriv i info.groups
          (mscm_ldap_authenticate server directory info (replicate 5 255)).1.privilege
        × IsInGroup server directory info i)
mscm_ldap_authenticate-HasBound_example =
    mscm_ldap_authenticate-HasBound server directory info (replicate 5 255)
      (λ e. omega (arith, sym grants ∙ e))

ldap_search_user-is_found_example :
    is_success (ldap_search_user directory.entry conf 255 info []).0
    ≡ is_found directory.entry conf 255 info (escape_string (codes "alice") 1024)
ldap_search_user-is_found_example = ldap_search_user-is_found directory.entry conf 255 info []
