-- ===== src/Tests/Ldap/Groups.antt =====
-- The groups of the LDAP login, and the DNs.
use account.Base.{
  All, ◌≤◌, drop, ◌≡◌, ◌↔◌, ◌+◌, ◌<◌, refl, sym, arith, true, false, Option, some, List, [], ◌∷◌,
  ◌++◌, Bytes, map, reverse, length,
}
use mathlib.Core.Option.{some-injective}
use mathlib.Core.Path.{subst}
use account.Clib.Text.{
  codes, str_eq_nocase, has_char, join, strtok, strsep, str_eq, starts_with_nocase,
}
use account.Ldap.{is_success}
use account.Ldap.Bind.Userdn.{other, do_sasl_bind_set_userdn-add_prefix_userdn}
use account.Ldap.Bind.{add_prefix_userdn, do_sasl_bind_set_userdn}
use account.Ldap.Compare.Parts.{compare_ldap_sentence_without_tag_iff}
use account.Ldap.Compare.{compare_ldap_sentence_without_tag}
use account.Ldap.Config.Special.{IsName, escaped_name, ldap_special_char_escape-name}
use account.Ldap.Config.{ldap_special_char_escape}
use account.Status.{ok}
use account.Ldap.Dn.Join.{
  pair, group_parts, parts, parse_ldap_base_info-join, parse_ldap_group_info-parts,
}
use account.Ldap.Dn.{
  parse_ldap_base_info, parse_ldap_group_info, base_folder, ldap_group_forder_check, upper,
}
use account.Ldap.Escape.Safe.{IsSafe, escape_string-IsSafe}
use account.Ldap.Escape.{escape_string}
use account.Ldap.Search.Complete.{do_search_user_group_iff}
use account.Ldap.Search.Sound.{IsNestedIn}
use account.Ldap.Search.Table.{IsTable, do_search_user_group-IsTable}
use account.Ldap.Search.{contains, do_search_user_group}
use account.Tests.Ldap.{alice, admins, members}

-- A directory where alice is the only member of every group.
abbrev everywhere : Bytes → Option (List Bytes)
everywhere g = some (alice ∷ [])

closed :
    (g m : Bytes) (ms : List Bytes)
    → contains (alice ∷ []) g ≡ true
    → everywhere g ≡ some ms
    → contains ms m ≡ true
    → contains (alice ∷ []) m ≡ true
closed g m ms p e c = subst (λ l. contains l m ≡ true) (sym (some-injective (alice ∷ []) ms e)) c

named : contains (alice ∷ []) alice ≡ true
unfolding contains str_eq
named = refl

do_search_user_group_iff_example :
    (is_success (do_search_user_group everywhere alice 51 alice []).0 ≡ true)
    ↔ IsNestedIn everywhere alice alice
do_search_user_group_iff_example =
    do_search_user_group_iff everywhere alice (alice ∷ []) closed (omega arith) alice named

do_search_user_group-IsTable_example : IsTable (do_search_user_group members alice 51 admins []).1
do_search_user_group-IsTable_example =
    do_search_user_group-IsTable members alice 51 admins [] (tt, omega arith)

escape_string-IsSafe_example : IsSafe (codes "a(b") 1024 (escape_string (codes "a(b") 1024)
escape_string-IsSafe_example = escape_string-IsSafe (codes "a(b") 1024 (omega arith) (omega arith)

domain_tokens : strtok b'.' (codes "a.b") ≡ codes "a" ∷ codes "b" ∷ []
unfolding strsep
domain_tokens = refl

folder_tokens : strtok b'/' (codes "x/y") ≡ codes "x" ∷ codes "y" ∷ []
unfolding strsep
folder_tokens = refl

base_fits :
    length (
        base_folder (codes "Users")
        ++ join b',' (pair (codes "DC") (codes "a")) (map (pair (codes "DC")) (codes "b" ∷ [])))
      + 1
    < 766
unfolding str_eq
base_fits = omega arith

parse_ldap_base_info-join_example :
    parse_ldap_base_info (codes "a.b") (codes "Users")
    ≡ base_folder (codes "Users")
      ++ join b',' (pair (codes "DC") (codes "a")) (map (pair (codes "DC")) (codes "b" ∷ []))
parse_ldap_base_info-join_example =
    parse_ldap_base_info-join (codes "a.b") (codes "Users") (codes "a") (codes "b" ∷ [])
      domain_tokens base_fits

group_fits :
    length (
        group_parts upper
          (codes "ops")
          (reverse (codes "x" ∷ codes "y" ∷ []))
          (codes "a")
          (codes "b" ∷ []))
      + 1
    < 1021
unfolding parts
group_fits = omega arith

plain_folder : ldap_group_forder_check (codes "x/y") ≡ false
unfolding starts_with_nocase
plain_folder = refl

parse_ldap_group_info-parts_example :
    parse_ldap_group_info upper (codes "a.b") (codes "x/y") (codes "ops")
    ≡ group_parts upper
        (codes "ops")
        (reverse (codes "x" ∷ codes "y" ∷ []))
        (codes "a")
        (codes "b" ∷ [])
parse_ldap_group_info-parts_example =
    parse_ldap_group_info-parts upper (codes "a.b") (codes "x/y") (codes "ops") (codes "x")
      (codes "a") (codes "y" ∷ []) (codes "b" ∷ []) (omega arith) (omega arith) plain_folder
      folder_tokens domain_tokens group_fits

do_sasl_bind_set_userdn-add_prefix_userdn_example :
    do_sasl_bind_set_userdn (codes "CN=al,DC=x") (codes "al") ≡ (
      (add_prefix_userdn (codes "CN=al,DC=x") (codes "al")).0,
      other (add_prefix_userdn (codes "CN=al,DC=x") (codes "al")).1,
    )
do_sasl_bind_set_userdn-add_prefix_userdn_example =
    do_sasl_bind_set_userdn-add_prefix_userdn (codes "CN=al,DC=x") (codes "al")

tagged : All (λ t. 3 ≤ length t) (strsep b',' (codes "CN=a,DC=x"))
unfolding strsep
tagged = (omega arith, (omega arith, tt))

compare_ldap_sentence_without_tag_iff_example :
    (compare_ldap_sentence_without_tag (some (codes "CN=a,DC=x")) (some (codes "cn=a,dc=x")) ≡ ok)
    ↔ ((str_eq_nocase (codes "CN=a,DC=x") (codes "cn=a,dc=x") ≡ true)
        × (map (drop 3) (strsep b',' (codes "CN=a,DC=x"))
            ≡ map (drop 3) (strsep b',' (codes "cn=a,dc=x"))))
compare_ldap_sentence_without_tag_iff_example =
    compare_ldap_sentence_without_tag_iff (codes "CN=a,DC=x") (codes "cn=a,dc=x") tagged

plus-IsName : All IsName (codes "a+b")
plus-IsName = (omega arith, (omega arith, (omega arith, tt)))

plus_fits : length (escaped_name (codes "a+b")) < 255
unfolding escaped_name has_char
plus_fits = omega arith

ldap_special_char_escape-name_example :
    ldap_special_char_escape (codes "a+b") 255 ≡ escaped_name (codes "a+b")
ldap_special_char_escape-name_example =
    ldap_special_char_escape-name (codes "a+b") 255 plus-IsName (omega arith) plus_fits
      (omega arith)
