-- ===== src/Ldap/Owner.antt =====
-- The search for the groups of a user by the attribute memberOf, and the search by both ways:
-- do_search_group_owner, do_search_by_memberof and do_get_user_group of
-- libiam/lualib-src/iam_core/ldap_auth.c. What the server answers is a parameter of each function,
-- and does not change while the groups are searched.
pub mod Sound
pub mod Groups
use account.Base.{
  ℕ, zero, suc, ◌-◌, ◌%◌, ◌^◌, Bool, true, false, ◌||◌, Option, none, some, List, [], ◌∷◌, ◌++◌,
  ltb, ◌==◌, if◌then◌else◌, Bytes, length, take, set,
}
use account.Clib.Text.{codes}
use account.Status.{is_ok}
use account.Ldap.{LdapRet, success, error, unknown, is_success, LdapConfig}
use account.Ldap.Compare.{compare_ldap_sentence_without_tag}
use account.Ldap.Escape.{escape_string}
use account.Ldap.Search.{max_tree_depth, check_hash, do_search_by_username}
use account.Ldap.User.{ldap_filt_maxsiz, filter_of, login_attr}

-- What a search for the groups of a group finds: the values of memberOf of the first entry, and of the
-- other entry that ldap_next_entry gives for the result itself, where it gives one. The loop asks for
-- no further entry: it ends when this one comes again. An entry without the attribute has no values.
pub record Response : Type 0 where
  pub first : Option (List Bytes)
  pub behind : Option (List Bytes)

-- The values that are visited: ldap_count_values counts them in a gint16.
abbrev pub counted : List Bytes → List Bytes
counted vs = let n = length vs % 2 ^ 16 in if ltb n (2 ^ 15) then take n vs else []

unfoldable pub values : Response → List Bytes
values r = elim r.first [
  | none ↦ []
  | some vs ↦ elim r.behind [ none ↦ counted vs | some ws ↦ counted vs ++ counted ws ]
]

-- The table of the groups that were searched, and the array of the ids found.
pub record Owners : Type 0 where
  pub grp_hash : List Bytes
  pub group : List ℕ

-- The loop that looks a group up among the configured ones, from the number `i` on.
unfoldable pub mark_groups : Bytes → ℕ → List (Option Bytes) → List ℕ → List ℕ
mark_groups g i [] group = group
mark_groups g i (dn ∷ dns) group =
    let marked =
      if is_ok (compare_ldap_sentence_without_tag (some g) dn) then set group i i else group in
    mark_groups g (suc i) dns marked

-- match_flag
unfoldable pub is_configured : Bytes → List (Option Bytes) → Bool
is_configured g [] = false
is_configured g (dn ∷ dns) =
    is_ok (compare_ldap_sentence_without_tag (some g) dn) || is_configured g dns

-- The loop over the values: whether one of the searches succeeds.
unfoldable pub visit : (Bytes → Owners → LdapRet × Owners) → List Bytes → Owners → Bool × Owners
visit f [] st = (false, st)
visit f (v ∷ vs) st =
    let (ret, st1) = f v st in let (found, st2) = visit f vs st1 in (is_success ret || found, st2)

abbrev pub found_ret : Bool → LdapRet → LdapRet
found_ret b ret = if b then success else ret

module _ (owners : Bytes → Option Response) (groupdn : List (Option Bytes)) where
  -- do_search_group_owner, at the level max_tree_depth + 1 - `left`; at the level
  -- max_tree_depth + 1 the check refuses every group.
  unfoldable pub do_search_group_owner : ℕ → Bytes → Owners → LdapRet × Owners
  do_search_group_owner zero g st = (unknown, st)
  do_search_group_owner (suc left) g st =
      let st1 : Owners = record {
        grp_hash = g ∷ st.grp_hash;
        group = mark_groups g 0 groupdn st.group;
      } in
      elim (check_hash st.grp_hash g (max_tree_depth - left)) [
        | false ↦ (unknown, st)
        | true ↦ elim (owners g) [
          | none ↦ (found_ret (is_configured g groupdn) unknown, st1)
          | some r ↦
              let (found, st2) = visit (do_search_group_owner left) (values r) st1 in
              (found_ret (is_configured g groupdn || found) error, st2)
        ]
      ]

-- The values of memberOf of all entries that a search for the user finds, an entry without the
-- attribute having none.
unfoldable pub all_values : List (Option (List Bytes)) → List Bytes
all_values [] = []
all_values (none ∷ es) = all_values es
all_values (some vs ∷ es) = counted vs ++ all_values es

-- do_search_by_memberof, with do_search_by_memberof_ext. `user` answers the search with a filter.
unfoldable pub do_search_by_memberof :
    (Bytes → Option (List (Option (List Bytes))))
    → (Bytes → Option Response)
    → LdapConfig
    → Bytes
    → List ℕ
    → LdapRet × List ℕ
do_search_by_memberof user owners conf username group =
    let start : Owners = record { grp_hash = []; group = group } in
    elim (user (filter_of (login_attr conf) username)) [
      | none ↦ (unknown, group)
      | some es ↦
          let (flag, st) =
            visit (do_search_group_owner owners conf.groupdn max_tree_depth) (all_values es)
              start in
          (found_ret flag unknown, st.group)
    ]

-- What do_get_user_group does with the name escaped.
unfoldable pub search_groups_of :
    (Bytes → Option (List (Option (List Bytes))))
    → (Bytes → Option Response)
    → (Bytes → Option (List Bytes))
    → LdapConfig
    → Bytes
    → List ℕ
    → LdapRet × List ℕ
search_groups_of user owners members conf escaped_user group =
    let (ret, group1) = do_search_by_memberof user owners conf escaped_user group in
    elim (is_success ret) [
      | true ↦ (success, group1)
      | false ↦ do_search_by_username members conf escaped_user group1
    ]

unfoldable pub do_get_user_group :
    (Bytes → Option (List (Option (List Bytes))))
    → (Bytes → Option Response)
    → (Bytes → Option (List Bytes))
    → LdapConfig
    → Bytes
    → List ℕ
    → LdapRet × List ℕ
do_get_user_group user owners members conf username group =
    elim (escape_string username ldap_filt_maxsiz) [
      | none ↦ (error, group)
      | some escaped_user ↦ search_groups_of user owners members conf escaped_user group
    ]
