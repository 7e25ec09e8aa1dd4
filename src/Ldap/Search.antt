-- ===== src/Ldap/Search.antt =====
-- The search for the groups of a user by the members of the configured groups: do_search_user_group
-- and do_search_by_username of libiam/lualib-src/iam_core/ldap_auth.c. What the server answers is a
-- parameter, `members`: the values of the attribute `member` of the first entry that a search at a DN
-- finds, none where the search fails, finds no entry, or the entry has no such attribute. It does not
-- change while the groups are searched.
pub mod Steps
pub mod Sound
pub mod Table
pub mod Missing
pub mod Complete
pub mod Groups
use account.Base.{
  ℕ, zero, suc, ◌+◌, ◌-◌, Bool, true, false, ◌&&◌, ◌||◌, Option, none, some, List, [], ◌∷◌, ◌++◌,
  ltb, leb, ◌==◌, if◌then◌else◌, Bytes, length, take, set,
}
use account.Clib.Text.{str_eq, codes}
use account.Status.{is_ok}
use account.Ldap.{LdapRet, success, error, unknown, is_success, LdapConfig, ldap_userdn_max_len}
use account.Ldap.Compare.{compare_ldap_sentence_without_tag}

-- MAX_TREE_DEPTH, MAX_LDAP_GRP_HASH_SIZE
abbrev pub max_tree_depth : ℕ
max_tree_depth = 50

abbrev pub max_ldap_grp_hash_size : ℕ
max_ldap_grp_hash_size = 2000

-- g_hash_table_contains, of a table that is used as a set of texts.
unfoldable pub contains : List Bytes → Bytes → Bool
contains [] s = false
contains (t ∷ ts) s = str_eq t s || contains ts s

-- do_search_user_group_check_hash, whether it returns RET_OK.
unfoldable pub check_hash : List Bytes → Bytes → ℕ → Bool
check_hash table group_name tree_level =
    if leb max_ldap_grp_hash_size (length table)
    then false
    else if contains table group_name
    then false
    else leb tree_level max_tree_depth

-- The DN of the user, snprintf_s having cut it off at the end of its buffer.
unfoldable pub user_dn : LdapConfig → Bytes → Bytes
user_dn conf username = take (ldap_userdn_max_len - 1) (
    (if conf.dn_with_uid == 0 then codes "CN=" else codes "UID=")
    ++ (username ++ (b',' ∷ conf.base)))

-- The first loop over the members: one of them is the user.
unfoldable pub is_member : Bytes → List Bytes → Bool
is_member userdn [] = false
is_member userdn (m ∷ ms) =
    is_ok (compare_ldap_sentence_without_tag (some m) (some userdn)) || is_member userdn ms

-- The second loop over the members, each searched as a group, with the table that it leaves.
unfoldable pub search_each :
    (Bytes → List Bytes → LdapRet × List Bytes) → List Bytes → List Bytes → LdapRet × List Bytes
search_each f [] table = (error, table)
search_each f (m ∷ ms) table =
    let (ret, table1) = f m table in
    let later = search_each f ms table1 in if is_success ret then (success, table1) else later

module _ (members : Bytes → Option (List Bytes)) (userdn : Bytes) where
  -- do_search_user_group, at the level max_tree_depth + 1 - `left`, and the table that it leaves; at
  -- the level max_tree_depth + 1 the check refuses every group.
  unfoldable pub do_search_user_group : ℕ → Bytes → List Bytes → LdapRet × List Bytes
  do_search_user_group zero group_name table = (unknown, table)
  do_search_user_group (suc left) group_name table =
      elim (check_hash table group_name (max_tree_depth - left)) [
        | false ↦ (unknown, table)
        | true ↦ elim (members group_name) [
          | none ↦ (unknown, group_name ∷ table)
          | some ms ↦
              if is_member userdn ms
              then (success, group_name ∷ table)
              else search_each (do_search_user_group left) ms (group_name ∷ table)
        ]
      ]

-- The locals of do_search_by_username: the groups that were searched, those that were found, the ids
-- of the groups, and the flag.
pub record Found : Type 0 where
  pub find_grp_hash : List Bytes
  pub grp_found_hash : List Bytes
  pub group : List ℕ
  pub flag : Bool

module _ (members : Bytes → Option (List Bytes)) (userdn : Bytes) where
  -- One turn of the loop of do_search_by_username, for the configured group number `j`.
  unfoldable pub search_group : ℕ → Option Bytes → Found → Found
  search_group j none st = st
  search_group j (some dn) st =
      let (ret, table) =
        do_search_user_group members userdn (suc max_tree_depth) dn st.find_grp_hash in
      if contains st.find_grp_hash dn && contains st.grp_found_hash dn
      then record st { group = set st.group j j }
      else if is_success ret
      then record {
        find_grp_hash = table;
        grp_found_hash = dn ∷ st.grp_found_hash;
        group = set st.group j j;
        flag = true;
      }
      else record st { find_grp_hash = table }

  unfoldable pub search_groups : ℕ → List (Option Bytes) → Found → Found
  search_groups j [] st = st
  search_groups j (dn ∷ dns) st = search_groups (suc j) dns (search_group j dn st)

-- The array `group` that is given comes back with the numbers of the groups found.
unfoldable pub do_search_by_username :
    (Bytes → Option (List Bytes)) → LdapConfig → Bytes → List ℕ → LdapRet × List ℕ
do_search_by_username members conf username group =
    let start : Found = record {
      find_grp_hash = [];
      grp_found_hash = [];
      group = group;
      flag = false;
    } in
    let end = search_groups members (user_dn conf username) 0 conf.groupdn start in
    if end.flag then (success, end.group) else (unknown, end.group)
