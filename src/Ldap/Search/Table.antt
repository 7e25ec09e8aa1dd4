-- ===== src/Ldap/Search/Table.antt =====
-- The table of the groups that do_search_user_group of libiam/lualib-src/iam_core/ldap_auth.c has
-- searched.
use account.Base.{
  ℕ, zero, suc, ◌-◌, ◌≤◌, ◌<◌, ◌≡◌, true, false, Option, some, List, [], ◌∷◌, length, arith, Bytes,
}
use account.Ldap.{LdapRet}
use account.Ldap.Search.{
  contains, check_hash, do_search_user_group, max_tree_depth, max_ldap_grp_hash_size,
}
use account.Ldap.Search.Sound.{contains_head, contains_later}
use account.Ldap.Search.Steps.{
  Each, ended, hit, miss, Search, refused, unanswered, has_user, deeper,
  do_search_user_group-Search,
}

-- What the check lets through: the table is not full, and the group is new.
pub check_hash-passes :
    (table : List Bytes) (g : Bytes) (level : ℕ)
    → check_hash table g level ≡ true
    → (length table < max_ldap_grp_hash_size) × (contains table g ≡ false)
unfolding check_hash
check_hash-passes table g level h = ground arith

pub check_hash-lets :
    (table : List Bytes) (g : Bytes) (level : ℕ)
    → length table < max_ldap_grp_hash_size
    → contains table g ≡ false
    → level ≤ max_tree_depth
    → check_hash table g level ≡ true
unfolding check_hash
check_hash-lets table g level l c d = ground arith

-- A property of the table that each run of `f` on one of the members keeps.
pub Each-keeps :
    (I : List Bytes → Type 0) {f : Bytes → List Bytes → LdapRet × List Bytes}
    {ms table : List Bytes} {end : LdapRet × List Bytes}
    → ((m : Bytes) (t : List Bytes) → contains ms m ≡ true → I t → I (f m t).1)
    → Each f ms table end
    → I table
    → I end.1
Each-keeps I deep (ended table) i = i
Each-keeps I deep (hit m ms table e) i = deep m table (contains_head m ms) i
Each-keeps I deep (miss m ms table e r) i =
    Each-keeps I (λ x t c. deep x t (contains_later m x ms c)) r
      (deep m table (contains_head m ms) i)

-- `P` holds of the members of the groups it holds of, and `I` is kept where such a group is added.
module _ (members : Bytes → Option (List Bytes)) (userdn : Bytes) (P : Bytes → Type 0)
    (I : List Bytes → Type 0)
    (closed : (g m : Bytes) (ms : List Bytes)
      → P g
      → members g ≡ some ms
      → contains ms m ≡ true
      → P m)
    (added : (g : Bytes) (t : List Bytes)
      → P g
      → length t < max_ldap_grp_hash_size
      → contains t g ≡ false
      → I t
      → I (g ∷ t)) where
  Search-keeps :
      {left : ℕ} {g : Bytes} {table : List Bytes} {end : LdapRet × List Bytes}
      → ((m : Bytes) (t : List Bytes)
          → P m
          → I t
          → I (do_search_user_group members userdn left m t).1)
      → P g
      → Search members userdn left g table end
      → I table
      → I end.1
  Search-keeps {left} {g} {table} deep p (refused c) i = i
  Search-keeps {left} {g} {table} deep p (unanswered c e) i =
      let (l, n) = check_hash-passes table g (max_tree_depth - left) c in added g table p l n i
  Search-keeps {left} {g} {table} deep p (has_user ms c e u) i =
      let (l, n) = check_hash-passes table g (max_tree_depth - left) c in added g table p l n i
  Search-keeps {left} {g} {table} deep p (deeper ms c e u r) i =
      let (l, n) = check_hash-passes table g (max_tree_depth - left) c in
      Each-keeps I (λ m t k. deep m t (closed g m ms p e k)) r (added g table p l n i)

  pub do_search_user_group-keeps :
      (left : ℕ) (g : Bytes) (table : List Bytes)
      → P g
      → I table
      → I (do_search_user_group members userdn left g table).1
  unfolding do_search_user_group
  do_search_user_group-keeps zero g table p i = i
  do_search_user_group-keeps (suc left) g table p i =
      Search-keeps (do_search_user_group-keeps left) p
        (do_search_user_group-Search members userdn left g table) i

-- No group is in the table twice, and it holds 2000 groups at most.
abbrev IsDistinct : List Bytes → Type 0
IsDistinct [] = Unit
IsDistinct (g ∷ gs) = (contains gs g ≡ false) × IsDistinct gs

abbrev pub IsTable : List Bytes → Type 0
IsTable table = IsDistinct table × (length table ≤ max_ldap_grp_hash_size)

-- do_search_user_group keeps it that the table holds no group twice and 2000 groups at most.
pub do_search_user_group-IsTable :
    (members : Bytes → Option (List Bytes)) (userdn : Bytes) (left : ℕ) (g : Bytes)
    (table : List Bytes)
    → IsTable table
    → IsTable (do_search_user_group members userdn left g table).1
do_search_user_group-IsTable members userdn left g table h =
    do_search_user_group-keeps members userdn (λ _. Unit) IsTable (λ _ _ _ _ _ _. tt)
      (λ g t _ l c i. ((c, i.0), l)) left g table tt h
