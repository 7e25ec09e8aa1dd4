-- ===== src/Ldap/Search/Steps.antt =====
-- The branches of do_search_user_group of libiam/lualib-src/iam_core/ldap_auth.c as relations.
use account.Base.{
  ℕ, suc, ◌-◌, ◌≡◌, true, false, Option, none, some, List, [], ◌∷◌, Bytes, Bool-cases, Option-cases,
  inl, inr,
}
use account.Ldap.{LdapRet, success, error, unknown, is_success}
use account.Ldap.Search.{check_hash, is_member, search_each, do_search_user_group, max_tree_depth}

-- A run of the loop over the members: from a table to a result and a table.
pub data Each (f : Bytes → List Bytes → LdapRet × List Bytes)
    : List Bytes → List Bytes → LdapRet × List Bytes → Type 0 where
  ended : (table : List Bytes) → Each f [] table (error, table)
  hit :
      (m : Bytes) (ms table : List Bytes)
      → is_success (f m table).0 ≡ true
      → Each f (m ∷ ms) table (success, (f m table).1)
  miss :
      (m : Bytes) (ms table : List Bytes) {end : LdapRet × List Bytes}
      → is_success (f m table).0 ≡ false
      → Each f ms (f m table).1 end
      → Each f (m ∷ ms) table end

pub search_each-Each :
    (f : Bytes → List Bytes → LdapRet × List Bytes) (ms table : List Bytes)
    → Each f ms table (search_each f ms table)
unfolding search_each
search_each-Each f [] table = ended table
search_each-Each f (m ∷ ms) table = elim (Bool-cases (is_success (f m table).0)) [
  | inl e ↦ rw e (hit m ms table e)
  | inr e ↦ rw e (miss m ms table e (search_each-Each f ms (f m table).1))
]

module _ (members : Bytes → Option (List Bytes)) (userdn : Bytes) where
  -- A search below the depth limit.
  pub data Search (left : ℕ) (g : Bytes) (table : List Bytes) : LdapRet × List Bytes → Type 0 where
    refused :
        check_hash table g (max_tree_depth - left) ≡ false → Search left g table (unknown, table)
    unanswered :
        check_hash table g (max_tree_depth - left) ≡ true
        → members g ≡ none
        → Search left g table (unknown, g ∷ table)
    has_user :
        (ms : List Bytes)
        → check_hash table g (max_tree_depth - left) ≡ true
        → members g ≡ some ms
        → is_member userdn ms ≡ true
        → Search left g table (success, g ∷ table)
    deeper :
        (ms : List Bytes) {end : LdapRet × List Bytes}
        → check_hash table g (max_tree_depth - left) ≡ true
        → members g ≡ some ms
        → is_member userdn ms ≡ false
        → Each (do_search_user_group members userdn left) ms (g ∷ table) end
        → Search left g table end

  pub do_search_user_group-Search :
      (left : ℕ) (g : Bytes) (table : List Bytes)
      → Search left g table (do_search_user_group members userdn (suc left) g table)
  unfolding do_search_user_group
  do_search_user_group-Search left g table =
      elim (Bool-cases (check_hash table g (max_tree_depth - left))) [
        | inr c ↦ rw (do_search_user_group, c) (refused c)
        | inl c ↦ elim (Option-cases (members g)) [
          | inl e ↦ rw (do_search_user_group, c, e) (unanswered c e)
          | inr (ms, e) ↦ elim (Bool-cases (is_member userdn ms)) [
            | inl h ↦ rw (do_search_user_group, c, e, h) (has_user ms c e h)
            | inr h ↦
                rw (do_search_user_group, c, e, h)
                  (deeper ms c e h
                    (search_each-Each (do_search_user_group members userdn left) ms (g ∷ table)))
          ]
        ]
      ]
