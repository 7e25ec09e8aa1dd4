-- ===== src/Ldap/Search/Sound.antt =====
-- What the search for the groups of a user finds, and which groups it asks for: do_search_user_group
-- and do_search_by_username of libiam/lualib-src/iam_core/ldap_auth.c.
use account.Base.{ℕ, zero, suc, ◌≡◌, refl, true, Option, some, List, ◌∷◌, arith, Bytes}
use account.Clib.Text.{str_eq_iff}
use account.Ldap.{LdapRet, is_success}
use account.Ldap.Search.Steps.{
  Each, ended, hit, miss, Search, refused, unanswered, has_user, deeper,
  do_search_user_group-Search,
}
use account.Ldap.Search.{contains, is_member, do_search_user_group}

pub contains_head : (m : Bytes) (ms : List Bytes) → contains (m ∷ ms) m ≡ true
unfolding contains
contains_head m ms = ground (arith, (str_eq_iff m m).1 refl)

pub contains_later :
    (m x : Bytes) (ms : List Bytes) → contains ms x ≡ true → contains (m ∷ ms) x ≡ true
unfolding contains
contains_later m x ms h = ground arith

-- The user is a member of the group at a DN, or of a group that is a member of it, at any depth.
pub data IsNestedIn (members : Bytes → Option (List Bytes)) (userdn : Bytes) : Bytes → Type 0 where
  direct :
      {g : Bytes} {ms : List Bytes}
      → members g ≡ some ms
      → is_member userdn ms ≡ true
      → IsNestedIn members userdn g
  inside :
      {g m : Bytes} {ms : List Bytes}
      → members g ≡ some ms
      → contains ms m ≡ true
      → IsNestedIn members userdn m
      → IsNestedIn members userdn g

-- A success of the loop is a success for one of the members.
Each-success :
    {f : Bytes → List Bytes → LdapRet × List Bytes} {ms table : List Bytes}
    {end : LdapRet × List Bytes}
    → Each f ms table end
    → is_success end.0 ≡ true
    → (m : Bytes) × (t : List Bytes) × (contains ms m ≡ true) × (is_success (f m t).0 ≡ true)
Each-success (ended table) h = cc
Each-success (hit m ms table e) h = (m, table, contains_head m ms, e)
Each-success (miss m ms table e r) h =
    let (x, t, c, s) = Each-success r h in (x, t, contains_later m x ms c, s)

module _ (members : Bytes → Option (List Bytes)) (userdn : Bytes) where
  refused_at_zero :
      (g : Bytes) (table : List Bytes)
      → ¬ (is_success (do_search_user_group members userdn zero g table).0 ≡ true)
  unfolding do_search_user_group
  refused_at_zero g table h = cc

  Search-IsNestedIn :
      {left : ℕ} {g : Bytes} {table : List Bytes} {end : LdapRet × List Bytes}
      → ((m : Bytes) (t : List Bytes)
          → is_success (do_search_user_group members userdn left m t).0 ≡ true
          → IsNestedIn members userdn m)
      → Search members userdn left g table end
      → is_success end.0 ≡ true
      → IsNestedIn members userdn g
  Search-IsNestedIn deep (refused c) h = cc
  Search-IsNestedIn deep (unanswered c e) h = cc
  Search-IsNestedIn deep (has_user ms c e u) h = direct e u
  Search-IsNestedIn deep (deeper ms c e u r) h =
      let (m, t, k, s) = Each-success r h in inside e k (deep m t s)

  -- A group in which do_search_user_group finds the user has the user as a member, or has a group of
  -- the user as a member, at any depth.
  pub do_search_user_group-IsNestedIn :
      (left : ℕ) (g : Bytes) (table : List Bytes)
      → is_success (do_search_user_group members userdn left g table).0 ≡ true
      → IsNestedIn members userdn g
  do_search_user_group-IsNestedIn zero g table h = absurd (refused_at_zero g table h)
  do_search_user_group-IsNestedIn (suc left) g table h =
      Search-IsNestedIn (do_search_user_group-IsNestedIn left)
        (do_search_user_group-Search members userdn left g table) h
