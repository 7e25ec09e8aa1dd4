-- ===== src/Ldap/Owner/Groups.antt =====
-- Which ids do_get_user_group of libiam/lualib-src/iam_core/ldap_auth.c puts into the array of groups.
use account.Base.{
  ℕ, ◌≡◌, refl, ◌∙◌, ◌⊎◌, inl, inr, Option, some, List, [], Bytes, Bool-cases, Option-cases,
  get_elem?,
}
use account.Ldap.{is_success, LdapConfig}
use account.Ldap.Escape.{escape_string}
use account.Ldap.Search.{max_tree_depth, do_search_by_username, user_dn}
use account.Ldap.Search.Groups.{do_search_by_username-cases}
use account.Ldap.Search.Sound.{IsNestedIn}
use account.Ldap.User.{ldap_filt_maxsiz, filter_of, login_attr}
use account.Ldap.Owner.{
  Response, Owners, visit, do_search_group_owner, all_values, do_search_by_memberof,
  search_groups_of, do_get_user_group,
}
use account.Ldap.Owner.Sound.{
  IsOwner, own, IsNamed, IsGrant, do_search_group_owner-IsGrant, visit-IsGrant,
}

module _ (user : Bytes → Option (List (Option (List Bytes)))) (owners : Bytes → Option Response)
    (members : Bytes → Option (List Bytes)) (conf : LdapConfig) where
  -- The configured group number `j` is one of the user's, by the attribute memberOf of the entries
  -- that the server has for the name, or by the attribute member of the groups.
  pub data IsGroupOf (name : Bytes) (j : ℕ) : Type 0 where
    by_memberof :
        (es : List (Option (List Bytes))) (g : Bytes)
        → user (filter_of (login_attr conf) name) ≡ some es
        → IsOwner owners (all_values es) g
        → IsNamed g conf.groupdn j
        → IsGroupOf name j
    by_member :
        (g : Bytes)
        → get_elem? conf.groupdn j ≡ some (some g)
        → IsNestedIn members (user_dn conf name) g
        → IsGroupOf name j

  -- An entry is kept, or holds its number, for a group of the user.
  abbrev pub IsRight : Bytes → ℕ → List ℕ → List ℕ → Type 0
  IsRight name j before after =
      (get_elem? after j ≡ get_elem? before j) ⊎ (IsGroupOf name j × (get_elem? after j ≡ some j))

  do_search_by_memberof-IsRight :
      (name : Bytes) (group : List ℕ) (j : ℕ)
      → IsRight name j group (do_search_by_memberof user owners conf name group).1
  unfolding do_search_by_memberof
  do_search_by_memberof-IsRight name group j =
      elim (Option-cases (user (filter_of (login_attr conf) name))) [
        | inl e ↦ rw (do_search_by_memberof, e) (inl refl)
        | inr (es, e) ↦
            let start : Owners = record { grp_hash = []; group = group } in
            let f = do_search_group_owner owners conf.groupdn max_tree_depth in
            let granted : IsGrant owners conf.groupdn (all_values es) j group
                (visit f (all_values es) start).1.group =
              visit-IsGrant owners conf.groupdn (all_values es) f (all_values es) start j (λ v s c.
                do_search_group_owner-IsGrant owners conf.groupdn (all_values es) max_tree_depth v s
                  j (own c)) in
            rw (do_search_by_memberof, e)
              (elim granted [ inl k ↦ inl k | inr (g, o, n, k) ↦ inr (by_memberof es g e o n, k) ])
      ]

  do_search_by_username-IsRight :
      (name : Bytes) (group : List ℕ) (j : ℕ)
      → IsRight name j group (do_search_by_username members conf name group).1
  do_search_by_username-IsRight name group j =
      elim (do_search_by_username-cases members conf name group j) [
        | inl e ↦ inl e
        | inr (g, e, n, k) ↦ inr (by_member g e n, k)
      ]

  IsRight-trans :
      (name : Bytes) (j : ℕ) (a b c : List ℕ)
      → IsRight name j a b
      → IsRight name j b c
      → IsRight name j a c
  IsRight-trans name j a b c (inl e) (inl k) = inl (k ∙ e)
  IsRight-trans name j a b c (inr (g, e)) (inl k) = inr (g, k ∙ e)
  IsRight-trans name j a b c h (inr r) = inr r

  search_groups_of-IsRight :
      (name : Bytes) (group : List ℕ) (j : ℕ)
      → IsRight name j group (search_groups_of user owners members conf name group).1
  unfolding search_groups_of
  search_groups_of-IsRight name group j =
      let first = do_search_by_memberof user owners conf name group in
      elim (Bool-cases (is_success first.0)) [
        | inl e ↦ rw (search_groups_of, e) (do_search_by_memberof-IsRight name group j)
        | inr e ↦
            rw (search_groups_of, e)
              (IsRight-trans name j group first.1
                (do_search_by_username members conf name first.1).1
                (do_search_by_memberof-IsRight name group j)
                (do_search_by_username-IsRight name first.1 j))
      ]

  -- An entry of the array that do_get_user_group changes then holds its own number, the name can be
  -- escaped, and for the name escaped a configured group with this number is a group of the user, by
  -- the attribute memberOf of the user and of the groups above, or by the attribute member of the
  -- configured group and of the groups below.
  pub do_get_user_group-IsGroupOf :
      (username : Bytes) (group : List ℕ) (j : ℕ)
      → (get_elem? (do_get_user_group user owners members conf username group).1 j
          ≡ get_elem? group j)
        ⊎ ((name : Bytes) × (escape_string username ldap_filt_maxsiz ≡ some name)
            × IsGroupOf name j
            × (get_elem? (do_get_user_group user owners members conf username group).1 j ≡ some j))
  unfolding do_get_user_group
  do_get_user_group-IsGroupOf username group j =
      elim (Option-cases (escape_string username ldap_filt_maxsiz)) [
        | inl e ↦ rw (do_get_user_group, e) (inl refl)
        | inr (name, e) ↦ elim (search_groups_of-IsRight name group j) [
          | inl k ↦ rw (do_get_user_group, e) (inl k)
          | inr (g, k) ↦ rw (do_get_user_group, e) (inr (name, refl, g, k))
        ]
      ]
