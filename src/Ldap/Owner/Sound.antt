-- ===== src/Ldap/Owner/Sound.antt =====
-- What do_search_by_memberof and do_get_user_group of libiam/lualib-src/iam_core/ldap_auth.c leave in
-- the array of groups.
use account.Base.{
  ℕ, zero, suc, ◌+◌, ◌-◌, ◌≡◌, refl, sym, ap, ◌∙◌, ◌⊎◌, inl, inr, Bool, true, false, Option, some,
  List, [], ◌∷◌, arith, Bytes, Bool-cases, Option-cases, get_elem?, set, if◌then◌else◌,
}
use account.Status.{is_ok}
use account.Ldap.{LdapRet}
use account.Ldap.Compare.{compare_ldap_sentence_without_tag}
use account.Ldap.Search.{contains, max_tree_depth, check_hash}
use account.Ldap.Search.Groups.{set-cases}
use account.Ldap.Search.Sound.{contains_head, contains_later}
use account.Ldap.Owner.{Response, values, Owners, mark_groups, visit, do_search_group_owner}

-- A group that the entries of the user name, or that a group of the user is a member of, at any depth.
pub data IsOwner (owners : Bytes → Option Response) (start : List Bytes) : Bytes → Type 0 where
  own : {g : Bytes} → contains start g ≡ true → IsOwner owners start g
  above :
      {g m : Bytes} {r : Response}
      → IsOwner owners start g
      → owners g ≡ some r
      → contains (values r) m ≡ true
      → IsOwner owners start m

-- The configured group number `j` is `g`, but for the case of the tags.
abbrev pub IsNamed : Bytes → List (Option Bytes) → ℕ → Type 0
IsNamed g dns j =
    (dn : Option Bytes) × (get_elem? dns j ≡ some dn)
    × (is_ok (compare_ldap_sentence_without_tag (some g) dn) ≡ true)

-- The write of one turn.
mark-cases :
    (b : Bool) (group : List ℕ) (i j : ℕ)
    → (get_elem? (if b then set group i i else group) j ≡ get_elem? group j)
      ⊎ ((b ≡ true) × (j ≡ i) × (get_elem? (if b then set group i i else group) j ≡ some i))
mark-cases true group i j = elim (set-cases group i i j) [
  | inl e ↦ inl e
  | inr (q, e) ↦ inr (refl, q, e)
]
mark-cases false group i j = inl refl

mark_groups-cases :
    (g : Bytes) (i : ℕ) (dns : List (Option Bytes)) (group : List ℕ) (j : ℕ)
    → (get_elem? (mark_groups g i dns group) j ≡ get_elem? group j)
      ⊎ ((k : ℕ) × (j ≡ i + k)
          × IsNamed g dns k
          × (get_elem? (mark_groups g i dns group) j ≡ some j))
unfolding mark_groups
mark_groups-cases g i [] group j = inl refl
mark_groups-cases g i (dn ∷ dns) group j =
    let b = is_ok (compare_ldap_sentence_without_tag (some g) dn) in
    elim (mark_groups-cases g (suc i) dns (if b then set group i i else group) j) [
      | inr (k, q, n, e) ↦ inr (suc k, omega (arith, q), n, e)
      | inl keep ↦ elim (mark-cases b group i j) [
        | inl e ↦ inl (keep ∙ e)
        | inr (m, q, e) ↦ inr (0, omega (arith, q), (dn, refl, m), keep ∙ (e ∙ ap some (sym q)))
      ]
    ]

module _ (owners : Bytes → Option Response) (groupdn : List (Option Bytes))
    (start : List Bytes) where
  -- An entry of the array is kept, or it becomes its own number, for a group of the user.
  abbrev pub IsGrant : ℕ → List ℕ → List ℕ → Type 0
  IsGrant j before after =
      (get_elem? after j ≡ get_elem? before j)
      ⊎ ((g : Bytes) × IsOwner owners start g × IsNamed g groupdn j × (get_elem? after j ≡ some j))

  IsGrant-trans : (j : ℕ) (a b c : List ℕ) → IsGrant j a b → IsGrant j b c → IsGrant j a c
  IsGrant-trans j a b c (inl e) (inl k) = inl (k ∙ e)
  IsGrant-trans j a b c (inr (g, o, n, e)) (inl k) = inr (g, o, n, k ∙ e)
  IsGrant-trans j a b c h (inr r) = inr r

  mark_groups-IsGrant :
      (g : Bytes) (group : List ℕ) (j : ℕ)
      → IsOwner owners start g
      → IsGrant j group (mark_groups g 0 groupdn group)
  mark_groups-IsGrant g group j o = elim (mark_groups-cases g 0 groupdn group j) [
    | inl e ↦ inl e
    | inr (k, q, n, e) ↦ let same : j ≡ k = omega (arith, q) in inr (g, o, rw same n, e)
  ]

  pub visit-IsGrant :
      (f : Bytes → Owners → LdapRet × Owners) (vs : List Bytes) (st : Owners) (j : ℕ)
      → ((v : Bytes) (s : Owners) → contains vs v ≡ true → IsGrant j s.group (f v s).1.group)
      → IsGrant j st.group (visit f vs st).1.group
  unfolding visit
  visit-IsGrant f [] st j h = inl refl
  visit-IsGrant f (v ∷ vs) st j h =
      IsGrant-trans j st.group (f v st).1.group (visit f vs (f v st).1).1.group
        (h v st (contains_head v vs))
        (visit-IsGrant f vs (f v st).1 j (λ x s c. h x s (contains_later v x vs c)))

  pub do_search_group_owner-IsGrant :
      (left : ℕ) (g : Bytes) (st : Owners) (j : ℕ)
      → IsOwner owners start g
      → IsGrant j st.group (do_search_group_owner owners groupdn left g st).1.group
  unfolding do_search_group_owner
  do_search_group_owner-IsGrant zero g st j o = inl refl
  do_search_group_owner-IsGrant (suc left) g st j o =
      elim (Bool-cases (check_hash st.grp_hash g (max_tree_depth - left))) [
        | inr c ↦ rw (do_search_group_owner, c) (inl refl)
        | inl c ↦ elim (Option-cases (owners g)) [
          | inl e ↦ rw (do_search_group_owner, c, e) (mark_groups-IsGrant g st.group j o)
          | inr (r, e) ↦
              let st1 : Owners = record {
                grp_hash = g ∷ st.grp_hash;
                group = mark_groups g 0 groupdn st.group;
              } in
              rw (do_search_group_owner, c, e)
                (IsGrant-trans j st.group st1.group
                  (visit (do_search_group_owner owners groupdn left) (values r) st1).1.group
                  (mark_groups-IsGrant g st.group j o)
                  (visit-IsGrant (do_search_group_owner owners groupdn left) (values r) st1 j
                    (λ v s k. do_search_group_owner-IsGrant left v s j (above o e k))))
        ]
      ]
