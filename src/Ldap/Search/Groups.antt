-- ===== src/Ldap/Search/Groups.antt =====
-- What do_search_by_username of libiam/lualib-src/iam_core/ldap_auth.c leaves in the array of groups.
use account.Base.{
  ℕ, zero, suc, ◌+◌, ◌≡◌, refl, sym, ap, ◌∙◌, ◌⊎◌, inl, inr, true, false, ◌&&◌, Option, none, some,
  List, [], ◌∷◌, arith, Bytes, Bool-cases, get_elem?, set, &&-eq-true,
}
use mathlib.Core.Path.{subst}
use account.Ldap.{is_success, LdapConfig}
use account.Ldap.Search.{
  contains, do_search_user_group, max_tree_depth, Found, search_group, search_groups,
  do_search_by_username, user_dn,
}
use account.Ldap.Search.Missing.{contains_iff, not_in_nil}
use account.Ldap.Search.Sound.{IsNestedIn, do_search_user_group-IsNestedIn}

-- A write keeps an entry, or it writes this entry.
pub set-cases :
    (group : List ℕ) (k v j : ℕ)
    → (get_elem? (set group k v) j ≡ get_elem? group j)
      ⊎ ((j ≡ k) × (get_elem? (set group k v) j ≡ some v))
set-cases [] k v j = inl refl
set-cases (x ∷ group) zero v zero = inr (omega arith, refl)
set-cases (x ∷ group) zero v (suc j) = inl refl
set-cases (x ∷ group) (suc k) v zero = inl refl
set-cases (x ∷ group) (suc k) v (suc j) = elim (set-cases group k v j) [
  | inl e ↦ inl e
  | inr (q, e) ↦ inr (omega (arith, q), e)
]

module _ (members : Bytes → Option (List Bytes)) (userdn : Bytes) where
  -- Every group that is noted as found is one of the user's.
  abbrev IsSound : Found → Type 0
  IsSound st = (x : Bytes) → contains st.grp_found_hash x ≡ true → IsNestedIn members userdn x

  search_group-cases :
      (k : ℕ) (dn : Option Bytes) (st : Found)
      → IsSound st
      → IsSound (search_group members userdn k dn st)
        × ((search_group members userdn k dn st).group ≡ st.group
            ⊎ ((g : Bytes) × (dn ≡ some g)
                × IsNestedIn members userdn g
                × ((search_group members userdn k dn st).group ≡ set st.group k k)))
  unfolding search_group
  search_group-cases k none st h = (h, inl refl)
  search_group-cases k (some g) st h =
      elim (Bool-cases (contains st.find_grp_hash g && contains st.grp_found_hash g)) [
        | inl e ↦ rw e (h, inr (g, refl, h g ((&&-eq-true _ _).0 e).1, refl))
        | inr e ↦
            elim (Bool-cases (
              is_success
                (do_search_user_group members userdn (suc max_tree_depth) g st.find_grp_hash).0)) [
                  | inl s ↦
                      let n =
                        do_search_user_group-IsNestedIn members userdn (suc max_tree_depth) g
                          st.find_grp_hash s in
                      rw (e, s)
                        (
                          (λ x c. elim (contains_iff g x st.grp_found_hash c) [
                            | inl q ↦ subst (IsNestedIn members userdn) q n
                            | inr d ↦ h x d
                          ]),
                          inr (g, refl, n, refl),
                        )
                  | inr s ↦ rw (e, s) (h, inl refl)
                ]
      ]

  search_groups-cases :
      (k : ℕ) (dns : List (Option Bytes)) (st : Found) (j : ℕ)
      → IsSound st
      → (get_elem? (search_groups members userdn k dns st).group j ≡ get_elem? st.group j)
        ⊎ ((i : ℕ) × (g : Bytes) × (j ≡ k + i)
            × (get_elem? dns i ≡ some (some g))
            × IsNestedIn members userdn g
            × (get_elem? (search_groups members userdn k dns st).group j ≡ some j))
  unfolding search_groups
  search_groups-cases k [] st j h = inl refl
  search_groups-cases k (dn ∷ dns) st j h =
      let (sound, step) = search_group-cases k dn st h in
      elim (search_groups-cases (suc k) dns (search_group members userdn k dn st) j sound) [
        | inr (i, g, q, e, n, o) ↦ inr (suc i, g, omega (arith, q), e, n, o)
        | inl keep ↦ elim step [
          | inl same ↦ inl (keep ∙ ap (λ l. get_elem? l j) same)
          | inr (g, d, n, written) ↦ elim (set-cases st.group k k j) [
            | inl e ↦ inl (keep ∙ (ap (λ l. get_elem? l j) written ∙ e))
            | inr (q, e) ↦ inr (
              0,
              g,
              omega (arith, q),
              ap some d,
              n,
              keep ∙ (ap (λ l. get_elem? l j) written ∙ (e ∙ ap some (sym q))),
            )
          ]
        ]
      ]

abbrev start : List ℕ → Found
start group = record { find_grp_hash = []; grp_found_hash = []; group = group; flag = false }

do_search_by_username-group :
    (members : Bytes → Option (List Bytes)) (conf : LdapConfig) (username : Bytes) (group : List ℕ)
    → (do_search_by_username members conf username group).1
      ≡ (search_groups members (user_dn conf username) 0 conf.groupdn (start group)).group
unfolding do_search_by_username
do_search_by_username-group members conf username group =
    elim (Bool-cases
      (search_groups members (user_dn conf username) 0 conf.groupdn (start group)).flag) [
        | inl e ↦ rw (do_search_by_username, e) refl
        | inr e ↦ rw (do_search_by_username, e) refl
      ]

-- An entry of the array that do_search_by_username changes holds its own number, a group is
-- configured under this number, and the user is a member of this group, or of a group that is a member
-- of it, at any depth.
pub do_search_by_username-cases :
    (members : Bytes → Option (List Bytes)) (conf : LdapConfig) (username : Bytes) (group : List ℕ)
    (j : ℕ)
    → (get_elem? (do_search_by_username members conf username group).1 j ≡ get_elem? group j)
      ⊎ ((g : Bytes) × (get_elem? conf.groupdn j ≡ some (some g))
          × IsNestedIn members (user_dn conf username) g
          × (get_elem? (do_search_by_username members conf username group).1 j ≡ some j))
do_search_by_username-cases members conf username group j =
    let whole = ap (λ l. get_elem? l j) (do_search_by_username-group members conf username group) in
    elim (search_groups-cases members (user_dn conf username) 0 conf.groupdn (start group) j
      (λ x c. not_in_nil x c)) [
        | inl e ↦ inl (whole ∙ e)
        | inr (i, g, q, e, n, o) ↦
            let same : j ≡ i = omega (arith, q) in inr (g, rw same e, n, whole ∙ o)
      ]
