-- ===== src/Ldap/Search/Complete.antt =====
-- The search of do_search_user_group of libiam/lualib-src/iam_core/ldap_auth.c in a small directory.
use account.Base.{
  ℕ, zero, suc, ◌+◌, ◌-◌, ◌≤◌, ◌<◌, ◌≡◌, sym, ◌∙◌, ◌↔◌, inl, inr, true, false, Option, some, List,
  [], ◌∷◌, length, arith, Bytes, Bool-cases,
}
use mathlib.Core.Path.{subst}
use mathlib.Core.Option.{some-injective}
use account.Clib.Text.{str_eq, str_eq_iff}
use account.Ldap.{LdapRet, is_success}
use account.Ldap.Search.{contains, check_hash, is_member, do_search_user_group, max_tree_depth}
use account.Ldap.Search.Missing.{
  missing, missing-nil, missing_less, contains_iff, not_in_nil, not_in_cons, not_in_empty,
}
use account.Ldap.Search.Sound.{
  contains_head, contains_later, IsNestedIn, direct, inside, do_search_user_group-IsNestedIn,
}
use account.Ldap.Search.Steps.{
  Each, ended, hit, miss, Search, refused, unanswered, has_user, deeper,
  do_search_user_group-Search,
}
use account.Ldap.Search.Table.{
  check_hash-lets, check_hash-passes, Each-keeps, do_search_user_group-keeps,
}

module _ (members : Bytes → Option (List Bytes)) (userdn : Bytes) (names : List Bytes) where
  -- The group is not the user's, and all its members are in the table.
  abbrev IsDone : List Bytes → Bytes → Type 0
  IsDone table g =
      (ms : List Bytes)
      → members g ≡ some ms
      → (is_member userdn ms ≡ false)
        × ((m : Bytes) → contains ms m ≡ true → contains table m ≡ true)

  abbrev IsCovered : List Bytes → List Bytes → Type 0
  IsCovered before after =
      (x : Bytes) → contains after x ≡ true → contains before x ≡ false → IsDone after x

  -- With `left` levels left, neither limit is reached.
  abbrev HasRoom : ℕ → List Bytes → Type 0
  HasRoom left table =
      (length table + missing names table ≤ max_tree_depth) × (missing names table < left)

  abbrev IsClosed : Type 0
  IsClosed =
      (g m : Bytes) (ms : List Bytes)
      → contains names g ≡ true
      → members g ≡ some ms
      → contains ms m ≡ true
      → contains names m ≡ true

  do_search_user_group-grows :
      (left : ℕ) (g x : Bytes) (table : List Bytes)
      → contains table x ≡ true
      → contains (do_search_user_group members userdn left g table).1 x ≡ true
  do_search_user_group-grows left g x table =
      do_search_user_group-keeps members userdn (λ _. Unit) (λ t. contains t x ≡ true)
        (λ _ _ _ _ _ _. tt) (λ g t _ _ _. contains_later g x t) left g table tt

  Each-grows :
      (left : ℕ) {ms table : List Bytes} {end : LdapRet × List Bytes}
      → Each (do_search_user_group members userdn left) ms table end
      → (x : Bytes) → contains table x ≡ true
      → contains end.1 x ≡ true
  Each-grows left r x =
      Each-keeps (λ t. contains t x ≡ true) (λ m t _. do_search_user_group-grows left m x t) r

  refused_full :
      (table : List Bytes) (g : Bytes) (left : ℕ)
      → check_hash table g (max_tree_depth - left) ≡ false
      → contains table g ≡ false
      → ¬ (length table + missing names table ≤ max_tree_depth)
  refused_full table g left c k room =
      ground (arith, check_hash-lets table g (max_tree_depth - left) (omega arith) k (omega arith))

  HasRoom-added :
      (left : ℕ) (g : Bytes) (t : List Bytes)
      → contains names g ≡ true
      → contains t g ≡ false
      → HasRoom (suc left) t
      → HasRoom left (g ∷ t)
  HasRoom-added left g t p c h = ground (arith, missing_less names g t p c)

  HasRoom-after :
      (closed : IsClosed) (left level : ℕ) (g : Bytes) (t : List Bytes)
      → contains names g ≡ true
      → HasRoom left t
      → HasRoom left (do_search_user_group members userdn level g t).1
  HasRoom-after closed left level =
      do_search_user_group-keeps members userdn (λ g. contains names g ≡ true) (HasRoom left) closed
        (λ g t p _ c h. ground (arith, missing_less names g t p c)) level

  -- What a search with `left` levels that does not find the user leaves behind.
  abbrev IsThorough : ℕ → Type 0
  IsThorough left =
      (g : Bytes) (t : List Bytes)
      → contains names g ≡ true
      → HasRoom left t
      → is_success (do_search_user_group members userdn left g t).0 ≡ false
      → (contains (do_search_user_group members userdn left g t).1 g ≡ true)
        × IsCovered t (do_search_user_group members userdn left g t).1

  IsCovered-refl : (t : List Bytes) → IsCovered t t
  IsCovered-refl t x h n = cc

  IsCovered-trans :
      (t u v : List Bytes)
      → ((x : Bytes) → contains u x ≡ true → contains v x ≡ true)
      → IsCovered t u
      → IsCovered u v
      → IsCovered t v
  IsCovered-trans t u v grow a b x h n = elim (Bool-cases (contains u x)) [
    | inr k ↦ b x h k
    | inl k ↦ λ ms e. let (d, all) = a x k n ms e in (d, λ m c. grow m (all m c))
  ]

  Each-IsThorough :
      (closed : IsClosed) (left : ℕ)
      → IsThorough left
      → {ms table : List Bytes} {end : LdapRet × List Bytes}
      → Each (do_search_user_group members userdn left) ms table end
      → ((m : Bytes) → contains ms m ≡ true → contains names m ≡ true)
      → HasRoom left table
      → is_success end.0 ≡ false
      → ((m : Bytes) → contains ms m ≡ true → contains end.1 m ≡ true) × IsCovered table end.1
  Each-IsThorough closed left deep (ended table) p room h =
      ((λ m c. not_in_nil m c), IsCovered-refl table)
  Each-IsThorough closed left deep (hit m ms table e) p room h = cc
  Each-IsThorough closed left deep (miss m ms table {end} e r) p room h =
      let pm = p m (contains_head m ms) in
      let (found, before) = deep m table pm room e in
      let (all, after) =
        Each-IsThorough closed left deep r (λ x c. p x (contains_later m x ms c))
          (HasRoom-after closed left left m table pm room) h in
      let grow = Each-grows left r in
      (
        (λ x c. elim (contains_iff m x ms c) [
          | inl q ↦ grow x (rw (sym q) found)
          | inr k ↦ all x k
        ]),
        IsCovered-trans table (do_search_user_group members userdn left m table).1 end.1 grow before
            after,
      )

  IsDone-found :
      (t : List Bytes) (g : Bytes) (ms : List Bytes)
      → members g ≡ some ms
      → is_member userdn ms ≡ false
      → ((m : Bytes) → contains ms m ≡ true → contains t m ≡ true)
      → IsDone t g
  IsDone-found t g ms e u all ms2 q =
      subst
        (λ l.
          (is_member userdn l ≡ false) × ((m : Bytes) → contains l m ≡ true → contains t m ≡ true))
        (some-injective ms ms2 (sym e ∙ q)) (u, all)

  -- The table after a whole group.
  IsCovered-group :
      (g : Bytes) (t u : List Bytes) → IsDone u g → IsCovered (g ∷ t) u → IsCovered t u
  IsCovered-group g t u done c x h n = elim (Bool-cases (str_eq g x)) [
    | inl e ↦ subst (IsDone u) ((str_eq_iff g x).0 e) done
    | inr e ↦ c x h (not_in_cons g x t e n)
  ]

  Search-IsThorough :
      (closed : IsClosed) (left : ℕ)
      → IsThorough left
      → {g : Bytes} {table : List Bytes} {end : LdapRet × List Bytes}
      → Search members userdn left g table end
      → contains names g ≡ true
      → HasRoom (suc left) table
      → is_success end.0 ≡ false
      → (contains end.1 g ≡ true) × IsCovered table end.1
  Search-IsThorough closed left deep {g} {table} (refused c) p room h =
      elim (Bool-cases (contains table g)) [
        | inl k ↦ (k, IsCovered-refl table)
        | inr k ↦ absurd (refused_full table g left c k room.0)
      ]
  Search-IsThorough closed left deep {g} {table} (unanswered c e) p room h = (
    contains_head g table,
    IsCovered-group g table (g ∷ table) (λ ms q. cc) (IsCovered-refl (g ∷ table)),
  )
  Search-IsThorough closed left deep (has_user ms c e u) p room h = cc
  Search-IsThorough closed left deep {g} {table} (deeper ms {end} c e u r) p room h =
      let n = (check_hash-passes table g (max_tree_depth - left) c).1 in
      let (all, after) =
        Each-IsThorough closed left deep r (λ m k. closed g m ms p e k)
          (HasRoom-added left g table p n room) h in
      (
        Each-grows left r g (contains_head g table),
        IsCovered-group g table end.1 (IsDone-found end.1 g ms e u all) after,
      )

  do_search_user_group-IsThorough : (closed : IsClosed) (left : ℕ) → IsThorough left
  do_search_user_group-IsThorough closed zero g t p room h = absurd (omega (arith, room.1))
  do_search_user_group-IsThorough closed (suc left) g t p room h =
      Search-IsThorough closed left (do_search_user_group-IsThorough closed left)
        (do_search_user_group-Search members userdn left g t) p room h

  covered-not-IsNestedIn :
      (t : List Bytes)
      → IsCovered [] t
      → (g : Bytes) → IsNestedIn members userdn g
      → ¬ (contains t g ≡ true)
  covered-not-IsNestedIn t c g (direct {ms} e u) k =
      let (out, all) = c g k (not_in_empty g) ms e in cc
  covered-not-IsNestedIn t c g (inside {m} {ms} e i r) k =
      let (out, all) = c g k (not_in_empty g) ms e in covered-not-IsNestedIn t c m r (all m i)

  -- In a directory where the members of the groups with given names, 50 at most, have such names too,
  -- do_search_user_group, on a group with such a name and at the first level, succeeds exactly when
  -- the user is a member of the group, or of a group that is a member of it, at any depth.
  pub do_search_user_group_iff :
      IsClosed
      → length names ≤ max_tree_depth
      → (g : Bytes) → contains names g ≡ true
      → (is_success (do_search_user_group members userdn (suc max_tree_depth) g []).0 ≡ true)
        ↔ IsNestedIn members userdn g
  do_search_user_group_iff closed small g p = (
    do_search_user_group-IsNestedIn members userdn (suc max_tree_depth) g [],
    λ i.
        elim (Bool-cases
          (is_success (do_search_user_group members userdn (suc max_tree_depth) g []).0)) [
            | inl e ↦ e
            | inr e ↦
                let (found, covered) =
                  do_search_user_group-IsThorough closed (suc max_tree_depth) g [] p
                    (omega (arith, missing-nil names), omega (arith, missing-nil names)) e in
                absurd (covered-not-IsNestedIn _ covered g i found)
          ],
  )
