-- ===== src/Ldap/Privilege/Highest.antt =====
-- The privilege that mscm_ldap_authenticate of libiam/lualib-src/iam_core/ldap_auth.c gives is the
-- highest of the groups.
use account.Base.{
  ℕ, suc, ◌≤◌, ◌≡◌, ◌≢◌, refl, sym, ◌∙◌, ◌⊎◌, inl, inr, List, [], ◌∷◌, arith, ◌==◌, if◌then◌else◌,
  Bool-cases,
}
use mathlib.Core.Path.{subst}
use account.Ldap.{
  LdapRet, success, error, invalid_passwd, unavail, unknown, LdapGroupInfo, LdapAuthInfo,
}
use account.Ldap.Privilege.{
  no_privilege, no_group, Granted, match_group, match_groups, match_id, match_ids, MscmRet, mscm_ok,
  login_fail, grant,
}

-- The order of privileges: no privilege is the least.
abbrev pub rank : ℕ → ℕ
rank p = if p == no_privilege then 0 else suc p

-- A group of the list has the number `i` and the privilege `p`.
abbrev pub HasPriv : ℕ → List LdapGroupInfo → ℕ → Type 0
HasPriv i [] p = ⊥
HasPriv i (g ∷ gs) p = ((g.group_inner_id ≡ suc i) × (g.group_priv ≡ p)) ⊎ HasPriv i gs p

-- So has one with a number that `ids`, from `i` on, names.
abbrev pub HasId : ℕ → List ℕ → List LdapGroupInfo → ℕ → Type 0
HasId i [] gs p = ⊥
HasId i (id ∷ ids) gs p = ((id ≢ no_group) × HasPriv i gs p) ⊎ HasId (suc i) ids gs p

match_group-least :
    (i id : ℕ) (g : LdapGroupInfo) (st : Granted)
    → rank st.privilege ≤ rank (match_group i id g st).privilege
unfolding match_group
match_group-least i id g st = ground arith

match_group-upper :
    (i id : ℕ) (g : LdapGroupInfo) (st : Granted)
    → g.group_inner_id ≡ suc i
    → rank g.group_priv ≤ rank (match_group i id g st).privilege
unfolding match_group
match_group-upper i id g st e = ground arith

match_group-cases :
    (i id : ℕ) (g : LdapGroupInfo) (st : Granted)
    → ((match_group i id g st).privilege ≡ st.privilege)
      ⊎ ((g.group_inner_id ≡ suc i) × (g.group_priv ≡ (match_group i id g st).privilege))
unfolding match_group
match_group-cases i id g st = ground arith

match_groups-least :
    (i id : ℕ) (gs : List LdapGroupInfo) (st : Granted)
    → rank st.privilege ≤ rank (match_groups i id gs st).privilege
unfolding match_groups
match_groups-least i id [] st = omega arith
match_groups-least i id (g ∷ gs) st =
    omega (arith, match_groups-least i id gs (match_group i id g st), match_group-least i id g st)

match_groups-upper :
    (i id p : ℕ) (gs : List LdapGroupInfo) (st : Granted)
    → HasPriv i gs p
    → rank p ≤ rank (match_groups i id gs st).privilege
unfolding match_groups
match_groups-upper i id p [] st h = elim h [ ]
match_groups-upper i id p (g ∷ gs) st (inl (n, e)) =
    let up : rank p ≤ rank (match_group i id g st).privilege =
      rw (sym e) (match_group-upper i id g st n) in
    omega (arith, match_groups-least i id gs (match_group i id g st), up)
match_groups-upper i id p (g ∷ gs) st (inr h) =
    match_groups-upper i id p gs (match_group i id g st) h

match_groups-attained :
    (i id : ℕ) (gs : List LdapGroupInfo) (st : Granted)
    → ((match_groups i id gs st).privilege ≡ st.privilege)
      ⊎ HasPriv i gs (match_groups i id gs st).privilege
unfolding match_groups
match_groups-attained i id [] st = inl refl
match_groups-attained i id (g ∷ gs) st =
    elim (match_groups-attained i id gs (match_group i id g st)) [
      | inr h ↦ inr (inr h)
      | inl e ↦ elim (match_group-cases i id g st) [
        | inl q ↦ inl (e ∙ q)
        | inr (n, q) ↦ inr (inl (n, q ∙ sym e))
      ]
    ]

match_id-least :
    (i id : ℕ) (gs : List LdapGroupInfo) (st : Granted)
    → rank st.privilege ≤ rank (match_id i id gs st).privilege
unfolding match_id
match_id-least i id gs st = elim (Bool-cases (id == no_group)) [
  | inl e ↦ rw e (omega arith)
  | inr e ↦ rw e (match_groups-least i id gs st)
]

match_id-upper :
    (i id p : ℕ) (gs : List LdapGroupInfo) (st : Granted)
    → id ≢ no_group
    → HasPriv i gs p
    → rank p ≤ rank (match_id i id gs st).privilege
unfolding match_id
match_id-upper i id p gs st n h = elim (Bool-cases (id == no_group)) [
  | inl e ↦ ground arith
  | inr e ↦ rw e (match_groups-upper i id p gs st h)
]

match_id-attained :
    (i id : ℕ) (gs : List LdapGroupInfo) (st : Granted)
    → ((match_id i id gs st).privilege ≡ st.privilege)
      ⊎ ((id ≢ no_group) × HasPriv i gs (match_id i id gs st).privilege)
unfolding match_id
match_id-attained i id gs st = elim (Bool-cases (id == no_group)) [
  | inl e ↦ rw e (inl refl)
  | inr e ↦
      rw e
        (elim (match_groups-attained i id gs st) [ inl q ↦ inl q | inr h ↦ inr (ground arith, h) ])
]

match_ids-least :
    (i : ℕ) (ids : List ℕ) (gs : List LdapGroupInfo) (st : Granted)
    → rank st.privilege ≤ rank (match_ids i ids gs st).privilege
unfolding match_ids
match_ids-least i [] gs st = omega arith
match_ids-least i (id ∷ ids) gs st =
    omega (arith, match_ids-least (suc i) ids gs (match_id i id gs st), match_id-least i id gs st)

match_ids-upper :
    (i p : ℕ) (ids : List ℕ) (gs : List LdapGroupInfo) (st : Granted)
    → HasId i ids gs p
    → rank p ≤ rank (match_ids i ids gs st).privilege
unfolding match_ids
match_ids-upper i p [] gs st h = elim h [ ]
match_ids-upper i p (id ∷ ids) gs st (inl (n, h)) =
    omega
      (arith, match_ids-least (suc i) ids gs (match_id i id gs st), match_id-upper i id p gs st n h)
match_ids-upper i p (id ∷ ids) gs st (inr h) =
    match_ids-upper (suc i) p ids gs (match_id i id gs st) h

match_ids-attained :
    (i : ℕ) (ids : List ℕ) (gs : List LdapGroupInfo) (st : Granted)
    → ((match_ids i ids gs st).privilege ≡ st.privilege)
      ⊎ HasId i ids gs (match_ids i ids gs st).privilege
unfolding match_ids
match_ids-attained i [] gs st = inl refl
match_ids-attained i (id ∷ ids) gs st =
    elim (match_ids-attained (suc i) ids gs (match_id i id gs st)) [
      | inr h ↦ inr (inr h)
      | inl e ↦ elim (match_id-attained i id gs st) [
        | inl q ↦ inl (e ∙ q)
        | inr (n, h) ↦ inr (inl (n, subst (HasPriv i gs) (sym e) h))
      ]
    ]

-- What the privilege is for groups with these ids.
abbrev pub IsHighest : List ℕ → List LdapGroupInfo → ℕ → Type 0
IsHighest ids gs p =
    ((q : ℕ) → HasId 0 ids gs q → rank q ≤ rank p) × ((p ≡ no_privilege) ⊎ HasId 0 ids gs p)

-- What mscm_ldap_authenticate leaves, for what ldap_authenticate has answered.
abbrev pub AnswersAs :
    LdapRet × List ℕ → LdapAuthInfo → List ℕ → MscmRet × Granted × LdapAuthInfo → Type 0
AnswersAs (success, ids) info group (ret, granted, left) =
    (ret ≡ mscm_ok) × IsHighest ids info.groups granted.privilege × (left.password ≡ [])
AnswersAs (_, ids) info group (ret, granted, left) =
    (ret ≡ login_fail)
    × (granted.privilege ≡ no_privilege)
    × (granted.group ≡ group)
    × (left ≡ info)

pub grant-AnswersAs :
    (answer : LdapRet × List ℕ) (info : LdapAuthInfo) (group : List ℕ)
    → AnswersAs answer info group (grant answer info group)
unfolding grant
grant-AnswersAs (success, ids) info group =
    let none_yet : Granted = record { privilege = no_privilege; group = group } in
    (
      refl,
      (
        (λ q h. match_ids-upper 0 q ids info.groups none_yet h),
        match_ids-attained 0 ids info.groups none_yet,
      ),
      refl,
    )
grant-AnswersAs (error, ids) info group = (refl, refl, refl, refl)
grant-AnswersAs (invalid_passwd, ids) info group = (refl, refl, refl, refl)
grant-AnswersAs (unavail, ids) info group = (refl, refl, refl, refl)
grant-AnswersAs (unknown, ids) info group = (refl, refl, refl, refl)
