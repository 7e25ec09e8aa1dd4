-- ===== src/Ldap/Config/Groupdn.antt =====
-- Which DN read_groupdn of libiam/lualib-src/iam_core/ldap_auth_parse_info.c stores for a group.
use account.Base.{
  ℕ, suc, ◌+◌, ◌-◌, ◌%◌, ◌^◌, ◌≤◌, ◌<◌, ◌≡◌, ◌≢◌, refl, ◌∙◌, Option, some, List, [], ◌∷◌, ◌++◌,
  arith, All, Bytes, length, get_elem?, get_elem?-set_self, get_elem?-set_ne, length-set,
}
use account.Ldap.{LdapGroupInfo, LdapAuthInfo}
use account.Ldap.Config.{group_dn, read_groupdn_from}

place : (id j : ℕ) → id ≡ suc j → j < 255 → (id + (2 ^ 8 - 1)) % 2 ^ 8 ≡ j
place id j e h = omega arith

other_place : (id j : ℕ) → 1 ≤ id → id < 256 → id ≢ suc j → (id + (2 ^ 8 - 1)) % 2 ^ 8 ≢ j
other_place id j l h n = omega arith

-- The groups have ids from 1 on, other than that of place `j`.
abbrev pub IsElsewhere : ℕ → LdapGroupInfo → Type 0
IsElsewhere j g = (1 ≤ g.group_inner_id) × (g.group_inner_id < 256) × (g.group_inner_id ≢ suc j)

keeps :
    (info : LdapAuthInfo) (gs : List LdapGroupInfo) (groupdn : List (Option Bytes)) (j : ℕ)
    → All (IsElsewhere j) gs
    → get_elem? (read_groupdn_from info gs groupdn) j ≡ get_elem? groupdn j
unfolding read_groupdn_from
keeps info [] groupdn j h = refl
keeps info (g ∷ gs) groupdn j h =
    keeps info gs _ j h.1
    ∙ get_elem?-set_ne groupdn _ j (some (group_dn info g))
        (other_place g.group_inner_id j h.0.0 h.0.1 h.0.2)

-- For ids from 1 to 255, the last of the groups with one id gives the DN of its place, whatever groups
-- stand before it.
pub read_groupdn_from-last :
    (info : LdapAuthInfo) (before after : List LdapGroupInfo) (g : LdapGroupInfo)
    (groupdn : List (Option Bytes)) (j : ℕ)
    → g.group_inner_id ≡ suc j
    → j < length groupdn
    → j < 255
    → All (IsElsewhere j) after
    → get_elem? (read_groupdn_from info (before ++ (g ∷ after)) groupdn) j
      ≡ some (some (group_dn info g))
unfolding read_groupdn_from
read_groupdn_from-last info [] after g groupdn j e l b h =
    keeps info after _ j h
    ∙ (rw (place g.group_inner_id j e b) (get_elem?-set_self groupdn j (some (group_dn info g)) l))
read_groupdn_from-last info (x ∷ before) after g groupdn j e l b h =
    read_groupdn_from-last info before after g _ j e
      (omega (
        arith,
        l,
        length-set groupdn ((x.group_inner_id + (2 ^ 8 - 1)) % 2 ^ 8) (some (group_dn info x)),
      ))
      b h
