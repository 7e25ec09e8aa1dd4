-- ===== src/Ldap/Search/Missing.antt =====
-- The names that the table of do_search_user_group, of libiam/lualib-src/iam_core/ldap_auth.c, does
-- not hold yet.
use account.Base.{
  ℕ, suc, ◌≤◌, ◌<◌, ◌≡◌, refl, sym, ◌⊎◌, inl, inr, true, false, List, [], ◌∷◌, length, arith, Bytes,
  Bool-cases,
}
use account.Clib.Text.{str_eq, str_eq_iff}
use account.Ldap.Search.{contains}

-- How many names of a list are not in the table.
unfoldable pub missing : List Bytes → List Bytes → ℕ
missing [] table = 0
missing (u ∷ us) table =
    let rest = missing us table in elim (contains table u) [ true ↦ rest | false ↦ suc rest ]

pub missing-nil : (us : List Bytes) → missing us [] ≡ length us
unfolding missing contains
missing-nil [] = refl
missing-nil (u ∷ us) = ground (arith, missing-nil us)

pub missing_added :
    (us : List Bytes) (g : Bytes) (t : List Bytes) → missing us (g ∷ t) ≤ missing us t
unfolding missing contains
missing_added [] g t = omega arith
missing_added (u ∷ us) g t = ground (arith, missing_added us g t)

pub contains_iff :
    (u g : Bytes) (us : List Bytes) → contains (u ∷ us) g ≡ true → (u ≡ g) ⊎ (contains us g ≡ true)
unfolding contains
contains_iff u g us h = elim (Bool-cases (str_eq u g)) [
  | inl e ↦ inl ((str_eq_iff u g).0 e)
  | inr e ↦ inr (ground arith)
]

missing_found : (u g : Bytes) (t : List Bytes) → u ≡ g → contains t g ≡ false → contains t u ≡ false
missing_found u g t e c = rw e c

pub missing_less :
    (us : List Bytes) (g : Bytes) (t : List Bytes)
    → contains us g ≡ true
    → contains t g ≡ false
    → missing us (g ∷ t) < missing us t
unfolding missing contains
missing_less [] g t h c = cc
missing_less (u ∷ us) g t h c = elim (contains_iff u g us h) [
  | inl e ↦
      ground (arith, (str_eq_iff g u).1 (sym e), missing_found u g t e c, missing_added us g t)
  | inr k ↦ ground (arith, missing_less us g t k c)
]

pub not_in_nil : {P : Type 0} (m : Bytes) → contains [] m ≡ true → P
unfolding contains
not_in_nil m h = cc

pub not_in_cons :
    (g x : Bytes) (t : List Bytes)
    → str_eq g x ≡ false
    → contains t x ≡ false
    → contains (g ∷ t) x ≡ false
unfolding contains
not_in_cons g x t e n = ground arith

pub not_in_empty : (x : Bytes) → contains [] x ≡ false
unfolding contains
not_in_empty x = refl
