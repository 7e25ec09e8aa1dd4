-- ===== src/Ldap/Bind/Userdn.antt =====
-- The two functions of libiam/lualib-src/iam_core/ldap_auth.c that make the DN of a user.
use account.Base.{◌≡◌, refl, inl, inr, Bytes, Bool-cases}
use account.Clib.Text.{codes}
use account.Ldap.Bind.{
  DnFlag, no_flag, try_uid, start_with_uid, has_tagged, add_prefix_userdn, do_sasl_bind_set_userdn,
}

-- The flag for a base that names the user is the other one.
abbrev pub other : DnFlag → DnFlag
other no_flag = start_with_uid
other try_uid = try_uid
other start_with_uid = no_flag

-- do_sasl_bind_set_userdn makes the same DN as add_prefix_userdn, but where the base holds the name of
-- the user it gives LDAP_USERDN_START_WITH_UID exactly where add_prefix_userdn gives 0, and 0 where
-- that gives LDAP_USERDN_START_WITH_UID.
pub do_sasl_bind_set_userdn-add_prefix_userdn :
    (base username : Bytes)
    → do_sasl_bind_set_userdn base username
      ≡ ((add_prefix_userdn base username).0, other (add_prefix_userdn base username).1)
unfolding do_sasl_bind_set_userdn add_prefix_userdn
do_sasl_bind_set_userdn-add_prefix_userdn base username =
    elim (Bool-cases (has_tagged (codes "CN=") username base)) [
      | inl c ↦ rw c refl
      | inr c ↦ elim (Bool-cases (has_tagged (codes "UID=") username base)) [
        | inl u ↦ rw (c, u) refl
        | inr u ↦ rw (c, u) refl
      ]
    ]
