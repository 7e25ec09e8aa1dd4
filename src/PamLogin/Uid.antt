-- ===== src/PamLogin/Uid.antt =====
-- check_uid_is_local_user of libiam/lualib-src/iam_core/common/common.c.
use account.Base.{
  ℕ, ◌+◌, ◌-◌, ◌≤◌, ◌≡◌, ◌↔◌, ◌⊎◌, Bool, true, false, ◌&&◌, ltb, leb, ◌==◌, if◌then◌else◌, arith,
}

-- IMANA_UID_BASE
abbrev pub imana_uid_base : ℕ
imana_uid_base = 500

unfoldable pub check_uid_is_local_user : ℕ → Bool
check_uid_is_local_user uid =
    if ltb (imana_uid_base + 1) uid && leb uid (imana_uid_base + 17)
    then true
    else if uid == imana_uid_base + 23
    then true
    else if leb (imana_uid_base + 101) uid && leb uid (imana_uid_base + 115)
    then true
    else false

-- The local users are those with the service ids 2 to 17, 23, and 101 to 115, from 500 on.
check_uid_is_local_user_iff :
    (uid : ℕ)
    → (check_uid_is_local_user uid ≡ true) ↔ (
        (id : ℕ) × (uid ≡ 500 + id)
        × (((2 ≤ id) × (id ≤ 17)) ⊎ (id ≡ 23) ⊎ ((101 ≤ id) × (id ≤ 115))))
unfolding check_uid_is_local_user
check_uid_is_local_user_iff uid =
    ((λ h. (uid - 500, ground arith, ground arith)), (λ (id, e, range). ground arith))
