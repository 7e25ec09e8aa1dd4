-- ===== src/PamLogin/Entry/Sound.antt =====
-- Whom the entry points let in.
use mathlib.Core.Path.{subst₂}
use mathlib.Core.Option.{some-injective}
use account.Base.{
  ℕ, ◌-◌, ◌/◌, ◌%◌, ◌^◌, ◌≤◌, ◌≡◌, refl, sym, ◌↔◌, ◌⊎◌, ◌≢◌, inl, inr, Bool, true, false, Option,
  none, some, ◌∷◌, [], arith, Bytes, get_or,
}
use account.Clib.Text.{str_eq, str_eq_iff, starts_with}
use account.User.{IpmiUser}
use account.LoginRule.Check.{Machine, ftp_name, check_user_login_rule}
use account.PamLogin.Args.{ImanaOptions, parse_args}
use account.PamLogin.Check.{
  reserved_root_user_name, admitted, interface_offset, allowed_at, check_user,
  check_user_login_interface,
}
use account.PamLogin.Status.{
  PamRet, success, auth_err, service_err, user_unknown, perm_denied, session_err, minus_one,
  is_success,
}
use account.PamLogin.Uid.{imana_uid_base, check_uid_is_local_user}
use account.PamLogin.Entry.{
  PamCall, GotUid, failed, found, GotUser, refused, got, uid_of, pam_get_uid, get_ipmi_user,
  judge_user, judge_uid, judge_items, pam_sm_authenticate,
}

-- A user passes exactly when the record has the user's name, is enabled, has a privilege from 2 to 4,
-- is not locked or comes by FTP, satisfies the login rules, and, for the root user, the name can be set.
pub check_user_iff :
    (m : Machine) (rule_file : Option Bytes) (set_item : Bool) (user_name tty_name ip_addr : Bytes)
    (u : IpmiUser)
    → (check_user m rule_file set_item user_name tty_name ip_addr u ≡ success) ↔ (
        (u.user_name ≡ user_name)
        × (u.user_enabled ≢ 0)
        × (2 ≤ get_or u.privilege 1 0)
        × (get_or u.privilege 1 0 ≤ 4)
        × ((starts_with ftp_name tty_name ≡ true) ⊎ (u.user_lock_status ≢ 1))
        × (admitted (check_user_login_rule m ip_addr rule_file u tty_name) ≡ true)
        × ((str_eq user_name reserved_root_user_name ≡ false) ⊎ (set_item ≡ true)))
unfolding check_user
check_user_iff m rule_file set_item user_name tty_name ip_addr u =
    let name = str_eq_iff u.user_name user_name in ground arith

allowed_at_iff :
    (interfaces : ℕ) (o : Option ℕ)
    → (allowed_at interfaces o ≡ success)
      ↔ ((o ≡ none) ⊎ ((n : ℕ) × (o ≡ some n) × (interfaces / 2 ^ n % 2 ≡ 1)))
allowed_at_iff interfaces none = (λ h. inl refl, λ h. refl)
allowed_at_iff interfaces (some n) = (
  (λ h. inr (n, refl, ground arith)),
  (λ h. elim h [ inl e ↦ absurd cc | inr (m, e, b) ↦ ground arith ]),
)

-- An interface passes exactly when the user is excluded from the check, or another module checks the
-- device, or the user's bit for the device is set.
check_user_login_interface_iff :
    (u : IpmiUser) (tty_name : Bytes)
    → (check_user_login_interface u tty_name ≡ success) ↔ (
        (u.is_exclude_user ≡ 1)
        ⊎ (interface_offset tty_name ≡ none)
        ⊎ ((o : ℕ) × (interface_offset tty_name ≡ some o)
            × (u.user_login_interface / 2 ^ o % 2 ≡ 1)))
unfolding check_user_login_interface
check_user_login_interface_iff u tty_name =
    let by_device = allowed_at_iff u.user_login_interface (interface_offset tty_name) in
    ground arith

pub is_success_iff : (r : PamRet) → (is_success r ≡ true) ↔ (r ≡ success)
is_success_iff success = (λ _. refl, λ _. refl)
is_success_iff auth_err = ((λ h. cc), (λ h. cc))
is_success_iff service_err = ((λ h. cc), (λ h. cc))
is_success_iff user_unknown = ((λ h. cc), (λ h. cc))
is_success_iff perm_denied = ((λ h. cc), (λ h. cc))
is_success_iff session_err = ((λ h. cc), (λ h. cc))
is_success_iff minus_one = ((λ h. cc), (λ h. cc))

module _ (call : PamCall) where
  -- A user is read, and passes.
  abbrev pub UserPasses : Bytes → Bytes → Bytes → GotUser → Type 0
  UserPasses tty rhost name g =
      (u : IpmiUser) × (g ≡ got u)
      × (check_user call.machine call.rule_file call.set_item name tty rhost u ≡ success)

  judge_user_iff :
      (tty rhost name : Bytes) (g : GotUser)
      → (judge_user call tty rhost name g ≡ success) ↔ UserPasses tty rhost name g
  judge_user_iff tty rhost name (refused rv) = ((λ h. cc), (λ (u, e, p). cc))
  judge_user_iff tty rhost name (got u) =
      let s =
        is_success_iff (check_user call.machine call.rule_file call.set_item name tty rhost u) in
      (
        (λ h. (u, refl, ground arith)),
        (λ (v, e, p).
            let same : check_user call.machine call.rule_file call.set_item name tty rhost u
                ≡ success =
              cc in
            ground arith),
      )

  -- The uid is not local, or its user is read and passes; without a uid, errors are not to count.
  abbrev pub UidPasses : ImanaOptions → Bytes → Bytes → GotUid → Type 0
  UidPasses opts tty rhost (failed rv) = opts.opt_fail_on_error ≡ false
  UidPasses opts tty rhost (found uid name) =
      (check_uid_is_local_user uid ≡ false)
      ⊎ UserPasses tty rhost name
          (get_ipmi_user call.errno_set call.file opts (uid - imana_uid_base))

  -- pam_get_uid fails with an error.
  abbrev pub IsError : GotUid → Type 0
  IsError (failed rv) = rv ≢ success
  IsError (found uid name) = Unit

  pub pam_get_uid-IsError : (user : Option Bytes) → IsError (pam_get_uid call.passwd user)
  unfolding pam_get_uid
  pam_get_uid-IsError none = λ h. cc
  pam_get_uid-IsError (some []) = λ h. cc
  pam_get_uid-IsError (some (c ∷ s)) = of_name _ (call.passwd _)
    where
      of_name : (name : Bytes) (o : Option ℕ) → IsError (uid_of name o)
      of_name name none = λ h. cc
      of_name name (some uid) = tt

  judge_uid_iff :
      (opts : ImanaOptions) (tty rhost : Bytes) (g : GotUid)
      → IsError g
      → (judge_uid call opts tty rhost g ≡ success) ↔ UidPasses opts tty rhost g
  judge_uid_iff opts tty rhost (failed rv) ne = ground arith
  judge_uid_iff opts tty rhost (found uid name) ne =
      let j =
        judge_user_iff tty rhost name
          (get_ipmi_user call.errno_set call.file opts (uid - imana_uid_base)) in
      ground arith

  -- Both items are there, and the uid passes.
  abbrev pub ItemsPass : ImanaOptions → Option Bytes → Option Bytes → Type 0
  ItemsPass opts r t =
      (rhost : Bytes) × (tty : Bytes) × (r ≡ some rhost)
      × (t ≡ some tty)
      × UidPasses opts tty rhost (pam_get_uid call.passwd call.user)

  judge_items_iff :
      (opts : ImanaOptions) (r t : Option Bytes)
      → (judge_items call opts r t ≡ success) ↔ ItemsPass opts r t
  judge_items_iff opts none t = ((λ h. cc), (λ (rhost, tty, e, f, p). cc))
  judge_items_iff opts (some rhost) none = ((λ h. cc), (λ (r, tty, e, f, p). cc))
  judge_items_iff opts (some rhost) (some tty) =
      let j =
        judge_uid_iff opts tty rhost (pam_get_uid call.passwd call.user)
          (pam_get_uid-IsError call.user) in
      (
        (λ h. (rhost, tty, refl, refl, j.0 h)),
        (λ (r, t, e, f, p).
            let same : UidPasses opts tty rhost (pam_get_uid call.passwd call.user) =
              subst₂ (λ x y. UidPasses opts x y (pam_get_uid call.passwd call.user))
                (sym (some-injective _ _ f)) (sym (some-injective _ _ e)) p in
            j.1 same),
      )

  -- `pam_sm_authenticate` succeeds exactly when the arguments can be parsed, the remote host and the
  -- terminal are known, and the user has a uid that is not local, or a local one whose record is read
  -- and passes `check_user`. With "onerr=succeed" it also succeeds where the arguments cannot be parsed,
  -- and where the user has no uid.
  pub pam_sm_authenticate_iff : (pam_sm_authenticate call ≡ success) ↔ (
      (((parse_args call.argv).0 ≢ success) × ((parse_args call.argv).1.opt_fail_on_error ≡ false))
      ⊎ (((parse_args call.argv).0 ≡ success)
          × ItemsPass (parse_args call.argv).1 call.rhost call.tty))
  unfolding pam_sm_authenticate
  pam_sm_authenticate_iff =
      let parsed = is_success_iff (parse_args call.argv).0 in
      let items = judge_items_iff (parse_args call.argv).1 call.rhost call.tty in ground arith
