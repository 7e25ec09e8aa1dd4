-- ===== src/PamLogin/Entry/Account.antt =====
-- Whom pam_sm_acct_mgmt lets in.
use mathlib.Core.Path.{subst}
use mathlib.Core.Option.{some-injective}
use account.Base.{
  ℕ, ◌-◌, ◌≤◌, ◌<◌, [], ◌∷◌, ltb, ltb→lt, inl, inr, length, Bool-cases, ◌≡◌, refl, sym, ◌∙◌, ◌↔◌,
  ◌⊎◌, ◌≢◌, false, Option, none, some, arith, Bytes,
}
use account.Base.Int.{pos}
use account.Clib.Bounded.{c_string}
use account.User.{IpmiUser}
use account.PamLogin.Users.{zero_user, get_user}
use account.PamLogin.Args.{ImanaOptions, parse_args}
use account.PamLogin.Check.{check_user_login_interface}
use account.PamLogin.Status.{PamRet, success, auth_err, minus_one}
use account.PamLogin.Uid.{imana_uid_base, check_uid_is_local_user}
use account.PamLogin.Entry.{
  PamCall, FileRead, unresolved, unopened, unstated, unread, contents, refused_on_error, user_of,
  GotUid, failed, found, GotUser, refused, got, pam_get_uid, get_ipmi_user, account_user,
  account_uid, account_items, pam_sm_acct_mgmt,
}
use account.PamLogin.Entry.Sound.{is_success_iff, IsError, pam_get_uid-IsError}

module _ (call : PamCall) where
  -- The file of users, whose name has at most 4096 bytes, can be read and is not empty, and get_user finds
  -- the record of the uid in it.
  abbrev pub HasRecord : ImanaOptions → ℕ → IpmiUser → Type 0
  HasRecord opts uid u =
      (c : ℕ) × (s : Bytes) × (length opts.filename ≤ 4096)
      × (call.file opts.filename ≡ contents (c ∷ s))
      × (get_user call.errno_set (pos uid) (c_string (c ∷ s)) ≡ some u)

  -- Its name is longer, or it cannot be read.
  abbrev pub IsUnreadable : ImanaOptions → Type 0
  IsUnreadable opts =
      (4096 < length opts.filename) ⊎ ((s : Bytes) → call.file opts.filename ≢ contents s)

  abbrev text_user : FileRead → ℕ → Option IpmiUser
  text_user (contents s) uid = get_user call.errno_set (pos uid) (c_string s)
  text_user _ uid = none

  -- The record of the uid in the file, or, with "onerr=succeed" and a file that cannot be read, {0}.
  abbrev pub IsRecord : ImanaOptions → ℕ → IpmiUser → Type 0
  IsRecord opts uid u =
      HasRecord opts uid u
      ⊎ ((opts.opt_fail_on_error ≡ false) × IsUnreadable opts × (u ≡ zero_user))

  got-refused_on_error :
      (opts : ImanaOptions) (rv : PamRet) (u : IpmiUser)
      → (refused_on_error opts rv ≡ got u) ↔ ((opts.opt_fail_on_error ≡ false) × (u ≡ zero_user))
  got-refused_on_error opts rv u = ground arith

  unreadable_iff :
      (opts : ImanaOptions) (uid : ℕ) (u : IpmiUser) (rv : PamRet)
      → get_ipmi_user call.errno_set call.file opts uid ≡ refused_on_error opts rv
      → IsUnreadable opts
      → (get_ipmi_user call.errno_set call.file opts uid ≡ got u) ↔ IsRecord opts uid u
  unreadable_iff opts uid u rv e closed =
      let g = got-refused_on_error opts rv u in
      (
        (λ h. let (o, z) = g.0 (sym e ∙ h) in inr (o, closed, z)),
        (λ r. elim r [
          | inl (c, s, short, f, _) ↦
              absurd (elim closed [ inl long ↦ omega arith | inr never ↦ never (c ∷ s) f ])
          | inr (o, _, z) ↦ e ∙ g.1 (o, z)
        ]),
      )

  user_of_iff :
      (found : Option IpmiUser) (u : IpmiUser) → (user_of found ≡ got u) ↔ (found ≡ some u)
  user_of_iff none u = ((λ h. cc), (λ h. cc))
  user_of_iff (some v) u = ((λ h. cc), (λ h. cc))

  empty_iff :
      (opts : ImanaOptions) (uid : ℕ) (u : IpmiUser)
      → length opts.filename ≤ 4096
      → call.file opts.filename ≡ contents []
      → get_ipmi_user call.errno_set call.file opts uid ≡ refused auth_err
      → (get_ipmi_user call.errno_set call.file opts uid ≡ got u) ↔ IsRecord opts uid u
  empty_iff opts uid u short e g = (
    (λ h. cc),
    (λ r. elim r [
      | inl (c, s, _, f, _) ↦ cc
      | inr (_, closed, _) ↦
          absurd (elim closed [ inl long ↦ omega arith | inr never ↦ never [] e ])
    ]),
  )

  contents_iff :
      (opts : ImanaOptions) (uid : ℕ) (u : IpmiUser) (c : ℕ) (s : Bytes)
      → length opts.filename ≤ 4096
      → call.file opts.filename ≡ contents (c ∷ s)
      → get_ipmi_user call.errno_set call.file opts uid
        ≡ user_of (get_user call.errno_set (pos uid) (c_string (c ∷ s)))
      → (get_ipmi_user call.errno_set call.file opts uid ≡ got u) ↔ IsRecord opts uid u
  contents_iff opts uid u c s short e g =
      let j = user_of_iff (get_user call.errno_set (pos uid) (c_string (c ∷ s))) u in
      (
        (λ h. inl (c, s, short, e, j.0 (sym g ∙ h))),
        (λ r. elim r [
          | inl (d, t, _, f, h) ↦ g ∙ j.1 (subst (λ r. text_user r uid ≡ some u) (sym f ∙ e) h)
          | inr (_, closed, _) ↦
              absurd (elim closed [ inl long ↦ omega arith | inr never ↦ never (c ∷ s) e ])
        ]),
      )

  file_iff :
      (opts : ImanaOptions) (uid : ℕ) (u : IpmiUser) (r : FileRead)
      → ltb 4096 (length opts.filename) ≡ false
      → call.file opts.filename ≡ r
      → (get_ipmi_user call.errno_set call.file opts uid ≡ got u) ↔ IsRecord opts uid u
  unfolding get_ipmi_user
  file_iff opts uid u unresolved l e =
      unreadable_iff opts uid u auth_err (rw (get_ipmi_user, l, e) refl) (inr (λ s f. cc))
  file_iff opts uid u unopened l e =
      unreadable_iff opts uid u minus_one (rw (get_ipmi_user, l, e) refl) (inr (λ s f. cc))
  file_iff opts uid u unstated l e =
      unreadable_iff opts uid u minus_one (rw (get_ipmi_user, l, e) refl) (inr (λ s f. cc))
  file_iff opts uid u unread l e =
      unreadable_iff opts uid u minus_one (rw (get_ipmi_user, l, e) refl) (inr (λ s f. cc))
  file_iff opts uid u (contents []) l e =
      empty_iff opts uid u (ground arith) e (rw (get_ipmi_user, l, e) refl)
  file_iff opts uid u (contents (c ∷ s)) l e =
      contents_iff opts uid u c s (ground arith) e (rw (get_ipmi_user, l, e) refl)

  got_iff :
      (opts : ImanaOptions) (uid : ℕ) (u : IpmiUser)
      → (get_ipmi_user call.errno_set call.file opts uid ≡ got u) ↔ IsRecord opts uid u
  unfolding get_ipmi_user
  got_iff opts uid u = elim (Bool-cases (ltb 4096 (length opts.filename))) [
    | inl l ↦ unreadable_iff opts uid u auth_err (rw (get_ipmi_user, l) refl) (inl (ltb→lt _ _ l))
    | inr l ↦ file_iff opts uid u (call.file opts.filename) l refl
  ]

  -- The user is read, and may use the interface.
  abbrev UserEnters : Bytes → GotUser → Type 0
  UserEnters tty g = (u : IpmiUser) × (g ≡ got u) × (check_user_login_interface u tty ≡ success)

  account_user_iff :
      (tty : Bytes) (g : GotUser) → (account_user call tty g ≡ success) ↔ UserEnters tty g
  account_user_iff tty (refused rv) = ((λ h. cc), (λ (u, e, p). cc))
  account_user_iff tty (got u) =
      let s = is_success_iff (check_user_login_interface u tty) in
      (
        (λ h. (u, refl, ground arith)),
        (λ (v, e, p). let same : check_user_login_interface u tty ≡ success = cc in ground arith),
      )

  abbrev pub RecordEnters : ImanaOptions → Bytes → ℕ → Type 0
  RecordEnters opts tty uid =
      (u : IpmiUser) × IsRecord opts (uid - imana_uid_base) u
      × (check_user_login_interface u tty ≡ success)

  -- The uid is not local, or its user enters; without a uid, errors are not to count.
  abbrev pub UidEnters : ImanaOptions → Bytes → GotUid → Type 0
  UidEnters opts tty (failed rv) = opts.opt_fail_on_error ≡ false
  UidEnters opts tty (found uid name) =
      (check_uid_is_local_user uid ≡ false) ⊎ RecordEnters opts tty uid

  account_uid_iff :
      (opts : ImanaOptions) (tty : Bytes) (g : GotUid)
      → IsError call g
      → (account_uid call opts tty g ≡ success) ↔ UidEnters opts tty g
  account_uid_iff opts tty (failed rv) ne = ground arith
  account_uid_iff opts tty (found uid name) ne =
      let user = get_ipmi_user call.errno_set call.file opts (uid - imana_uid_base) in
      let j = account_user_iff tty user in
      let enters : (account_user call tty user ≡ success) ↔ RecordEnters opts tty uid = (
        (λ h. let (u, e, p) = j.0 h in (u, (got_iff opts (uid - imana_uid_base) u).0 e, p)),
        (λ (u, e, p). j.1 (u, (got_iff opts (uid - imana_uid_base) u).1 e, p)),
      ) in
      ground arith

  -- The terminal is known, and the uid enters.
  abbrev pub ItemEnters : ImanaOptions → Option Bytes → Type 0
  ItemEnters opts t =
      (tty : Bytes) × (t ≡ some tty) × UidEnters opts tty (pam_get_uid call.passwd call.user)

  account_items_iff :
      (opts : ImanaOptions) (t : Option Bytes)
      → (account_items call opts t ≡ success) ↔ ItemEnters opts t
  account_items_iff opts none = ((λ h. cc), (λ (tty, e, p). cc))
  account_items_iff opts (some tty) =
      let j =
        account_uid_iff opts tty (pam_get_uid call.passwd call.user)
          (pam_get_uid-IsError call call.user) in
      (
        (λ h. (tty, refl, j.0 h)),
        (λ (t, e, p). j.1 (
            subst (λ x. UidEnters opts x (pam_get_uid call.passwd call.user))
              (sym (some-injective _ _ e)) p)),
      )

  -- `pam_sm_acct_mgmt` succeeds exactly when the arguments can be parsed, the terminal is known, and
  -- the user has a uid that is not local, or a local one whose record in the file of users may use the
  -- interface.
  -- With "onerr=succeed" it also succeeds where the arguments cannot be parsed, where, with the
  -- terminal known, the user has no uid, and where, with the terminal known and a local uid, the file of
  -- users has a name of more than 4096 bytes or cannot be read and the record {0} may use the interface.
  pub pam_sm_acct_mgmt_iff : (pam_sm_acct_mgmt call ≡ success) ↔ (
      (((parse_args call.argv).0 ≢ success) × ((parse_args call.argv).1.opt_fail_on_error ≡ false))
      ⊎ (((parse_args call.argv).0 ≡ success) × ItemEnters (parse_args call.argv).1 call.tty))
  unfolding pam_sm_acct_mgmt
  pam_sm_acct_mgmt_iff =
      let parsed = is_success_iff (parse_args call.argv).0 in
      let items = account_items_iff (parse_args call.argv).1 call.tty in ground arith
