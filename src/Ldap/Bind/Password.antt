-- ===== src/Ldap/Bind/Password.antt =====
-- The password behind a bind of libiam/lualib-src/iam_core/ldap_auth.c that succeeds.
use account.Base.{◌≡◌, refl, ◌⊎◌, inl, inr, Bool, true, false, arith, Bytes, Bool-cases}
use mathlib.Core.Path.{subst}
use account.Ldap.{LdapRet, is_success}
use account.Ldap.Bind.{
  Server, Session, DnFlag, no_flag, try_uid, start_with_uid, bind_with, opened, unbound,
  do_direct_bind, do_sasl_bind, bind_user,
}

second :
    (accepts : Bytes → Bool) (uid_dn dn : Bytes) (flag : DnFlag) (s : Session)
    → accepts dn ≡ false
    → is_success (bind_with accepts uid_dn (dn, flag) s).0 ≡ true
    → accepts uid_dn ≡ true
unfolding bind_with
second accepts uid_dn dn no_flag s e h = ground arith
second accepts uid_dn dn try_uid s e h = ground arith
second accepts uid_dn dn start_with_uid s e h = ground arith

bind_with-accepts :
    (accepts : Bytes → Bool) (uid_dn : Bytes) (p : Bytes × DnFlag) (s : Session)
    → is_success (bind_with accepts uid_dn p s).0 ≡ true
    → (dn : Bytes) × (accepts dn ≡ true)
unfolding bind_with
bind_with-accepts accepts uid_dn (dn, flag) s h = elim (Bool-cases (accepts dn)) [
  | inl e ↦ (dn, e)
  | inr e ↦ (uid_dn, second accepts uid_dn dn flag s e h)
]

open_already :
    (server : Server) (s : Session) (next : Session → LdapRet × Session)
    → s.ld ≡ true
    → is_success (opened server s next).0 ≡ true
    → is_success (next s).0 ≡ true
unfolding opened
open_already server s next l h = ground arith

open_now :
    (server : Server) (s : Session) (next : Session → LdapRet × Session)
    → s.ld ≡ false
    → server.opens ≡ true
    → is_success (opened server s next).0 ≡ true
    → is_success (next (record s { ld = true })).0 ≡ true
unfolding opened
open_now server s next l o h = ground arith

open_fails :
    (server : Server) (s : Session) (next : Session → LdapRet × Session)
    → s.ld ≡ false
    → server.opens ≡ false
    → ¬ (is_success (opened server s next).0 ≡ true)
unfolding opened
open_fails server s next l o h = ground arith

opened-success :
    (server : Server) (s : Session) (next : Session → LdapRet × Session)
    → is_success (opened server s next).0 ≡ true
    → (t : Session) × (is_success (next t).0 ≡ true)
unfolding opened
opened-success server s next h = elim (Bool-cases s.ld) [
  | inl l ↦ (s, open_already server s next l h)
  | inr l ↦ elim (Bool-cases server.opens) [
    | inl o ↦ (record s { ld = true }, open_now server s next l o h)
    | inr o ↦ absurd (open_fails server s next l o h)
  ]
]

module _ (server : Server) where
  -- The server has accepted the password, for some DN: in a simple bind, or in a SASL bind with the
  -- name.
  abbrev pub HasBound : Bytes → Bytes → Type 0
  HasBound username password =
      ((dn : Bytes) × (server.simple_bind dn password ≡ true))
      ⊎ ((dn : Bytes) × (server.sasl_bind dn username password ≡ true))

  pub do_direct_bind-HasBound :
      (username name password : Bytes) (s : Session)
      → is_success (do_direct_bind server name password s).0 ≡ true
      → HasBound username password
  unfolding do_direct_bind
  do_direct_bind-HasBound username name password s h =
      let (t, k) = opened-success server s _ h in inl (bind_with-accepts _ _ _ t k)

  pub do_sasl_bind-HasBound :
      (username password : Bytes) (s : Session)
      → is_success (do_sasl_bind server username password s).0 ≡ true
      → HasBound username password
  unfolding do_sasl_bind
  do_sasl_bind-HasBound username password s h =
      let (t, k) = opened-success server s _ h in inr (bind_with-accepts _ _ _ t k)

  bind_user-miss :
      (username cn password : Bytes) (s : Session)
      → is_success (do_sasl_bind server username password s).0 ≡ false
      → bind_user server username cn password s
        ≡ do_direct_bind server cn password (unbound (do_sasl_bind server username password s).1)
  unfolding bind_user
  bind_user-miss username cn password s e = rw (bind_user, e) refl

  bind_user-second :
      (username cn password : Bytes) (s : Session)
      → is_success (do_sasl_bind server username password s).0 ≡ false
      → is_success (bind_user server username cn password s).0 ≡ true
      → is_success
          (do_direct_bind server cn password
            (unbound (do_sasl_bind server username password s).1)).0
        ≡ true
  bind_user-second username cn password s e h =
      subst (λ p. is_success p.0 ≡ true) (bind_user-miss username cn password s e) h

  pub bind_user-HasBound :
      (username cn password : Bytes) (s : Session)
      → is_success (bind_user server username cn password s).0 ≡ true
      → HasBound username password
  bind_user-HasBound username cn password s h =
      elim (Bool-cases (is_success (do_sasl_bind server username password s).0)) [
        | inl e ↦ do_sasl_bind-HasBound username password s e
        | inr e ↦
            do_direct_bind-HasBound username cn password _
              (bind_user-second username cn password s e h)
      ]
