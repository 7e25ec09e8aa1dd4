-- ===== src/Ldap/Bind/Keeps.antt =====
-- The binds of libiam/lualib-src/iam_core/ldap_auth.c leave the configuration as it is, but for
-- dn_with_uid.
use account.Base.{◌≡◌, refl, ◌∙◌, inl, inr, Bool, true, arith, Bytes, Bool-cases}
use account.Ldap.{LdapRet, is_success, LdapConfig}
use account.Ldap.Bind.{
  Server, Session, DnFlag, no_flag, try_uid, start_with_uid, after_bind, bind_with, opened, unbound,
  do_direct_bind, do_sasl_bind, do_direct_bind_dn, bind_user,
}

-- The configuration of a session but for dn_with_uid, the one field that a bind changes.
abbrev pub settings_of : Session → LdapConfig
settings_of s = record s.conf { dn_with_uid = 0 }

bind_with-settings_of :
    (accepts : Bytes → Bool) (uid_dn dn : Bytes) (flag : DnFlag) (s : Session)
    → settings_of (bind_with accepts uid_dn (dn, flag) s).1 ≡ settings_of s
unfolding bind_with after_bind
bind_with-settings_of accepts uid_dn dn no_flag s = ground arith
bind_with-settings_of accepts uid_dn dn try_uid s = ground arith
bind_with-settings_of accepts uid_dn dn start_with_uid s = ground arith

opened-settings_of :
    (server : Server) (s : Session) (next : Session → LdapRet × Session)
    → ((t : Session) → settings_of (next t).1 ≡ settings_of t)
    → settings_of (opened server s next).1 ≡ settings_of s
unfolding opened
opened-settings_of server s next h = elim (Bool-cases s.ld) [
  | inl l ↦ rw (opened, l) (h (record s { ld = true }))
  | inr l ↦ elim (Bool-cases server.opens) [
    | inl o ↦ rw (opened, l, o) (h (record s { ld = true }))
    | inr o ↦ rw (opened, l, o) refl
  ]
]

module _ (server : Server) where
  do_direct_bind-settings_of :
      (name password : Bytes) (s : Session)
      → settings_of (do_direct_bind server name password s).1 ≡ settings_of s
  unfolding do_direct_bind
  do_direct_bind-settings_of name password s =
      opened-settings_of server s _ (λ t. bind_with-settings_of _ _ _ _ t)

  do_sasl_bind-settings_of :
      (name password : Bytes) (s : Session)
      → settings_of (do_sasl_bind server name password s).1 ≡ settings_of s
  unfolding do_sasl_bind
  do_sasl_bind-settings_of name password s =
      opened-settings_of server s _ (λ t. bind_with-settings_of _ _ _ _ t)

  pub do_direct_bind_dn-settings_of :
      (dn password : Bytes) (s : Session)
      → settings_of (do_direct_bind_dn server dn password s).1 ≡ settings_of s
  unfolding do_direct_bind_dn
  do_direct_bind_dn-settings_of dn password s = opened-settings_of server s _ (λ t. ground arith)

  pub bind_user-settings_of :
      (username cn password : Bytes) (s : Session)
      → settings_of (bind_user server username cn password s).1 ≡ settings_of s
  unfolding bind_user
  bind_user-settings_of username cn password s =
      let first = do_sasl_bind server username password s in
      elim (Bool-cases (is_success first.0)) [
        | inl e ↦ rw (bind_user, e) (do_sasl_bind-settings_of username password s)
        | inr e ↦
            rw (bind_user, e)
              (do_direct_bind-settings_of cn password (unbound first.1)
                ∙ do_sasl_bind-settings_of username password s)
      ]
