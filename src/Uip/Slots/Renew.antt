-- ===== src/Uip/Slots/Renew.antt =====
-- What a call of uip_read_ldap_user finds after uip_renew_ldap_user.
use account.Base.{
  ℕ, zero, suc, ◌+◌, ◌-◌, ◌≤◌, ◌<◌, ◌≡◌, ◌≢◌, refl, sym, ap, ◌∙◌, inl, inr, true, false, Option,
  none, some, List, [], ◌∷◌, ◌++◌, ltb, ltb→lt, Bool-cases, arith, length, length-append, get_elem?,
  get_elem?-set_self, get_elem?-set_ne, set,
}
use mathlib.Core.List.{append_assoc}
use account.Base.Int.{ℤ, pos, ltb_ℤ, pos_part}
use account.Status.{ok}
use account.Uip.Slots.{
  LdapUser, LdapFile, LdapFileSystem, gap, write_slot, uip_read_ldap_user, uip_renew_ldap_user,
  ldap_user_id_base,
}
use account.Uip.Slots.Numbered.{place_of}

length-gap : (n : ℕ) (tail : Option LdapUser) → length (gap n tail) ≡ n
length-gap zero tail = refl
length-gap (suc n) none = ap suc (length-gap n none)
length-gap (suc n) (some u) = ap suc (length-gap n none)

get_elem?-append_at :
    (us : List LdapUser) (u : LdapUser) (i : ℕ)
    → i ≡ length us
    → get_elem? (us ++ (u ∷ [])) i ≡ some u
get_elem?-append_at [] u zero e = refl
get_elem?-append_at [] u (suc i) e = absurd (omega arith)
get_elem?-append_at (v ∷ us) u zero e = absurd (omega arith)
get_elem?-append_at (v ∷ us) u (suc i) e = get_elem?-append_at us u i (omega arith)

get_elem?-append_some :
    (us vs : List LdapUser) (v : LdapUser) (i : ℕ)
    → get_elem? us i ≡ some v
    → get_elem? (us ++ vs) i ≡ some v
get_elem?-append_some [] vs v i e = cc
get_elem?-append_some (u ∷ us) vs v zero e = e
get_elem?-append_some (u ∷ us) vs v (suc i) e = get_elem?-append_some us vs v i e

-- A record is stored at its place, wherever that is.
get_elem?-write_self :
    (i : ℕ) (u : LdapUser) (f : LdapFile) → get_elem? (write_slot i u f).slots i ≡ some u
unfolding write_slot
get_elem?-write_self i u f = elim (Bool-cases (ltb i (length f.slots))) [
  | inl p ↦ rw p (get_elem?-set_self f.slots i u (ltb→lt _ _ p))
  | inr p ↦
      let between = gap (i - length f.slots) f.tail in
      let at_end : i ≡ length (f.slots ++ between) =
        ground (arith, length-append {0} f.slots between, length-gap (i - length f.slots) f.tail) in
      rw (p, ← append_assoc f.slots between (u ∷ []))
        (get_elem?-append_at (f.slots ++ between) u i at_end)
]

get_elem?-write_other :
    (i j : ℕ) (u v : LdapUser) (f : LdapFile)
    → i ≢ j
    → get_elem? f.slots j ≡ some v
    → get_elem? (write_slot i u f).slots j ≡ some v
unfolding write_slot
get_elem?-write_other i j u v f ne e = elim (Bool-cases (ltb i (length f.slots))) [
  | inl p ↦ rw p (get_elem?-set_ne f.slots i j u ne ∙ e)
  | inr p ↦ rw p (get_elem?-append_some f.slots _ v j e)
]

get_elem?-none : (us : List LdapUser) (i : ℕ) → length us ≤ i → get_elem? us i ≡ none
get_elem?-none [] i h = refl
get_elem?-none (u ∷ us) zero h = absurd (omega arith)
get_elem?-none (u ∷ us) (suc i) h = get_elem?-none us i (omega arith)

none-length : (us : List LdapUser) (i : ℕ) → get_elem? us i ≡ none → length us ≤ i
none-length [] i e = omega arith
none-length (u ∷ us) zero e = cc
none-length (u ∷ us) (suc i) e = let shorter = none-length us i e in omega arith

length-set : (us : List LdapUser) (i : ℕ) (u : LdapUser) → length (set us i u) ≡ length us
length-set [] i u = refl
length-set (v ∷ us) zero u = refl
length-set (v ∷ us) (suc i) u = ap suc (length-set us i u)

-- A place beyond the end and beyond the place that is written stays beyond the end.
get_elem?-write_above :
    (i j : ℕ) (u : LdapUser) (f : LdapFile)
    → i < j
    → get_elem? f.slots j ≡ none
    → get_elem? (write_slot i u f).slots j ≡ none
unfolding write_slot
get_elem?-write_above i j u f above e =
    let short = none-length f.slots j e in
    elim (Bool-cases (ltb i (length f.slots))) [
      | inl p ↦
          rw p (get_elem?-none (set f.slots i u) j (omega (arith, short, length-set f.slots i u)))
      | inr p ↦
          let between = gap (i - length f.slots) f.tail in
          rw p (
            get_elem?-none (f.slots ++ (between ++ (u ∷ []))) j (
              ground (
                arith,
                above,
                length-append f.slots (between ++ (u ∷ [])),
                length-append between (u ∷ []),
                length-gap (i - length f.slots) f.tail,
              )))
    ]

module _ (system : LdapFileSystem) (opens : system.can_open ≡ true)
    (writes : system.short_write ≡ none) where
  read-place :
      (uid : ℤ) (f : LdapFile)
      → ltb_ℤ uid (pos ldap_user_id_base) ≡ false
      → uip_read_ldap_user system uid f ≡ get_elem? f.slots (pos_part uid - ldap_user_id_base)
  unfolding uip_read_ldap_user
  read-place uid f h = rw (h, opens) refl

  read-some :
      (uid : ℤ) (f : LdapFile) (v : LdapUser)
      → uip_read_ldap_user system uid f ≡ some v
      → ltb_ℤ uid (pos ldap_user_id_base) ≡ false
  unfolding uip_read_ldap_user
  read-some uid f v e = elim (Bool-cases (ltb_ℤ uid (pos ldap_user_id_base))) [
    | inl p ↦ let n = rw p at e in cc
    | inr p ↦ p
  ]

  renew-place :
      (usr : LdapUser) (f : LdapFile)
      → ltb_ℤ usr.uid (pos ldap_user_id_base) ≡ false
      → uip_renew_ldap_user system usr f
        ≡ (ok, write_slot (pos_part usr.uid - ldap_user_id_base) usr f)
  unfolding uip_renew_ldap_user
  renew-place usr f h = rw (h, opens, writes) refl

  -- Where the file can be opened and written, uip_renew_ldap_user with a uid from 1000 on succeeds; the
  -- record is then what uip_read_ldap_user finds for this uid, for any other uid for which it found a
  -- record before it finds this record, and for a larger uid for which it found none it finds none.
  pub uip_read_ldap_user-renew :
      (usr : LdapUser) (f : LdapFile)
      → ltb_ℤ usr.uid (pos ldap_user_id_base) ≡ false
      → ((uip_renew_ldap_user system usr f).0 ≡ ok)
        × (uip_read_ldap_user system usr.uid (uip_renew_ldap_user system usr f).1 ≡ some usr)
        × ((uid : ℤ) (v : LdapUser)
            → uid ≢ usr.uid
            → uip_read_ldap_user system uid f ≡ some v
            → uip_read_ldap_user system uid (uip_renew_ldap_user system usr f).1 ≡ some v)
        × ((n : ℕ)
            → pos_part usr.uid < n
            → uip_read_ldap_user system (pos n) f ≡ none
            → uip_read_ldap_user system (pos n) (uip_renew_ldap_user system usr f).1 ≡ none)
  uip_read_ldap_user-renew usr f h =
      let place = pos_part usr.uid - ldap_user_id_base in
      rw (renew-place usr f h) (
        refl,
        read-place usr.uid _ h ∙ get_elem?-write_self place usr f,
        λ uid v ne e.
            let k = read-some uid f v e in
            let apart : place ≢ pos_part uid - ldap_user_id_base = (λ same. ne (
              place_of uid k
              ∙ ap (λ n. pos (ldap_user_id_base + n)) (sym same)
              ∙ sym (place_of usr.uid h))) in
            read-place uid _ k
            ∙ get_elem?-write_other place (pos_part uid - ldap_user_id_base) usr v f apart
                (sym (read-place uid f k) ∙ e),
        λ n above e.
            let k : ltb_ℤ (pos n) (pos ldap_user_id_base) ≡ false = ground arith in
            read-place (pos n) _ k
            ∙ get_elem?-write_above place (n - ldap_user_id_base) usr f (ground arith)
                (sym (read-place (pos n) f k) ∙ e),
      )
