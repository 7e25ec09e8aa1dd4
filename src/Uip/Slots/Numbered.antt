-- ===== src/Uip/Slots/Numbered.antt =====
-- The uids in the file of LDAP users over any sequence of calls.
use account.Base.{
  inl, inr, ℕ, zero, suc, ◌+◌, ◌-◌, ◌≤◌, ◌<◌, ◌≡◌, ◌≢◌, refl, sym, ap, ◌∙◌, true, false, not, none,
  some, List, [], ◌∷◌, ◌++◌, ltb, leb, Bool-cases, arith, length, All, set,
}
use account.Base.Int.{ℤ, pos, negsuc, ltb_ℤ, pos_part}
use mathlib.Core.Path.{subst}
use mathlib.Core.Option.{some-injective}
use account.Uip.Slots.{
  LdapUser, LdapFile, LdapFileSystem, zero_ldap_user, empty_ldap_file, ldap_user_max_count, gap,
  write_slot, first_free, uip_alloc_ldap_uid, uip_renew_ldap_user, ldap_user_id_base,
}
use account.Uip.Slots.Alloc.{used_at, uip_alloc_ldap_uid-cases}

-- A record in use at `i` has the uid of its place.
abbrev HasPlace : ℕ → LdapUser → Type 0
HasPlace i u = u.used ≢ 0 → u.uid ≡ pos (ldap_user_id_base + i)

abbrev NumberedFrom : ℕ → List LdapUser → Type 0
NumberedFrom i [] = Unit
NumberedFrom i (u ∷ us) = HasPlace i u × NumberedFrom (suc i) us

-- Every record in use has the uid of its place, and the file has whole records.
pub record IsNumbered (f : LdapFile) : Type 0 where
  pub numbered : NumberedFrom 0 f.slots
  pub is_whole : f.tail ≡ none

set-NumberedFrom :
    (i : ℕ) (us : List LdapUser) (j : ℕ) (u : LdapUser)
    → NumberedFrom i us
    → HasPlace (i + j) u
    → NumberedFrom i (set us j u)
set-NumberedFrom i [] j u h p = tt
set-NumberedFrom i (v ∷ us) zero u h p = (λ ne. p ne ∙ ap pos (omega arith), h.1)
set-NumberedFrom i (v ∷ us) (suc j) u h p =
    (h.0, set-NumberedFrom (suc i) us j u h.1 (λ ne. p ne ∙ ap pos (omega arith)))

append-NumberedFrom :
    (i : ℕ) (us vs : List LdapUser)
    → NumberedFrom i us
    → NumberedFrom (i + length us) vs
    → NumberedFrom i (us ++ vs)
append-NumberedFrom i [] vs h k =
    let e : i + 0 ≡ i = omega arith in subst (λ n. NumberedFrom n vs) e k
append-NumberedFrom i (u ∷ us) vs h k =
    let e : i + suc (length us) ≡ suc i + length us = omega arith in
    (h.0, append-NumberedFrom (suc i) us vs h.1 (subst (λ n. NumberedFrom n vs) e k))

-- Zeros are not in use.
gap-NumberedFrom : (i n : ℕ) → NumberedFrom i (gap n none)
gap-NumberedFrom i zero = tt
gap-NumberedFrom i (suc n) = (λ ne. absurd (ne refl), gap-NumberedFrom (suc i) n)

length-gap : (n : ℕ) → length (gap n none) ≡ n
length-gap zero = refl
length-gap (suc n) = ap suc (length-gap n)

write_slot-IsNumbered :
    (i : ℕ) (u : LdapUser) (f : LdapFile)
    → IsNumbered f
    → HasPlace i u
    → IsNumbered (write_slot i u f)
unfolding write_slot
write_slot-IsNumbered i u f h p = elim (Bool-cases (ltb i (length f.slots))) [
  | inl inside ↦ rw inside (record {
    numbered = set-NumberedFrom 0 f.slots i u h.numbered (λ ne. p ne ∙ ap pos (omega arith));
    is_whole = h.is_whole;
  })
  | inr behind ↦
      let later : length f.slots ≤ i = ground arith in
      let n = i - length f.slots in
      let place : 0 + length f.slots + n ≡ i = omega arith in
      rw (behind, h.is_whole)
        (record {
          numbered = append-NumberedFrom 0 f.slots (gap n none ++ (u ∷ [])) h.numbered (
              append-NumberedFrom (0 + length f.slots) (gap n none) (u ∷ [])
                (gap-NumberedFrom (0 + length f.slots) n)
                (
                  λ ne.
                      p ne
                      ∙ ap (λ k. pos (ldap_user_id_base + k))
                          (sym place ∙ ap (λ k. 0 + length f.slots + k) (sym (length-gap n))),
                  tt,
                ));
          is_whole = refl;
        })
]

-- A uid that is not below the base is the one of its place.
pub place_of :
    (uid : ℤ)
    → ltb_ℤ uid (pos ldap_user_id_base) ≡ false
    → uid ≡ pos (ldap_user_id_base + (pos_part uid - ldap_user_id_base))
place_of (pos n) h = let e : n ≡ 1000 + (n - 1000) = ground arith in ap pos e
place_of (negsuc n) h = ground arith

-- A call on the file that is opened and written.
pub data Call (system : LdapFileSystem) : LdapFile → LdapFile → Type 0 where
  alloc : (f : LdapFile) → Call system f (uip_alloc_ldap_uid system f).1
  renew : (f : LdapFile) (usr : LdapUser) → Call system f (uip_renew_ldap_user system usr f).1

pub data Calls (system : LdapFileSystem) : LdapFile → Type 0 where
  start : Calls system empty_ldap_file
  call : {f g : LdapFile} → Calls system f → Call system f g → Calls system g

module _ (system : LdapFileSystem) (writes : system.short_write ≡ none) where
  alloc-IsNumbered : (f : LdapFile) → IsNumbered f → IsNumbered (uip_alloc_ldap_uid system f).1
  unfolding uip_alloc_ldap_uid
  alloc-IsNumbered f h =
      let n = (first_free zero_ldap_user f.slots).0 in
      let usr = (first_free zero_ldap_user f.slots).1 in
      let written =
        write_slot-IsNumbered n (record usr { used = 1; uid = pos (ldap_user_id_base + n) }) f h
          (λ ne. refl) in
      rw writes (elim (Bool-cases (not system.can_open)) [
        | inl shut ↦ rw shut h
        | inr opens ↦ elim (Bool-cases (leb ldap_user_max_count n)) [
          | inl full ↦ rw (opens, full) h
          | inr free ↦ rw (opens, free) written
        ]
      ])

  renew-IsNumbered :
      (f : LdapFile) (usr : LdapUser)
      → IsNumbered f
      → IsNumbered (uip_renew_ldap_user system usr f).1
  unfolding uip_renew_ldap_user
  renew-IsNumbered f usr h = rw writes (elim (Bool-cases (ltb_ℤ usr.uid (pos ldap_user_id_base))) [
    | inl low ↦ rw low h
    | inr high ↦ elim (Bool-cases (not system.can_open)) [
      | inl shut ↦ rw (high, shut) h
      | inr opens ↦
          rw (high, opens)
            (write_slot-IsNumbered (pos_part usr.uid - ldap_user_id_base) usr f h
              (λ ne. place_of usr.uid high))
    ]
  ])

  Calls-IsNumbered : {f : LdapFile} → Calls system f → IsNumbered f
  Calls-IsNumbered start = record { numbered = tt; is_whole = refl }
  Calls-IsNumbered (call c (alloc f)) = alloc-IsNumbered f (Calls-IsNumbered c)
  Calls-IsNumbered (call c (renew f usr)) = renew-IsNumbered f usr (Calls-IsNumbered c)

-- The record is in use, and has another uid.
abbrev pub IsOther : ℤ → LdapUser → Type 0
IsOther uid u = u.used ≢ 0 → u.uid ≢ uid

above-IsOther :
    (i m : ℕ) (us : List LdapUser)
    → m < i
    → NumberedFrom i us
    → All (IsOther (pos (ldap_user_id_base + m))) us
above-IsOther i m [] h k = tt
above-IsOther i m (u ∷ us) h k = (
  λ ne e. let same = sym e ∙ k.0 ne in ground arith,
  above-IsOther (suc i) m us (omega arith) k.1,
)

free-IsOther :
    (i n m : ℕ) (us : List LdapUser)
    → m ≡ i + n
    → NumberedFrom i us
    → used_at us n ≡ false
    → All (IsOther (pos (ldap_user_id_base + m))) us
free-IsOther i n m [] e k h = tt
free-IsOther i zero m (u ∷ us) e k h =
    (λ ne d. ground arith, above-IsOther (suc i) m us (omega arith) k.1)
free-IsOther i (suc n) m (u ∷ us) e k h = (
  λ ne d. let same = sym d ∙ k.0 ne in ground arith,
  free-IsOther (suc i) n m us (omega arith) k.1 h,
)

module _ (system : LdapFileSystem) (opens : system.can_open ≡ true)
    (writes : system.short_write ≡ none) where
  -- Where every open of the file and every write to it succeeds, in full: after any calls of
  -- uip_alloc_ldap_uid and uip_renew_ldap_user on a file that was empty, a uid that
  -- uip_alloc_ldap_uid gives is from 1000 to 1031, and no record in use has it.
  pub uip_alloc_ldap_uid_unique :
      (f : LdapFile) (uid : ℤ)
      → Calls system f
      → (uip_alloc_ldap_uid system f).0 ≡ some uid
      → ((n : ℕ) × (n < 32) × (uid ≡ pos (1000 + n))) × All (IsOther uid) f.slots
  uip_alloc_ldap_uid_unique f uid c e = elim (uip_alloc_ldap_uid-cases system opens writes f) [
    | inl (full, none_left) ↦ cc (ap (λ r. r.0) none_left)
    | inr t ↦
        let same : uid ≡ pos (1000 + t.slot) = some-injective _ _ (sym e ∙ t.uid_of_slot) in
        let k = (Calls-IsNumbered system writes c).numbered in
        rw same
          ((t.slot, t.in_range, refl), free-IsOther 0 t.slot t.slot f.slots (omega arith) k t.free)
  ]
