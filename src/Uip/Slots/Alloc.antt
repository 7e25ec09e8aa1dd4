-- ===== src/Uip/Slots/Alloc.antt =====
-- Which record uip_alloc_ldap_uid takes, and what a written record leaves of the others.
use account.Base.{
  ℕ, zero, suc, ◌+◌, ◌-◌, ◌≤◌, ◌<◌, ◌≡◌, ◌≢◌, ◌⊎◌, inl, inr, refl, sym, ap, ◌∙◌, Bool, true, false,
  not, Option, none, some, List, [], ◌∷◌, ◌++◌, ltb, leb, leb→le, ltb→lt, Bool-cases, ◌==◌, arith,
  length, get_elem?, get_elem?-set_self, get_elem?-set_ne, set,
}
use account.Base.Int.{ℤ, pos}
use account.Uip.Slots.{
  LdapUser, LdapFile, LdapFileSystem, zero_ldap_user, write_slot, first_free, uip_alloc_ldap_uid,
  ldap_user_max_count,
}

abbrev is_used : Option LdapUser → Bool
is_used none = false
is_used (some u) = not (u.used == 0)

-- The file has a record `i`, and it is in use.
abbrev pub used_at : List LdapUser → ℕ → Bool
used_at us i = is_used (get_elem? us i)

first_free-le : (last : LdapUser) (us : List LdapUser) → (first_free last us).0 ≤ length us
unfolding first_free
first_free-le last [] = omega arith
first_free-le last (u ∷ us) = ground (arith, first_free-le u us)

first_free-free : (last : LdapUser) (us : List LdapUser) → used_at us (first_free last us).0 ≡ false
unfolding first_free
first_free-free last [] = refl
first_free-free last (u ∷ us) = ground (arith, first_free-free u us)

first_free-used :
    (last : LdapUser) (us : List LdapUser) (i : ℕ)
    → i < (first_free last us).0
    → used_at us i ≡ true
unfolding first_free
first_free-used last [] i h = absurd (omega arith)
first_free-used last (u ∷ us) zero h = ground arith
first_free-used last (u ∷ us) (suc i) h = ground (arith, first_free-used u us i)

get_elem?-append_last :
    (us : List LdapUser) (u : LdapUser) → get_elem? (us ++ (u ∷ [])) (length us) ≡ some u
get_elem?-append_last [] u = refl
get_elem?-append_last (v ∷ us) u = get_elem?-append_last us u

get_elem?-append_ne :
    (us : List LdapUser) (u : LdapUser) (j : ℕ)
    → j ≢ length us
    → get_elem? (us ++ (u ∷ [])) j ≡ get_elem? us j
get_elem?-append_ne [] u zero h = absurd (h refl)
get_elem?-append_ne [] u (suc j) h = refl
get_elem?-append_ne (v ∷ us) u zero h = refl
get_elem?-append_ne (v ∷ us) u (suc j) h = get_elem?-append_ne us u j (λ e. h (ap suc e))

-- A record that is in the file or at its end is written there, and no other changes.
pub record WritesAt (i : ℕ) (u : LdapUser) (f f' : LdapFile) : Type 0 where
  pub there : get_elem? f'.slots i ≡ some u
  pub others : (j : ℕ) → j ≢ i → get_elem? f'.slots j ≡ get_elem? f.slots j

inside_WritesAt :
    (i : ℕ) (u : LdapUser) (f : LdapFile)
    → i < length f.slots
    → WritesAt i u f (record f { slots = set f.slots i u })
inside_WritesAt i u f h = record {
  there = get_elem?-set_self f.slots i u h;
  others = λ j ne. get_elem?-set_ne f.slots i j u (λ e. ne (sym e));
}

behind_WritesAt :
    (i : ℕ) (u : LdapUser) (f : LdapFile)
    → i ≡ length f.slots
    → WritesAt i u f (record { slots = f.slots ++ (u ∷ []); tail = none })
behind_WritesAt i u f e = record {
  there = rw e (get_elem?-append_last f.slots u);
  others = λ j ne. get_elem?-append_ne f.slots u j (λ d. ne (d ∙ sym e));
}

pub write_slot-WritesAt :
    (i : ℕ) (u : LdapUser) (f : LdapFile) → i ≤ length f.slots → WritesAt i u f (write_slot i u f)
unfolding write_slot
write_slot-WritesAt i u f h = elim (Bool-cases (ltb i (length f.slots))) [
  | inl p ↦ rw p (inside_WritesAt i u f (ltb→lt _ _ p))
  | inr p ↦
      let e : i ≡ length f.slots = ground arith in
      let none_between : i - length f.slots ≡ 0 = omega arith in
      rw (p, none_between) (behind_WritesAt i u f e)
]

-- What a call of uip_alloc_ldap_uid gives where the file can be opened and written: the lowest record
-- that is not in use, with a number below 32, is taken; where the first 32 are in use, nothing is.
pub record Takes (f : LdapFile) (got : Option ℤ × LdapFile) : Type 0 where
  pub slot : ℕ
  pub in_range : slot < ldap_user_max_count
  pub free : used_at f.slots slot ≡ false
  pub lower_used : (i : ℕ) → i < slot → used_at f.slots i ≡ true
  pub uid_of_slot : got.0 ≡ some (pos (1000 + slot))
  pub user : LdapUser
  pub is_marked : (user.used ≡ 1) × (user.uid ≡ pos (1000 + slot))
  pub writes : WritesAt slot user f got.1

-- All of the first 32 records are in use.
abbrev pub IsFull : LdapFile → Type 0
IsFull f = (i : ℕ) → i < ldap_user_max_count → used_at f.slots i ≡ true

module _ (system : LdapFileSystem) (opens : system.can_open ≡ true)
    (writes : system.short_write ≡ none) where
  takes :
      (f : LdapFile)
      → (first_free zero_ldap_user f.slots).0 < 32
      → Takes f (uip_alloc_ldap_uid system f)
  unfolding uip_alloc_ldap_uid
  takes f h =
      let n = (first_free zero_ldap_user f.slots).0 in
      let usr = (first_free zero_ldap_user f.slots).1 in
      let below : leb 32 n ≡ false = ground arith in
      rw (opens, below, writes)
        (record {
          slot = n;
          in_range = h;
          free = first_free-free zero_ldap_user f.slots;
          lower_used = first_free-used zero_ldap_user f.slots;
          uid_of_slot = refl;
          user = record usr { used = 1; uid = pos (1000 + n) };
          is_marked = (refl, refl);
          writes = write_slot-WritesAt n _ f (first_free-le zero_ldap_user f.slots);
        })

  -- Where the file can be opened and written, uip_alloc_ldap_uid either finds the first 32 records in
  -- use, and gives no uid and leaves the file as it is, or it takes the lowest record that is not in
  -- use, which has a number below 32: its uid is 1000 and that number, the record is marked as used
  -- with this uid, and no other record changes.
  pub uip_alloc_ldap_uid-cases :
      (f : LdapFile)
      → (IsFull f × (uip_alloc_ldap_uid system f ≡ (none, f)))
        ⊎ Takes f (uip_alloc_ldap_uid system f)
  unfolding uip_alloc_ldap_uid
  uip_alloc_ldap_uid-cases f =
      let n = (first_free zero_ldap_user f.slots).0 in
      elim (Bool-cases (leb 32 n)) [
        | inl p ↦ inl (
          (λ i h. first_free-used zero_ldap_user f.slots i (let q = leb→le _ _ p in omega arith)),
          rw (opens, p) refl,
        )
        | inr p ↦ inr (takes f (ground arith))
      ]
