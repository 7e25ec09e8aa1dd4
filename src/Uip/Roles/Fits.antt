-- ===== src/Uip/Roles/Fits.antt =====
-- Which role ids parse_role_id stores, and when it stores behind the record.
use account.Base.{
  ℕ, zero, suc, ◌+◌, ◌/◌, ◌%◌, ◌^◌, ◌≤◌, ◌<◌, ◌≡◌, refl, sym, ap, ◌∙◌, Bool, true, false, not, ◌&&◌,
  ◌==◌, inl, inr, Bool-cases, Option, none, some, List, [], ◌∷◌, ◌++◌, map, leb, arith, Bytes,
  length, length-append, set, take, drop, All,
}
use mathlib.Core.List.{append_assoc}
use account.Base.Bits.{passes_to, passes_at}
use account.Clib.Text.{strtok, join, strsep-join, has_char, nonempty}
use account.Clib.Strtol.{digits, skip_space}
use account.Clib.Unsigned.{scan_unsigned}
use account.Uip.Roles.{store_role, store_roles, parse_role_id, with_roles}
use account.Uip.Slots.{LdapUser}
use account.Uip.Users.Line.{byte_text}

abbrev is_byte_text : ℕ → Bool
is_byte_text v =
    elim (scan_unsigned (byte_text v)).0 [ none ↦ false | some w ↦ w == v ]
    && not (has_char b',' (byte_text v))
    && not (length (byte_text v) == 0)

byte_table : passes_to 256 is_byte_text ≡ true
unfolding passes_to scan_unsigned digits skip_space has_char
byte_table = refl

some_value : (o : Option ℕ) (v : ℕ) → elim o [ none ↦ false | some w ↦ w == v ] ≡ true → o ≡ some v
some_value none v h = cc
some_value (some w) v h = ground arith

byte_text_facts :
    (v : ℕ)
    → v < 256
    → ((scan_unsigned (byte_text v)).0 ≡ some v)
      × (has_char b',' (byte_text v) ≡ false)
      × ((length (byte_text v) == 0) ≡ false)
byte_text_facts v h =
    let t = passes_at 256 is_byte_text v byte_table h in
    let value = some_value (scan_unsigned (byte_text v)).0 v in ground arith

set-append :
    (pre xs : List ℕ) (n k v : ℕ) → n ≡ length pre + k → set (pre ++ xs) n v ≡ pre ++ set xs k v
set-append [] xs n k v e = let same : n ≡ k = omega arith in rw same refl
set-append (x ∷ pre) xs zero k v e = absurd (omega arith)
set-append (x ∷ pre) xs (suc n) k v e = ap (◌∷◌ x) (set-append pre xs n k v (omega arith))

set_four :
    (pre : List ℕ) (a b c d : ℕ) (rest : List ℕ) (v w x y : ℕ)
    → set
        (set
          (set (set (pre ++ (a ∷ b ∷ c ∷ d ∷ rest)) (length pre) v) (length pre + 1) w)
          (length pre + 2)
          x)
        (length pre + 3)
        y
      ≡ pre ++ (v ∷ w ∷ x ∷ y ∷ rest)
set_four pre a b c d rest v w x y =
    rw
      (
        set-append pre (a ∷ b ∷ c ∷ d ∷ rest) (length pre) 0 v (omega arith),
        set-append pre (v ∷ b ∷ c ∷ d ∷ rest) (length pre + 1) 1 w refl,
        set-append pre (v ∷ w ∷ c ∷ d ∷ rest) (length pre + 2) 2 x refl,
        set-append pre (v ∷ w ∷ x ∷ d ∷ rest) (length pre + 3) 3 y refl,
      )
      refl

-- Four bytes are stored behind what is there.
store_role-at :
    (pre : List ℕ) (v a b c d : ℕ) (rest : List ℕ)
    → v < 256
    → length pre ≤ 29
    → store_role (length pre) v (pre ++ (a ∷ b ∷ c ∷ d ∷ rest))
      ≡ some (pre ++ (v ∷ 0 ∷ 0 ∷ 0 ∷ rest))
unfolding store_role
store_role-at pre v a b c d rest h l =
    let fits : leb (length pre + 3) 32 ≡ true = ground arith in
    let b0 : v % 256 ≡ v = omega arith in
    let b1 : v / 2 ^ 8 % 256 ≡ 0 = omega arith in
    let b2 : v / 2 ^ 16 % 256 ≡ 0 = omega arith in
    let b3 : v / 2 ^ 24 % 256 ≡ 0 = omega arith in
    rw (fits, b0, b1, b2, b3) (ap some (set_four pre a b c d rest v 0 0 0))

-- One role is stored, and the loop goes on.
store_roles-step :
    (count v : ℕ) (tokens : List Bytes) (roleid stored : List ℕ)
    → v < 256
    → count < 32
    → store_role count v roleid ≡ some stored
    → store_roles count (byte_text v ∷ tokens) roleid ≡ store_roles (count + 1) tokens stored
unfolding store_roles
store_roles-step count v tokens roleid stored h l e =
    let more : leb 32 count ≡ false = ground arith in
    rw (store_roles, more, (byte_text_facts v h).0, e) refl

-- The roles behind the first ones, with three zeros behind them.
store_roles-later :
    (count : ℕ) (pre vs rest : List ℕ)
    → All (λ w. w < 256) vs
    → count ≡ length pre
    → length pre + length rest ≡ 29
    → length pre + length vs ≤ 29
    → store_roles count (map byte_text vs) (pre ++ (0 ∷ 0 ∷ 0 ∷ rest))
      ≡ some (pre ++ (vs ++ (0 ∷ 0 ∷ 0 ∷ drop (length vs) rest)))
store_roles-later count pre [] rest h c e l = unfold store_roles in refl
store_roles-later count pre (v ∷ vs) [] h c e l = absurd (omega arith)
store_roles-later count pre (v ∷ vs) (d ∷ rest) h c e l =
    let grown = pre ++ (v ∷ []) in
    let size = length-append {0} pre (v ∷ []) in
    store_roles-step count v (map byte_text vs) (pre ++ (0 ∷ 0 ∷ 0 ∷ d ∷ rest))
      (grown ++ (0 ∷ 0 ∷ 0 ∷ rest)) h.0 (omega arith)
      (rw c (store_role-at pre v 0 0 0 d rest h.0 (omega arith))
        ∙ ap some (sym (append_assoc pre (v ∷ []) (0 ∷ 0 ∷ 0 ∷ rest))))
    ∙ store_roles-later (count + 1) grown vs rest h.1 (omega arith) (omega arith) (omega arith)
    ∙ ap some (append_assoc pre (v ∷ []) _)

-- The first role overwrites four bytes.
store_roles-first :
    (v : ℕ) (vs old : List ℕ)
    → All (λ w. w < 256) (v ∷ vs)
    → length old ≡ 32
    → length (v ∷ vs) ≤ 29
    → store_roles 0 (map byte_text (v ∷ vs)) old
      ≡ some (v ∷ vs ++ (0 ∷ 0 ∷ 0 ∷ drop (length vs + 4) old))
store_roles-first v vs (a ∷ b ∷ c ∷ d ∷ rest) h e l =
    store_roles-step 0 v (map byte_text vs) (a ∷ b ∷ c ∷ d ∷ rest) (v ∷ 0 ∷ 0 ∷ 0 ∷ rest) h.0
      (omega arith) (store_role-at [] v a b c d rest h.0 (omega arith))
    ∙ store_roles-later 1 (v ∷ []) vs rest h.1 refl (omega arith) (omega arith)
    ∙ ap (λ l. some (v ∷ vs ++ (0 ∷ 0 ∷ 0 ∷ l))) (sym (drop_four (length vs)))
  where
    drop_four : (n : ℕ) → drop (n + 4) (a ∷ b ∷ c ∷ d ∷ rest) ≡ drop n rest
    drop_four n = let e : n + 4 ≡ suc (suc (suc (suc n))) = omega arith in rw e refl
store_roles-first v vs [] h e l = absurd (omega arith)
store_roles-first v vs (a ∷ []) h e l = absurd (omega arith)
store_roles-first v vs (a ∷ b ∷ []) h e l = absurd (omega arith)
store_roles-first v vs (a ∷ b ∷ c ∷ []) h e l = absurd (omega arith)

-- The four bytes of a role.
abbrev with_role : ℕ → ℕ → List ℕ → List ℕ
with_role count v old =
    set
      (set (set (set old count (v % 256)) (count + 1) (v / 2 ^ 8 % 256)) (count + 2)
        (v / 2 ^ 16 % 256))
      (count + 3) (v / 2 ^ 24 % 256)

store_role-fits :
    (count v : ℕ) (old : List ℕ)
    → leb (count + 3) 32 ≡ true
    → store_role count v old ≡ some (with_role count v old)
unfolding store_role
store_role-fits count v old h = rw h refl

store_role-wide :
    (count v : ℕ) (old : List ℕ) → leb (count + 3) 32 ≡ false → store_role count v old ≡ none
unfolding store_role
store_role-wide count v old h = rw h refl

-- The 31st role is stored behind the record.
store_roles-outside :
    (count : ℕ) (vs old : List ℕ)
    → All (λ w. w < 256) vs
    → count ≤ 30
    → 31 ≤ count + length vs
    → store_roles count (map byte_text vs) old ≡ none
store_roles-outside count [] old h c l = absurd (omega arith)
store_roles-outside count (v ∷ vs) old h c l = elim (Bool-cases (leb (count + 3) 32)) [
  | inl fits ↦
      store_roles-step count v (map byte_text vs) old (with_role count v old) h.0 (omega arith)
        (store_role-fits count v old fits)
      ∙ store_roles-outside (count + 1) vs (with_role count v old) h.1 (ground arith) (omega arith)
  | inr wide ↦
      let more : leb 32 count ≡ false = ground arith in
      let wide_role = store_role-wide count v old wide in
      unfold store_roles in (rw (store_roles, more, (byte_text_facts v h.0).0, wide_role) refl)
]

nonempty-map :
    (vs : List ℕ) → All (λ w. w < 256) vs → nonempty (map byte_text vs) ≡ map byte_text vs
nonempty-map [] h = refl
nonempty-map (v ∷ vs) h =
    kept (byte_text v) (byte_text_facts v h.0).2 ∙ ap (◌∷◌ (byte_text v)) (nonempty-map vs h.1)
  where
    kept :
        (t : Bytes)
        → (length t == 0) ≡ false
        → nonempty (t ∷ map byte_text vs) ≡ t ∷ nonempty (map byte_text vs)
    kept [] e = cc
    kept (c ∷ t) e = refl

no_comma :
    (vs : List ℕ) → All (λ w. w < 256) vs → All (λ t. has_char b',' t ≡ false) (map byte_text vs)
no_comma [] h = tt
no_comma (v ∷ vs) h = ((byte_text_facts v h.0).1, no_comma vs h.1)

-- The roles in decimal, with commas.
abbrev pub roles_text : ℕ → List ℕ → Bytes
roles_text v vs = join b',' (byte_text v) (map byte_text vs)

tokens_of :
    (v : ℕ) (vs : List ℕ)
    → All (λ w. w < 256) (v ∷ vs)
    → length (roles_text v vs) ≤ 64
    → strtok b',' (take 64 (roles_text v vs)) ≡ map byte_text (v ∷ vs)
tokens_of v vs h l =
    ap (strtok b',') (take-all 64 (roles_text v vs) l)
    ∙ ap nonempty (strsep-join b',' (byte_text v) (map byte_text vs) (no_comma (v ∷ vs) h))
    ∙ nonempty-map (v ∷ vs) h
  where
    take-all : (n : ℕ) (s : Bytes) → length s ≤ n → take n s ≡ s
    take-all zero [] k = refl
    take-all zero (c ∷ s) k = absurd (omega arith)
    take-all (suc n) [] k = refl
    take-all (suc n) (c ∷ s) k = ap (◌∷◌ c) (take-all n s (omega arith))

-- For at least one role, each a byte, in a text of at most 64 bytes: at most 29 roles are stored in
-- order, with three zeros behind them and the rest of the array as it was; from 31 roles on, a byte is
-- stored behind the record.
pub parse_role_id-roles :
    (v : ℕ) (vs : List ℕ) (user : LdapUser)
    → All (λ w. w < 256) (v ∷ vs)
    → length (roles_text v vs) ≤ 64
    → length user.roleid ≡ 32
    → (length (v ∷ vs) ≤ 29
        → parse_role_id (roles_text v vs) user
          ≡ some
              (record user { roleid = v ∷ vs ++ (0 ∷ 0 ∷ 0 ∷ drop (length vs + 4) user.roleid) }))
      × (31 ≤ length (v ∷ vs) → parse_role_id (roles_text v vs) user ≡ none)
unfolding parse_role_id
parse_role_id-roles v vs user h l e = (
  λ few.
      ap (λ ts. with_roles user (store_roles 0 ts user.roleid)) (tokens_of v vs h l)
      ∙ ap (with_roles user) (store_roles-first v vs user.roleid h e few),
  λ many.
      ap (λ ts. with_roles user (store_roles 0 ts user.roleid)) (tokens_of v vs h l)
      ∙ ap (with_roles user)
          (store_roles-outside 0 (v ∷ vs) user.roleid h (omega arith) (omega arith)),
)
