-- ===== src/Uip/Users/Interface.antt =====
-- When uip_is_login_interface_enable lets a user in.
use account.Base.{
  ℕ, ◌+◌, ◌/◌, ◌%◌, ◌^◌, ◌≤◌, ◌<◌, ◌≡◌, ◌↔◌, ◌⊎◌, refl, bit_and, Bool, true, false, Option, none,
  some, arith, leb, ◌==◌, ==_iff, Bool-cases, inl, inr, List, [], ◌∷◌, leb→le, length, set,
  if◌then◌else◌, Bytes,
}
use account.Base.Bits.{passes_to, passes_at}
use account.Base.Int.{ℤ, pos, negsuc, wrap}
use account.Clib.Strtol.{strtol}
use account.Clib.Text.{strsep, str_eq}
use account.Status.{Ret, is_ok}
use account.User.{IpmiUser}
use account.LoginRule.File.{parse_line_token_to_uint8}
use account.PamLogin.Users.{zero_user}
use account.PamLogin.Entry.{FileRead, unresolved, unopened, unstated, unread, contents}
use account.Uip.Users.{
  Parsed, failed, user, second_token, get_ipmi_user, get_user, get_user_from, uint8_field,
  parse_line_token_to_user_name, store_token, store_tokens, parse_line_to_struct,
  login_interface_all_enable, interface_bit, uip_is_login_interface_enable,
}

bit_table :
    passes_to 8 (λ o. passes_to 256 (λ x. bit_and x (2 ^ o) / 2 ^ o == x / 2 ^ o % 2)) ≡ true
unfolding passes_to
bit_table = refl

all_table : passes_to 8 (λ o. bit_and login_interface_all_enable (2 ^ o) / 2 ^ o == 1) ≡ true
unfolding passes_to
all_table = refl

-- The user is exempt, or its bit for the interface is set.
abbrev pub Enables : ℕ → Option Parsed → Type 0
Enables offset (some (user u)) =
    (u.is_exclude_user ≡ 1) ⊎ (u.user_login_interface / 2 ^ offset % 2 ≡ 1)
Enables offset _ = ⊥

-- The user's mask of interfaces is a byte.
abbrev pub IsByteMask : Option Parsed → Type 0
IsByteMask (some (user u)) = u.user_login_interface < 256
IsByteMask _ = Unit

interface_bit_iff :
    (offset : ℕ) (p : Option Parsed)
    → offset < 8
    → IsByteMask p
    → (interface_bit offset p ≡ some 1) ↔ Enables offset p
interface_bit_iff offset none h b = ((λ e. cc), (λ n. elim n [ ]))
interface_bit_iff offset (some (failed r)) h b = ((λ e. cc), (λ n. elim n [ ]))
interface_bit_iff offset (some (user u)) h b =
    let every = (==_iff _ _).0 (passes_at 8 _ offset all_table h) in
    let one =
      (==_iff _ _).0
        (passes_at 256 _ u.user_login_interface (passes_at 8 _ offset bit_table h) b) in
    elim (Bool-cases (u.is_exclude_user == 1)) [
      | inl p ↦ rw p (ground arith)
      | inr p ↦ rw p (ground arith)
    ]

-- The mask of a user that is read is a byte.
abbrev IsByte : Parsed → Type 0
IsByte (failed r) = Unit
IsByte (user u) = u.user_login_interface < 256

wrap-lt : (v : ℤ) → wrap 256 v < 256
wrap-lt (pos n) = omega arith
wrap-lt (negsuc n) = omega arith

token-lt :
    (t : Bytes) (old : ℕ)
    → is_ok (parse_line_token_to_uint8 t old).0 ≡ true
    → (parse_line_token_to_uint8 t old).1 < 256
unfolding parse_line_token_to_uint8
token-lt t old h = elim (Bool-cases (strtol t).moved) [
  | inl m ↦ rw m (wrap-lt (strtol t).value)
  | inr m ↦ let n = rw m at h in cc
]

if-IsByte : (b : Bool) (x y : Parsed) → IsByte x → IsByte y → IsByte (if b then x else y)
if-IsByte true x y h k = h
if-IsByte false x y h k = k

uint8_field-IsByte :
    (put : ℕ → IpmiUser) (t : Ret × ℕ)
    → ((v : ℕ) → v < 256 → IsByte (user (put v)))
    → (is_ok t.0 ≡ true → t.1 < 256)
    → IsByte (uint8_field put t)
uint8_field-IsByte put (r, v) keep lt = elim (Bool-cases (is_ok r)) [
  | inl e ↦ rw e (keep v (lt e))
  | inr e ↦ rw e tt
]

store_token-IsByte :
    (i : ℕ) (t : Bytes) (u : IpmiUser) → IsByte (user u) → IsByte (store_token i t u)
unfolding store_token parse_line_token_to_user_name
store_token-IsByte i t u h =
    if-IsByte (i == 1) _ _ (field (λ v. record u { user_id = v }) u.user_id (λ v l. h)) (
      if-IsByte (i == 2) _ _ (name t u h) (
        if-IsByte (i == 7) _ _
          (field (λ v. record u { user_enabled = v }) u.user_enabled (λ v l. h))
          (if-IsByte (i == 12) _ _
            (field (λ v. record u { privilege = set u.privilege 1 v }) 0 (λ v l. h))
            (if-IsByte (i == 14) _ _
              (field (λ v. record u { user_lock_status = v }) u.user_lock_status (λ v l. h))
              (if-IsByte (i == 15) _ _
                (field (λ v. record u { user_login_rule = v }) u.user_login_rule (λ v l. h))
                (if-IsByte (i == 16) _ _
                  (field (λ v. record u { user_login_interface = v }) u.user_login_interface
                    (λ v l. l))
                  (if-IsByte (i == 17) _ _
                    (field (λ v. record u { is_exclude_user = v }) u.is_exclude_user (λ v l. h))
                    (if-IsByte (i == 18) _ _
                      (field (λ v. record u { is_password_expired = v }) u.is_password_expired
                        (λ v l. h))
                      (if-IsByte (i == 19) _ _
                        (field (λ v. record u { role_id = v }) u.role_id (λ v l. h)) h)))))))))
  where
    field :
        (put : ℕ → IpmiUser) (old : ℕ)
        → ((v : ℕ) → v < 256 → IsByte (user (put v)))
        → IsByte (uint8_field put (parse_line_token_to_uint8 t old))
    field put old keep =
        uint8_field-IsByte put (parse_line_token_to_uint8 t old) keep (token-lt t old)

    name : (t : Bytes) (u : IpmiUser) → IsByte (user u) → IsByte (parse_line_token_to_user_name t u)
    name t u h = if-IsByte (leb 17 (length t)) _ _ tt h

store_tokens-IsByte :
    (i : ℕ) (ts : List Bytes) (p : Parsed) → IsByte p → IsByte (store_tokens i ts p)
unfolding store_tokens
store_tokens-IsByte i [] (failed r) h = tt
store_tokens-IsByte i [] (user u) h = h
store_tokens-IsByte i (t ∷ ts) (failed r) h = tt
store_tokens-IsByte i (t ∷ ts) (user u) h =
    store_tokens-IsByte (i + 1) ts (store_token (i + 1) t u) (store_token-IsByte (i + 1) t u h)

if-IsByteMask :
    (b : Bool) (x y : Option Parsed) → IsByteMask x → IsByteMask y → IsByteMask (if b then x else y)
if-IsByteMask true x y h k = h
if-IsByteMask false x y h k = k

choice-IsByteMask :
    (b : Bool) (x y : Option Parsed)
    → IsByteMask x
    → IsByteMask y
    → IsByteMask (elim b [ true ↦ x | false ↦ y ])
choice-IsByteMask true x y h k = h
choice-IsByteMask false x y h k = k

named-IsByteMask :
    (o : Option Bytes) (name : Bytes) (x y : Option Parsed)
    → IsByteMask x
    → IsByteMask y
    → IsByteMask
        (elim o [ none ↦ none | some token ↦ elim (str_eq token name) [ true ↦ x | false ↦ y ] ])
named-IsByteMask none name x y h k = tt
named-IsByteMask (some token) name x y h k = choice-IsByteMask (str_eq token name) x y h k

get_user_from-IsByteMask :
    (name : Bytes) (lines : List Bytes) → IsByteMask (get_user_from name lines)
unfolding get_user_from parse_line_to_struct
get_user_from-IsByteMask name [] = tt
get_user_from-IsByteMask name (line ∷ lines) =
    let read = store_tokens-IsByte 0 (strsep b':' line) (user zero_user) (omega arith) in
    let later = get_user_from-IsByteMask name lines in
    if-IsByteMask (length line == 0) _ _ tt (
      named-IsByteMask (second_token (strsep b':' line)) name
        (some (parse_line_to_struct line zero_user)) (get_user_from name lines) read later)

get_ipmi_user-IsByteMask : (file : FileRead) (name : Bytes) → IsByteMask (get_ipmi_user file name)
unfolding get_ipmi_user get_user
get_ipmi_user-IsByteMask unresolved name = tt
get_ipmi_user-IsByteMask unopened name = tt
get_ipmi_user-IsByteMask unstated name = tt
get_ipmi_user-IsByteMask unread name = tt
get_ipmi_user-IsByteMask (contents []) name = tt
get_ipmi_user-IsByteMask (contents (c ∷ s)) name = get_user_from-IsByteMask _ _

bit_left : {A : Type 0} (offset : ℕ) → offset < 8 → ((8 ≤ offset) ⊎ A) → A
bit_left offset h (inl p) = absurd (omega arith)
bit_left offset h (inr a) = a

-- uip_is_login_interface_enable gives 0 where there is no name, and for a name it gives 1 exactly where
-- the offset is 8 or more, or a user of this name is read that is exempt or has the bit of the offset
-- set in its mask of interfaces.
uip_is_login_interface_enable_iff :
    (file : FileRead) (name : Bytes) (offset : ℕ)
    → ((uip_is_login_interface_enable file (some name) offset ≡ some 1)
        ↔ ((8 ≤ offset) ⊎ Enables offset (get_ipmi_user file name)))
      × (uip_is_login_interface_enable file none offset ≡ some 0)
unfolding uip_is_login_interface_enable
uip_is_login_interface_enable_iff file name offset =
    let bit = interface_bit_iff offset (get_ipmi_user file name) in
    let mask = get_ipmi_user-IsByteMask file name in
    elim (Bool-cases (leb 8 offset)) [
      | inl p ↦ rw p (((λ _. inl (leb→le _ _ p)), (λ _. refl)), refl)
      | inr p ↦
          let low : offset < 8 = ground arith in
          let (there, back) = bit low mask in
          rw p (((λ e. inr (there e)), (λ s. back (bit_left offset low s))), refl)
    ]
