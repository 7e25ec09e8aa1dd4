-- ===== src/PamLogin/Users/Lookup.antt =====
-- Which line of the privilege file decides about a user.
use account.Base.{
  ℕ, suc, ◌≡◌, refl, ◌∙◌, ap, ◌≢◌, Bool, true, false, ◌||◌, none, List, [], ◌∷◌, ◌++◌, arith, Bytes,
  length, All,
}
use account.Base.Int.{pos, eqb_ℤ}
use account.Clib.Scan.{to_int}
use account.Clib.Strtol.{strtol, Strtol}
use account.Clib.Text.{strsep}
use account.PamLogin.Users.{zero_user, first_token, parse_line_to_struct, get_user_from, get_user}

abbrev pub id_of : Bytes → Strtol
id_of line = strtol (first_token (strsep b':' line))

-- The line begins with another number, or with none that is this one.
abbrev pub OtherId : ℕ → Bytes → Type 0
OtherId uid line = (length line ≢ 0) × (eqb_ℤ (to_int (id_of line).value) (pos uid) ≡ false)

-- The line begins with this number.
abbrev pub HasId : ℕ → Bytes → Type 0
HasId uid line =
    (length line ≢ 0) × ((id_of line).moved ≡ true) × (to_int (id_of line).value ≡ pos uid)

skip_line :
    (errno_set : Bool) (uid : ℕ) (line : Bytes) (lines : List Bytes)
    → OtherId uid line
    → get_user_from errno_set (pos uid) (line ∷ lines)
      ≡ get_user_from (errno_set || (id_of line).erange) (pos uid) lines
unfolding get_user_from
skip_line errno_set uid line lines (n, o) = ground arith

take_line :
    (errno_set : Bool) (uid : ℕ) (line : Bytes) (lines : List Bytes)
    → HasId (suc uid) line
    → get_user_from errno_set (pos (suc uid)) (line ∷ lines) ≡ parse_line_to_struct line zero_user
unfolding get_user_from
take_line errno_set uid line lines (n, m, o) = rw (o, m) (ground arith)

first_line :
    (errno_set : Bool) (uid : ℕ) (before : List Bytes) (line : Bytes) (lines : List Bytes)
    → All (OtherId (suc uid)) before
    → HasId (suc uid) line
    → get_user_from errno_set (pos (suc uid)) (before ++ (line ∷ lines))
      ≡ parse_line_to_struct line zero_user
first_line errno_set uid [] line lines a h = take_line errno_set uid line lines h
first_line errno_set uid (b ∷ before) line lines a h =
    skip_line errno_set (suc uid) b (before ++ (line ∷ lines)) a.0
    ∙ first_line (errno_set || (id_of b).erange) uid before line lines a.1 h

no_line :
    (errno_set : Bool) (uid : ℕ) (lines : List Bytes)
    → All (OtherId uid) lines
    → get_user_from errno_set (pos uid) lines ≡ none
no_line errno_set uid [] a = unfold get_user_from in refl
no_line errno_set uid (b ∷ lines) a =
    skip_line errno_set uid b lines a.0 ∙ no_line (errno_set || (id_of b).erange) uid lines a.1

-- For an id that is not 0, whatever errno is, the first line with the id decides, where no line before
-- it is empty; where every line is without the id and not empty, there is no user.
get_user-first :
    (errno_set : Bool) (uid : ℕ) (text : Bytes) (before : List Bytes) (line : Bytes)
    (after : List Bytes)
    → All (OtherId (suc uid)) before
    → HasId (suc uid) line
    → strsep b'\n' text ≡ before ++ (line ∷ after)
    → (get_user errno_set (pos (suc uid)) text ≡ parse_line_to_struct line zero_user)
      × ((other : Bytes)
          → All (OtherId (suc uid)) (strsep b'\n' other)
          → get_user errno_set (pos (suc uid)) other ≡ none)
unfolding get_user
get_user-first errno_set uid text before line after a h e = (
  ap (get_user_from errno_set (pos (suc uid))) e ∙ first_line errno_set uid before line after a h,
  λ other b. no_line errno_set (suc uid) (strsep b'\n' other) b,
)
