-- ===== src/Uip/Users/File.antt =====
-- The user of a name in a privilege file of printed lines.
use account.Base.{
  ℕ, ◌≡◌, ◌≢◌, refl, ap, ◌∙◌, true, false, some, List, [], ◌∷◌, ◌++◌, arith, Bytes, length, All,
  ◌==◌,
}
use account.Clib.Text.{strsep, strsep-piece, str_eq, str_eq_iff}
use account.PamLogin.Users.{zero_user}
use account.Uip.Users.{
  failed, user, second_token, parse_line_to_struct, get_user_from, get_user, user_not_found_in_ipmi,
}
use account.Uip.Users.Line.{
  Entry, IsEntry, byte_text, line_of, user_of, line_of-has_char, strsep-line_of,
}
use account.Uip.Users.RoundTrip.{parse_line_to_struct-line_of}

-- Each line with its end.
abbrev pub file_of : List Entry → Bytes → Bytes
file_of [] rest = rest
file_of (e ∷ es) rest = line_of e ++ (b'\n' ∷ file_of es rest)

middle-length : (s : Bytes) (c : ℕ) (t : Bytes) → (length (s ++ (c ∷ t)) == 0) ≡ false
middle-length [] c t = ground arith
middle-length (x ∷ s) c t = ground arith

module _ (name line token : Bytes) (lines : List Bytes) (nonempty : (length line == 0) ≡ false)
    (second : second_token (strsep b':' line) ≡ some token) where
  skip_line :
      str_eq token name ≡ false → get_user_from name (line ∷ lines) ≡ get_user_from name lines
  unfolding get_user_from
  skip_line ne = ground arith

  take_line :
      str_eq token name ≡ true
      → get_user_from name (line ∷ lines) ≡ some (parse_line_to_struct line zero_user)
  unfolding get_user_from
  take_line e = ground arith

line_of-length : (e : Entry) → (length (line_of e) == 0) ≡ false
line_of-length e = middle-length (byte_text e.id) b':' _

line_of-second : (e : Entry) → IsEntry e → second_token (strsep b':' (line_of e)) ≡ some e.name
line_of-second e h = ap second_token (strsep-line_of e h)

other_line :
    (name : Bytes) (e : Entry) (lines : List Bytes)
    → IsEntry e
    → e.name ≢ name
    → get_user_from name (line_of e ∷ lines) ≡ get_user_from name lines
other_line name e lines h ne =
    let differs : str_eq e.name name ≡ false = ground (arith, str_eq_iff e.name name) in
    skip_line name (line_of e) e.name lines (line_of-length e) (line_of-second e h) differs

this_line :
    (e : Entry) (lines : List Bytes)
    → IsEntry e
    → get_user_from e.name (line_of e ∷ lines) ≡ some (user (user_of e))
this_line e lines h =
    take_line e.name (line_of e) e.name lines (line_of-length e) (line_of-second e h)
      ((str_eq_iff e.name e.name).1 refl)
    ∙ ap some (parse_line_to_struct-line_of e h)

skip_lines :
    (name : Bytes) (es : List Entry) (rest : Bytes)
    → All IsEntry es
    → All (λ e. e.name ≢ name) es
    → get_user name (file_of es rest) ≡ get_user name rest
unfolding get_user
skip_lines name [] rest h ne = refl
skip_lines name (e ∷ es) rest h ne =
    ap (get_user_from name)
      (strsep-piece b'\n' (line_of e) (file_of es rest) (line_of-has_char e h.0))
    ∙ other_line name e (strsep b'\n' (file_of es rest)) h.0 ne.0
    ∙ skip_lines name es rest h.1 ne.1

-- In a file of printed users, whatever stands behind them, the first line with a name is read as its
-- user; where no line has the name, the search ends with USER_NOT_FOUND_IN_IPMI.
pub get_user-file :
    (before : List Entry) (e : Entry) (rest : Bytes)
    → All IsEntry before
    → All (λ b. b.name ≢ e.name) before
    → IsEntry e
    → (get_user e.name (file_of before (line_of e ++ (b'\n' ∷ rest))) ≡ some (user (user_of e)))
      × (get_user e.name (file_of before []) ≡ some (failed user_not_found_in_ipmi))
get_user-file before e rest h ne k =
    let here : get_user e.name (line_of e ++ (b'\n' ∷ rest)) ≡ some (user (user_of e)) =
      unfold get_user in
      (ap (get_user_from e.name) (strsep-piece b'\n' (line_of e) rest (line_of-has_char e k))
        ∙ this_line e (strsep b'\n' rest) k) in
    let end : get_user e.name [] ≡ some (failed user_not_found_in_ipmi) =
      unfold get_user get_user_from strsep in refl in
    (skip_lines e.name before _ h ne ∙ here, skip_lines e.name before [] h ne ∙ end)
