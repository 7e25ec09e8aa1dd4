-- ===== src/Password/Pattern.antt =====
-- `pattern_validator`, `check_pattern` and `verify_passwd_with_pattern` of password.c, over an
-- abstract regular-expression library (GLib's GRegex).
use mathlib.Core.Path.{subst}
use account.Base.{
  ℕ, suc, ◌-◌, ◌≡◌, refl, sym, ap, ◌∙◌, ◌↔◌, Bool, true, ◌||◌, not, Option, none, some, [], ◌∷◌,
  ◌++◌, arith, ◌==◌, if◌then◌else◌, Bytes, length, get_or,
}
use account.Status.{Ret, ok, err, is_ok}

unfoldable pub pattern_validator : Bytes → Ret
pattern_validator pattern =
    let len = length pattern in
    if len == 0
    then err
    else if not (get_or pattern 0 0 == b'^') || not (get_or pattern (len - 1) 0 == b'$')
    then err
    else ok

-- g_regex_new and g_regex_match. A pattern that does not compile gives no regex.
pub record RegexLib : Type 1 where
  pub Regex : Type 0
  pub regex_new : Bytes → Option Regex
  pub regex_match : Regex → Bytes → Bool

module _ (lib : RegexLib) where
  open lib use {Regex, regex_new, regex_match}

  unfoldable pub check_pattern : Bytes → Ret
  check_pattern pattern =
      if not (is_ok (pattern_validator pattern))
      then err
      else elim (regex_new pattern) [ none ↦ err | some regex ↦ ok ]

  unfoldable pub verify_passwd_with_pattern : Bytes → Bytes → Ret
  verify_passwd_with_pattern pattern passwd =
      if not (is_ok (pattern_validator pattern)) then err else elim (regex_new pattern) [
        | none ↦ err
        | some regex ↦ if not (regex_match regex passwd) then err else ok
      ]

-- The pattern is written between `^` and `$`.
abbrev pub IsAnchored : Bytes → Type 0
IsAnchored pattern = (body : Bytes) × (pattern ≡ b'^' ∷ (body ++ (b'$' ∷ [])))

last_of :
    (x : ℕ) (xs : Bytes) → (body : Bytes) × (x ∷ xs ≡ body ++ (get_or (x ∷ xs) (length xs) 0 ∷ []))
last_of x [] = ([], refl)
last_of x (y ∷ ys) = let (body, e) = last_of y ys in (x ∷ body, ap (◌∷◌ x) e)

abbrev last_byte : Bytes → ℕ
last_byte [] = 0
last_byte (x ∷ xs) = get_or (x ∷ xs) (length xs) 0

get_or_last :
    (body : Bytes) (x c : ℕ) → get_or (x ∷ (body ++ (c ∷ []))) (length (body ++ (c ∷ []))) 0 ≡ c
get_or_last [] x c = refl
get_or_last (y ∷ body) x c = get_or_last body y c

sub_one : (n : ℕ) → suc n - 1 ≡ n
sub_one n = omega arith

pattern_validator-ends :
    (x : ℕ) (xs : Bytes)
    → (pattern_validator (x ∷ xs) ≡ ok) ↔ ((x ≡ b'^') × (get_or (x ∷ xs) (length xs) 0 ≡ b'$'))
unfolding pattern_validator
pattern_validator-ends x xs = rw (sub_one (length xs)) (ground arith)

IsAnchored-of_ends :
    (x : ℕ) (xs : Bytes) → x ≡ b'^' → get_or (x ∷ xs) (length xs) 0 ≡ b'$' → IsAnchored (x ∷ xs)
IsAnchored-of_ends x xs first last = go (last_of x xs).0 ((last_of x xs).1 ∙ rw last)
  where
    go : (body : Bytes) → x ∷ xs ≡ body ++ (b'$' ∷ []) → IsAnchored (x ∷ xs)
    go [] e = absurd (ground arith)
    go (y ∷ body) e = (body, ground arith)

-- The validator accepts exactly the patterns written between `^` and `$`.
pub pattern_validator-IsAnchored :
    (pattern : Bytes) → (pattern_validator pattern ≡ ok) ↔ IsAnchored pattern
pattern_validator-IsAnchored [] = (unfold pattern_validator in (λ h. cc), λ (body, e). cc)
pattern_validator-IsAnchored (x ∷ xs) =
    let (there, back) = pattern_validator-ends x xs in
    (
      λ h. IsAnchored-of_ends x xs (there h).0 (there h).1,
      λ (body, e).
          back (ground arith, subst (λ s. last_byte s ≡ b'$') (sym e) (get_or_last body b'^' b'$')),
    )

module _ (lib : RegexLib) where
  open lib use {Regex, regex_new, regex_match}

  verify-parts :
      (pattern passwd : Bytes)
      → (verify_passwd_with_pattern lib pattern passwd ≡ ok) ↔ (
          (pattern_validator pattern ≡ ok)
          × ((regex : Regex) × (regex_new pattern ≡ some regex)
              × (regex_match regex passwd ≡ true)))
  unfolding verify_passwd_with_pattern
  verify-parts pattern passwd = ground arith

  -- A password passes a pattern exactly when the pattern is anchored, compiles, and matches it.
  verify_passwd_with_pattern_iff :
      (pattern passwd : Bytes)
      → (verify_passwd_with_pattern lib pattern passwd ≡ ok) ↔ (
          IsAnchored pattern
          × ((regex : Regex) × (regex_new pattern ≡ some regex)
              × (regex_match regex passwd ≡ true)))
  verify_passwd_with_pattern_iff pattern passwd =
      let (there, back) = verify-parts pattern passwd in
      let (from, to) = pattern_validator-IsAnchored pattern in
      (λ h. (from (there h).0, (there h).1), λ h. back (to h.0, h.1))

  -- `check_pattern` accepts exactly the anchored patterns that compile.
  pub check_pattern_iff :
      (pattern : Bytes)
      → (check_pattern lib pattern ≡ ok)
        ↔ (IsAnchored pattern × ((regex : Regex) × (regex_new pattern ≡ some regex)))
  check_pattern_iff pattern =
      let (from, to) = pattern_validator-IsAnchored pattern in
      (λ h. (from (parts.0 h).0, (parts.0 h).1), λ h. parts.1 (to h.0, h.1))
    where
      parts : (check_pattern lib pattern ≡ ok) ↔ (
          (pattern_validator pattern ≡ ok) × ((regex : Regex) × (regex_new pattern ≡ some regex)))
      parts = unfold check_pattern in ground arith
