-- ===== src/Tests/Password.antt =====
-- Passwords and patterns.
use account.Base.{
  ℕ, ◌≡◌, refl, ap, ◌↔◌, ◌≢◌, true, Option, none, some, [], ◌++◌, if◌then◌else◌, arith, Bytes,
  get_or, length, replicate, length-take, take, length-append, length-replicate,
}
use account.Clib.Text.{codes, has_char, has_substring}
use account.Status.{ok, err}
use account.Password.{
  dal_check_complexity_status, is_pass_complexity_check_pass, flags_loop, flags_step, isspecial,
}
use account.Password.Compare.{Digests32, Complies, is_pass_complexity_check_pass_iff}
use account.Password.Complexity.{IsComplex, dal_check-IsComplex}
use account.Password.Pattern.{
  RegexLib, IsAnchored, pattern_validator, check_pattern, pattern_validator-IsAnchored,
  check_pattern_iff,
}

-- The first 32 bytes stand for the digest.
abbrev sha256 : Bytes → Option Bytes
sha256 s = some (take 32 (s ++ replicate 32 0))

sha256-Digests32 : Digests32 sha256
sha256-Digests32 s d e =
    let a = ap (λ o. elim o as (λ x. ℕ) [ none ↦ 0 | some t ↦ length t ]) e in
    omega (
      arith,
      length-take 32 (s ++ replicate 32 0),
      length-append s (replicate 32 0),
      length-replicate {A = ℕ} 32 0,
    )

abbrev name : Bytes
name = codes "Administrator"

abbrev passwd : Bytes
passwd = codes "Admin@9000"

digests-differ :
    take 32 (name ++ replicate 32 0) ≡ take 32 (passwd ++ replicate 32 0) → name ≡ passwd
digests-differ e =
    let fifth : ◌≡◌ {A = ℕ} 105 64 = ap (λ (l : Bytes). get_or l 5 0) e in absurd (omega arith)

name-ne-nil : name ≢ []
name-ne-nil e = let first : ◌≡◌ {A = ℕ} 65 0 = ap (λ (l : Bytes). get_or l 0 0) e in omega arith

is_pass_complexity_check_pass_iff_example :
    (is_pass_complexity_check_pass sha256 (some name) (some passwd) 8 ≡ true)
    ↔ Complies name passwd 8
is_pass_complexity_check_pass_iff_example =
    is_pass_complexity_check_pass_iff sha256 name passwd (take 32 (name ++ replicate 32 0))
      (take 32 (passwd ++ replicate 32 0)) 8 sha256-Digests32 refl refl digests-differ (omega arith)
      (omega arith) name-ne-nil

dal_check-IsComplex_example : (dal_check_complexity_status (some passwd) ≡ ok) ↔ IsComplex passwd
dal_check-IsComplex_example = dal_check-IsComplex passwd

-- Only "^a+$" compiles, and matches what holds an a.
abbrev lib : RegexLib
lib = record {
  Regex = Bytes;
  regex_new = (λ pattern. if has_substring (codes "a+") pattern then some pattern else none);
  regex_match = (λ regex s. has_substring (codes "a") s);
}

pattern_validator-IsAnchored_example :
    (pattern_validator (codes "^a+$") ≡ ok) ↔ IsAnchored (codes "^a+$")
pattern_validator-IsAnchored_example = pattern_validator-IsAnchored (codes "^a+$")

check_pattern_iff_example :
    (check_pattern lib (codes "^a+$") ≡ ok)
    ↔ (IsAnchored (codes "^a+$") × ((regex : Bytes) × (lib.regex_new (codes "^a+$") ≡ some regex)))
check_pattern_iff_example = check_pattern_iff lib (codes "^a+$")

strong_and_weak :
    (dal_check_complexity_status (some passwd) ≡ ok)
    × (dal_check_complexity_status (some (codes "admin@")) ≡ err)
unfolding dal_check_complexity_status flags_loop flags_step isspecial has_char
strong_and_weak = (refl, refl)
