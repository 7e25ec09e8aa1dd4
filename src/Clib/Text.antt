-- ===== src/Clib/Text.antt =====
-- <string.h>: comparison, search, and the tokens that repeated calls of `strsep` return.
use Prim.Native.Char.{code}
use Prim.Native.String.{String}
use account.Base.{
  ℕ, suc, ◌≡◌, refl, ◌↔◌, Bool, true, false, ◌&&◌, ◌||◌, Option, none, some, List, [], ◌∷◌, ◌++◌,
  arith, ◌==◌, if◌then◌else◌, Bytes, All,
}
use account.Clib.Ctype.{tolower}

-- A literal of the source: its bytes, every one being ASCII.
abbrev pub codes : String → Bytes
codes String.[] = []
codes (String.◌∷◌ c s) = code c ∷ codes s

-- strcmp(a, b) == 0
unfoldable pub str_eq : Bytes → Bytes → Bool
str_eq [] [] = true
str_eq (x ∷ xs) (y ∷ ys) = x == y && str_eq xs ys
str_eq _ _ = false

pub str_eq_iff : (a b : Bytes) → (str_eq a b ≡ true) ↔ (a ≡ b)
unfolding str_eq
str_eq_iff (x ∷ a) (y ∷ b) = ground (arith, str_eq_iff a b)
str_eq_iff _ _ = ground arith

-- strncmp(s, p, strlen(p)) == 0
unfoldable pub starts_with : Bytes → Bytes → Bool
starts_with [] s = true
starts_with (x ∷ p) [] = false
starts_with (x ∷ p) (c ∷ s) = c == x && starts_with p s

-- strcasecmp(a, b) == 0
unfoldable pub str_eq_nocase : Bytes → Bytes → Bool
str_eq_nocase [] [] = true
str_eq_nocase (x ∷ xs) (y ∷ ys) = tolower x == tolower y && str_eq_nocase xs ys
str_eq_nocase _ _ = false

-- strncasecmp(s, p, strlen(p)) == 0
unfoldable pub starts_with_nocase : Bytes → Bytes → Bool
starts_with_nocase [] s = true
starts_with_nocase (x ∷ p) [] = false
starts_with_nocase (x ∷ p) (c ∷ s) = tolower c == tolower x && starts_with_nocase p s

-- strstr(s, p) != NULL, for a non-empty p
unfoldable pub has_substring : Bytes → Bytes → Bool
has_substring p [] = false
has_substring p (c ∷ s) = starts_with p (c ∷ s) || has_substring p s

-- strcasestr(s, p) != NULL, for a non-empty p
unfoldable pub has_substring_nocase : Bytes → Bytes → Bool
has_substring_nocase p [] = false
has_substring_nocase p (c ∷ s) = starts_with_nocase p (c ∷ s) || has_substring_nocase p s

-- strchr(s, c) != NULL, for c other than the terminator
unfoldable pub has_char : ℕ → Bytes → Bool
has_char c [] = false
has_char c (x ∷ s) = x == c || has_char c s

-- The offset that strchr finds.
unfoldable pub strchr : ℕ → Bytes → Option ℕ
strchr c [] = none
strchr c (x ∷ s) =
    let later = strchr c s in
    if x == c then some 0 else elim later [ none ↦ none | some i ↦ some (suc i) ]

-- The offset that strrchr finds.
unfoldable pub strrchr : ℕ → Bytes → Option ℕ
strrchr c [] = none
strrchr c (x ∷ s) = elim (strrchr c s) [
  | some i ↦ some (suc i)
  | none ↦ if x == c then some 0 else none
]

abbrev pub cons_head : ℕ → List Bytes → List Bytes
cons_head c [] = (c ∷ []) ∷ []
cons_head c (t ∷ ts) = (c ∷ t) ∷ ts

-- All that `while ((token = strsep(&p, d)))` sees: every piece between two delimiters, empty ones
-- included, and so at least one.
unfoldable pub strsep : ℕ → Bytes → List Bytes
strsep d [] = [] ∷ []
strsep d (c ∷ s) = let rest = strsep d s in if c == d then [] ∷ rest else cons_head c rest

abbrev pub nonempty : List Bytes → List Bytes
nonempty [] = []
nonempty ([] ∷ ts) = nonempty ts
nonempty ((c ∷ t) ∷ ts) = (c ∷ t) ∷ nonempty ts

-- All that repeated calls of `strtok_s` with one delimiter return: the pieces that are not empty.
abbrev pub strtok : ℕ → Bytes → List Bytes
strtok d s = nonempty (strsep d s)

-- The text with these pieces.
abbrev pub join : ℕ → Bytes → List Bytes → Bytes
join d t [] = t
join d t (u ∷ us) = t ++ (d ∷ join d u us)

pub strsep-piece :
    (d : ℕ) (t rest : Bytes) → has_char d t ≡ false → strsep d (t ++ (d ∷ rest)) ≡ t ∷ strsep d rest
unfolding strsep has_char
strsep-piece d [] rest h = ground arith
strsep-piece d (c ∷ t) rest h = ground (arith, strsep-piece d t rest)

strsep-last : (d : ℕ) (t : Bytes) → has_char d t ≡ false → strsep d t ≡ t ∷ []
unfolding strsep has_char
strsep-last d [] h = refl
strsep-last d (c ∷ t) h = ground (arith, strsep-last d t)

-- Pieces that do not hold the delimiter come back as they were joined.
pub strsep-join :
    (d : ℕ) (t : Bytes) (ts : List Bytes)
    → All (λ u. has_char d u ≡ false) (t ∷ ts)
    → strsep d (join d t ts) ≡ t ∷ ts
strsep-join d t [] h = strsep-last d t h.0
strsep-join d t (u ∷ us) h =
    ground (arith, strsep-piece d t (join d u us) h.0, strsep-join d u us h.1)
