-- ===== src/Clib/Strtol.antt =====
-- `strtol(s, &end, 10)` with a 64-bit `long`.
pub mod Numbers
use account.Base.{
  ℕ, zero, suc, ◌+◌, ◌-◌, ◌*◌, ◌^◌, Bool, true, false, [], ◌∷◌, ltb, ◌==◌, if◌then◌else◌, Bytes,
}
use account.Base.Int.{ℤ, pos, negsuc}
use account.Clib.Ctype.{isspace, isdigit}

unfoldable pub skip_space : Bytes → Bytes
skip_space [] = []
skip_space (c ∷ s) = let rest = skip_space s in if isspace c then rest else c ∷ s

-- The value of the leading digits behind `acc`, and what follows them.
unfoldable pub digits : ℕ → Bytes → ℕ × Bytes
digits acc [] = (acc, [])
digits acc (c ∷ s) =
    let rest = digits (acc * 10 + (c - b'0')) s in if isdigit c then rest else (acc, c ∷ s)

abbrev pub starts_with_digit : Bytes → Bool
starts_with_digit [] = false
starts_with_digit (c ∷ s) = isdigit c

-- LONG_MAX
abbrev pub long_max : ℕ
long_max = 2 ^ 63 - 1

-- `moved` is endptr != token, `erange` that errno is set to ERANGE.
pub record Strtol : Type 0 where
  pub value : ℤ
  pub rest : Bytes
  pub moved : Bool
  pub erange : Bool

-- The signed value of a magnitude, held to the range of `long`.
unfoldable pub saturate : Bool → ℕ → ℤ
saturate false n = if ltb long_max n then pos long_max else pos n
saturate true zero = pos 0
saturate true (suc n) = if ltb long_max n then negsuc long_max else negsuc n

abbrev pub out_of_range : Bool → ℕ → Bool
out_of_range false n = ltb long_max n
out_of_range true n = ltb (long_max + 1) n

convert : Bool → Bytes → Bytes → Strtol
unfolding saturate
convert negative whole s =
    if starts_with_digit s
    then (let (n, rest) = digits 0 s in
        record {
          value = saturate negative n;
          rest = rest;
          moved = true;
          erange = out_of_range negative n;
        })
    else record { value = pos 0; rest = whole; moved = false; erange = false }

sign : Bytes → Bytes → Strtol
unfolding convert
sign whole [] = convert false whole []
sign whole (c ∷ s) =
    if c == b'-'
    then convert true whole s
    else if c == b'+'
    then convert false whole s
    else convert false whole (c ∷ s)

unfoldable pub strtol : Bytes → Strtol
unfolding sign skip_space
strtol s = sign s (skip_space s)
