-- ===== src/Clib/Unsigned.antt =====
-- The conversion %u of `fscanf`, with the input that it takes, and the decimal numbers it reads.
use account.Base.{
  ℕ, ◌+◌, ◌-◌, ◌*◌, ◌%◌, ◌^◌, ◌≡◌, Bool, true, false, Option, none, some, List, [], ◌∷◌, ◌++◌, ltb,
  ◌==◌, if◌then◌else◌, arith, Bytes,
}
use account.Clib.Strtol.{digits, skip_space, starts_with_digit}
use account.Clib.Strtol.Numbers.{digit, digits-stop, digits-step}

-- strtoul holds a magnitude to 64 bits, and the `unsigned int` has 32 of them.
abbrev low32 : Bool → ℕ → ℕ
low32 false n = if ltb (2 ^ 64 - 1) n then 2 ^ 32 - 1 else n % 2 ^ 32
low32 true n = if ltb (2 ^ 64 - 1) n then 2 ^ 32 - 1 else (2 ^ 32 - n % 2 ^ 32) % 2 ^ 32

unsigned_digits : Bool → Bytes → Option ℕ × Bytes
unsigned_digits negative s =
    if starts_with_digit s
    then (let (n, rest) = digits 0 s in (some (low32 negative n), rest))
    else (none, s)

unsigned_sign : Bytes → Option ℕ × Bytes
unfolding unsigned_digits
unsigned_sign [] = (none, [])
unsigned_sign (c ∷ s) =
    if c == b'-'
    then unsigned_digits true s
    else if c == b'+'
    then unsigned_digits false s
    else unsigned_digits false (c ∷ s)

-- The value, if there is a number, and the rest of the input.
unfoldable pub scan_unsigned : Bytes → Option ℕ × Bytes
unfolding unsigned_sign skip_space
scan_unsigned s = unsigned_sign (skip_space s)

-- The digits of a number as text, and the number behind `acc`.
abbrev pub numeral : List ℕ → Bytes
numeral [] = []
numeral (d ∷ ds) = digit d ∷ numeral ds

abbrev pub value_of : ℕ → List ℕ → ℕ
value_of acc [] = acc
value_of acc (d ∷ ds) = value_of (acc * 10 + d % 10) ds

digits-numeral :
    (acc : ℕ) (ds : List ℕ) (rest : Bytes)
    → starts_with_digit rest ≡ false
    → digits acc (numeral ds ++ rest) ≡ (value_of acc ds, rest)
digits-numeral acc [] rest stop = digits-stop acc rest stop
digits-numeral acc (d ∷ ds) rest stop =
    rw (digits-step acc d (numeral ds ++ rest)) (digits-numeral (acc * 10 + d % 10) ds rest stop)

-- A number of any digits is read whole, and cut to 32 bits.
pub scan_unsigned-numeral :
    (d : ℕ) (ds : List ℕ) (rest : Bytes)
    → starts_with_digit rest ≡ false
    → scan_unsigned (numeral (d ∷ ds) ++ rest) ≡ (some (low32 false (value_of 0 (d ∷ ds))), rest)
unfolding scan_unsigned
scan_unsigned-numeral d ds rest stop = let e = digits-numeral 0 (d ∷ ds) rest stop in ground arith
