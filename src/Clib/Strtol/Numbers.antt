-- ===== src/Clib/Strtol/Numbers.antt =====
-- `strtol` on a decimal number of a fixed number of digits, as the rule texts hold them.
use account.Base.{
  ℕ, ◌+◌, ◌-◌, ◌*◌, ◌/◌, ◌%◌, ◌<◌, ◌≤◌, ◌≡◌, refl, ap, true, false, [], ◌∷◌, ◌++◌, arith, Bytes,
}
use account.Base.Int.{pos}
use account.Clib.Strtol.{Strtol, strtol, digits, skip_space, starts_with_digit, long_max}

-- The digit for the number `d`.
abbrev pub digit : ℕ → ℕ
digit d = 48 + d % 10

abbrev pub two : ℕ → Bytes
two n = digit (n / 10) ∷ digit n ∷ []

abbrev pub four : ℕ → Bytes
four n = digit (n / 1000) ∷ digit (n / 100) ∷ digit (n / 10) ∷ digit n ∷ []

pub skip_space-digit : (n : ℕ) (s : Bytes) → skip_space (digit n ∷ s) ≡ digit n ∷ s
unfolding skip_space
skip_space-digit n s = ground arith

pub digits-stop : (acc : ℕ) (s : Bytes) → starts_with_digit s ≡ false → digits acc s ≡ (acc, s)
unfolding digits
digits-stop acc [] h = refl
digits-stop acc (c ∷ s) h = ground arith

pub digits-step : (acc d : ℕ) (s : Bytes) → digits acc (digit d ∷ s) ≡ digits (acc * 10 + d % 10) s
unfolding digits
digits-step acc d s = let e : 48 + d % 10 - 48 ≡ d % 10 = omega arith in rw e (ground arith)

abbrev parsed : ℕ → Bytes → Strtol
parsed n s = record { value = pos n; rest = s; moved = true; erange = false }

strtol-digit :
    (d n : ℕ) (s rest : Bytes)
    → digits 0 (digit d ∷ s) ≡ (n, rest)
    → n ≤ long_max
    → strtol (digit d ∷ s) ≡ parsed n rest
unfolding strtol
strtol-digit d n s rest e h = ground arith

-- A number of two digits, whatever follows that is no digit.
pub strtol-two :
    (n : ℕ) (rest : Bytes)
    → n < 100
    → starts_with_digit rest ≡ false
    → strtol (two n ++ rest) ≡ parsed n rest
strtol-two n rest h stop = strtol-digit (n / 10) n (digit n ∷ rest) rest value (omega arith)
  where
    value : digits 0 (two n ++ rest) ≡ (n, rest)
    value =
        rw (digits-step, digits-step, digits-stop _ rest stop)
          (ap (λ (m : ℕ). (m, rest)) (omega arith))

-- A number of four digits.
pub strtol-four :
    (n : ℕ) (rest : Bytes)
    → n < 10000
    → starts_with_digit rest ≡ false
    → strtol (four n ++ rest) ≡ parsed n rest
strtol-four n rest h stop =
    strtol-digit (n / 1000) n (digit (n / 100) ∷ digit (n / 10) ∷ digit n ∷ rest) rest value
      (omega arith)
  where
    value : digits 0 (four n ++ rest) ≡ (n, rest)
    value = simp (digits-step, digits-stop _ rest stop) (ap (λ (m : ℕ). (m, rest)) (omega arith))
