-- ===== src/Clib/Scan.antt =====
-- `sscanf` for the conversions that the sources use: %d, %[^c] with a width, literals and blanks.
use account.Base.{ℕ, zero, suc, ◌^◌, List, [], ◌∷◌, ◌==◌, if◌then◌else◌, Bytes}
use account.Base.Int.{ℤ, wrap, signed}
use account.Clib.Strtol.{strtol, skip_space}

pub data Directive : Type 0 where
  -- %d
  int : Directive
  -- a blank of the format
  blank : Directive
  -- any other byte of the format
  lit : ℕ → Directive

-- What %d stores in an `int`.
abbrev pub to_int : ℤ → ℤ
to_int v = signed (2 ^ 32) (wrap (2 ^ 32) v)

-- The values converted before the input and the format part.
unfoldable pub scan : List Directive → Bytes → List ℤ
unfolding strtol skip_space
scan [] s = []
scan (int ∷ f) s =
    let r = strtol s in let later = scan f r.rest in if r.moved then to_int r.value ∷ later else []
scan (blank ∷ f) s = scan f (skip_space s)
scan (lit c ∷ f) [] = []
scan (lit c ∷ f) (x ∷ s) = let later = scan f s in if x == c then later else []

-- %n[^c]: at most `n` bytes other than `c`, and what follows.
unfoldable pub scan_until : ℕ → ℕ → Bytes → Bytes × Bytes
scan_until c zero s = ([], s)
scan_until c (suc n) [] = ([], [])
scan_until c (suc n) (x ∷ s) =
    let (taken, rest) = scan_until c n s in if x == c then ([], x ∷ s) else (x ∷ taken, rest)
