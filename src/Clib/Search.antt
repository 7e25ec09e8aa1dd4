-- ===== src/Clib/Search.antt =====
-- Where `strchr` and `strrchr` find a byte.
use account.Base.{ℕ, ◌≡◌, refl, false, none, some, [], ◌∷◌, ◌++◌, arith, Bytes, length}
use account.Clib.Text.{has_char, strchr, strrchr}

pub strchr-none : (c : ℕ) (s : Bytes) → has_char c s ≡ false → strchr c s ≡ none
unfolding has_char strchr
strchr-none c [] h = refl
strchr-none c (x ∷ s) h = ground (arith, strchr-none c s)

pub strrchr-none : (c : ℕ) (s : Bytes) → has_char c s ≡ false → strrchr c s ≡ none
unfolding has_char strrchr
strrchr-none c [] h = refl
strrchr-none c (x ∷ s) h = ground (arith, strrchr-none c s)

-- The first one stands behind what holds none.
pub strchr-append :
    (c : ℕ) (s t : Bytes) → has_char c s ≡ false → strchr c (s ++ (c ∷ t)) ≡ some (length s)
unfolding has_char strchr
strchr-append c [] t h = ground arith
strchr-append c (x ∷ s) t h = ground (arith, strchr-append c s t)

-- The last one stands before what holds none.
pub strrchr-append :
    (c : ℕ) (s t : Bytes) → has_char c t ≡ false → strrchr c (s ++ (c ∷ t)) ≡ some (length s)
unfolding strrchr
strrchr-append c [] t h = rw (strrchr-none c t h) (ground arith)
strrchr-append c (x ∷ s) t h = rw (strrchr-append c s t h) refl
