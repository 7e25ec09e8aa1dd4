-- ===== src/Clib/Bounded.antt =====
-- The bounded copies of Annex K of the C standard, on buffers with their full size, and the string in a buffer.
use account.Base.{
  ℕ, ◌≡◌, refl, ◌≢◌, All, arith, Bool, true, false, Option, none, some, [], ◌∷◌, ◌++◌, leb, ltb,
  ◌==◌, if◌then◌else◌, Bytes, length, take, drop, replicate,
}

-- The string that starts at the front of a buffer: the bytes before the first terminator.
unfoldable pub c_string : Bytes → Bytes
c_string [] = []
c_string (c ∷ s) = let rest = c_string s in if c == 0 then [] else c ∷ rest

-- A list without a terminator is all of its string.
pub c_string-whole : (s : Bytes) → All (λ b. b ≢ 0) s → c_string s ≡ s
unfolding c_string
c_string-whole [] h = refl
c_string-whole (c ∷ s) h = ground (arith, c_string-whole s h.1)

-- memcpy_s(buf, sizeof(buf), src, strlen(src)): the new buffer, and whether it succeeded. What does
-- not fit clears the buffer.
unfoldable pub memcpy_s : Bytes → Bytes → Bytes × Bool
memcpy_s buf src =
    if leb (length src) (length buf)
    then (src ++ drop (length src) buf, true)
    else (replicate (length buf) 0, false)

-- strcpy_s(dest, size, src): the string stored, if it fits with its terminator.
abbrev pub strcpy_s : ℕ → Bytes → Option Bytes
strcpy_s size src = if ltb (length src) size then some src else none

-- strncpy_s(dest, size, src, count), likewise.
abbrev pub strncpy_s : ℕ → Bytes → ℕ → Option Bytes
strncpy_s size src count = strcpy_s size (take count src)
