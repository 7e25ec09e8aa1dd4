-- ===== src/Ldap/Escape/Safe.antt =====
-- What escape_string of libiam/lualib-src/iam_core/ldap_auth.c promises: the text fits, no byte of it
-- is special to a filter, and it can be read back.
use account.Base.{
  ℕ, ◌+◌, ◌-◌, ◌*◌, ◌%◌, ◌^◌, ◌≤◌, ◌<◌, ◌≡◌, ◌≢◌, refl, ap, ◌∙◌, ◌⊎◌, inl, inr, Option, none, some,
  [], ◌∷◌, ◌++◌, arith, leb, ltb, ◌==◌, if◌then◌else◌, Bytes, length, All, All-append,
  length-append, Bool-cases,
}
use account.Ldap.Escape.{escape_len, escape_byte, escape_from, escape_string}

-- The value of a hexadecimal digit.
abbrev digit : ℕ → ℕ
digit c = if leb c b'9' then c - b'0' else c - 87

-- Reading a filter value of RFC 4515 back.
unfoldable pub unescape : Bytes → Bytes
unescape [] = []
unescape (c ∷ []) = c ∷ []
unescape (c ∷ a ∷ []) = c ∷ a ∷ []
unescape (c ∷ a ∷ b ∷ s) =
    let plain = unescape (a ∷ b ∷ s) in
    let escaped = unescape s in if c == b'\\' then (digit a * 16 + digit b) ∷ escaped else c ∷ plain

-- All bytes of a name, escaped.
unfoldable pub escaped : Bytes → Bytes
escaped [] = []
escaped (c ∷ s) = escape_byte c ++ escaped s

-- A byte that ends or opens a part of a filter, or matches anything.
abbrev pub IsPlain : ℕ → Type 0
IsPlain c = (c ≢ b'(') × (c ≢ b')') × (c ≢ b'*')

unescape-plain : (c : ℕ) (s : Bytes) → c ≢ b'\\' → unescape (c ∷ s) ≡ c ∷ unescape s
unfolding unescape
unescape-plain c [] h = refl
unescape-plain c (a ∷ []) h = refl
unescape-plain c (a ∷ b ∷ s) h = ground arith

-- A byte stands for itself, or `\\` and two digits stand for it.
escape_byte-cases :
    (c : ℕ)
    → (IsPlain c × (c ≢ b'\\') × (escape_byte c ≡ c ∷ []))
      ⊎ ((a : ℕ) × (b : ℕ) × (escape_byte c ≡ b'\\' ∷ a ∷ b ∷ [])
          × (digit a * 16 + digit b ≡ c)
          × IsPlain a
          × IsPlain b)
escape_byte-cases c = elim (Bool-cases (c == b'(')) [
  | inl e ↦ inr (b'2', b'8', ground arith, ground arith, ground arith, ground arith)
  | inr e1 ↦ elim (Bool-cases (c == b')')) [
    | inl e ↦ inr (b'2', b'9', ground arith, ground arith, ground arith, ground arith)
    | inr e2 ↦ elim (Bool-cases (c == b'*')) [
      | inl e ↦ inr (b'2', b'a', ground arith, ground arith, ground arith, ground arith)
      | inr e3 ↦ elim (Bool-cases (c == b'\\')) [
        | inl e ↦ inr (b'5', b'c', ground arith, ground arith, ground arith, ground arith)
        | inr e4 ↦ inl (ground arith, ground arith, ground arith)
      ]
    ]
  ]
]

unescape-byte : (c : ℕ) (s : Bytes) → unescape (escape_byte c ++ s) ≡ c ∷ unescape s
unfolding unescape
unescape-byte c s = elim (escape_byte-cases c) [
  | inl (p, n, e) ↦ rw e (unescape-plain c s n)
  | inr (a, b, e, v, p, q) ↦ rw e (ap (λ x. x ∷ unescape s) v)
]

length-escape_byte : (c : ℕ) → (1 ≤ length (escape_byte c)) × (length (escape_byte c) ≤ 3)
length-escape_byte c = elim (escape_byte-cases c) [
  | inl (p, n, e) ↦ rw e (omega arith, omega arith)
  | inr (a, b, e, v, p, q) ↦ rw e (omega arith, omega arith)
]

escape_byte-IsPlain : (c : ℕ) → All IsPlain (escape_byte c)
escape_byte-IsPlain c = elim (escape_byte-cases c) [
  | inl (p, n, e) ↦ rw e (p, tt)
  | inr (a, b, e, v, p, q) ↦ rw e (omega arith, (p, (q, tt)))
]

unescape-escaped : (s : Bytes) → unescape (escaped s) ≡ s
unfolding unescape escaped
unescape-escaped [] = refl
unescape-escaped (c ∷ s) = unescape-byte c (escaped s) ∙ ap (◌∷◌ c) (unescape-escaped s)

escaped-IsPlain : (s : Bytes) → All IsPlain (escaped s)
unfolding escaped
escaped-IsPlain [] = tt
escaped-IsPlain (c ∷ s) =
    All-append IsPlain (escape_byte c) (escaped s) (escape_byte-IsPlain c) (escaped-IsPlain s)

-- With room for the name, or not: either the whole name is escaped, with its terminator in the
-- buffer, or there is none.
escape_from-cases :
    (n count : ℕ) (s : Bytes)
    → 3 ≤ n
    → n ≤ 65535
    → count < n
    → ((escape_from n count s ≡ some (escaped s)) × (count + length (escaped s) < n))
      ⊎ ((escape_from n count s ≡ none) × (n < count + length (escaped s) + 3))
unfolding escape_from escaped
escape_from-cases n count [] l h r = inl (refl, omega arith)
escape_from-cases n count (c ∷ s) l h r =
    let bytes = escape_byte c in
    let next = (count + length bytes) % 2 ^ 16 in
    let size = length-escape_byte c in
    let whole = length-append bytes (escaped s) in
    elim (Bool-cases (ltb count ((n + (2 ^ 64 - escape_len)) % 2 ^ 64))) [
      | inl t ↦
          let below : next < n = ground (arith, size) in
          let same : next ≡ count + length bytes = ground (arith, size) in
          elim (escape_from-cases n next s l h below) [
            | inl (e, b) ↦ inl (rw (t, e) refl, omega (arith, whole, b, same))
            | inr (e, b) ↦ inr (rw (t, e) refl, omega (arith, whole, b, same))
          ]
      | inr t ↦ inr (rw t refl, ground (arith, size, whole))
    ]

-- What a result of escape_string is worth.
abbrev pub IsSafe : Bytes → ℕ → Option Bytes → Type 0
IsSafe username str_len none = str_len < length (escaped username) + 3
IsSafe username str_len (some s) = (length s < str_len) × All IsPlain s × (unescape s ≡ username)

-- For a buffer of 3 to 65535 bytes, the text that escape_string gives fits the buffer with its
-- terminator, holds no parenthesis and no asterisk, and reads back as the name; where it gives none,
-- the escaped name and two more bytes do not fit the buffer with the terminator.
pub escape_string-IsSafe :
    (username : Bytes) (str_len : ℕ)
    → 3 ≤ str_len
    → str_len ≤ 65535
    → IsSafe username str_len (escape_string username str_len)
escape_string-IsSafe username str_len l h =
    elim (escape_from-cases str_len 0 username l h (omega arith)) [
      | inl (e, b) ↦ rw e (omega (arith, b), escaped-IsPlain username, unescape-escaped username)
      | inr (e, b) ↦ rw e (omega (arith, b))
    ]
