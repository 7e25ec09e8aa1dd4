-- ===== src/Password/Compare.antt =====
-- `user_strcmp_s` and `isstrrev`: what the accumulated difference of two strings tells.
use native.Mathlib.Nat.{mod-eq_of_lt}
use mathlib.Core.List.{reverse-append}
use account.Base.{
  ℕ, zero, suc, ◌+◌, ◌-◌, ◌%◌, ◌^◌, ◌≤◌, ◌<◌, ◌≡◌, refl, sym, ap, ◌∙◌, ◌↔◌, ◌≢◌, true, Option, some,
  [], ◌∷◌, ◌++◌, reverse, arith, Bytes, length, get_or, length-append, bit_xor,
}
use account.Base.Bits.{bit_xor-eq-zero, bit_xor-lt}
use account.Status.{ok}
use account.Password.Complexity.{IsComplex, dal_check-IsComplex}
use account.Password.Diff.{Agree, or_diff, or_diff-zero}
use account.Password.{
  user_strcmp_s, isstrrev, dal_check_complexity_status, is_pass_complexity_check_pass,
}

-- Two lists of one length with the same elements are equal.
list_ext :
    (xs ys : Bytes)
    → length xs ≡ length ys
    → ((j : ℕ) → j < length xs → get_or xs j 0 ≡ get_or ys j 0)
    → xs ≡ ys
list_ext [] [] e h = refl
list_ext [] (y ∷ ys) e h = absurd (omega arith)
list_ext (x ∷ xs) [] e h = absurd (omega arith)
list_ext (x ∷ xs) (y ∷ ys) e h =
    cc (h 0 (omega arith), list_ext xs ys (omega arith) (λ j p. h (suc j) (omega arith)))

reverse-snoc : (x : ℕ) (xs : Bytes) → reverse (x ∷ xs) ≡ reverse xs ++ (x ∷ [])
reverse-snoc x xs = reverse-append (x ∷ []) xs

length-reverse : (xs : Bytes) → length (reverse xs) ≡ length xs
length-reverse [] = refl
length-reverse (x ∷ xs) =
    rw reverse-snoc (omega (arith, length-append (reverse xs) (x ∷ []), length-reverse xs))

get_or-append_left : (xs ys : Bytes) (i : ℕ) → i < length xs → get_or (xs ++ ys) i 0 ≡ get_or xs i 0
get_or-append_left [] ys i h = absurd (omega arith)
get_or-append_left (x ∷ xs) ys zero h = refl
get_or-append_left (x ∷ xs) ys (suc i) h = get_or-append_left xs ys i (omega arith)

get_or-append_end : (xs : Bytes) (x i : ℕ) → i ≡ length xs → get_or (xs ++ (x ∷ [])) i 0 ≡ x
get_or-append_end [] x zero h = refl
get_or-append_end [] x (suc i) h = absurd (omega arith)
get_or-append_end (y ∷ xs) x zero h = absurd (omega arith)
get_or-append_end (y ∷ xs) x (suc i) h = get_or-append_end xs x i (omega arith)

get_or-reverse :
    (xs : Bytes) (i k : ℕ) → i + suc k ≡ length xs → get_or (reverse xs) i 0 ≡ get_or xs k 0
get_or-reverse [] i k h = absurd (omega arith)
get_or-reverse (x ∷ xs) i zero h =
    rw reverse-snoc (get_or-append_end (reverse xs) x i (omega (arith, length-reverse xs)))
get_or-reverse (x ∷ xs) i (suc k) h = rw reverse-snoc (
    get_or-append_left (reverse xs) (x ∷ []) i (omega (arith, length-reverse xs))
    ∙ get_or-reverse xs i k (omega arith))

-- SHA256 fills an array of 32 bytes.
abbrev pub Digests32 : (Bytes → Option Bytes) → Type 0
Digests32 sha256 = (s d : Bytes) → sha256 s ≡ some d → length d ≡ 32

digests-diff :
    (a b : Bytes)
    → length a ≡ 32
    → length b ≡ 32
    → (or_diff 32 0 (λ i. get_or a i 0) (λ i. get_or b i 0) 0 ≡ 0) ↔ (a ≡ b)
digests-diff a b la lb =
    let (there, back) = or_diff-zero 32 0 (λ i. get_or a i 0) (λ i. get_or b i 0) 0 in
    (
      λ h. list_ext a b (la ∙ sym lb) (λ j p. (there h).1 j (omega arith) (omega arith)),
      λ e. back (refl, λ j p q. ap (λ s. get_or s j 0) e),
    )

-- The comparison succeeds exactly when the digests of the two strings are equal.
user_strcmp_s_iff :
    (sha256 : Bytes → Option Bytes) (a b x y : Bytes)
    → Digests32 sha256
    → sha256 a ≡ some x
    → sha256 b ≡ some y
    → (user_strcmp_s sha256 (some a) (some b) ≡ ok) ↔ (x ≡ y)
unfolding user_strcmp_s
user_strcmp_s_iff sha256 a b x y d ea eb = ground (arith, digests-diff x y (d a x ea) (d b y eb))

-- The places that the loop of `isstrrev` reads, when both strings have length `n`.
isstrrev_reads :
    (a b : Bytes) (n m : ℕ)
    → length a ≡ n
    → length b ≡ m
    → n ≡ m
    → Agree n 0 (λ i. get_or a (i % n) 0) (λ i. get_or b ((n - 1 - i) % m) 0) ↔ (a ≡ reverse b)
isstrrev_reads a b n m la lb nm = (
  λ h.
      list_ext a (reverse b) (omega (arith, length-reverse b)) (λ j p.
        sym (left j (omega arith)) ∙ h j (omega arith) (omega arith) ∙ right j (omega arith)),
  λ e j p q. left j (omega arith) ∙ ap (λ s. get_or s j 0) e ∙ sym (right j (omega arith)),
)
  where
    left : (j : ℕ) → j < n → get_or a (j % n) 0 ≡ get_or a j 0
    left j p = ap (λ k. get_or a k 0) (mod-eq_of_lt p)

    right : (j : ℕ) → j < n → get_or b ((n - 1 - j) % m) 0 ≡ get_or (reverse b) j 0
    right j p =
        ap (λ k. get_or b k 0) (mod-eq_of_lt {n = n - 1 - j} {m = m} (omega arith))
        ∙ sym (get_or-reverse b j (n - 1 - j) (omega arith))

isstrrev-Agree :
    (a b : Bytes)
    → (isstrrev (some a) (some b) ≡ true) ↔ (
        (length a ≢ 0)
        × (length b ≢ 0)
        × (bit_xor (length a % 2 ^ 32) (length b) % 2 ^ 32 ≡ 0)
        × Agree
            (length a)
            0
            (λ i. get_or a (i % length a) 0)
            (λ i. get_or b ((length a - 1 - i) % length b) 0))
unfolding isstrrev
isstrrev-Agree a b = ground (
  arith,
  or_diff-zero (length a) 0 (λ i. get_or a (i % length a) 0)
      (λ i. get_or b ((length a - 1 - i) % length b) 0)
      (bit_xor (length a % 2 ^ 32) (length b) % 2 ^ 32),
)

lengths_agree :
    (n m : ℕ) → n < 2 ^ 32 → m < 2 ^ 32 → (bit_xor (n % 2 ^ 32) m % 2 ^ 32 ≡ 0) ↔ (n ≡ m)
lengths_agree n m p q =
    let small = bit_xor-lt 32 (n % 2 ^ 32) m (omega arith) q in
    let same = bit_xor-eq-zero (n % 2 ^ 32) m in
    (λ h. omega (arith, same.0 (omega arith)), λ e. omega (arith, same.1 (omega arith)))

length-ne-zero : (a : Bytes) → a ≢ [] → length a ≢ 0
length-ne-zero [] h e = h refl
length-ne-zero (x ∷ a) h e = omega arith

-- For two strings of less than four gigabytes, `isstrrev` holds exactly when the first is not empty
-- and is the second written backwards.
isstrrev_iff :
    (a b : Bytes)
    → length a < 2 ^ 32
    → length b < 2 ^ 32
    → (isstrrev (some a) (some b) ≡ true) ↔ ((a ≢ []) × (a ≡ reverse b))
isstrrev_iff a b p q =
    let (there, back) = isstrrev-Agree a b in
    let same = lengths_agree (length a) (length b) p q in
    (
      λ h.
          let (a0, b0, word, agree) = there h in
          let reads = isstrrev_reads a b (length a) (length b) refl refl (same.0 word) in
          (λ e. a0 (ap length e), reads.0 agree),
      λ h.
          let n = ap length h.1 ∙ length-reverse b in
          let reads = isstrrev_reads a b (length a) (length b) refl refl n in
          let a0 = length-ne-zero a h.0 in back (a0, (λ z. a0 (n ∙ z)), same.1 n, reads.1 h.1),
    )

-- What the comments of the source ask of a password for the account `name`.
pub record Complies (name passwd : Bytes) (min_pwd_length : ℕ) : Type 0 where
  pub long_enough : min_pwd_length ≤ length passwd
  pub not_name : passwd ≢ name
  pub not_reversed : passwd ≢ reverse name
  pub complex : IsComplex passwd

check_pass-parts :
    (sha256 : Bytes → Option Bytes) (name passwd : Bytes) (m : ℕ)
    → (is_pass_complexity_check_pass sha256 (some name) (some passwd) m ≡ true) ↔ (
        (length name ≢ 0)
        × (m ≤ length passwd)
        × (user_strcmp_s sha256 (some name) (some passwd) ≢ ok)
        × (isstrrev (some passwd) (some name) ≢ true)
        × (dal_check_complexity_status (some passwd) ≡ ok))
unfolding is_pass_complexity_check_pass
check_pass-parts sha256 name passwd m = ground arith

IsComplex-ne-nil : (pw : Bytes) → IsComplex pw → pw ≢ []
IsComplex-ne-nil [] ((i, c, e, h), rest) n = cc
IsComplex-ne-nil (x ∷ pw) h n = cc

-- For strings of less than four gigabytes and a digest that tells the two strings apart, the check
-- passes exactly the passwords that comply with every rule, when the account has a name.
pub is_pass_complexity_check_pass_iff :
    (sha256 : Bytes → Option Bytes) (name passwd x y : Bytes) (m : ℕ)
    → Digests32 sha256
    → sha256 name ≡ some x
    → sha256 passwd ≡ some y
    → (x ≡ y → name ≡ passwd)
    → length name < 2 ^ 32
    → length passwd < 2 ^ 32
    → name ≢ []
    → (is_pass_complexity_check_pass sha256 (some name) (some passwd) m ≡ true)
      ↔ Complies name passwd m
is_pass_complexity_check_pass_iff sha256 name passwd x y m d ex ey apart p q ne =
    let (there, back) = check_pass-parts sha256 name passwd m in
    let same = user_strcmp_s_iff sha256 name passwd x y d ex ey in
    let turned = isstrrev_iff passwd name q p in
    let complex = dal_check-IsComplex passwd in
    (
      λ h.
          let (n0, long, differs, forwards, ok_complex) = there h in
          let full = complex.0 ok_complex in
          record {
            long_enough = long;
            not_name = λ e. differs (same.1 (cc (ex, ey, e)));
            not_reversed = λ e. forwards (turned.1 (IsComplex-ne-nil passwd full, e));
            complex = full;
          },
      λ h. back (
        length-ne-zero name ne,
        h.long_enough,
        (λ e. h.not_name (sym (apart (same.0 e)))),
        (λ e. h.not_reversed (turned.0 e).1),
        complex.1 h.complex,
      ),
    )
