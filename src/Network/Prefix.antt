-- ===== src/Network/Prefix.antt =====
-- Prefixes of addresses, bit by bit: what the byte comparisons of the subnet tests amount to.
use mathlib.Core.Path.{subst}
use native.Mathlib.Decide.{ℕ_discrete, dec_lt}
use native.Mathlib.Nat.{pow-suc, div-div-eq-div-mul, div-eq_of_lt}
use account.Base.{
  ℕ, zero, suc, ◌+◌, ◌-◌, ◌*◌, ◌/◌, ◌%◌, ◌^◌, ◌≤◌, ◌<◌, ◌≡◌, refl, ap, sym, ◌∙◌, ◌↔◌, some, Bytes,
  get_or, arith, true, ◌==◌, ==_iff, &&-eq-true, All, [], ◌∷◌,
}
use account.Base.Int.{ℤ, pos, negsuc}
use account.Network.{same_bytes, mask_in_range}

-- Bit `r` of an octet, from the most significant one.
abbrev pub bit_in : ℕ → ℕ → ℕ
bit_in x r = x / 2 ^ (7 - r) % 2

-- Bit `i` of an address.
abbrev pub bit_of : Bytes → ℕ → ℕ
bit_of a i = bit_in (get_or a (i / 8) 0) (i % 8)

-- The first `m` bits agree: the addresses are in one subnet of that mask length.
abbrev pub SamePrefix : ℕ → Bytes → Bytes → Type 0
SamePrefix m a b = (i : ℕ) → i < m → bit_of a i ≡ bit_of b i

-- The `j` highest of `n` bits.
abbrev HighBits : ℕ → ℕ → ℕ → ℕ → Type 0
HighBits j n x y = (i : ℕ) → i < j → x / 2 ^ (n - 1 - i) % 2 ≡ y / 2 ^ (n - 1 - i) % 2

div_pow_suc : (x k : ℕ) → x / 2 ^ suc k ≡ x / 2 ^ k / 2
div_pow_suc x k = ap (λ (t : ℕ). x / t) (pow-suc 2 k) ∙ sym (div-div-eq-div-mul x (2 ^ k) 2)

HighBits-suc :
    (j k n x y : ℕ)
    → suc j + k ≡ n
    → HighBits (suc j) n x y ↔ (HighBits j n x y × (x / 2 ^ k % 2 ≡ y / 2 ^ k % 2))
HighBits-suc j k n x y e = (
  λ h. ((λ i p. h i (omega arith)), sym (at x) ∙ h j (omega arith) ∙ at y),
  λ h i p. elim (ℕ_discrete i j) [
    | yes q ↦ rw q (at x ∙ h.1 ∙ sym (at y))
    | no q ↦ h.0 i (omega arith)
  ],
)
  where
    at : (z : ℕ) → z / 2 ^ (n - 1 - j) % 2 ≡ z / 2 ^ k % 2
    at z = ap (λ (t : ℕ). z / 2 ^ t % 2) (omega arith)

-- The words above bit `k` are equal exactly when their bits are.
high_bits :
    (j k n x y : ℕ) → j + k ≡ n → x < 2 ^ n → y < 2 ^ n → (x / 2 ^ k ≡ y / 2 ^ k) ↔ HighBits j n x y
high_bits zero k n x y e h g = (λ q i p. absurd (omega arith), λ q. none x h ∙ sym (none y g))
  where
    none : (z : ℕ) → z < 2 ^ n → z / 2 ^ k ≡ 0
    none z p = div-eq_of_lt (subst (λ (t : ℕ). z < 2 ^ t) (omega arith) p)
high_bits (suc j) k n x y e h g =
    let (there, back) = high_bits j (suc k) n x y (omega arith) h g in
    let (split, join) = HighBits-suc j k n x y e in
    (
      λ q. join (there (omega (arith, div_pow_suc x k, div_pow_suc y k)), ap (λ (t : ℕ). t % 2) q),
      λ b. omega (arith, div_pow_suc x k, div_pow_suc y k, back (split b).0, (split b).1),
    )

-- The `j` highest bits of two octets.
pub octet_bits :
    (j x y : ℕ)
    → j ≤ 8
    → x < 256
    → y < 256
    → (x / 2 ^ (8 - j) ≡ y / 2 ^ (8 - j)) ↔ ((r : ℕ) → r < j → bit_in x r ≡ bit_in y r)
octet_bits j x y h p q = high_bits j (8 - j) 8 x y (omega arith) p q

octet_eq : (x y : ℕ) → x < 256 → y < 256 → (x ≡ y) ↔ ((r : ℕ) → r < 8 → bit_in x r ≡ bit_in y r)
octet_eq x y p q =
    let (there, back) = octet_bits 8 x y (omega arith) p q in
    ((λ e. there (ap (λ (t : ℕ). t / 1) e)), λ b. omega (arith, back b))

pub All-get_or : (a : Bytes) (i : ℕ) → All (λ o. o < 256) a → get_or a i 0 < 256
All-get_or [] i h = omega arith
All-get_or (x ∷ a) zero h = h.0
All-get_or (x ∷ a) (suc i) h = All-get_or a i h.1

bit_of_octet : (a : Bytes) (q r : ℕ) → r < 8 → bit_of a (8 * q + r) ≡ bit_in (get_or a q 0) r
bit_of_octet a q r h =
    ap (λ k. bit_in (get_or a k 0) ((8 * q + r) % 8)) (omega arith)
    ∙ ap (λ t. bit_in (get_or a q 0) t) (omega arith)

pub SamePrefix-at :
    (m : ℕ) (a b : Bytes)
    → SamePrefix m a b
    → (q r : ℕ) → r < 8
    → 8 * q + r < m
    → bit_in (get_or a q 0) r ≡ bit_in (get_or b q 0) r
SamePrefix-at m a b s q r h k = sym (bit_of_octet a q r h) ∙ s (8 * q + r) k ∙ bit_of_octet b q r h

-- `n` whole octets, and the `j` highest bits of the next one.
pub SamePrefix-octets :
    (n j m : ℕ) (a b : Bytes)
    → j < 8
    → m ≡ 8 * n + j
    → All (λ o. o < 256) a
    → All (λ o. o < 256) b
    → SamePrefix m a b ↔ (
        ((i : ℕ) → i < n → get_or a i 0 ≡ get_or b i 0)
        × (get_or a n 0 / 2 ^ (8 - j) ≡ get_or b n 0 / 2 ^ (8 - j)))
SamePrefix-octets n j m a b h e la lb =
    let octet =
      octet_bits j (get_or a n 0) (get_or b n 0) (omega arith) (All-get_or a n la)
        (All-get_or b n lb) in
    (
      λ s. (
        λ i p.
            (octet_eq (get_or a i 0) (get_or b i 0) (All-get_or a i la) (All-get_or b i lb)).1
              (λ r q. SamePrefix-at m a b s i r q (omega arith)),
        octet.1 (λ r q. SamePrefix-at m a b s n r (omega arith) (omega arith)),
      ),
      λ parts i p. elim (dec_lt (i / 8) n) [
        | yes q ↦ ap (λ o. bit_in o (i % 8)) (parts.0 (i / 8) q)
        | no q ↦
            let k : i / 8 ≡ n = omega arith in
            ap (λ t. bit_in (get_or a t 0) (i % 8)) k
            ∙ octet.0 parts.1 (i % 8) (omega arith)
            ∙ ap (λ t. bit_in (get_or b t 0) (i % 8)) (sym k)
      ],
    )

-- The loop over whole bytes.
pub same_bytes_iff :
    (n i : ℕ) (a b : Bytes)
    → (same_bytes n i a b ≡ true) ↔ ((k : ℕ) → i ≤ k → k < i + n → get_or a k 0 ≡ get_or b k 0)
unfolding same_bytes
same_bytes_iff zero i a b = (λ h k p q. absurd (omega arith), λ h. refl)
same_bytes_iff (suc n) i a b =
    let (there, back) = same_bytes_iff n (i + 1) a b in
    let first = ==_iff (get_or a i 0) (get_or b i 0) in
    let both = &&-eq-true (get_or a i 0 == get_or b i 0) (same_bytes n (i + 1) a b) in
    (
      λ h k p q. elim (ℕ_discrete i k) [
        | yes same ↦ rw (← same) (first.0 (both.0 h).0)
        | no other ↦ there (both.0 h).1 k (omega arith) (omega arith)
      ],
      λ h. both.1 (
        first.1 (h i (omega arith) (omega arith)),
        back (λ k p q. h k (omega arith) (omega arith)),
      ),
    )

-- The mask lengths that the range check lets through.
pub mask_in_range_iff :
    (max n : ℕ) (v : ℤ) → (mask_in_range max v ≡ some n) ↔ ((v ≡ pos n) × (1 ≤ n) × (n ≤ max))
unfolding mask_in_range
mask_in_range_iff max n (pos k) = ground arith
mask_in_range_iff max n (negsuc k) = ground arith
