-- ===== src/Network/Mask.antt =====
-- The mask word of `is_ip_in_subnet`, octet by octet, and the bits that it lets through.
use Prim.Native.Nat.{min}
use native.Mathlib.Nat.{div-mul-le_self, one-le-pow, mul-div_cancel}
use account.Base.{
  ℕ, zero, suc, ◌+◌, ◌-◌, ◌*◌, ◌/◌, ◌%◌, ◌^◌, ◌≤◌, ◌<◌, ◌≡◌, refl, ap, sym, ◌∙◌, ◌↔◌, Bytes, get_or,
  arith, true, ◌==◌, All, bit_and, ==_iff, [], ◌∷◌,
}
use account.Base.Bits.{passes_to, passes_at, bit_and-split}
use account.Network.Prefix.{bit_in, SamePrefix, SamePrefix-at, octet_bits, All-get_or}
use account.Network.{s_addr, subnet_mask}

-- How many of the `m` bits fall on octet `k`.
abbrev on_octet : ℕ → ℕ → ℕ
on_octet m k = min 8 (m - 8 * k)

abbrev mask_octet : ℕ → ℕ
mask_octet j = 256 - 2 ^ (8 - j)

mask_table :
    passes_to 33 (λ m.
      subnet_mask m
      == s_addr (
          mask_octet (on_octet m 0)
          ∷ mask_octet (on_octet m 1)
          ∷ mask_octet (on_octet m 2)
          ∷ mask_octet (on_octet m 3)
          ∷ []))
    ≡ true
unfolding passes_to subnet_mask s_addr
mask_table = refl

octet_table :
    passes_to 9
      (λ j. passes_to 256 (λ o. bit_and o (mask_octet j) == o / 2 ^ (8 - j) * 2 ^ (8 - j)))
    ≡ true
unfolding passes_to
octet_table = refl

-- The octet under the mask, for `j` bits.
abbrev cut : ℕ → ℕ → ℕ
cut j o = o / 2 ^ (8 - j) * 2 ^ (8 - j)

cut-lt : (j o : ℕ) → o < 256 → cut j o < 256
cut-lt j o h = omega (arith, div-mul-le_self o (2 ^ (8 - j)))

pub bit_and-mask_octet : (j o : ℕ) → j ≤ 8 → o < 256 → bit_and o (mask_octet j) ≡ cut j o
bit_and-mask_octet j o h g =
    (==_iff _ _).0 (passes_at 256 _ o (passes_at 9 _ j octet_table (omega arith)) g)

abbrev pack : ℕ → ℕ → ℕ → ℕ → ℕ
pack a b c d = a + 256 * (b + 256 * (c + 256 * d))

pack-and :
    (a b c d x y z w : ℕ)
    → a < 256
    → b < 256
    → c < 256
    → x < 256
    → y < 256
    → z < 256
    → bit_and (pack a b c d) (pack x y z w)
      ≡ pack (bit_and a x) (bit_and b y) (bit_and c z) (bit_and d w)
pack-and a b c d x y z w ha hb hc hx hy hz =
    bit_and-split 8 a x (b + 256 * (c + 256 * d)) (y + 256 * (z + 256 * w)) ha hx
    ∙ ap (λ t. bit_and a x + 256 * t)
        (bit_and-split 8 b y (c + 256 * d) (z + 256 * w) hb hy
          ∙ ap (λ t. bit_and b y + 256 * t) (bit_and-split 8 c z d w hc hz))

mask_octet-lt : (j : ℕ) → mask_octet j < 256
mask_octet-lt j = omega (arith, one-le-pow (8 - j) 2)

-- The word under the mask.
masked :
    (m : ℕ) (a : Bytes)
    → m ≤ 32
    → All (λ o. o < 256) a
    → bit_and (s_addr a) (subnet_mask m)
      ≡ pack
          (cut (on_octet m 0) (get_or a 0 0))
          (cut (on_octet m 1) (get_or a 1 0))
          (cut (on_octet m 2) (get_or a 2 0))
          (cut (on_octet m 3) (get_or a 3 0))
unfolding s_addr
masked m a h la =
    let word = (==_iff _ _).0 (passes_at 33 _ m mask_table (omega arith)) in
    rw word (
      pack-and (get_or a 0 0) (get_or a 1 0) (get_or a 2 0) (get_or a 3 0) _ _ _ _
        (All-get_or a 0 la) (All-get_or a 1 la) (All-get_or a 2 la) (mask_octet-lt _)
        (mask_octet-lt _) (mask_octet-lt _)
      ∙ rw (octet 0, octet 1, octet 2, octet 3))
  where
    octet :
        (k : ℕ)
        → bit_and (get_or a k 0) (mask_octet (on_octet m k)) ≡ cut (on_octet m k) (get_or a k 0)
    octet k = bit_and-mask_octet (on_octet m k) (get_or a k 0) (omega arith) (All-get_or a k la)

-- The masked octets are equal exactly when the quotients are.
cut_eq : (j x y : ℕ) → (cut j x ≡ cut j y) ↔ (x / 2 ^ (8 - j) ≡ y / 2 ^ (8 - j))
cut_eq j x y = (
  λ e. sym (over x) ∙ ap (λ (t : ℕ). t / 2 ^ (8 - j)) e ∙ over y,
  ap (λ (t : ℕ). t * 2 ^ (8 - j)),
)
  where
    over : (z : ℕ) → cut j z / 2 ^ (8 - j) ≡ z / 2 ^ (8 - j)
    over z = mul-div_cancel (z / 2 ^ (8 - j)) (one-le-pow (8 - j) 2 (omega arith))

-- The bits of octet `k` that the mask lets through agree.
abbrev OctetAgrees : ℕ → Bytes → Bytes → ℕ → Type 0
OctetAgrees m a b k = get_or a k 0 / 2 ^ (8 - on_octet m k) ≡ get_or b k 0 / 2 ^ (8 - on_octet m k)

pack_eq :
    (a b c d x y z w : ℕ)
    → a < 256
    → b < 256
    → c < 256
    → x < 256
    → y < 256
    → z < 256
    → (pack a b c d ≡ pack x y z w) ↔ ((a ≡ x) × (b ≡ y) × (c ≡ z) × (d ≡ w))
pack_eq a b c d x y z w ha hb hc hx hy hz = (λ e. omega arith, λ e. omega arith)

masked_eq :
    (m : ℕ) (a b : Bytes)
    → m ≤ 32
    → All (λ o. o < 256) a
    → All (λ o. o < 256) b
    → (bit_and (s_addr a) (subnet_mask m) ≡ bit_and (s_addr b) (subnet_mask m))
      ↔ (OctetAgrees m a b 0 × OctetAgrees m a b 1 × OctetAgrees m a b 2 × OctetAgrees m a b 3)
masked_eq m a b h la lb =
    rw (masked m a h la, masked m b h lb)
      (let (there, back) =
          pack_eq (at a 0) (at a 1) (at a 2) (at a 3) (at b 0) (at b 1) (at b 2) (at b 3)
            (small a 0 la) (small a 1 la) (small a 2 la) (small b 0 lb) (small b 1 lb)
            (small b 2 lb) in
        (
          λ e.
              let (e0, e1, e2, e3) = there e in
              ((each 0).0 e0, (each 1).0 e1, (each 2).0 e2, (each 3).0 e3),
          λ (e0, e1, e2, e3). back ((each 0).1 e0, (each 1).1 e1, (each 2).1 e2, (each 3).1 e3),
        ))
  where
    at : Bytes → ℕ → ℕ
    at s k = cut (on_octet m k) (get_or s k 0)

    small : (s : Bytes) (k : ℕ) → All (λ o. o < 256) s → at s k < 256
    small s k l = cut-lt (on_octet m k) (get_or s k 0) (All-get_or s k l)

    each : (k : ℕ) → (at a k ≡ at b k) ↔ OctetAgrees m a b k
    each k = cut_eq (on_octet m k) (get_or a k 0) (get_or b k 0)

agrees-SamePrefix :
    (m : ℕ) (a b : Bytes)
    → m ≤ 32
    → All (λ o. o < 256) a
    → All (λ o. o < 256) b
    → SamePrefix m a b ↔ ((k : ℕ) → k < 4 → OctetAgrees m a b k)
agrees-SamePrefix m a b h la lb = (
  λ s k p. (bits k).1 (λ r q. SamePrefix-at m a b s k r (omega arith) (omega arith)),
  λ agree i p. (bits (i / 8)).0 (agree (i / 8) (omega arith)) (i % 8) (omega arith),
)
  where
    bits :
        (k : ℕ)
        → OctetAgrees m a b k
          ↔ ((r : ℕ) → r < on_octet m k → bit_in (get_or a k 0) r ≡ bit_in (get_or b k 0) r)
    bits k =
        octet_bits (on_octet m k) (get_or a k 0) (get_or b k 0) (omega arith) (All-get_or a k la)
          (All-get_or b k lb)

each_of_four : (P : ℕ → Type 0) → (P 0 × P 1 × P 2 × P 3) ↔ ((k : ℕ) → k < 4 → P k)
each_of_four P =
    (below, λ h. (h 0 (omega arith), h 1 (omega arith), h 2 (omega arith), h 3 (omega arith)))
  where
    below : (P 0 × P 1 × P 2 × P 3) → (k : ℕ) → k < 4 → P k
    below h zero p = h.0
    below h (suc zero) p = h.1
    below h (suc (suc zero)) p = h.2
    below h (suc (suc (suc zero))) p = h.3
    below h (suc (suc (suc (suc k)))) p = absurd (omega arith)

pub masked-SamePrefix :
    (m : ℕ) (a b : Bytes)
    → m ≤ 32
    → All (λ o. o < 256) a
    → All (λ o. o < 256) b
    → (bit_and (s_addr a) (subnet_mask m) ≡ bit_and (s_addr b) (subnet_mask m)) ↔ SamePrefix m a b
masked-SamePrefix m a b h la lb =
    let masks = masked_eq m a b h la lb in
    let four = each_of_four (OctetAgrees m a b) in
    let bits = agrees-SamePrefix m a b h la lb in
    (λ e. bits.1 (four.0 (masks.0 e)), λ s. masks.1 (four.1 (bits.0 s)))
