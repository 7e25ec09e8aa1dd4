-- ===== src/Base/Bits.antt =====
-- When `bit_or` and `bit_xor` are zero, at every width, and a check of all values below a bound.
use Prim.Native.Nat.{
  ℕ, zero, suc, ◌+◌, ◌*◌, ◌/◌, ◌%◌, ◌^◌, ◌≤◌, ◌<◌, max, min, differ, bit_and, bit_or, bit_xor,
  digits, bit_and-bitwise, bit_or-bitwise, bit_xor-bitwise,
}
use native.Mathlib.Nat.{pow-suc}
use mathlib.Core.Path.{◌≡◌, refl, ap, ◌∙◌}
use mathlib.Core.Logic.{◌↔◌}
use mathlib.Core.Bool.{Bool, true, ◌&&◌}
use native.Mathlib.Decide.{ℕ_discrete}
use native.Mathlib.Omega.{arith}

differ-eq-zero : (x y : ℕ) → (differ x y ≡ 0) ↔ (x ≡ y)
differ-eq-zero zero y = omega arith
differ-eq-zero (suc x) zero = omega arith
differ-eq-zero (suc x) (suc y) = ground (arith, differ-eq-zero x y)

-- The library's digit recursion has fuel `n`, which covers the first number.
xor_digits : (n a b : ℕ) → a ≤ n → (digits (λ b. b) differ n a b ≡ 0) ↔ (a ≡ b)
xor_digits zero zero b h = omega arith
xor_digits zero (suc a) b h = absurd (omega arith)
xor_digits (suc n) zero b h = omega arith
xor_digits (suc n) (suc a) b h =
    ground
      (arith, differ-eq-zero (suc a % 2) (b % 2), xor_digits n (suc a / 2) (b / 2) (omega arith))

or_digits : (n a b : ℕ) → a ≤ n → (digits (λ b. b) max n a b ≡ 0) ↔ ((a ≡ 0) × (b ≡ 0))
or_digits zero zero b h = omega arith
or_digits zero (suc a) b h = absurd (omega arith)
or_digits (suc n) zero b h = omega arith
or_digits (suc n) (suc a) b h = ground (arith, or_digits n (suc a / 2) (b / 2) (omega arith))

pub bit_xor-eq-zero : (a b : ℕ) → (bit_xor a b ≡ 0) ↔ (a ≡ b)
bit_xor-eq-zero a b = simp bit_xor-bitwise (xor_digits a a b (omega arith))

pub bit_or-eq-zero : (a b : ℕ) → (bit_or a b ≡ 0) ↔ ((a ≡ 0) × (b ≡ 0))
bit_or-eq-zero a b = simp bit_or-bitwise (or_digits a a b (omega arith))

differ-le-one : (x y : ℕ) → x ≤ 1 → y ≤ 1 → differ x y ≤ 1
differ-le-one zero y h k = k
differ-le-one (suc x) zero h k = h
differ-le-one (suc x) (suc y) h k = differ-le-one x y (omega arith) (omega arith)

xor_digits-lt : (k n a b : ℕ) → a < 2 ^ k → b < 2 ^ k → digits (λ b. b) differ n a b < 2 ^ k
xor_digits-lt k zero a b h g = g
xor_digits-lt k (suc n) zero b h g = g
xor_digits-lt zero (suc n) (suc a) b h g = absurd (omega arith)
xor_digits-lt (suc k) (suc n) (suc a) b h g = omega (
  arith,
  pow-suc 2 k,
  differ-le-one (suc a % 2) (b % 2) (omega arith) (omega arith),
  xor_digits-lt k n (suc a / 2) (b / 2) (omega (arith, pow-suc 2 k)) (omega (arith, pow-suc 2 k)),
)

-- The exclusive or of two words of `k` bits is one.
pub bit_xor-lt : (k a b : ℕ) → a < 2 ^ k → b < 2 ^ k → bit_xor a b < 2 ^ k
bit_xor-lt k a b h g = simp bit_xor-bitwise (xor_digits-lt k a a b h g)

and_digits :
    (n m a b : ℕ) → a ≤ n → a ≤ m → digits (λ b. zero) min n a b ≡ digits (λ b. zero) min m a b
and_digits zero zero a b h k = refl
and_digits zero (suc m) zero b h k = refl
and_digits zero (suc m) (suc a) b h k = absurd (omega arith)
and_digits (suc n) zero zero b h k = refl
and_digits (suc n) zero (suc a) b h k = absurd (omega arith)
and_digits (suc n) (suc m) zero b h k = refl
and_digits (suc n) (suc m) (suc a) b h k =
    omega (arith, and_digits n m (suc a / 2) (b / 2) (omega arith) (omega arith))

-- A conjunction from its lowest binary digit and the digits above.
bit_and-digit : (x y : ℕ) → bit_and x y ≡ min (x % 2) (y % 2) + 2 * bit_and (x / 2) (y / 2)
bit_and-digit zero y = simp bit_and-bitwise (omega arith)
bit_and-digit (suc x) y =
    let half = suc x / 2 in
    let fuel = and_digits x half half (y / 2) (omega arith) (omega arith) in
    omega (arith, fuel, bit_and-bitwise half (y / 2), bit_and-bitwise (suc x) y)

zero-digits : (n a : ℕ) → digits (λ b. zero) min n a 0 ≡ 0
zero-digits zero a = refl
zero-digits (suc n) zero = refl
zero-digits (suc n) (suc a) = omega (arith, zero-digits n (suc a / 2))

pub bit_and-zero : (a : ℕ) → bit_and a 0 ≡ 0
bit_and-zero a = bit_and-bitwise a 0 ∙ zero-digits a a

halved :
    (k a x : ℕ) → ((a + 2 ^ suc k * x) / 2 ≡ a / 2 + 2 ^ k * x) × ((a + 2 ^ suc k * x) % 2 ≡ a % 2)
halved k a x = omega (arith, ap (λ (t : ℕ). t * x) (pow-suc 2 k))

-- A conjunction of two words is that of their `k` low bits beside that of the rest.
pub bit_and-split :
    (k a b x y : ℕ)
    → a < 2 ^ k
    → b < 2 ^ k
    → bit_and (a + 2 ^ k * x) (b + 2 ^ k * y) ≡ bit_and a b + 2 ^ k * bit_and x y
bit_and-split zero a b x y h g =
    let ea : a ≡ 0 = omega arith in
    let eb : b ≡ 0 = omega arith in rw (ea, eb) (ground (arith, bit_and-digit 0 0))
bit_and-split (suc k) a b x y h g = ground (
  arith,
  bit_and-digit (a + 2 ^ suc k * x) (b + 2 ^ suc k * y),
  bit_and-digit a b,
  bit_and-split k (a / 2) (b / 2) x y,
  halved k a x,
  halved k b y,
  pow-suc 2 k,
  ap (λ (t : ℕ). t * bit_and x y) (pow-suc 2 k),
)

-- A test of every number in front of a bound, by evaluation.
unfoldable pub passes_to : ℕ → (ℕ → Bool) → Bool
passes_to zero test = true
passes_to (suc bound) test = passes_to bound test && test bound

-- What such a test says of one number.
pub passes_at :
    (bound : ℕ) (test : ℕ → Bool) (m : ℕ) → passes_to bound test ≡ true → m < bound → test m ≡ true
unfolding passes_to
passes_at zero test m table early = absurd (omega arith)
passes_at (suc bound) test m table early = elim (ℕ_discrete m bound) [
  | yes e ↦ rw e (ground arith)
  | no ne ↦ passes_at bound test m (ground arith) (omega arith)
]
