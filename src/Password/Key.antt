-- ===== src/Password/Key.antt =====
-- `reverse` on the bytes of the VNC key: the order of the eight bits is turned round.
use account.Base.{ℕ, ◌-◌, ◌/◌, ◌%◌, ◌^◌, ◌<◌, ◌≡◌, refl, Bool, true, ◌&&◌, ◌==◌, ==_iff, &&-eq-true}
use account.Base.Bits.{passes_to, passes_at}
use account.Password.{reverse_byte}

-- Bit `i` of a byte.
abbrev pub bit_at : ℕ → ℕ → ℕ
bit_at x i = x / 2 ^ i % 2

turned : ℕ → Bool
turned x = passes_to 8 (λ i. bit_at (reverse_byte x) i == bit_at x (7 - i))

turned_table : passes_to 256 (λ x. turned x && reverse_byte (reverse_byte x) == x) ≡ true
unfolding turned passes_to reverse_byte
turned_table = refl

table_at : (x : ℕ) → x < 256 → (turned x ≡ true) × ((reverse_byte (reverse_byte x) == x) ≡ true)
table_at x h = (&&-eq-true _ _).0 (passes_at 256 _ x turned_table h)

-- Bit `i` of the reversed byte is bit `7 - i` of the byte, and reversing twice gives the byte back.
reverse_byte_bits :
    (x i : ℕ)
    → x < 256
    → i < 8
    → (bit_at (reverse_byte x) i ≡ bit_at x (7 - i)) × (reverse_byte (reverse_byte x) ≡ x)
unfolding turned
reverse_byte_bits x i h k =
    ((==_iff _ _).0 (passes_at 8 _ i (table_at x h).0 k), (==_iff _ _).0 (table_at x h).1)
