-- ===== src/Password/Diff.antt =====
-- The loops of password.c that collect the differences of two byte sequences in one word, so that
-- they take the same time whatever they find.
use native.Mathlib.Decide.{ℕ_discrete}
use account.Base.{ℕ, zero, suc, ◌+◌, ◌≤◌, ◌<◌, ◌≡◌, ◌↔◌, sym, ap, ◌∙◌, bit_or, bit_xor, arith}
use account.Base.Bits.{bit_or-eq-zero, bit_xor-eq-zero}

-- for (; n > 0; n--, i++) ret |= f(i) ^ g(i)
unfoldable pub or_diff : ℕ → ℕ → (ℕ → ℕ) → (ℕ → ℕ) → ℕ → ℕ
or_diff zero i f g ret = ret
or_diff (suc n) i f g ret = or_diff n (i + 1) f g (bit_or ret (bit_xor (f i) (g i)))

-- The sequences agree on `n` places from `i` on.
abbrev pub Agree : ℕ → ℕ → (ℕ → ℕ) → (ℕ → ℕ) → Type 0
Agree n i f g = (j : ℕ) → i ≤ j → j < i + n → f j ≡ g j

Agree-cons : (n i : ℕ) (f g : ℕ → ℕ) → f i ≡ g i → Agree n (i + 1) f g → Agree (suc n) i f g
Agree-cons n i f g e h j p q = elim (ℕ_discrete i j) [
  | yes same ↦ ap f (sym same) ∙ e ∙ ap g same
  | no other ↦ h j (omega arith) (omega arith)
]

pub or_diff-zero :
    (n i : ℕ) (f g : ℕ → ℕ) (ret : ℕ) → (or_diff n i f g ret ≡ 0) ↔ ((ret ≡ 0) × Agree n i f g)
unfolding or_diff
or_diff-zero zero i f g ret = (λ h. (h, λ j p q. absurd (omega arith)), λ h. h.0)
or_diff-zero (suc n) i f g ret =
    let ih = or_diff-zero n (i + 1) f g (bit_or ret (bit_xor (f i) (g i))) in
    let join = bit_or-eq-zero ret (bit_xor (f i) (g i)) in
    let here = bit_xor-eq-zero (f i) (g i) in
    (
      λ h. ((join.0 (ih.0 h).0).0, Agree-cons n i f g (here.0 (join.0 (ih.0 h).0).1) (ih.0 h).1),
      λ h. ih.1 (
        join.1 (h.0, here.1 (h.1 i (omega arith) (omega arith))),
        λ j p q. h.1 j (omega arith) (omega arith),
      ),
    )
