-- ===== src/Password/Complexity.antt =====
-- `dal_check_complexity_status`: the loop finds which classes of characters occur.
use account.Base.{
  ℕ, zero, suc, ◌≡◌, refl, ◌⊎◌, inl, inr, ◌↔◌, Bool, true, some, [], ◌∷◌, arith, ◌==◌,
  if◌then◌else◌, Bool-cases, Bytes, get_elem?, length,
}
use account.Clib.Ctype.{islower, isupper, isdigit}
use account.Clib.Text.{has_char}
use account.Status.{ok}
use account.Password.{
  pwd_pass_special, isspecial, Flags, flags_step, flags_loop, dal_check_complexity_status,
  is_vnc_password_complexity_check_pass,
}

-- Some character of the text is in the class.
abbrev pub Contains : (ℕ → Bool) → Bytes → Type 0
Contains p s = (i : ℕ) × (c : ℕ) × (get_elem? s i ≡ some c) × (p c ≡ true)

abbrev pub special : ℕ → Bool
special c = has_char c pwd_pass_special

-- Two of three.
abbrev pub TwoOf : Type 0 → Type 0 → Type 0 → Type 0
TwoOf A B C = (A × B) ⊎ (A × C) ⊎ (B × C)

-- The rule of the comments: a special character, and two of the other three classes.
abbrev pub IsComplex : Bytes → Type 0
IsComplex pw =
    Contains special pw × TwoOf (Contains islower pw) (Contains isupper pw) (Contains isdigit pw)

abbrev bit : Bool → ℕ
bit b = if b then 1 else 0

-- One flag of the loop on its own.
flag : (ℕ → Bool) → ℕ → Bytes → ℕ
flag p x [] = x
flag p x (c ∷ pw) = flag p (if x == 0 then bit (p c) else x) pw

Contains-cons : (p : ℕ → Bool) (c : ℕ) (s : Bytes) → Contains p s → Contains p (c ∷ s)
Contains-cons p c s (i, d, e, h) = (suc i, d, e, h)

Contains-uncons :
    (p : ℕ → Bool) (c : ℕ) (s : Bytes) → Contains p (c ∷ s) → (p c ≡ true) ⊎ Contains p s
Contains-uncons p c s (zero, d, e, h) = inl (ground arith)
Contains-uncons p c s (suc i, d, e, h) = inr (i, d, e, h)

flag-set : (p : ℕ → Bool) (pw : Bytes) → flag p 1 pw ≡ 1
unfolding flag
flag-set p [] = refl
flag-set p (c ∷ pw) = flag-set p pw

flag-Contains : (p : ℕ → Bool) (pw : Bytes) → Contains p pw → flag p 0 pw ≡ 1
unfolding flag
flag-Contains p [] (i, c, e, h) = cc
flag-Contains p (c ∷ pw) h = elim (Bool-cases (p c)) [
  | inl hit ↦ rw hit (flag-set p pw)
  | inr miss ↦
      rw miss
        (elim (Contains-uncons p c pw h) [ inl hit ↦ cc | inr later ↦ flag-Contains p pw later ])
]

flag-cases : (p : ℕ → Bool) (pw : Bytes) → (flag p 0 pw ≡ 0) ⊎ ((flag p 0 pw ≡ 1) × Contains p pw)
unfolding flag
flag-cases p [] = inl refl
flag-cases p (c ∷ pw) = elim (Bool-cases (p c)) [
  | inl hit ↦ rw hit (inr (flag-set p pw, (0, c, refl, hit)))
  | inr miss ↦ rw miss (elim (flag-cases p pw) [
    | inl none ↦ inl none
    | inr (e, h) ↦ inr (e, Contains-cons p c pw h)
  ])
]

-- The flags of the loop, one by one.
flags_loop-flag :
    (f : Flags) (pw : Bytes)
    → ((flags_loop f pw).isconlows ≡ flag islower f.isconlows pw)
      × ((flags_loop f pw).isconsups ≡ flag isupper f.isconsups pw)
      × ((flags_loop f pw).iscondigs ≡ flag isdigit f.iscondigs pw)
      × ((flags_loop f pw).isconspcs ≡ flag special f.isconspcs pw)
unfolding flags_loop flags_step flag isspecial
flags_loop-flag f [] = (refl, refl, refl, refl)
flags_loop-flag f (c ∷ pw) = flags_loop-flag (flags_step f c) pw

flag_iff : (p : ℕ → Bool) (pw : Bytes) → (flag p 0 pw ≡ 1) ↔ Contains p pw
flag_iff p pw = (
  λ e. elim (flag-cases p pw) [ inl z ↦ absurd (omega arith) | inr (one, h) ↦ h ],
  flag-Contains p pw,
)

flag_bit : (p : ℕ → Bool) (pw : Bytes) → (flag p 0 pw ≡ 0) ⊎ (flag p 0 pw ≡ 1)
flag_bit p pw = elim (flag-cases p pw) [ inl z ↦ inl z | inr (one, h) ↦ inr one ]

dal_check-flags :
    (pw : Bytes)
    → (dal_check_complexity_status (some pw) ≡ ok) ↔ (
        (flag special 0 pw ≡ 1)
        × TwoOf (flag islower 0 pw ≡ 1) (flag isupper 0 pw ≡ 1) (flag isdigit 0 pw ≡ 1))
unfolding dal_check_complexity_status
dal_check-flags pw = ground (
  arith,
  flags_loop-flag (record { isconlows = 0; isconsups = 0; iscondigs = 0; isconspcs = 0 }) pw,
  flag_bit islower pw,
  flag_bit isupper pw,
  flag_bit isdigit pw,
  flag_bit special pw,
)

TwoOf-map :
    {A B C A' B' C' : Type 0} → (A → A') → (B → B') → (C → C') → TwoOf A B C → TwoOf A' B' C'
TwoOf-map f g h (inl (a, b)) = inl (f a, g b)
TwoOf-map f g h (inr (inl (a, c))) = inr (inl (f a, h c))
TwoOf-map f g h (inr (inr (b, c))) = inr (inr (g b, h c))

-- A password passes exactly when it holds a special character and characters of at least two of
-- the classes lower case, upper case and digit.
pub dal_check-IsComplex : (pw : Bytes) → (dal_check_complexity_status (some pw) ≡ ok) ↔ IsComplex pw
dal_check-IsComplex pw =
    let (there, back) = dal_check-flags pw in
    let s = flag_iff special pw in
    let l = flag_iff islower pw in
    let u = flag_iff isupper pw in
    let d = flag_iff isdigit pw in
    (
      λ h. (s.0 (there h).0, TwoOf-map l.0 u.0 d.0 (there h).1),
      λ h. back (s.1 h.0, TwoOf-map l.1 u.1 d.1 h.1),
    )

is_vnc-dal_check :
    (pw : Bytes)
    → (is_vnc_password_complexity_check_pass (some pw) ≡ true)
      ↔ ((length pw ≡ 8) × (dal_check_complexity_status (some pw) ≡ ok))
unfolding is_vnc_password_complexity_check_pass
is_vnc-dal_check pw = ground arith

-- A VNC password passes exactly when it has eight bytes and the same complexity.
is_vnc_password_iff :
    (pw : Bytes)
    → (is_vnc_password_complexity_check_pass (some pw) ≡ true) ↔ ((length pw ≡ 8) × IsComplex pw)
is_vnc_password_iff pw =
    let (there, back) = is_vnc-dal_check pw in
    let (from, to) = dal_check-IsComplex pw in
    (λ h. ((there h).0, from (there h).1), λ h. back (h.0, to h.1))
