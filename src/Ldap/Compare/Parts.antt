-- ===== src/Ldap/Compare/Parts.antt =====
-- What compare_ldap_sentence_without_tag of libiam/lualib-src/iam_core/ldap_auth.c compares.
use account.Base.{
  ℕ, zero, suc, ◌≤◌, ◌≡◌, ◌≢◌, ◌↔◌, refl, sym, ap, ◌∙◌, true, false, some, List, [], ◌∷◌, arith,
  ◌==◌, All, Bytes, length, drop, map, Bool-cases, inl, inr, &&-eq-true,
}
use mathlib.Core.List.{tail-eq_of_cons-eq}
use mathlib.Core.Path.{subst}
use account.Clib.Ctype.{tolower}
use account.Clib.Text.{str_eq_nocase, strsep, cons_head}
use account.Ldap.Compare.{ldap_tag_size, same_contents, compare_ldap_sentence_without_tag}
use account.Status.{ok}

-- The parts of a sentence without their tags, `k` bytes of the first tag being left.
abbrev contents : ℕ → List Bytes → List Bytes
contents k [] = []
contents k (t ∷ ts) = drop k t ∷ map (drop ldap_tag_size) ts

-- The parts are long enough for their tags.
abbrev IsTagged : ℕ → List Bytes → Type 0
IsTagged k [] = Unit
IsTagged k (t ∷ ts) = (k ≤ length t) × All (λ u. ldap_tag_size ≤ length u) ts

same_letter : (x y : ℕ) → tolower x == tolower y ≡ true → (x == b',') ≡ (y == b',')
same_letter x y h = ground arith

strsep-comma : (x : ℕ) (s : Bytes) → (x == b',') ≡ true → strsep b',' (x ∷ s) ≡ [] ∷ strsep b',' s
unfolding strsep
strsep-comma x s e = rw e refl

strsep-other :
    (x : ℕ) (s : Bytes) → (x == b',') ≡ false → strsep b',' (x ∷ s) ≡ cons_head x (strsep b',' s)
unfolding strsep
strsep-other x s e = rw e refl

strsep-parts : (s : Bytes) → (t : Bytes) × (ts : List Bytes) × (strsep b',' s ≡ t ∷ ts)
unfolding strsep
strsep-parts [] = ([], [], refl)
strsep-parts (x ∷ s) =
    let (t, ts, e) = strsep-parts s in
    elim (Bool-cases (x == b',')) [
      | inl c ↦ ([], strsep b',' s, rw c refl)
      | inr c ↦ (x ∷ t, ts, rw (c, e) refl)
    ]

-- The two sentences agree in their parts without the tags.
abbrev Agrees : ℕ → Bytes → Bytes → Type 0
Agrees k s d = contents k (strsep b',' s) ≡ contents k (strsep b',' d)

module _ (x y : ℕ) (s d : Bytes) where
  Agrees-at_comma :
      (x == b',') ≡ true → (y == b',') ≡ true → Agrees 0 (x ∷ s) (y ∷ d) ↔ Agrees ldap_tag_size s d
  Agrees-at_comma e f =
      let (t, ts, p) = strsep-parts s in
      let (u, us, q) = strsep-parts d in
      rw (strsep-comma x s e, strsep-comma y d f, p, q)
        ((λ h. tail-eq_of_cons-eq h), (λ h. ap (◌∷◌ []) h))

  Agrees-at_letter :
      (x == b',') ≡ false
      → (y == b',') ≡ false
      → Agrees 0 (x ∷ s) (y ∷ d) ↔ ((x ≡ y) × Agrees 0 s d)
  Agrees-at_letter e f =
      let (t, ts, p) = strsep-parts s in
      let (u, us, q) = strsep-parts d in
      rw (strsep-other x s e, strsep-other y d f, p, q) ((λ h. ground arith), (λ h. ground arith))

  Agrees-in_tag :
      (k : ℕ)
      → (x == b',') ≡ false
      → (y == b',') ≡ false
      → Agrees (suc k) (x ∷ s) (y ∷ d) ≡ Agrees k s d
  Agrees-in_tag k e f =
      let (t, ts, p) = strsep-parts s in
      let (u, us, q) = strsep-parts d in rw (strsep-other x s e, strsep-other y d f, p, q) refl

IsTagged-at_comma :
    (k x : ℕ) (s : Bytes)
    → (x == b',') ≡ true
    → IsTagged k (strsep b',' (x ∷ s))
    → (k ≡ 0) × IsTagged ldap_tag_size (strsep b',' s)
IsTagged-at_comma k x s e g =
    let (t, ts, p) = strsep-parts s in
    let h = subst (IsTagged k) (strsep-comma x s e) g in
    (omega (arith, h.0), rw p (subst (All (λ u. ldap_tag_size ≤ length u)) p h.1))

IsTagged-in_tag :
    (k x : ℕ) (s : Bytes)
    → (x == b',') ≡ false
    → IsTagged (suc k) (strsep b',' (x ∷ s))
    → IsTagged k (strsep b',' s)
IsTagged-in_tag k x s e g =
    let (t, ts, p) = strsep-parts s in
    let h = subst (IsTagged (suc k)) (strsep-other x s e ∙ ap (cons_head x) p) g in
    rw p (omega (arith, h.0), h.1)

IsTagged-behind_tag :
    (x : ℕ) (s : Bytes)
    → (x == b',') ≡ false
    → IsTagged 0 (strsep b',' (x ∷ s))
    → IsTagged 0 (strsep b',' s)
IsTagged-behind_tag x s e g =
    let (t, ts, p) = strsep-parts s in
    let h = subst (IsTagged 0) (strsep-other x s e ∙ ap (cons_head x) p) g in
    rw p (omega arith, h.1)

rest_iff : {A B C : Type 0} → (A ↔ B) → (C ↔ B) → A ↔ C
rest_iff p q = ((λ a. q.1 (p.0 a)), (λ c. p.1 (q.0 c)))

same_contents_iff :
    (k : ℕ) (s d : Bytes)
    → str_eq_nocase s d ≡ true
    → IsTagged k (strsep b',' s)
    → (same_contents k s d ≡ true) ↔ Agrees k s d
unfolding same_contents str_eq_nocase
same_contents_iff zero [] [] h g = ((λ _. refl), (λ _. refl))
same_contents_iff (suc k) [] [] h g = ((λ _. refl), (λ _. refl))
same_contents_iff k [] (y ∷ d) h g = cc
same_contents_iff k (x ∷ s) [] h g = cc
same_contents_iff zero (x ∷ s) (y ∷ d) h g =
    let (l, r) = (&&-eq-true (tolower x == tolower y) (str_eq_nocase s d)).0 h in
    let same = same_letter x y l in
    elim (Bool-cases (x == b',')) [
      | inl e ↦
          let rest = same_contents_iff ldap_tag_size s d r (IsTagged-at_comma 0 x s e g).1 in
          let parts = Agrees-at_comma x y s d e (sym same ∙ e) in
          let equal : (x == y) ≡ true = ground arith in rw (equal, e) (rest_iff rest parts)
      | inr e ↦
          let rest = same_contents_iff zero s d r (IsTagged-behind_tag x s e g) in
          let parts = Agrees-at_letter x y s d e (sym same ∙ e) in
          elim (Bool-cases (x == y)) [
            | inl q ↦
                let equal : x ≡ y = ground arith in
                rw (q, e) ((λ h. parts.1 (equal, rest.0 h)), (λ a. rest.1 (parts.0 a).1))
            | inr q ↦
                let differs : x ≢ y = ground arith in
                rw q ((λ h. cc), (λ a. absurd (differs (parts.0 a).0)))
          ]
    ]
same_contents_iff (suc k) (x ∷ s) (y ∷ d) h g =
    let (l, r) = (&&-eq-true (tolower x == tolower y) (str_eq_nocase s d)).0 h in
    let same = same_letter x y l in
    elim (Bool-cases (x == b',')) [
      | inl e ↦ absurd (omega (arith, (IsTagged-at_comma (suc k) x s e g).0))
      | inr e ↦
          rw (Agrees-in_tag x y s d k e (sym same ∙ e))
            (same_contents_iff k s d r (IsTagged-in_tag k x s e g))
    ]

compare-both :
    (s d : Bytes)
    → (compare_ldap_sentence_without_tag (some s) (some d) ≡ ok)
      ↔ ((str_eq_nocase s d ≡ true) × (same_contents ldap_tag_size s d ≡ true))
unfolding compare_ldap_sentence_without_tag
compare-both s d = ground arith

All-IsTagged :
    (s : Bytes)
    → All (λ t. ldap_tag_size ≤ length t) (strsep b',' s)
    → IsTagged ldap_tag_size (strsep b',' s)
All-IsTagged s g =
    let (t, ts, p) = strsep-parts s in rw p (subst (All (λ u. ldap_tag_size ≤ length u)) p g)

all_parts :
    (s d : Bytes)
    → Agrees ldap_tag_size s d
      ≡ (map (drop ldap_tag_size) (strsep b',' s) ≡ map (drop ldap_tag_size) (strsep b',' d))
all_parts s d = let (t, ts, p) = strsep-parts s in let (u, us, q) = strsep-parts d in rw (p, q) refl

-- For a sentence whose parts between commas have 3 bytes at least, the comparison succeeds exactly
-- when the sentences are the same but for the case of letters, and their parts are the same without
-- the first 3 bytes of each.
pub compare_ldap_sentence_without_tag_iff :
    (s d : Bytes)
    → All (λ t. ldap_tag_size ≤ length t) (strsep b',' s)
    → (compare_ldap_sentence_without_tag (some s) (some d) ≡ ok) ↔ (
        (str_eq_nocase s d ≡ true)
        × (map (drop ldap_tag_size) (strsep b',' s) ≡ map (drop ldap_tag_size) (strsep b',' d)))
compare_ldap_sentence_without_tag_iff s d g =
    let both = compare-both s d in
    let same =
      λ (e : str_eq_nocase s d ≡ true). same_contents_iff ldap_tag_size s d e (All-IsTagged s g) in
    let parts = all_parts s d in
    (
      (λ h. let (e, c) = both.0 h in (e, subst (λ P. P) parts ((same e).0 c))),
      (λ h. both.1 (h.0, (same h.0).1 (subst (λ P. P) (sym parts) h.1))),
    )
