-- ===== src/Ldap/Config/Special.antt =====
-- ldap_special_char_escape of libiam/lualib-src/iam_core/ldap_auth_parse_info.c, written without an
-- index.
use account.Base.{
  ℕ, zero, suc, ◌+◌, ◌-◌, ◌≤◌, ◌<◌, ◌≡◌, ◌≢◌, inl, inr, refl, sym, ap, ◌∙◌, true, false, none, some,
  [], ◌∷◌, ◌++◌, arith, if◌then◌else◌, Bool-cases, All, Bytes, length, get_elem?, length-append,
  take_append, drop_append,
}
use mathlib.Core.List.{append-nil, append_assoc}
use account.Clib.Text.{has_char}
use account.Ldap.Dn.Join.{take_all}
use account.Ldap.Config.{special_chars, is_need_escape, escape_loop, ldap_special_char_escape}

-- The bytes of a name without `=` and `,`, each special one after a backslash.
unfoldable pub escaped_name : Bytes → Bytes
escaped_name [] = []
escaped_name (c ∷ s) =
    let rest = escaped_name s in if has_char c special_chars then b'\\' ∷ c ∷ rest else c ∷ rest

abbrev pub IsName : ℕ → Type 0
IsName c = (c ≢ b'=') × (c ≢ b',')

is_need_escape-name :
    (string : Bytes) (c i : ℕ) → IsName c → is_need_escape string c i ≡ has_char c special_chars
unfolding is_need_escape
is_need_escape-name string c i h = ground arith

get_elem?_behind : (s t : Bytes) (c : ℕ) → get_elem? (s ++ (c ∷ t)) (length s) ≡ some c
get_elem?_behind [] t c = refl
get_elem?_behind (x ∷ s) t c = get_elem?_behind s t c

get_elem?_end : (s : Bytes) → get_elem? s (length s) ≡ none
get_elem?_end [] = refl
get_elem?_end (x ∷ s) = get_elem?_end s

length-escaped_name : (s : Bytes) → length s ≤ length (escaped_name s)
unfolding escaped_name
length-escaped_name [] = omega arith
length-escaped_name (c ∷ s) = ground (arith, length-escaped_name s)

escape_loop-step :
    (fuel max : ℕ) (s t : Bytes) (c : ℕ)
    → is_need_escape (s ++ (c ∷ t)) c (length s) ≡ true
    → length s + length t + 2 < max
    → length s + length t + 1 ≤ 255
    → escape_loop (suc fuel) max (length s) (s ++ (c ∷ t))
      ≡ escape_loop fuel max (length s + 2) (s ++ (b'\\' ∷ c ∷ t))
unfolding escape_loop
escape_loop-step fuel max s t c n h k =
    rw
      (
        escape_loop,
        get_elem?_behind s t c,
        n,
        take_append s (c ∷ t) (length s) refl,
        take_all 255 (s ++ (c ∷ t)) (omega (arith, k, length-append s (c ∷ t))),
        drop_append s (c ∷ t) (length s) refl,
        take_all (max - length s - 1) (b'\\' ∷ c ∷ t) (omega (arith, h)),
      )
      refl

escape_loop-pass :
    (fuel max : ℕ) (s t : Bytes) (c : ℕ)
    → is_need_escape (s ++ (c ∷ t)) c (length s) ≡ false
    → escape_loop (suc fuel) max (length s) (s ++ (c ∷ t))
      ≡ escape_loop fuel max (length s + 1) (s ++ (c ∷ t))
unfolding escape_loop
escape_loop-pass fuel max s t c n = rw (escape_loop, get_elem?_behind s t c, n) refl

escape_loop-end : (fuel max : ℕ) (s : Bytes) → escape_loop fuel max (length s) (s ++ []) ≡ s ++ []
unfolding escape_loop
escape_loop-end zero max s = refl
escape_loop-end (suc fuel) max s = rw (append-nil s) (rw (escape_loop, get_elem?_end s) refl)

-- What the loop has passed, in one list.
behind :
    (fuel max : ℕ) (s u t : Bytes) (i : ℕ)
    → i ≡ length (s ++ u)
    → escape_loop fuel max (length (s ++ u)) ((s ++ u) ++ t) ≡ (s ++ u) ++ escaped_name t
    → escape_loop fuel max i (s ++ (u ++ t)) ≡ s ++ (u ++ escaped_name t)
behind fuel max s u t i e h =
    ap (λ k. escape_loop fuel max k (s ++ (u ++ t))) e
    ∙ (ap (escape_loop fuel max (length (s ++ u))) (sym (append_assoc s u t))
        ∙ (h ∙ append_assoc s u (escaped_name t)))

-- The loop behind the bytes that it has passed.
escape_loop-escaped_name :
    (fuel max : ℕ) (s t : Bytes)
    → All IsName t
    → length t < fuel
    → length s + length (escaped_name t) < max
    → max ≤ 256
    → escape_loop fuel max (length s) (s ++ t) ≡ s ++ escaped_name t
unfolding escaped_name
escape_loop-escaped_name fuel max s [] h f l m = escape_loop-end fuel max s
escape_loop-escaped_name zero max s (c ∷ t) h f l m = absurd (omega (arith, f))
escape_loop-escaped_name (suc fuel) max s (c ∷ t) h f l m =
    let need = is_need_escape-name (s ++ (c ∷ t)) c (length s) h.0 in
    let size = length-escaped_name t in
    elim (Bool-cases (has_char c special_chars)) [
      | inl e ↦
          let room : length s + 2 + length (escaped_name t) < max = ground arith in
          rw e (
            escape_loop-step fuel max s t c (need ∙ e) (omega (arith, room, size))
              (omega (arith, room, size, m))
            ∙ behind fuel max s (b'\\' ∷ c ∷ []) t (length s + 2)
                (sym (length-append s (b'\\' ∷ c ∷ [])))
                (escape_loop-escaped_name fuel max (s ++ (b'\\' ∷ c ∷ [])) t h.1 (omega (arith, f))
                  (omega (arith, room, length-append s (b'\\' ∷ c ∷ []))) m))
      | inr e ↦
          let room : length s + 1 + length (escaped_name t) < max = ground arith in
          rw e (
            escape_loop-pass fuel max s t c (need ∙ e)
            ∙ behind fuel max s (c ∷ []) t (length s + 1) (sym (length-append s (c ∷ []))) (
                escape_loop-escaped_name fuel max (s ++ (c ∷ [])) t h.1 (omega (arith, f))
                  (omega (arith, room, length-append s (c ∷ []))) m))
    ]

-- For a string without `=` and `,`, of at most 255 bytes, whose escaped bytes are fewer than the
-- bound, which is at most 256, ldap_special_char_escape puts a backslash before each special byte.
pub ldap_special_char_escape-name :
    (string : Bytes) (max : ℕ)
    → All IsName string
    → length string ≤ 255
    → length (escaped_name string) < max
    → max ≤ 256
    → ldap_special_char_escape string max ≡ escaped_name string
ldap_special_char_escape-name string max h s l m =
    escape_loop-escaped_name 256 max [] string h (omega (arith, s)) (omega (arith, l)) m
