-- ===== src/IpLock/Address/Forms.antt =====
-- The forms of an address that a login may come with.
use mathlib.Core.List.{append_assoc}
use account.Base.{
  ℕ, suc, ◌<◌, ◌≡◌, refl, ap, sym, ◌∙◌, ◌≢◌, ◌⊎◌, inl, inr, false, none, some, [], ◌∷◌, ◌++◌, arith,
  Bytes, length, take, get_or, take_append, length-append,
}
use account.Clib.Bounded.{strncpy_s}
use account.Clib.Search.{strchr-none, strchr-append, strrchr-append}
use account.Clib.Text.{has_char, strchr, strrchr}
use account.IpLock.Address.{remove_port_from_ip, without_brackets, before_port, same_offset}

abbrev pub IsBare : Bytes → Type 0
IsBare s = (get_or s 0 0 ≢ b'[') × (length s < 64)

bare : (s : Bytes) → get_or s 0 0 ≢ b'[' → remove_port_from_ip s ≡ without_brackets s
unfolding remove_port_from_ip
bare [] h = refl
bare (c ∷ s) h = ground arith

take_all : (s : Bytes) → take (length s) s ≡ s
take_all [] = refl
take_all (c ∷ s) = ap (◌∷◌ c) (take_all s)

-- A copy of what fits.
copy_all : (s : Bytes) → length s < 64 → before_port s none ≡ some s
copy_all s h = rw (take_all s) (ground arith)

copy_front : (s t : Bytes) → length s < 64 → strncpy_s 64 (s ++ t) (length s) ≡ some s
copy_front s t h = rw (take_append s t (length s) refl) (ground arith)

bare-append : (s t : Bytes) → get_or s 0 0 ≢ b'[' → get_or (s ++ (b':' ∷ t)) 0 0 ≢ b'['
bare-append [] t h = λ e. omega arith
bare-append (c ∷ s) t h = h

get_or-behind :
    (s : Bytes) (c : ℕ) (rest : Bytes)
    → get_or (s ++ (c ∷ rest)) (suc (length s)) 0 ≡ get_or rest 0 0
get_or-behind [] c rest = refl
get_or-behind (x ∷ s) c rest = get_or-behind s c rest

plain : (s : Bytes) → IsBare s → has_char b':' s ≡ false → remove_port_from_ip s ≡ some s
plain s (h, l) n = bare s h ∙ rw (strchr-none b':' s n) (copy_all s l)

with_port :
    (s port : Bytes)
    → IsBare s
    → has_char b':' s ≡ false
    → has_char b':' port ≡ false
    → remove_port_from_ip (s ++ (b':' ∷ port)) ≡ some s
with_port s port (h, l) n m =
    let e : same_offset (some (length s)) (some (length s)) ≡ some (length s) = ground arith in
    bare (s ++ (b':' ∷ port)) (bare-append s port h)
    ∙ rw (strchr-append b':' s port n, strrchr-append b':' s port m)
        (ap (before_port (s ++ (b':' ∷ port))) e ∙ copy_front s (b':' ∷ port) l)

bracketed :
    (s rest : Bytes)
    → length s < 64
    → has_char b']' s ≡ false
    → (get_or rest 0 0 ≡ 0) ⊎ (get_or rest 0 0 ≡ b':')
    → remove_port_from_ip (b'[' ∷ (s ++ (b']' ∷ rest))) ≡ some s
unfolding remove_port_from_ip
bracketed s rest l n r =
    let e = get_or-behind s b']' rest in
    let f = copy_front s (b']' ∷ rest) l in rw (strchr-append b']' s rest n) (ground arith)

colons :
    (s t u : Bytes)
    → IsBare (s ++ (b':' ∷ (t ++ (b':' ∷ u))))
    → has_char b':' s ≡ false
    → has_char b':' u ≡ false
    → remove_port_from_ip (s ++ (b':' ∷ (t ++ (b':' ∷ u)))) ≡ some (s ++ (b':' ∷ (t ++ (b':' ∷ u))))
colons s t u (h, l) n m =
    let w = s ++ (b':' ∷ (t ++ (b':' ∷ u))) in
    let k = length-append s (b':' ∷ t) in
    let apart : same_offset (some (length s)) (some (length (s ++ (b':' ∷ t)))) ≡ none =
      ground arith in
    let e =
      ap (strrchr b':') (sym (append_assoc s (b':' ∷ t) (b':' ∷ u)))
      ∙ strrchr-append b':' (s ++ (b':' ∷ t)) u m in
    bare w h
    ∙ ap (λ o. before_port w (same_offset (strchr b':' w) o)) e
    ∙ ap (λ o. before_port w (same_offset o (some (length (s ++ (b':' ∷ t))))))
        (strchr-append b':' s (t ++ (b':' ∷ u)) n)
    ∙ ap (before_port w) apart
    ∙ copy_all w l

-- Of a text that does not begin with a bracket, `remove_port_from_ip` returns all where it holds no
-- colon or at least two, and what stands before the colon where it holds one; of a text in brackets,
-- with nothing or a colon behind, it returns what they hold. What is returned has less than 64 bytes.
remove_port_from_ip-forms :
    (s t u : Bytes)
    → length (s ++ (b':' ∷ (t ++ (b':' ∷ u)))) < 64
    → get_or s 0 0 ≢ b'['
    → has_char b':' s ≡ false
    → has_char b':' u ≡ false
    → has_char b']' t ≡ false
    → (remove_port_from_ip s ≡ some s)
      × (remove_port_from_ip (s ++ (b':' ∷ u)) ≡ some s)
      × (remove_port_from_ip (s ++ (b':' ∷ (t ++ (b':' ∷ u))))
          ≡ some (s ++ (b':' ∷ (t ++ (b':' ∷ u)))))
      × (remove_port_from_ip (b'[' ∷ (t ++ (b']' ∷ []))) ≡ some t)
      × (remove_port_from_ip (b'[' ∷ (t ++ (b']' ∷ b':' ∷ u))) ≡ some t)
remove_port_from_ip-forms s t u l h n m k =
    let ls = length-append s (b':' ∷ (t ++ (b':' ∷ u))) in
    let lt = length-append t (b':' ∷ u) in
    let short : length s < 64 = omega arith in
    let inside : length t < 64 = omega arith in
    (
      plain s (h, short) n,
      with_port s u (h, short) n m,
      colons s t u (bare-append s _ h, l) n m,
      bracketed t [] inside k (inl refl),
      bracketed t (b':' ∷ u) inside k (inr refl),
    )
