-- ===== src/Network/Valid.antt =====
-- Which addresses a rule or a login may have.
use native.Mathlib.Decide.{ℕ_discrete}
use account.Base.{
  ℕ, ◌+◌, ◌*◌, ◌≤◌, ◌<◌, ◌≡◌, refl, sym, ◌∙◌, ◌↔◌, ◌≢◌, Bytes, get_or, arith, true, ◌==◌, All, some,
  bit_and, ==_iff, [], ◌∷◌, ◌++◌, &&-eq-true, replicate,
}
use account.Base.Bits.{passes_to, passes_at, bit_and-split, bit_and-zero}
use account.Status.{ok, >>=-eq-ok}
use account.Network.Mask.{bit_and-mask_octet}
use account.Network.Prefix.{SamePrefix, SamePrefix-octets, same_bytes_iff, All-get_or}
use account.Network.{
  Inet, s_addr, same_bytes, zero_address, in6_is_addr_unspecified, in6_is_addr_loopback,
  in6_is_addr_linklocal, in6_is_addr_multicast, verify_ipv4_address, verify_ipv6_address,
}

first_octet : (a : Bytes) → All (λ o. o < 256) a → bit_and (s_addr a) 0xff ≡ get_or a 0 0
unfolding s_addr
first_octet a la =
    let o = get_or a 0 0 in
    let rest = get_or a 1 0 + 256 * (get_or a 2 0 + 256 * get_or a 3 0) in
    omega (
      arith,
      bit_and-split 8 o 0xff rest 0 (All-get_or a 0 la) (omega arith),
      bit_and-zero rest,
      bit_and-mask_octet 8 o (omega arith) (All-get_or a 0 la),
    )

module _ (net : Inet) where
  open net use {pton4, pton4_octets}

  accepts4 :
      (s : Bytes)
      → verify_ipv4_address net (some s) ≡ ok
      → (a : Bytes) × (pton4 s ≡ some a)
        × (1 ≤ get_or a 0 0)
        × (get_or a 0 0 ≤ 223)
        × (get_or a 0 0 ≢ 127)
  unfolding verify_ipv4_address
  accepts4 s h =
      let (a, ea, e) = >>=-eq-ok (pton4 s) _ h in
      let first = first_octet a (pton4_octets s a ea).1 in
      (a, ea, ground arith, ground arith, ground arith)

  -- An IPv4 address is valid exactly when it parses and its first octet is from 1 to 223 and not 127.
  verify_ipv4_address_iff :
      (s : Bytes)
      → (verify_ipv4_address net (some s) ≡ ok) ↔ (
          (a : Bytes) × (pton4 s ≡ some a)
          × (1 ≤ get_or a 0 0)
          × (get_or a 0 0 ≤ 223)
          × (get_or a 0 0 ≢ 127))
  verify_ipv4_address_iff s = (
    accepts4 s,
    λ (a, ea, lo, hi, loop).
        let first = first_octet a (pton4_octets s a ea).1 in
        unfold verify_ipv4_address in rw ea (ground arith),
  )

-- ::, ::1, fe80:: and ff00::
abbrev pub loopback_address : Bytes
loopback_address = replicate 15 0 ++ (1 ∷ [])

abbrev pub linklocal_address : Bytes
linklocal_address = 0xfe ∷ 0x80 ∷ replicate 14 0

abbrev pub multicast_address : Bytes
multicast_address = 0xff ∷ replicate 15 0

-- Two addresses of sixteen octets agree on 128 bits exactly when they agree octet by octet.
whole_address :
    (a b : Bytes)
    → All (λ o. o < 256) a
    → All (λ o. o < 256) b
    → SamePrefix 128 a b ↔ ((i : ℕ) → i < 16 → get_or a i 0 ≡ get_or b i 0)
whole_address a b la lb =
    let octets = SamePrefix-octets 16 0 128 a b (omega arith) (omega arith) la lb in
    (λ s. (octets.0 s).0, λ h. octets.1 (h, omega (arith, All-get_or a 16 la, All-get_or b 16 lb)))

unspecified_iff :
    (a : Bytes)
    → All (λ o. o < 256) a
    → (in6_is_addr_unspecified a ≡ true) ↔ SamePrefix 128 zero_address a
unspecified_iff a la =
    let whole = whole_address zero_address a (omega arith) la in
    let bytes = same_bytes_iff 16 0 zero_address a in
    (
      λ e. whole.1 (λ i p. bytes.0 e i (omega arith) (omega arith)),
      λ s. bytes.1 (λ i p q. whole.0 s i (omega arith)),
    )

loopback_low : (i : ℕ) → i < 15 → get_or loopback_address i 0 ≡ get_or zero_address i 0
loopback_low i h = (==_iff _ _).0 (passes_at 15 _ i low_table h)
  where
    low_table : passes_to 15 (λ i. get_or loopback_address i 0 == get_or zero_address i 0) ≡ true
    low_table = unfold passes_to in refl

loopback_iff :
    (a : Bytes)
    → All (λ o. o < 256) a
    → (in6_is_addr_loopback a ≡ true) ↔ SamePrefix 128 loopback_address a
loopback_iff a la =
    let whole = whole_address loopback_address a (omega arith) la in
    let bytes = same_bytes_iff 15 0 zero_address a in
    let both = &&-eq-true (same_bytes 15 0 zero_address a) (get_or a 15 0 == 1) in
    let last = ==_iff (get_or a 15 0) 1 in
    (
      λ e. whole.1 (λ i p. elim (ℕ_discrete i 15) [
        | yes q ↦ rw q (sym (last.0 (both.0 e).1))
        | no q ↦ loopback_low i (omega arith) ∙ bytes.0 (both.0 e).0 i (omega arith) (omega arith)
      ]),
      λ s. both.1 (
        bytes.1 (λ i p q. sym (loopback_low i (omega arith)) ∙ whole.0 s i (omega arith)),
        last.1 (sym (whole.0 s 15 (omega arith))),
      ),
    )

linklocal_iff :
    (a : Bytes)
    → All (λ o. o < 256) a
    → (in6_is_addr_linklocal a ≡ true) ↔ SamePrefix 10 linklocal_address a
linklocal_iff a la =
    let octets =
      SamePrefix-octets 1 2 10 linklocal_address a (omega arith) (omega arith) (omega arith) la in
    let under = bit_and-mask_octet 2 (get_or a 1 0) (omega arith) (All-get_or a 1 la) in
    (
      λ e. octets.1 ((λ i p. let z : i ≡ 0 = omega arith in rw z (ground arith)), ground arith),
      λ s. let z = (octets.0 s).0 0 (omega arith) in let q = (octets.0 s).1 in ground arith,
    )

multicast_iff :
    (a : Bytes)
    → All (λ o. o < 256) a
    → (in6_is_addr_multicast a ≡ true) ↔ SamePrefix 8 multicast_address a
multicast_iff a la =
    let octets =
      SamePrefix-octets 1 0 8 multicast_address a (omega arith) (omega arith) (omega arith) la in
    (
      λ e. octets.1 (
        (λ i p. let z : i ≡ 0 = omega arith in rw z (ground arith)),
        omega (arith, All-get_or a 1 la),
      ),
      λ s. let z = (octets.0 s).0 0 (omega arith) in ground arith,
    )

-- The addresses that a rule or a login may not have.
pub record IsRoutable6 (a : Bytes) : Type 0 where
  pub specified : ¬ SamePrefix 128 zero_address a
  pub remote : ¬ SamePrefix 128 loopback_address a
  pub routed : ¬ SamePrefix 10 linklocal_address a
  pub unicast : ¬ SamePrefix 8 multicast_address a

module _ (net : Inet) where
  open net use {pton6, pton6_octets}

  accepts6 :
      (s : Bytes)
      → verify_ipv6_address net (some s) ≡ ok
      → (a : Bytes) × (pton6 s ≡ some a)
        × (in6_is_addr_unspecified a ≢ true)
        × (in6_is_addr_loopback a ≢ true)
        × (in6_is_addr_linklocal a ≢ true)
        × (in6_is_addr_multicast a ≢ true)
  unfolding verify_ipv6_address
  accepts6 s h =
      let (a, ea, e) = >>=-eq-ok (pton6 s) _ h in
      (a, ea, ground arith, ground arith, ground arith, ground arith)

  rejects6 :
      (s a : Bytes)
      → pton6 s ≡ some a
      → in6_is_addr_unspecified a ≢ true
      → in6_is_addr_loopback a ≢ true
      → in6_is_addr_linklocal a ≢ true
      → in6_is_addr_multicast a ≢ true
      → verify_ipv6_address net (some s) ≡ ok
  unfolding verify_ipv6_address
  rejects6 s a ea u l k m = rw ea (ground arith)

  -- An IPv6 address is valid exactly when it parses and is neither :: nor ::1, and neither in fe80::/10
  -- nor in ff00::/8.
  verify_ipv6_address_iff :
      (s : Bytes)
      → (verify_ipv6_address net (some s) ≡ ok) ↔ ((a : Bytes) × (pton6 s ≡ some a) × IsRoutable6 a)
  verify_ipv6_address_iff s = (
    λ h.
        let (a, ea, u, l, k, m) = accepts6 s h in
        let la = (pton6_octets s a ea).1 in
        (
          a,
          ea,
          record {
            specified = λ p. u ((unspecified_iff a la).1 p);
            remote = λ p. l ((loopback_iff a la).1 p);
            routed = λ p. k ((linklocal_iff a la).1 p);
            unicast = λ p. m ((multicast_iff a la).1 p);
          },
        ),
    λ (a, ea, r).
        let la = (pton6_octets s a ea).1 in
        rejects6 s a ea (λ p. r.specified ((unspecified_iff a la).0 p))
          (λ p. r.remote ((loopback_iff a la).0 p)) (λ p. r.routed ((linklocal_iff a la).0 p))
          (λ p. r.unicast ((multicast_iff a la).0 p)),
  )
