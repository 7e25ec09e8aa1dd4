-- ===== src/Network/Ipv6.antt =====
-- `is_ipv6_in_subnet` compares exactly the first `mask_len` bits.
use native.Mathlib.Decide.{ℕ_discrete}
use account.Base.{
  ℕ, ◌-◌, ◌/◌, ◌%◌, ◌^◌, ◌≤◌, ◌<◌, ◌≡◌, refl, ap, ◌∙◌, ◌↔◌, Bytes, get_or, arith, true, All, some,
}
use account.Base.Int.{pos}
use account.Status.{ok, >>=-eq-ok}
use account.Network.{Inet, same_bytes, same_prefix6, scan_subnet, mask_in_range, is_ipv6_in_subnet}
use account.Network.Prefix.{
  SamePrefix, SamePrefix-octets, same_bytes_iff, All-get_or, mask_in_range_iff,
}

-- Whole bytes, then the bits of the next one; at 128 bits there is no next one.
same_prefix6-parts :
    (m : ℕ) (s a : Bytes)
    → m ≤ 128
    → get_or s (m / 8) 0 < 256
    → get_or a (m / 8) 0 < 256
    → (same_prefix6 m s a ≡ ok) ↔ (
        (same_bytes (m / 8) 0 s a ≡ true)
        × (get_or s (m / 8) 0 / 2 ^ (8 - m % 8) ≡ get_or a (m / 8) 0 / 2 ^ (8 - m % 8)))
unfolding same_prefix6
same_prefix6-parts m s a h p q = elim (ℕ_discrete (m / 8) 16) [
  | yes last ↦ let e : m % 8 ≡ 0 = omega arith in rw e (ground arith)
  | no more ↦ ground arith
]

same_prefix6-SamePrefix :
    (m : ℕ) (s a : Bytes)
    → m ≤ 128
    → All (λ o. o < 256) s
    → All (λ o. o < 256) a
    → (same_prefix6 m s a ≡ ok) ↔ SamePrefix m s a
same_prefix6-SamePrefix m s a h ls la =
    let (there, back) = same_prefix6-parts m s a h (All-get_or s _ ls) (All-get_or a _ la) in
    let whole = same_bytes_iff (m / 8) 0 s a in
    let octets = SamePrefix-octets (m / 8) (m % 8) m s a (omega arith) (omega arith) ls la in
    (
      λ e. octets.1 ((λ i p. whole.0 (there e).0 i (omega arith) (omega arith)), (there e).1),
      λ e. back (whole.1 (λ k p q. (octets.0 e).0 k (omega arith)), (octets.0 e).1),
    )

module _ (net : Inet) where
  open net use {pton6, pton6_octets}

  -- The login address and the rule's address both parse, the rule's mask length is from 1 to 128,
  -- and as many first bits of the two are the same.
  pub record InSubnet6 (ip rule : Bytes) : Type 0 where
    pub addr : Bytes
    pub subnet_ip : Bytes
    pub subnet_addr : Bytes
    pub mask_len : ℕ
    pub login : pton6 ip ≡ some addr
    pub scanned : scan_subnet 45 128 rule ≡ some (subnet_ip, pos mask_len)
    pub subnet : pton6 subnet_ip ≡ some subnet_addr
    pub in_range : (1 ≤ mask_len) × (mask_len ≤ 128)
    pub same : SamePrefix mask_len subnet_addr addr

  accepts : (ip rule : Bytes) → is_ipv6_in_subnet net ip rule ≡ ok → InSubnet6 ip rule
  unfolding is_ipv6_in_subnet
  accepts ip rule h =
      let (a, ea, h1) = >>=-eq-ok (pton6 ip) _ h in
      let (scanned, er, h2) = >>=-eq-ok (scan_subnet 45 128 rule) _ h1 in
      let (m, em, h3) = >>=-eq-ok (mask_in_range 128 scanned.1) _ h2 in
      let (s, es, e) = >>=-eq-ok (pton6 scanned.0) _ h3 in
      let range = (mask_in_range_iff 128 m scanned.1).0 em in
      let octets =
        same_prefix6-SamePrefix m s a range.2 (pton6_octets _ s es).1 (pton6_octets ip a ea).1 in
      record {
        addr = a;
        subnet_ip = scanned.0;
        subnet_addr = s;
        mask_len = m;
        login = ea;
        scanned = er ∙ ap (λ v. some (scanned.0, v)) range.0;
        subnet = es;
        in_range = (range.1, range.2);
        same = octets.0 e;
      }

  -- An address passes an IPv6 rule exactly when it is in the rule's subnet.
  pub is_ipv6_in_subnet_iff :
      (ip rule : Bytes) → (is_ipv6_in_subnet net ip rule ≡ ok) ↔ InSubnet6 ip rule
  is_ipv6_in_subnet_iff ip rule = (accepts ip rule, back)
    where
      back : InSubnet6 ip rule → is_ipv6_in_subnet net ip rule ≡ ok
      back h =
          let range =
            (mask_in_range_iff 128 h.mask_len (pos h.mask_len)).1
              (refl, h.in_range.0, h.in_range.1) in
          let octets =
            same_prefix6-SamePrefix h.mask_len h.subnet_addr h.addr h.in_range.1
              (pton6_octets _ _ h.subnet).1 (pton6_octets _ _ h.login).1 in
          unfold is_ipv6_in_subnet in rw (h.login, h.scanned, range, h.subnet) (octets.1 h.same)
