-- ===== src/Network/Ipv4.antt =====
-- `is_ip_in_subnet`: an address is in the subnet of a rule when their first bits agree.
use account.Base.{ℕ, ◌≤◌, ◌≡◌, refl, ap, ◌∙◌, ◌↔◌, Bytes, arith, some}
use account.Base.Int.{pos}
use account.Status.{ok, >>=-eq-ok}
use account.Network.Prefix.{SamePrefix, mask_in_range_iff}
use account.Network.{Inet, scan_subnet, mask_in_range, is_ip_in_subnet}
use account.Network.Mask.{masked-SamePrefix}

module _ (net : Inet) where
  open net use {pton4, pton4_octets}

  -- The login address and the rule's address both parse, the rule's mask length is from 1 to 32,
  -- and as many first bits of the two are the same.
  pub record InSubnet4 (ip rule : Bytes) : Type 0 where
    pub addr : Bytes
    pub subnet_ip : Bytes
    pub subnet_addr : Bytes
    pub mask_len : ℕ
    pub login : pton4 ip ≡ some addr
    pub scanned : scan_subnet 15 32 rule ≡ some (subnet_ip, pos mask_len)
    pub subnet : pton4 subnet_ip ≡ some subnet_addr
    pub in_range : (1 ≤ mask_len) × (mask_len ≤ 32)
    pub same : SamePrefix mask_len addr subnet_addr

  accepts : (ip rule : Bytes) → is_ip_in_subnet net ip rule ≡ ok → InSubnet4 ip rule
  unfolding is_ip_in_subnet
  accepts ip rule h =
      let (a, ea, h1) = >>=-eq-ok (pton4 ip) _ h in
      let (scanned, er, h2) = >>=-eq-ok (scan_subnet 15 32 rule) _ h1 in
      let (m, em, h3) = >>=-eq-ok (mask_in_range 32 scanned.1) _ h2 in
      let (s, es, e) = >>=-eq-ok (pton4 scanned.0) _ h3 in
      let range = (mask_in_range_iff 32 m scanned.1).0 em in
      let octets =
        masked-SamePrefix m a s range.2 (pton4_octets ip a ea).1 (pton4_octets _ s es).1 in
      record {
        addr = a;
        subnet_ip = scanned.0;
        subnet_addr = s;
        mask_len = m;
        login = ea;
        scanned = er ∙ ap (λ v. some (scanned.0, v)) range.0;
        subnet = es;
        in_range = (range.1, range.2);
        same = octets.0 (ground arith);
      }

  -- An address passes an IPv4 rule exactly when it is in the rule's subnet.
  pub is_ip_in_subnet_iff :
      (ip rule : Bytes) → (is_ip_in_subnet net ip rule ≡ ok) ↔ InSubnet4 ip rule
  is_ip_in_subnet_iff ip rule = (accepts ip rule, back)
    where
      back : InSubnet4 ip rule → is_ip_in_subnet net ip rule ≡ ok
      back h =
          let range =
            (mask_in_range_iff 32 h.mask_len (pos h.mask_len)).1
              (refl, h.in_range.0, h.in_range.1) in
          let octets =
            masked-SamePrefix h.mask_len h.addr h.subnet_addr h.in_range.1
              (pton4_octets _ _ h.login).1 (pton4_octets _ _ h.subnet).1 in
          unfold is_ip_in_subnet in
          rw (h.login, h.scanned, range, h.subnet) (rw (octets.1 h.same) (ground arith))
