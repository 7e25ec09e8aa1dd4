-- ===== src/LoginRule/Address/Rules.antt =====
-- What the address and hardware rules of check_login_rule.c admit.
use account.Base.{
  ◌≤◌, ◌≡◌, refl, sym, ◌∙◌, if◌then◌else◌, ◌↔◌, ◌≢◌, ◌⊎◌, inl, inr, true, false, Option, none, some,
  List, [], ◌∷◌, arith, Bytes, length, All, Any, Bool-cases, Option-cases,
}
use account.Clib.Text.{codes, str_eq, starts_with_nocase, has_char}
use account.Status.{Ret, ok, err, limited, code, is_ok_iff}
use account.LoginRule.Address.{
  Host, mac_text, get_mac_by_socket, match_interfaces, match_listed, check_mac, check_mac_rule,
  ok_or_err, verify_ip_with_rule, check_ip_rule,
}
use account.Network.{Inet, verify_ipv4_address, verify_ipv6_address}
use account.Network.Ipv4.{InSubnet4, is_ip_in_subnet_iff}
use account.Network.Ipv6.{InSubnet6, is_ipv6_in_subnet_iff}
use account.Clib.Scan.{scan_until}

module _ (host : Host) (mac_rule ip_info : Bytes) where
  -- The interface is the loopback.
  abbrev pub IsLoopback : Bytes → Type 0
  IsLoopback name = str_eq name (codes "lo") ≡ true

  -- A neighbour with the login's address answers on the interface, and the rule is a prefix of its
  -- hardware address.
  pub record Matches (name : Bytes) : Type 0 where
    pub external : str_eq name (codes "lo") ≡ false
    pub mac : Bytes
    pub known : get_mac_by_socket host name ip_info ≡ some mac
    pub prefix : starts_with_nocase mac_rule (mac_text mac) ≡ true

  match_interfaces-loopback :
      (ret : Ret) (name : Bytes) (names : List Bytes)
      → IsLoopback name
      → match_interfaces host mac_rule ip_info ret (name ∷ names)
        ≡ match_interfaces host mac_rule ip_info ret names
  unfolding match_interfaces
  match_interfaces-loopback ret name names lo = rw lo refl

  match_interfaces-silent :
      (ret : Ret) (name : Bytes) (names : List Bytes)
      → str_eq name (codes "lo") ≡ false
      → get_mac_by_socket host name ip_info ≡ none
      → match_interfaces host mac_rule ip_info ret (name ∷ names)
        ≡ match_interfaces host mac_rule ip_info err names
  unfolding match_interfaces
  match_interfaces-silent ret name names ext e = rw (ext, e) refl

  match_interfaces-answer :
      (ret : Ret) (name mac : Bytes) (names : List Bytes)
      → str_eq name (codes "lo") ≡ false
      → get_mac_by_socket host name ip_info ≡ some mac
      → match_interfaces host mac_rule ip_info ret (name ∷ names) ≡ (
          if starts_with_nocase mac_rule (mac_text mac)
          then ok
          else match_interfaces host mac_rule ip_info err names)
  unfolding match_interfaces
  match_interfaces-answer ret name mac names ext e = rw (ext, e) refl

  match_interfaces-accepts :
      (ret : Ret) (names : List Bytes)
      → match_interfaces host mac_rule ip_info ret names ≡ ok
      → Any Matches names ⊎ ((ret ≡ ok) × All IsLoopback names)
  match_interfaces-accepts ret [] h = inr (unfold match_interfaces in h, tt)
  match_interfaces-accepts ret (name ∷ names) h = elim (Bool-cases (str_eq name (codes "lo"))) [
    | inl lo ↦
        elim (match_interfaces-accepts ret names
          (sym (match_interfaces-loopback ret name names lo) ∙ h)) [
            | inl found ↦ inl (inr found)
            | inr (e, all) ↦ inr (e, (lo, all))
          ]
    | inr ext ↦ elim (Option-cases (get_mac_by_socket host name ip_info)) [
      | inl e ↦
          later (match_interfaces-accepts err names)
            (sym (match_interfaces-silent ret name names ext e) ∙ h)
      | inr (mac, e) ↦ elim (Bool-cases (starts_with_nocase mac_rule (mac_text mac))) [
        | inl p ↦ inl (inl (record { external = ext; mac = mac; known = e; prefix = p }))
        | inr n ↦
            later (match_interfaces-accepts err names)
              (rw n at (sym (match_interfaces-answer ret name mac names ext e) ∙ h))
      ]
    ]
  ]
    where
      later :
          (match_interfaces host mac_rule ip_info err names ≡ ok
            → Any Matches names ⊎ ((err ≡ ok) × All IsLoopback names))
          → match_interfaces host mac_rule ip_info err names ≡ ok
          → Any Matches (name ∷ names) ⊎ ((ret ≡ ok) × All IsLoopback (name ∷ names))
      later rec h' = elim (rec h') [ inl found ↦ inl (inr found) | inr (e, all) ↦ cc ]

  match_interfaces_alone :
      (names : List Bytes)
      → All IsLoopback names
      → match_interfaces host mac_rule ip_info ok names ≡ ok
  match_interfaces_alone [] h = unfold match_interfaces in refl
  match_interfaces_alone (name ∷ names) h =
      match_interfaces-loopback ok name names h.0 ∙ match_interfaces_alone names h.1

  match_interfaces-found :
      (ret : Ret) (names : List Bytes)
      → Any Matches names
      → match_interfaces host mac_rule ip_info ret names ≡ ok
  match_interfaces-found ret [] h = absurd h
  match_interfaces-found ret (name ∷ names) (inl m) =
      match_interfaces-answer ret name m.mac names m.external m.known ∙ rw m.prefix refl
  match_interfaces-found ret (name ∷ names) (inr later) =
      elim (Bool-cases (str_eq name (codes "lo"))) [
        | inl lo ↦
            match_interfaces-loopback ret name names lo ∙ match_interfaces-found ret names later
        | inr ext ↦ elim (Option-cases (get_mac_by_socket host name ip_info)) [
          | inl e ↦
              match_interfaces-silent ret name names ext e ∙ match_interfaces-found err names later
          | inr (mac, e) ↦
              match_interfaces-answer ret name mac names ext e
              ∙ rw (match_interfaces-found err names later) (ground arith)
        ]
      ]

  abbrev Allowed : Option (List Bytes) → Type 0
  Allowed listed =
      (names : List Bytes) × (listed ≡ some names) × (Any Matches names ⊎ All IsLoopback names)

  match_listed_iff :
      (listed : Option (List Bytes))
      → (match_listed host mac_rule ip_info listed ≡ ok) ↔ Allowed listed
  match_listed_iff none = ((λ h. cc), (λ h. cc))
  match_listed_iff (some names) = (to, back)
    where
      to : match_interfaces host mac_rule ip_info ok names ≡ ok → Allowed (some names)
      to h = elim (match_interfaces-accepts ok names h) [
        | inl found ↦ (names, refl, inl found)
        | inr (_, all) ↦ (names, refl, inr all)
      ]

      back : Allowed (some names) → match_interfaces host mac_rule ip_info ok names ≡ ok
      back (names', e, p) =
          let held : match_interfaces host mac_rule ip_info ok names' ≡ ok = elim p [
            | inl found ↦ match_interfaces-found ok names' found
            | inr all ↦ match_interfaces_alone names' all
          ] in
          cc

  -- `check_mac` succeeds exactly when the interfaces can be listed, and either the rule is a prefix,
  -- in any case of letters, of the hardware address that some interface other than the loopback gives
  -- for the login's address, or there is no interface but loopbacks.
  check_mac_iff : (check_mac host mac_rule ip_info ≡ ok) ↔ (
      (names : List Bytes) × (host.interfaces ≡ some names)
      × (Any Matches names ⊎ All IsLoopback names))
  unfolding check_mac
  check_mac_iff = match_listed_iff host.interfaces

ok_or_err_iff : (r : Ret) → (ok_or_err r ≡ ok) ↔ (r ≡ ok)
ok_or_err_iff ok = (λ _. refl, λ _. refl)
ok_or_err_iff err = ((λ h. cc), (λ h. cc))
ok_or_err_iff limited = ((λ h. cc), (λ h. cc))
ok_or_err_iff (code c) = ((λ h. cc), (λ h. cc))

module _ (net : Inet) where
  -- A hardware rule admits a login exactly when it is empty, or the login is a valid IPv6 address,
  -- which no hardware rule restricts, or it is a valid IPv4 address that `check_mac` accepts. What
  -- holds a colon is taken for IPv6.
  check_mac_rule_iff :
      (host : Host) (mac_rule ip_info : Bytes)
      → (check_mac_rule net host mac_rule ip_info ≡ ok) ↔ (
          (length mac_rule ≡ 0)
          ⊎ ((has_char b':' ip_info ≡ true) × (verify_ipv6_address net (some ip_info) ≡ ok))
          ⊎ ((has_char b':' ip_info ≡ false)
              × (verify_ipv4_address net (some ip_info) ≡ ok)
              × (check_mac host mac_rule ip_info ≡ ok)))
  unfolding check_mac_rule
  check_mac_rule_iff host mac_rule ip_info =
      let v6 = ok_or_err_iff (verify_ipv6_address net (some ip_info)) in
      let v4 = is_ok_iff (verify_ipv4_address net (some ip_info)) in
      let m = ok_or_err_iff (check_mac host mac_rule ip_info) in ground (arith, v6, v4, m)

  -- The text in front of the slash of a rule.
  abbrev pub rule_address : Bytes → Bytes
  rule_address ip_rule = (scan_until b'/' 45 ip_rule).0

  -- What `verify_ip_with_rule` accepts: the rule's own address decides the family.
  abbrev pub IpAllowed : Bytes → Bytes → Type 0
  IpAllowed ip_rule ip_info =
      (length (rule_address ip_rule) ≢ 0)
      × (((verify_ipv4_address net (some (rule_address ip_rule)) ≡ ok)
            × InSubnet4 net ip_info ip_rule)
          ⊎ ((verify_ipv4_address net (some (rule_address ip_rule)) ≢ ok)
              × (verify_ipv6_address net (some (rule_address ip_rule)) ≡ ok)
              × InSubnet6 net ip_info ip_rule))

  verify_ip_with_rule_iff :
      (ip_rule ip_info : Bytes)
      → (verify_ip_with_rule net ip_rule ip_info ≡ ok) ↔ IpAllowed ip_rule ip_info
  unfolding verify_ip_with_rule
  verify_ip_with_rule_iff ip_rule ip_info =
      let v4 = is_ok_iff (verify_ipv4_address net (some (rule_address ip_rule))) in
      let v6 = is_ok_iff (verify_ipv6_address net (some (rule_address ip_rule))) in
      let s4 = is_ip_in_subnet_iff net ip_info ip_rule in
      let s6 = is_ipv6_in_subnet_iff net ip_info ip_rule in ground arith

  -- An address rule admits a login exactly when it is empty, or the login's text has at most 64 bytes
  -- and lies in the subnet of the rule: of IPv4 where the text in front of the slash is a valid IPv4
  -- address, else of IPv6 where it is a valid IPv6 address.
  check_ip_rule_iff :
      (ip_rule ip_info : Bytes)
      → (check_ip_rule net ip_rule ip_info ≡ ok)
        ↔ ((length ip_rule ≡ 0) ⊎ ((length ip_info ≤ 64) × IpAllowed ip_rule ip_info))
  unfolding check_ip_rule
  check_ip_rule_iff ip_rule ip_info =
      let v = verify_ip_with_rule_iff ip_rule ip_info in
      let w = ok_or_err_iff (verify_ip_with_rule net ip_rule ip_info) in ground arith
