-- ===== src/LoginRule/Address.antt =====
-- Address and hardware rules of libiam/lualib-src/iam_core/common/check_login_rule.c. What the kernel
-- answers about interfaces and neighbours is a parameter.
pub mod Rules
use account.Base.{
  ℕ, zero, suc, ◌+◌, ◌-◌, ◌/◌, ◌%◌, Bool, true, false, Option, none, some, List, [], ◌∷◌, ◌++◌, ltb,
  ◌==◌, if◌then◌else◌, Bytes, length, take,
}
use account.Clib.Bounded.{strcpy_s}
use account.Clib.Scan.{scan_until}
use account.Clib.Text.{codes, str_eq, starts_with_nocase, has_char}
use account.Status.{Ret, ok, err, is_ok, ◌>>=◌}
use account.Network.{
  Inet, is_ip_in_subnet, is_ipv6_in_subnet, verify_ipv4_address, verify_ipv6_address,
}

-- SIOCGIFCONF: the names of the active interfaces, none where a call fails. `inet_aton`. SIOCGARP:
-- the six bytes of a neighbour, for a device and an address; as `char` is promoted by the target,
-- every byte comes as the `unsigned int` that %02x prints.
pub record Host : Type 0 where
  pub interfaces : Option (List Bytes)
  pub inet_aton : Bytes → Option Bytes
  pub arp : Bytes → Bytes → Option Bytes

-- %02x
hex_digit : ℕ → ℕ
hex_digit n = if ltb n 10 then 48 + n else 87 + n

hex_digits : ℕ → ℕ → Bytes → Bytes
unfolding hex_digit
hex_digits zero n done = done
hex_digits (suc fuel) n done =
    let longer = hex_digits fuel (n / 16) (hex_digit (n % 16) ∷ done) in
    if n == 0 then done else longer

abbrev pad2 : Bytes → Bytes
pad2 [] = codes "00"
pad2 (c ∷ []) = b'0' ∷ c ∷ []
pad2 s = s

-- Eight digits are enough for 32 bits.
unfoldable pub hex2 : ℕ → Bytes
unfolding hex_digits
hex2 n = pad2 (hex_digits 8 n [])

-- "%02x:%02x:%02x:%02x:%02x:%02x\n"
unfoldable pub mac_text : Bytes → Bytes
unfolding hex2
mac_text [] = b'\n' ∷ []
mac_text (a ∷ []) = hex2 a ++ (b'\n' ∷ [])
mac_text (a ∷ b ∷ s) = hex2 a ++ (b':' ∷ mac_text (b ∷ s))

module _ (host : Host) where
  -- The device name is cut to the size of `arp_dev`.
  unfoldable pub get_mac_by_socket : Bytes → Bytes → Option Bytes
  get_mac_by_socket active_port_name ip_info = elim (host.inet_aton ip_info) [
    | none ↦ none
    | some a ↦ host.arp (take 15 active_port_name) a
  ]

  -- The loop over the interfaces, from the last result.
  unfoldable pub match_interfaces : Bytes → Bytes → Ret → List Bytes → Ret
  match_interfaces mac_rule ip_info ret [] = ret
  match_interfaces mac_rule ip_info ret (name ∷ names) =
      let skipped = match_interfaces mac_rule ip_info ret names in
      let failed = match_interfaces mac_rule ip_info err names in
      if str_eq name (codes "lo") then skipped else elim (get_mac_by_socket name ip_info) [
        | none ↦ failed
        | some mac ↦ if starts_with_nocase mac_rule (mac_text mac) then ok else failed
      ]

  abbrev pub match_listed : Bytes → Bytes → Option (List Bytes) → Ret
  match_listed mac_rule ip_info none = err
  match_listed mac_rule ip_info (some names) = match_interfaces mac_rule ip_info ok names

  unfoldable pub check_mac : Bytes → Bytes → Ret
  check_mac mac_rule ip_info = match_listed mac_rule ip_info host.interfaces

-- ret == RET_OK ? RET_OK : RET_ERR
abbrev pub ok_or_err : Ret → Ret
ok_or_err r = if is_ok r then ok else err

module _ (net : Inet) where
  unfoldable pub verify_ip_with_rule : Bytes → Bytes → Ret
  verify_ip_with_rule ip_rule ip_info =
      let (subnet_ip, rest) = scan_until b'/' 45 ip_rule in
      if length subnet_ip == 0
      then err
      else if is_ok (verify_ipv4_address net (some subnet_ip))
      then is_ip_in_subnet net ip_info ip_rule
      else if is_ok (verify_ipv6_address net (some subnet_ip))
      then is_ipv6_in_subnet net ip_info ip_rule
      else err

  unfoldable pub check_ip_rule : Bytes → Bytes → Ret
  check_ip_rule ip_rule ip_info = if length ip_rule == 0 then ok else do
    tmp_check_ip ← strcpy_s 65 ip_info
    ok_or_err (verify_ip_with_rule ip_rule tmp_check_ip)

  unfoldable pub check_mac_rule : Host → Bytes → Bytes → Ret
  check_mac_rule host mac_rule ip_info =
      if length mac_rule == 0
      then ok
      else if has_char b':' ip_info
      then ok_or_err (verify_ipv6_address net (some ip_info))
      else if is_ok (verify_ipv4_address net (some ip_info))
      then ok_or_err (check_mac host mac_rule ip_info)
      else err
