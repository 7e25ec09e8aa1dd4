-- ===== src/Network.antt =====
-- libiam/lualib-src/iam_core/common/common.c, the subnet tests (libiam/lualib-src/network.c holds the
-- same two functions), and the address checks of check_login_rule.c and network.c.
-- `inet_pton` is a parameter; an address is its octets in network order, on a little-endian machine.
pub mod Prefix
pub mod Mask
pub mod Ipv4
pub mod Ipv6
pub mod Valid
use account.Base.{
  ℕ, zero, suc, ◌+◌, ◌-◌, ◌*◌, ◌/◌, ◌%◌, ◌^◌, ◌<◌, ◌≡◌, bit_and, Bool, true, false, ◌&&◌, ◌||◌, not,
  Option, none, some, [], ◌∷◌, ltb, leb, ◌==◌, if◌then◌else◌, Bytes, length, get_or, All, replicate,
}
use account.Base.Int.{ℤ, pos, negsuc, ltb_ℤ}
use account.Clib.Scan.{to_int, scan_until}
use account.Clib.Strtol.{strtol}
use account.Status.{Ret, ok, err, ◌>>=◌}

-- inet_pton(AF_INET, …) and inet_pton(AF_INET6, …): four or sixteen octets, if the text is an
-- address.
pub record Inet : Type 0 where
  pub pton4 : Bytes → Option Bytes
  pub pton6 : Bytes → Option Bytes
  pub pton4_octets : (s a : Bytes) → pton4 s ≡ some a → (length a ≡ 4) × All (λ o. o < 256) a
  pub pton6_octets : (s a : Bytes) → pton6 s ≡ some a → (length a ≡ 16) × All (λ o. o < 256) a

-- The word `s_addr` over the four octets.
unfoldable pub s_addr : Bytes → ℕ
s_addr a = get_or a 0 0 + 256 * (get_or a 1 0 + 256 * (get_or a 2 0 + 256 * get_or a 3 0))

unfoldable pub htonl : ℕ → ℕ
htonl x = x / 2 ^ 24 % 256 + 256 * (x / 2 ^ 16 % 256 + 256 * (x / 2 ^ 8 % 256 + 256 * (x % 256)))

-- htonl(~((1 << (32 - mask_len)) - 1)), in 32 bits.
unfoldable pub subnet_mask : ℕ → ℕ
unfolding htonl
subnet_mask mask_len = htonl (2 ^ 32 - 1 - (2 ^ (32 - mask_len) - 1) % 2 ^ 32)

-- sscanf_s(subnet_str, "%w[^/]/%d$", …): the text in front of the slash, if there is any, and the
-- mask length, which keeps its default where no number follows a slash.
mask_after : ℕ → Bytes → ℤ
mask_after default [] = pos default
mask_after default (c ∷ s) =
    let r = strtol s in if c == b'/' && r.moved then to_int r.value else pos default

unfoldable pub scan_subnet : ℕ → ℕ → Bytes → Option (Bytes × ℤ)
unfolding mask_after scan_until strtol
scan_subnet width default s =
    let (subnet_ip, rest) = scan_until b'/' width s in
    if length subnet_ip == 0 then none else some (subnet_ip, mask_after default rest)

-- mask_len > max || mask_len < 1, and the length where it is neither.
unfoldable pub mask_in_range : ℕ → ℤ → Option ℕ
mask_in_range max (negsuc n) = none
mask_in_range max (pos n) = if ltb max n || ltb n 1 then none else some n

-- The loop over whole bytes, then the bits that are left of the next byte.
unfoldable pub same_bytes : ℕ → ℕ → Bytes → Bytes → Bool
same_bytes zero i subnet ip = true
same_bytes (suc n) i subnet ip =
    get_or subnet i 0 == get_or ip i 0 && same_bytes n (i + 1) subnet ip

unfoldable pub same_prefix6 : ℕ → Bytes → Bytes → Ret
same_prefix6 mask_len subnet ip =
    let byte_len = mask_len / 8 in
    let bit_len = 8 - mask_len % 8 in
    if not (same_bytes byte_len 0 subnet ip)
    then err
    else if byte_len == 16
    then ok
    else if get_or subnet byte_len 0 / 2 ^ bit_len == get_or ip byte_len 0 / 2 ^ bit_len
    then ok
    else err

module _ (net : Inet) where
  open net use {pton4, pton6}

  unfoldable pub is_ip_in_subnet : Bytes → Bytes → Ret
  is_ip_in_subnet ip_str subnet_str = do
    ip_addr ← pton4 ip_str
    scanned ← scan_subnet 15 32 subnet_str
    mask_len ← mask_in_range 32 scanned.1
    subnet_addr ← pton4 scanned.0
    let mask = subnet_mask mask_len
    if bit_and (s_addr ip_addr) mask == bit_and (s_addr subnet_addr) mask then ok else err

  unfoldable pub is_ipv6_in_subnet : Bytes → Bytes → Ret
  is_ipv6_in_subnet ip_str subnet_str = do
    ip_addr ← pton6 ip_str
    scanned ← scan_subnet 45 128 subnet_str
    mask_len ← mask_in_range 128 scanned.1
    subnet_addr ← pton6 scanned.0
    same_prefix6 mask_len subnet_addr ip_addr

  unfoldable pub verify_ipv4_address : Option Bytes → Ret
  verify_ipv4_address none = err
  verify_ipv4_address (some str_ipv4) = do
    a ← pton4 str_ipv4
    let sect1 = bit_and (s_addr a) 0xff
    if ltb sect1 1 || ltb 223 sect1 || sect1 == 127 then err else ok

abbrev pub zero_address : Bytes
zero_address = replicate 16 0

-- The macros of <netinet/in.h>.
abbrev pub in6_is_addr_unspecified : Bytes → Bool
in6_is_addr_unspecified a = same_bytes 16 0 zero_address a

abbrev pub in6_is_addr_loopback : Bytes → Bool
in6_is_addr_loopback a = same_bytes 15 0 zero_address a && get_or a 15 0 == 1

abbrev pub in6_is_addr_linklocal : Bytes → Bool
in6_is_addr_linklocal a = get_or a 0 0 == 0xfe && bit_and (get_or a 1 0) 0xc0 == 0x80

abbrev pub in6_is_addr_multicast : Bytes → Bool
in6_is_addr_multicast a = get_or a 0 0 == 0xff

module _ (net : Inet) where
  open net use {pton6}

  unfoldable pub verify_ipv6_address : Option Bytes → Ret
  verify_ipv6_address none = err
  verify_ipv6_address (some str_ipv6) = do
    a ← pton6 str_ipv6
    if in6_is_addr_unspecified a
        then err
        else if in6_is_addr_loopback a
        then err
        else if in6_is_addr_linklocal a
        then err
        else if in6_is_addr_multicast a
        then err
        else ok
