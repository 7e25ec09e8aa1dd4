-- ===== src/Tests/Network.antt =====
-- Addresses and subnets.
use account.Base.{◌≡◌, ◌↔◌}
use account.Clib.Text.{codes}
use account.Status.{ok}
use account.Network.{is_ip_in_subnet, is_ipv6_in_subnet}
use account.Network.Ipv4.{InSubnet4, is_ip_in_subnet_iff}
use account.Network.Ipv6.{InSubnet6, is_ipv6_in_subnet_iff}
use account.Tests.Data.{net}

is_ip_in_subnet_iff_example :
    (is_ip_in_subnet net (codes "10.0.0.7") (codes "10.0.0.0/24") ≡ ok)
    ↔ InSubnet4 net (codes "10.0.0.7") (codes "10.0.0.0/24")
is_ip_in_subnet_iff_example = is_ip_in_subnet_iff net (codes "10.0.0.7") (codes "10.0.0.0/24")

is_ipv6_in_subnet_iff_example :
    (is_ipv6_in_subnet net (codes "fd00::1") (codes "fd00::/64") ≡ ok)
    ↔ InSubnet6 net (codes "fd00::1") (codes "fd00::/64")
is_ipv6_in_subnet_iff_example = is_ipv6_in_subnet_iff net (codes "fd00::1") (codes "fd00::/64")
