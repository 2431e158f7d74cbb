-- ===== src/Net/Address/Tests.antt =====
-- Runs of the parser of addresses in net/udp.c.
use asm_os.Prelude.{◌≡◌, refl, some}
use asm_os.Prelude.CString.{codes}
use asm_os.Net.Address.{net_parse_ip, parse_octet, skip_point, join_octets, is_digit}

-- Octets are not checked, and what follows the fourth is ignored.
large_octet : net_parse_ip (codes "1.2.3.999!") ≡ some 0x010203E7
unfolding net_parse_ip parse_octet skip_point join_octets is_digit
large_octet = refl
