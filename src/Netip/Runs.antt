-- ===== src/Netip/Runs.antt =====
-- Texts read and printed.
use xdp_invisible_armor.Common.{◌≡◌, refl, none, some, [], codes, format, parse_uint}
use xdp_invisible_armor.Netip.Defs.{v4, v6, v4_text}
use xdp_invisible_armor.Netip.Reading.{parse_addr, parse_prefix}

parse_v4 : parse_addr (codes "203.0.113.7") ≡ some (v4 0xcb007107)
unfolding parse_addr
parse_v4 = refl

parse_leading_zero : parse_addr (codes "10.01.0.1") ≡ none
unfolding parse_addr
parse_leading_zero = refl

parse_loopback6 : parse_addr (codes "::1") ≡ some (v6 1 [])
unfolding parse_addr
parse_loopback6 = refl

parse_mapped : parse_addr (codes "::ffff:127.0.0.1%eth0") ≡ some (v6 0xffff7f000001 (codes "eth0"))
unfolding parse_addr
parse_mapped = refl

parse_doc6 : parse_addr (codes "2001:db8::8:1") ≡ some (v6 0x20010db8000000000000000000080001 [])
unfolding parse_addr
parse_doc6 = refl

print_v4 : v4_text 0xcb007107 ≡ codes "203.0.113.7"
unfolding v4_text format
print_v4 = refl

parse_net : parse_prefix (codes "10.1.2.3/8") ≡ some (record { addr = v4 0x0a010203; bits = 8 })
unfolding parse_prefix parse_uint
parse_net = refl
