-- ===== src/Netip/Reading.antt =====
-- netip.ParseAddr, netip.ParsePrefix, net.ParseIP with To4, and net.ParseCIDR.
use xdp_invisible_armor.Common.{
  ℕ, ◌+◌, ◌*◌, ◌/◌, ◌%◌, ◌^◌, Bool, false, ◌&&◌, ◌||◌, not, ◌==◌, leb, if◌then◌else◌, List, [], ◌∷◌,
  Option, none, some, Text, is_empty, cut, parse_uint, and_then,
}
use xdp_invisible_armor.Netip.Defs.{Addr, v4, v6, Prefix, bit_len, prefix_from, mask_addr}
use xdp_invisible_armor.Netip.V6.{parse_ipv6, v4_fields}

-- The four octets as one number.
unfoldable pub join_octets : List ℕ → Option ℕ
join_octets (a ∷ b ∷ c ∷ d ∷ []) = some (((a * 256 + b) * 256 + c) * 256 + d)
join_octets _ = none

unfoldable pub parse_ipv4 : Text → Option ℕ
unfolding join_octets v4_fields
parse_ipv4 s = elim (v4_fields s 0 0 []) [ none ↦ none | some fields ↦ join_octets fields ]

-- The first of `.`, `:` and `%` says which form the whole text must have.
unfoldable pub addr_form : Text → ℕ
addr_form [] = 0
addr_form (c ∷ s) = if c == b'.' || c == b':' || c == b'%' then c else addr_form s

unfoldable pub parse_addr : Text → Option Addr
unfolding addr_form parse_ipv4 parse_ipv6
parse_addr s =
    if addr_form s == b'.'
    then elim (parse_ipv4 s) [ none ↦ none | some a ↦ some (v4 a) ]
    else if addr_form s == b':'
    then elim (parse_ipv6 s) [ none ↦ none | some (a, zone) ↦ some (v6 a zone) ]
    else none

-- The text before the last `c`, and the one after it.
unfoldable pub cut_last : ℕ → Text → Option (Text × Text)
cut_last c [] = none
cut_last c (x ∷ xs) = elim (cut_last c xs) [
  | none ↦ if x == c then some ([], xs) else none
  | some (front, back) ↦ some (x ∷ front, back)
]

-- No sign and no leading zero in a prefix length.
unfoldable pub prefix_bits : ℕ → Text → Option ℕ
prefix_bits most (c ∷ d ∷ s) =
    if leb b'1' c && leb c b'9' then parse_uint most (c ∷ d ∷ s) else none
prefix_bits most s = parse_uint most s

abbrev pub has_zone : Addr → Bool
has_zone (v4 a) = false
has_zone (v6 a zone) = not (is_empty zone)

-- A zone is no part of a prefix.
unfoldable pub with_bits : Text → Addr → Option Prefix
unfolding prefix_bits
with_bits back a =
    if has_zone a
    then none
    else and_then (prefix_bits (bit_len a) back) (λ n. some (prefix_from a n))

unfoldable pub parse_prefix : Text → Option Prefix
unfolding cut_last parse_addr with_bits
parse_prefix s = and_then (cut_last b'/' s) (λ p. and_then (parse_addr p.0) (with_bits p.1))

-- `net.ParseIP(s)` and then `To4()`: an address with a zone is no IP, and an IPv6 address that
-- maps an IPv4 one is that one.
abbrev pub to4 : Addr → Option ℕ
to4 (v4 a) = some a
to4 (v6 a []) = if a / 2 ^ 32 == 0xffff then some (a % 2 ^ 32) else none
to4 (v6 a (c ∷ zone)) = none

unfoldable pub parse_ip_to4 : Text → Option ℕ
unfolding parse_addr
parse_ip_to4 s = and_then (parse_addr s) to4

-- `net.ParseCIDR`: the address, and its network with the length. A length may have leading zeros.
unfoldable pub network : Text → Addr → Option (Addr × Prefix)
network back a =
    if has_zone a
    then none
    else and_then (parse_uint (bit_len a) back)
        (λ n. some (a, record { addr = mask_addr n a; bits = n }))

unfoldable pub parse_cidr : Text → Option (Addr × Prefix)
unfolding parse_addr network
parse_cidr s = and_then (cut b'/' s) (λ p. and_then (parse_addr p.0) (network p.1))
