-- ===== src/Banmap/Runs.antt =====
-- Concrete keys, values and deadlines, and the theorems at concrete inputs.
use xdp_invisible_armor.Common.{
  ℕ, ◌+◌, ◌-◌, ◌*◌, ◌<◌, ◌≡◌, ◌↔◌, refl, arith, true, [], ◌∷◌, ok, pos, codes, parse_uint, le_bytes,
  as4,
}
use xdp_invisible_armor.Netip.{v4_prefix_text, parse_prefix}
use xdp_invisible_armor.Banmap.{Value, encode_global_key, ktime_deadline, parse_ipv4_prefix, second}
use xdp_invisible_armor.Banmap.Keys.{v4_prefix}
use xdp_invisible_armor.Banmap.Values.{ktime_deadline_expiry, is_expired}
use xdp_invisible_armor.Banmap.Parsing.{parse_ipv4_prefix-v4_prefix_text}

abbrev net : ℕ
net = 0xcb007107

abbrev sample : Value
sample = record { expires_at = 5_000_000_000; hits = 3; rule_id = 7 }

key_bytes : encode_global_key (v4_prefix net 24) ≡ ok (24 ∷ 0 ∷ 0 ∷ 0 ∷ 203 ∷ 0 ∷ 113 ∷ 0 ∷ [])
unfolding encode_global_key le_bytes as4
key_bytes = refl

parse_host_bits : parse_ipv4_prefix (codes "203.0.113.7/24") ≡ ok (v4_prefix 0xcb007100 24)
unfolding parse_ipv4_prefix parse_prefix parse_uint
parse_host_bits = refl

ktime_deadline_expiry_example :
    (is_expired
        (record { expires_at = ktime_deadline 100 200 (pos 600); hits = 0; rule_id = 1 })
        (700_000_000_000 - 100)
      ≡ true)
    ↔ (200 + 600 * second < 700_000_000_000)
ktime_deadline_expiry_example =
    ktime_deadline_expiry 100 200 700_000_000_000 600 0 1 (omega arith) (omega arith) (omega arith)
      (omega arith) (omega arith)

parse_ipv4_prefix-v4_prefix_text_example :
    parse_ipv4_prefix (v4_prefix_text net 24) ≡ ok (v4_prefix 0xcb007100 24)
parse_ipv4_prefix-v4_prefix_text_example =
    parse_ipv4_prefix-v4_prefix_text net 24 (omega arith) (omega arith)
