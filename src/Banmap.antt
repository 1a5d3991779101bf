-- ===== src/Banmap.antt =====
-- internal/banmap/layout.go: the bytes of the keys and values of the three eBPF maps, the deadline
-- on the kernel's clock, and the reading of an IPv4 prefix.
-- A time is its distance in nanoseconds from Go's zero time, so `t.IsZero()` is `t == 0`.
pub mod Keys
pub mod Parsing
pub mod Values
mod Runs
use xdp_invisible_armor.Common.{
  ℕ, ◌+◌, ◌-◌, ◌*◌, ◌%◌, ◌^◌, min, Bool, true, false, not, ltb, if◌then◌else◌, List, [], ◌∷◌, ◌++◌,
  length, none, some, Text, Result, ok, err, ℤ, pos, negsuc, is_positive, pos_part, le_bytes,
  from_le, as4, from_be, slice,
}
use xdp_invisible_armor.Netip.{
  Addr, v4, v6, Prefix, is4, value, masked, prefix_from, parse_addr, parse_prefix,
}

abbrev pub global_key_size : ℕ
global_key_size = 8

abbrev pub src_key_size : ℕ
src_key_size = 12

abbrev pub target_key_size : ℕ
target_key_size = 4

abbrev pub value_size : ℕ
value_size = 24

-- What the functions of this package report.
pub data Error : Type 0 where
  short_value short_key bad_bits : ℕ → Error
  not_ipv4 : Prefix → Error
  target_not_ipv4 : Addr → Error
  ipv6_unsupported bad_text : Text → Error

pub record Value : Type 0 where
  pub expires_at : ℕ
  pub hits : ℕ
  pub rule_id : ℕ

-- The last four bytes are the padding that `make` zeroed.
unfoldable pub encode_value : Value → List ℕ
encode_value v =
    le_bytes 8 v.expires_at ++ (le_bytes 8 v.hits ++ (le_bytes 4 v.rule_id ++ (0 ∷ 0 ∷ 0 ∷ 0 ∷ [])))

unfoldable pub decode_value : List ℕ → Result Error Value
decode_value b =
    if ltb (length b) value_size
    then err (short_value (length b))
    else ok (record {
      expires_at = from_le (slice 0 8 b);
      hits = from_le (slice 8 16 b);
      rule_id = from_le (slice 16 20 b);
    })

unfoldable pub encode_global_key : Prefix → Result Error (List ℕ)
encode_global_key p =
    if not (is4 p.addr)
    then err (not_ipv4 p)
    else if ltb 32 p.bits
    then err (bad_bits p.bits)
    else ok (le_bytes 4 p.bits ++ as4 (value (masked p).addr))

unfoldable pub decode_global_key : List ℕ → Result Error Prefix
decode_global_key b =
    let bits = from_le (slice 0 4 b) in
    if ltb (length b) global_key_size
    then err (short_key (length b))
    else if ltb 32 bits
    then err (bad_bits bits)
    else ok (prefix_from (v4 (from_be (slice 4 8 b))) bits)

unfoldable pub encode_src_key : ℕ → Prefix → Result Error (List ℕ)
encode_src_key target_id p =
    if not (is4 p.addr)
    then err (not_ipv4 p)
    else if ltb 32 p.bits
    then err (bad_bits p.bits)
    else ok (le_bytes 4 (32 + p.bits) ++ (le_bytes 4 target_id ++ as4 (value (masked p).addr)))

unfoldable pub encode_target_key : Addr → Result Error (List ℕ)
encode_target_key (v4 a) = ok (as4 a)
encode_target_key (v6 a zone) = err (target_not_ipv4 (v6 a zone))

unfoldable pub encode_target_id : ℕ → List ℕ
encode_target_id id = le_bytes 4 id

abbrev pub second : ℕ
second = 1_000_000_000

-- `now.Sub(bootTime)` stops at the largest duration, and at 0 where the boot lies in the future.
unfoldable pub ktime_deadline : ℕ → ℕ → ℤ → ℕ
ktime_deadline boot_time now ttl_secs =
    if is_positive ttl_secs
    then (min (now - boot_time) (2 ^ 63 - 1) + pos_part ttl_secs * second % 2 ^ 64) % 2 ^ 64
    else 0

unfoldable pub parse_ipv4_prefix : Text → Result Error Prefix
parse_ipv4_prefix s = elim (parse_prefix s) [
  | some p ↦ if is4 p.addr then ok (masked p) else err (ipv6_unsupported s)
  | none ↦ elim (parse_addr s) [
    | none ↦ err (bad_text s)
    | some a ↦ if is4 a then ok (prefix_from a 32) else err (ipv6_unsupported s)
  ]
]
