-- ===== src/Banmap/Parsing.antt =====
-- Reading the IPv4 prefix of a ban.
use xdp_invisible_armor.Common.{
  ℕ, ◌-◌, ◌^◌, ◌≤◌, ◌<◌, ◌≡◌, ◌⊎◌, refl, ap, arith, true, Option, none, some, clear_twice, inl, inr,
  ok, err, is_ok, ◌>>=◌, Result, Text,
}
use mathlib.Core.Path.{subst}
use xdp_invisible_armor.Netip.{
  Addr, v4, v6, Prefix, is4, value, masked, clear_low, parse_addr, parse_prefix, v4_prefix_text,
}
use xdp_invisible_armor.Netip.Octets.{parse_prefix-v4_prefix_text}
use xdp_invisible_armor.Netip.Bounds.{Fits, parse_prefix-Fits, parse_addr-v4_lt}
use xdp_invisible_armor.Banmap.{Error, parse_ipv4_prefix, encode_global_key}
use xdp_invisible_armor.Banmap.Keys.{encode_key_domain, v4_prefix, clear_low-lt}

-- The text that a prefix prints as is read back as the masked prefix.
pub parse_ipv4_prefix-v4_prefix_text :
    (a n : ℕ)
    → a < 2 ^ 32
    → n ≤ 32
    → parse_ipv4_prefix (v4_prefix_text a n) ≡ ok (masked (v4_prefix a n))
unfolding parse_ipv4_prefix
parse_ipv4_prefix-v4_prefix_text a n h k =
    go (v4_prefix_text a n) (parse_prefix-v4_prefix_text a n h k)
  where
    go :
        (t : Text)
        → parse_prefix t ≡ some (v4_prefix a n)
        → parse_ipv4_prefix t ≡ ok (masked (v4_prefix a n))
    go t e = rw (e, parse_ipv4_prefix)

-- A prefix as the executor may use it: IPv4, at most 32 bits, and no host bit set.
pub record IsBanPrefix (p : Prefix) : Type 0 where
  pub family : is4 p.addr ≡ true
  pub length : p.bits ≤ 32
  pub range : value p.addr < 2 ^ 32
  pub canonical : masked p ≡ p

masked-IsBanPrefix : (p : Prefix) → Fits p → is4 p.addr ≡ true → IsBanPrefix (masked p)
masked-IsBanPrefix p h e = go p.addr p.bits h e
  where
    go :
        (x : Addr) (n : ℕ)
        → Fits (record { addr = x; bits = n })
        → is4 x ≡ true
        → IsBanPrefix (masked (record { addr = x; bits = n }))
    go (v4 a) n h e = record {
      family = refl;
      length = h.0;
      range = clear_low-lt (32 - n) a (2 ^ 32) (h.1 a refl);
      canonical = ap (λ t. v4_prefix t n) (clear_twice (2 ^ (32 - n)) a);
    }
    go (v6 a zone) n h e = cc

host-IsBanPrefix : (a : ℕ) → a < 2 ^ 32 → IsBanPrefix (v4_prefix a 32)
host-IsBanPrefix a h = record {
  family = refl;
  length = omega arith;
  range = h;
  canonical = ap (λ t. v4_prefix t 32) {x = clear_low 0 a} {y = a} (omega arith);
}

-- An accepted text is an IPv4 prefix, masked, or else an IPv4 address.
accepted :
    (s : Text) (p : Prefix)
    → parse_ipv4_prefix s ≡ ok p
    → ((q : Prefix) × (parse_prefix s ≡ some q) × (is4 q.addr ≡ true) × (masked q ≡ p))
      ⊎ ((a : ℕ) × (parse_addr s ≡ some (v4 a)) × (v4_prefix a 32 ≡ p))
accepted s p e = go (parse_prefix s) (parse_addr s) refl refl
  where
    go :
        (o : Option Prefix) (x : Option Addr)
        → parse_prefix s ≡ o
        → parse_addr s ≡ x
        → ((q : Prefix) × (parse_prefix s ≡ some q) × (is4 q.addr ≡ true) × (masked q ≡ p))
          ⊎ ((a : ℕ) × (parse_addr s ≡ some (v4 a)) × (v4_prefix a 32 ≡ p))
    go (some q) x f g = unfold parse_ipv4_prefix in inl (q, f, ground arith, ground arith)
    go none none f g = unfold parse_ipv4_prefix in ground arith
    go none (some (v4 a)) f g = unfold parse_ipv4_prefix in inr (a, g, ground arith)
    go none (some (v6 a z)) f g = unfold parse_ipv4_prefix in ground arith

-- Whatever text `ParseIPv4Prefix` accepts, its result is an IPv4 prefix with no host bit set.
pub parse_ipv4_prefix-IsBanPrefix :
    (s : Text) (p : Prefix) → parse_ipv4_prefix s ≡ ok p → IsBanPrefix p
parse_ipv4_prefix-IsBanPrefix s p e = elim (accepted s p e) [
  | inl (q, f, g, h) ↦ subst IsBanPrefix h (masked-IsBanPrefix q (parse_prefix-Fits s q f) g)
  | inr (a, f, g) ↦ subst IsBanPrefix g (host-IsBanPrefix a (parse_addr-v4_lt s a f))
]

-- A text that is accepted always has a key in the global map.
pub parse-encode_global_key :
    (s : Text) → is_ok (parse_ipv4_prefix s >>= encode_global_key) ≡ is_ok (parse_ipv4_prefix s)
parse-encode_global_key s = go (parse_ipv4_prefix s) refl
  where
    go :
        (r : Result Error Prefix)
        → parse_ipv4_prefix s ≡ r
        → is_ok (r >>= encode_global_key) ≡ is_ok r
    go (err e) h = refl
    go (ok p) h =
        let v = parse_ipv4_prefix-IsBanPrefix s p h in
        ((encode_key_domain 0 p).1.1) (v.family, v.length)
