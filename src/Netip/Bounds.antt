-- ===== src/Netip/Bounds.antt =====
-- What an IPv4 text can be read as: octets below 256, and a length up to 32.
use xdp_invisible_armor.Common.{
  ℕ, ◌+◌, ◌-◌, ◌*◌, ◌^◌, ◌≤◌, ◌<◌, ◌≡◌, refl, ap, ◌∙◌, arith, List, [], ◌∷◌, ◌++◌, Option, none,
  some, Text, All, All-append, and_then-some, some_inj, scan, parse_uint,
}
use mathlib.Core.Path.{subst}
use xdp_invisible_armor.Netip.Defs.{Addr, v4, v6, Prefix, bit_len}
use xdp_invisible_armor.Netip.V6.{v4_fields}
use xdp_invisible_armor.Netip.Reading.{
  parse_addr, parse_ipv4, join_octets, prefix_bits, cut_last, parse_prefix, with_bits,
}

abbrev IsOctet : ℕ → Type 0
IsOctet b = b < 256

IsOctet-step : (val : ℕ) (fs : List ℕ) → val < 256 → All IsOctet fs → All IsOctet (fs ++ val ∷ [])
IsOctet-step val fs h k = All-append IsOctet fs (val ∷ []) k (h, tt)

v4_fields-All :
    (s : Text) (val dl : ℕ) (fs out : List ℕ)
    → val < 256
    → All IsOctet fs
    → v4_fields s val dl fs ≡ some out
    → All IsOctet out
unfolding v4_fields
v4_fields-All [] val dl fs out h k e = ground (arith, IsOctet-step val fs h k)
v4_fields-All (c ∷ s) val dl fs out h k e = ground (
  arith,
  IsOctet-step val fs h k,
  v4_fields-All s (val * 10 + (c - b'0')) (dl + 1) fs out,
  v4_fields-All s 0 0 (fs ++ val ∷ []) out,
)

join_octets-lt : (fs : List ℕ) (a : ℕ) → All IsOctet fs → join_octets fs ≡ some a → a < 2 ^ 32
unfolding join_octets
join_octets-lt [] a h e = ground arith
join_octets-lt (b ∷ []) a h e = ground arith
join_octets-lt (b ∷ c ∷ []) a h e = ground arith
join_octets-lt (b ∷ c ∷ d ∷ []) a h e = ground arith
join_octets-lt (b ∷ c ∷ d ∷ x ∷ []) a h e = ground arith
join_octets-lt (b ∷ c ∷ d ∷ x ∷ y ∷ r) a h e = ground arith

parse_ipv4-lt : (s : Text) (a : ℕ) → parse_ipv4 s ≡ some a → a < 2 ^ 32
unfolding parse_ipv4
parse_ipv4-lt s a e = go (v4_fields s 0 0 []) (λ out. v4_fields-All s 0 0 [] out (omega arith) tt) e
  where
    go :
        (o : Option (List ℕ))
        → ((out : List ℕ) → o ≡ some out → All IsOctet out)
        → (elim o as (λ x. Option ℕ) [ none ↦ none | some fields ↦ join_octets fields ]) ≡ some a
        → a < 2 ^ 32
    go none h e = ground arith
    go (some fs) h e = join_octets-lt fs a (h fs refl) e

pub parse_addr-v4_lt : (s : Text) (a : ℕ) → parse_addr s ≡ some (v4 a) → a < 2 ^ 32
parse_addr-v4_lt s a e = unfold parse_addr in ground (arith, parse_ipv4-lt s a)

scan-le : (limit : ℕ) (s : Text) (n m : ℕ) → n ≤ limit → scan limit s n ≡ some m → m ≤ limit
unfolding scan
scan-le limit [] n m h e = ground arith
scan-le limit (c ∷ s) n m h e = ground (arith, scan-le limit s (n * 10 + (c - b'0')) m)

pub parse_uint-le : (limit : ℕ) (s : Text) (m : ℕ) → parse_uint limit s ≡ some m → m ≤ limit
parse_uint-le limit [] m e = unfold parse_uint in ground arith
parse_uint-le limit (c ∷ s) m e = unfold parse_uint in scan-le limit (c ∷ s) 0 m (omega arith) e

prefix_bits-le : (limit : ℕ) (s : Text) (m : ℕ) → prefix_bits limit s ≡ some m → m ≤ limit
unfolding prefix_bits
prefix_bits-le limit [] m e = parse_uint-le limit [] m e
prefix_bits-le limit (c ∷ []) m e = parse_uint-le limit (c ∷ []) m e
prefix_bits-le limit (c ∷ d ∷ s) m e = ground (arith, parse_uint-le limit (c ∷ d ∷ s) m)

-- A prefix that was read fits its address family.
abbrev pub Fits : Prefix → Type 0
Fits p = (p.bits ≤ bit_len p.addr) × ((a : ℕ) → p.addr ≡ v4 a → a < 2 ^ 32)

with_bits-Fits :
    (back : Text) (a : Addr) (p : Prefix)
    → ((b : ℕ) → a ≡ v4 b → b < 2 ^ 32)
    → with_bits back a ≡ some p
    → Fits p
unfolding with_bits
with_bits-Fits back (v4 b) p h e =
    let (n, f, g) = and_then-some (prefix_bits 32 back) _ e in
    subst Fits (some_inj g) (prefix_bits-le 32 back n f, h)
with_bits-Fits back (v6 b []) p h e =
    let (n, f, g) = and_then-some (prefix_bits 128 back) _ e in
    subst Fits (some_inj g) (prefix_bits-le 128 back n f, λ a q. cc)
with_bits-Fits back (v6 b (c ∷ z)) p h e = ground arith

pub parse_prefix-Fits : (s : Text) (p : Prefix) → parse_prefix s ≡ some p → Fits p
unfolding parse_prefix
parse_prefix-Fits s p e =
    let (parts, f, g) = and_then-some (cut_last b'/' s) _ e in
    let (a, q, r) = and_then-some (parse_addr parts.0) (with_bits parts.1) g in
    with_bits-Fits parts.1 a p (λ b t. parse_addr-v4_lt parts.0 b (q ∙ ap some t)) r
