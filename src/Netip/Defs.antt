-- ===== src/Netip/Defs.antt =====
-- netip.Addr, netip.Prefix, and the operations on them that the program calls.
use xdp_invisible_armor.Common.{
  ℕ, ◌≡◌, ◌-◌, ◌/◌, ◌%◌, ◌^◌, Bool, true, false, ◌&&◌, ◌||◌, not, ◌==◌, if◌then◌else◌, [], ◌∷◌,
  ◌++◌, Text, text_eq, format, min,
}

pub data Addr : Type 0 where
  v4 : ℕ → Addr
  v6 : ℕ → Text → Addr

pub record Prefix : Type 0 where
  pub addr : Addr
  pub bits : ℕ

abbrev pub is4 : Addr → Bool
is4 (v4 a) = true
is4 (v6 a zone) = false

abbrev pub is6 : Addr → Bool
is6 a = not (is4 a)

-- `BitLen()`
abbrev pub bit_len : Addr → ℕ
bit_len (v4 a) = 32
bit_len (v6 a zone) = 128

abbrev pub value : Addr → ℕ
value (v4 a) = a
value (v6 a zone) = a

abbrev pub without_zone : Addr → Addr
without_zone (v4 a) = v4 a
without_zone (v6 a zone) = v6 a []

-- `PrefixFrom`, for a length that fits the address.
abbrev pub prefix_from : Addr → ℕ → Prefix
prefix_from a n = record { addr = without_zone a; bits = n }

-- The low `k` bits of `a` cleared.
abbrev pub clear_low : ℕ → ℕ → ℕ
clear_low k a = a - a % 2 ^ k

abbrev pub mask_addr : ℕ → Addr → Addr
mask_addr n (v4 a) = v4 (clear_low (32 - n) a)
mask_addr n (v6 a zone) = v6 (clear_low (128 - n) a) zone

-- `Masked()`
abbrev pub masked : Prefix → Prefix
masked p = record { addr = mask_addr p.bits p.addr; bits = p.bits }

addr_eq : Addr → Addr → Bool
addr_eq (v4 a) (v4 b) = a == b
addr_eq (v4 a) (v6 b z) = false
addr_eq (v6 a z) (v4 b) = false
addr_eq (v6 a z) (v6 b y) = a == b && text_eq z y

-- `Overlaps()`: the two addresses, cut to the shorter of the two lengths, are compared.
unfoldable pub overlaps : Prefix → Prefix → Bool
unfolding addr_eq text_eq
overlaps p q =
    let n = min p.bits q.bits in
    if addr_eq p.addr q.addr && p.bits == q.bits
    then true
    else if not (is4 p.addr && is4 q.addr || is6 p.addr && is6 q.addr)
    then false
    else if n == 0
    then true
    else addr_eq (mask_addr n p.addr) (mask_addr n q.addr)

-- The address `a` lies in `p`: of the same family, and equal to it on its first `bits` bits.
abbrev pub Contains : Prefix → Addr → Type 0
Contains p a = mask_addr p.bits (without_zone a) ≡ mask_addr p.bits (without_zone p.addr)

-- `Addr.String()` of an IPv4 address.
unfoldable pub v4_text : ℕ → Text
v4_text a =
    format (a / 2 ^ 24 % 256)
    ++ (b'.' ∷ format (a / 2 ^ 16 % 256)
        ++ (b'.' ∷ format (a / 2 ^ 8 % 256) ++ (b'.' ∷ format (a % 256))))

-- `Prefix.String()` of an IPv4 prefix.
unfoldable pub v4_prefix_text : ℕ → ℕ → Text
unfolding v4_text
v4_prefix_text a n = v4_text a ++ (b'/' ∷ format n)
