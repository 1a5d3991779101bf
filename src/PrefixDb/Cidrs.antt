-- ===== src/PrefixDb/Cidrs.antt =====
-- internal/prefixdb/resolve.go, rangeToCIDRs: a range of addresses as aligned blocks.
pub mod Tiling
pub mod Fuel
use xdp_invisible_armor.Common.{
  ℕ, zero, suc, ◌+◌, ◌-◌, ◌*◌, ◌%◌, ◌^◌, ◌==◌, leb, ltb, true, false, if◌then◌else◌, List, [], ◌∷◌,
}
use xdp_invisible_armor.Netip.{v4, Prefix, prefix_from}

-- The first inner loop: `start &^ (^0 << (33 - m))` are the low 33 - m bits of `start`, so the
-- length falls as long as the block one bit larger still begins at `start`.
unfoldable pub align : ℕ → ℕ → ℕ
align start zero = zero
align start (suc m) = elim (start % 2 ^ (32 - m) == 0) [ true ↦ align start m | false ↦ suc m ]

-- The second inner loop: the length grows until the block fits in what remains. `fuel` is 32 - m.
unfoldable pub fit : ℕ → ℕ → ℕ → ℕ
fit zero m remaining = m
fit (suc fuel) m remaining = elim (leb (2 ^ (32 - m)) remaining) [
  | true ↦ m
  | false ↦ fit fuel (m + 1) remaining
]

-- The length of the block at `start` in a range that ends at `last`.
unfoldable pub block_bits : ℕ → ℕ → ℕ
unfolding align fit
block_bits start last = let m = align start 32 in fit (32 - m) m (last - start + 1)

-- The outer loop; `fuel` bounds its rounds. It ends past `last`, or past the largest address.
unfoldable pub cidrs_loop : ℕ → ℕ → ℕ → List Prefix
unfolding block_bits
cidrs_loop zero start last = []
cidrs_loop (suc fuel) start last =
    let bits = block_bits start last in
    let next = start + 2 ^ (32 - bits) in
    let rest = cidrs_loop fuel next last in
    if ltb last start
    then []
    else prefix_from (v4 start) bits ∷ (if ltb (2 ^ 32 - 1) next then [] else rest)

-- Each round takes an address at least.
unfoldable pub range_to_cidrs : ℕ → ℕ → List Prefix
unfolding cidrs_loop
range_to_cidrs start last = cidrs_loop (last + 1 - start) start last
