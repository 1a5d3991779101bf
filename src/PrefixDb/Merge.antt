-- ===== src/PrefixDb/Merge.antt =====
-- internal/prefixdb/resolve.go, the middle of Resolve: the ranges are sorted, those that meet or
-- touch are joined, and each is cut into blocks.
pub mod Coverage
use xdp_invisible_armor.Common.{
  ℕ, ◌+◌, ◌-◌, ◌%◌, ◌^◌, ◌≤◌, ◌<◌, ◌≡◌, refl, arith, Bool, true, false, not, ◌&&◌, ◌||◌, Bool-cases,
  inl, inr, leb, ltb, ◌==◌, if◌then◌else◌, List, [], ◌∷◌, ◌++◌, any, All,
}
use xdp_invisible_armor.Netip.{Prefix}
use xdp_invisible_armor.PrefixDb.Cidrs.{range_to_cidrs}

pub record Range : Type 0 where
  pub start : ℕ
  pub last : ℕ

-- `sort.Slice` by start: of the orders that it may return for equal starts, the stable one.
insert : Range → List Range → List Range
insert r [] = r ∷ []
insert r (s ∷ rs) = let rest = insert r rs in if ltb s.start r.start then s ∷ rest else r ∷ s ∷ rs

unfoldable pub sort : List Range → List Range
unfolding insert
sort [] = []
sort (r ∷ rs) = insert r (sort rs)

-- The range meets `cur` or begins right behind it; nothing lies behind the largest address.
abbrev joins : Range → Range → Bool
joins cur r =
    leb r.start cur.last || (not (cur.last == 2 ^ 32 - 1) && r.start == (cur.last + 1) % 2 ^ 32)

widen : Range → Range → Range
widen cur r = if ltb cur.last r.last then record cur { last = r.last } else cur

unfoldable pub merge_loop : Range → List Range → List Range
unfolding widen
merge_loop cur [] = cur ∷ []
merge_loop cur (r ∷ rs) = elim (joins cur r) [
  | true ↦ merge_loop (widen cur r) rs
  | false ↦ cur ∷ merge_loop r rs
]

unfoldable pub merge : List Range → List Range
unfolding merge_loop
merge [] = []
merge (r ∷ rs) = merge_loop r rs

unfoldable pub blocks : List Range → List Prefix
blocks [] = []
blocks (r ∷ rs) = range_to_cidrs r.start r.last ++ blocks rs

abbrev pub in_range : ℕ → Range → Bool
in_range x r = leb r.start x && leb x r.last
