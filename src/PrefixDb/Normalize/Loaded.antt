-- ===== src/PrefixDb/Normalize/Loaded.antt =====
-- The loader reads the lines that normalize makes of a registry's records.
use xdp_invisible_armor.Common.{
  ℕ, ◌^◌, ◌≤◌, ◌<◌, ◌≡◌, ◌==◌, if◌then◌else◌, List, [], ◌∷◌, ◌++◌, Option, none, some, and_then,
  Text, codes, trim_space, to_upper,
}
use xdp_invisible_armor.Netip.{parse_ip_to4}
use xdp_invisible_armor.PrefixDb.Index.{Entry}
use xdp_invisible_armor.PrefixDb.Normalize.{Allocation, allocated, allocation_of}
use xdp_invisible_armor.PrefixDb.Normalize.Words.{IsWord}

-- What the rest of the program sees of a record.
abbrev pub allocation_entry : Allocation → Entry
allocation_entry a = record {
  start = a.range.start;
  last = a.range.last;
  asn = 0;
  country = a.country;
  as_name = codes "RIR-" ++ a.registry;
}

abbrev IsSane : Allocation → Type 0
IsSane a =
    (a.range.start ≤ a.range.last) × (a.range.last < 2 ^ 32) × (to_upper a.country ≡ a.country)

-- The two tests of a record behind its count.
abbrev sized : Text → Text → ℕ → ℕ → Option Allocation
sized registry country n start = if n == 0 then none else allocated registry country start n

abbrev located : Text → Text → Text → ℕ → Option Allocation
located registry country ip n = and_then (parse_ip_to4 (trim_space ip)) (sized registry country n)

abbrev row : ℕ → ℕ → ℕ → Text → Text → Entry
row start last asn country as_name = record {
  start = start;
  last = last;
  asn = asn;
  country = country;
  as_name = as_name;
}

-- The records that normalize keeps.
abbrev pub allocations : List Text → List Allocation
allocations [] = []
allocations (l ∷ ls) =
    let rest = allocations ls in elim (allocation_of l) [ none ↦ rest | some a ↦ a ∷ rest ]

-- The country and the registry are single words.
abbrev pub IsTidy : Allocation → Type 0
IsTidy a = IsWord a.country × IsWord a.registry
