-- ===== src/PrefixDb/Runs.antt =====
-- A small table, and the theorems over it.
use xdp_invisible_armor.Common.{
  ℕ, ◌+◌, ◌≡◌, refl, arith, true, false, List, [], ◌∷◌, ok, err, codes, text_eq, if◌then◌else◌, any,
  ◌&&◌,
}
use xdp_invisible_armor.Netip.{Prefix, v4, prefix_from}
use xdp_invisible_armor.PrefixDb.Cidrs.{range_to_cidrs}
use xdp_invisible_armor.PrefixDb.Cidrs.Tiling.{Tiles, hits, range_to_cidrs-Tiles}
use xdp_invisible_armor.PrefixDb.Merge.{Range, sort, merge, blocks}
use xdp_invisible_armor.PrefixDb.Index.{Entry, Db, Selector, rebuild_index, rows_of}
use xdp_invisible_armor.PrefixDb.Index.Positions.{IsIndexed, rebuild_index-IsIndexed}
use xdp_invisible_armor.PrefixDb.Resolve.{candidates, resolve, ranges, row, no_selector}
use xdp_invisible_armor.PrefixDb.Resolve.Candidates.{matches, is_blank}
use xdp_invisible_armor.PrefixDb.Resolve.Exact.{resolve_exact, in_entry}

-- 10.0.0.1 to 10.0.0.6
odd_range :
    range_to_cidrs 0x0a000001 0x0a000006
    ≡ prefix_from (v4 0x0a000001) 32
      ∷ prefix_from (v4 0x0a000002) 31
      ∷ prefix_from (v4 0x0a000004) 31
      ∷ prefix_from (v4 0x0a000006) 32
      ∷ []
unfolding range_to_cidrs
odd_range = refl

whole_space : range_to_cidrs 0 0xffffffff ≡ prefix_from (v4 0) 0 ∷ []
unfolding range_to_cidrs
whole_space = refl

abbrev first : Entry
first = record {
  start = 0x01000000;
  last = 0x010000ff;
  asn = 13335;
  country = codes "AU";
  as_name = codes "ONE";
}

abbrev second : Entry
second = record {
  start = 0x01000100;
  last = 0x010003ff;
  asn = 0;
  country = codes "AU";
  as_name = [];
}

abbrev raw : Db
raw = record {
  entries = first ∷ second ∷ [];
  by_country = [];
  by_asn = [];
  source_path = codes "x.tsv";
  loaded_at = 1;
  override_count = 0;
}

abbrev australia : Selector
australia = record { country = codes "AU"; asn = 0 }

indexed : IsIndexed (rebuild_index raw)
indexed = (rebuild_index-IsIndexed raw).0

resolve_run : resolve (rebuild_index raw) australia ≡ ok (prefix_from (v4 0x01000000) 22 ∷ [])
unfolding resolve candidates ranges row rebuild_index rows_of text_eq sort merge blocks
    range_to_cidrs
resolve_run = refl

range_to_cidrs-Tiles_example :
    Tiles 0x0a000001 (0x0a000006 + 1) (range_to_cidrs 0x0a000001 0x0a000006)
range_to_cidrs-Tiles_example =
    range_to_cidrs-Tiles 0x0a000001 0x0a000006 (omega arith) (omega arith)

abbrev shuffled : List Range
shuffled =
    record { start = 20; last = 29 }
    ∷ record { start = 3; last = 9 }
    ∷ record { start = 10; last = 19 }
    ∷ []

resolve_exact_example :
    (is_blank australia ≡ true → resolve (rebuild_index raw) australia ≡ err no_selector)
    × (is_blank australia ≡ false
        → (ps : List Prefix) × (resolve (rebuild_index raw) australia ≡ ok ps)
          × ((x : ℕ)
              → hits x ps ≡ (
                  if any (λ e. matches australia e && in_entry x e) (rebuild_index raw).entries
                  then 1
                  else 0)))
unfolding rebuild_index
resolve_exact_example = resolve_exact (rebuild_index raw) australia indexed (omega arith)
