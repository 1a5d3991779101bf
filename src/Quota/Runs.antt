-- ===== src/Quota/Runs.antt =====
-- A few calls, and the theorems at concrete inputs.
use xdp_invisible_armor.Common.{
  ◌+◌, ◌*◌, ◌^◌, ◌≤◌, ◌<◌, ◌≡◌, ◌↔◌, refl, arith, true, List, [], ◌∷◌, is_ok,
}
use xdp_invisible_armor.Netip.{Prefix, v4, prefix_from}
use xdp_invisible_armor.PrefixDb.Cidrs.Tiling.{addresses}
use xdp_invisible_armor.Quota.{
  Tracker, new_tracker, reserve, check, global_high_water, per_rule_max_prefixes, nothing_matched,
}
use xdp_invisible_armor.Quota.Bounds.{Call, reserves, releases, reserves_global, releases_global}
use xdp_invisible_armor.Quota.Decisions.{check_decides}

abbrev half_space : List Prefix
half_space = prefix_from (v4 0) 1 ∷ []

check_half :
    ((check new_tracker half_space).requires_override ≡ true)
    × ((check new_tracker []).reason ≡ nothing_matched)
unfolding check
check_half = (refl, refl)

abbrev busy : Tracker
busy = record { prefixes = 12; rules = 2; targets = 0; global_prefixes = 4; global_rules = 1 }

abbrev calls : List Call
calls = reserves 300000 ∷ reserves 9 ∷ reserves_global 60000 ∷ releases 4 ∷ releases_global 1 ∷ []

check_decides_example :
    ((check busy half_space).address_count ≡ addresses half_space)
    × (((check busy half_space).allowed ≡ true)
        ↔ ((0 < 1) × (1 ≤ per_rule_max_prefixes) × (12 + 1 ≤ global_high_water)))
    × (((check busy half_space).requires_override ≡ true) ↔ (
        ((check busy half_space).allowed ≡ true)
        × (250001 * 2 ^ 32 ≤ addresses half_space * 1000000)))
    × ((check busy half_space).allowed ≡ true
        → is_ok (reserve busy (check busy half_space).prefix_count) ≡ true)
check_decides_example = check_decides busy half_space (omega arith)
