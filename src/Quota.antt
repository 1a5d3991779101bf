-- ===== src/Quota.antt =====
-- internal/quota/quota.go: how many entries of the two ban maps the scoped and the global bans may
-- take. Counts are of list elements and stay far below 2 ^ 63, so an `int` that cannot become
-- negative is a number; `Available` can, and is an integer. The locks make each call atomic.
pub mod Bounds
pub mod Decisions
mod Runs
use xdp_invisible_armor.Common.{
  ℕ, ◌+◌, ◌-◌, ◌*◌, ◌/◌, ◌%◌, ◌^◌, Bool, true, false, ◌==◌, ltb, if◌then◌else◌, List, [], ◌∷◌,
  length, Result, ok, err, ℤ, sub_ℕ,
}
use xdp_invisible_armor.Netip.{Prefix}

abbrev pub map_capacity : ℕ
map_capacity = 262144

abbrev pub global_high_water : ℕ
global_high_water = map_capacity * 80 / 100

abbrev pub per_rule_max_prefixes : ℕ
per_rule_max_prefixes = 32768

abbrev pub max_address_share_ppm : ℕ
max_address_share_ppm = 250000

abbrev pub global_ban_map_capacity : ℕ
global_ban_map_capacity = 65536

abbrev pub global_ban_high_water : ℕ
global_ban_high_water = global_ban_map_capacity * 80 / 100

abbrev pub total_ipv4 : ℕ
total_ipv4 = 2 ^ 32

pub record Usage : Type 0 where
  pub prefixes : ℕ
  pub rules : ℕ
  pub targets : ℕ
  pub capacity : ℕ
  pub high_water : ℕ

-- `Free()`: a negative difference is 0.
unfoldable pub free : Usage → ℕ
free u = u.high_water - u.prefixes

unfoldable pub utilization_ppm : Usage → ℕ
utilization_ppm u = if u.high_water == 0 then 0 else u.prefixes * 1000000 % 2 ^ 64 / u.high_water

pub record Tracker : Type 0 where
  pub prefixes : ℕ
  pub rules : ℕ
  pub targets : ℕ
  pub global_prefixes : ℕ
  pub global_rules : ℕ

abbrev pub new_tracker : Tracker
new_tracker = record { prefixes = 0; rules = 0; targets = 0; global_prefixes = 0; global_rules = 0 }

unfoldable pub usage : Tracker → Usage
usage t = record {
  prefixes = t.prefixes;
  rules = t.rules;
  targets = t.targets;
  capacity = map_capacity;
  high_water = global_high_water;
}

unfoldable pub global_ban_usage : Tracker → Usage
global_ban_usage t = record {
  prefixes = t.global_prefixes;
  rules = t.global_rules;
  targets = 0;
  capacity = global_ban_map_capacity;
  high_water = global_ban_high_water;
}

pub data QuotaKind : Type 0 where
  global_full per_rule global_ban_full : QuotaKind

pub record QuotaError : Type 0 where
  pub kind : QuotaKind
  pub requested : ℕ
  pub available : ℤ

unfoldable pub reserve : Tracker → ℕ → Result QuotaError Tracker
reserve t n =
    if ltb global_high_water (t.prefixes + n)
    then err (record {
      kind = global_full;
      requested = n;
      available = sub_ℕ global_high_water t.prefixes;
    })
    else ok (record t { prefixes = t.prefixes + n; rules = t.rules + 1 })

-- Both counts stop at 0.
unfoldable pub release : Tracker → ℕ → Tracker
release t n = record t { prefixes = t.prefixes - n; rules = t.rules - 1 }

unfoldable pub reserve_global : Tracker → ℕ → Result QuotaError Tracker
reserve_global t n =
    if ltb global_ban_high_water (t.global_prefixes + n)
    then err (record {
      kind = global_ban_full;
      requested = n;
      available = sub_ℕ global_ban_high_water t.global_prefixes;
    })
    else ok
        (record t { global_prefixes = t.global_prefixes + n; global_rules = t.global_rules + 1 })

unfoldable pub release_global : Tracker → ℕ → Tracker
release_global t n = record t {
  global_prefixes = t.global_prefixes - n;
  global_rules = t.global_rules - 1;
}

unfoldable pub set_baseline : Tracker → ℕ → ℕ → ℕ → Tracker
set_baseline t prefixes rules targets = record t {
  prefixes = prefixes;
  rules = rules;
  targets = targets;
}

unfoldable pub set_global_baseline : Tracker → ℕ → ℕ → Tracker
set_global_baseline t prefixes rules = record t { global_prefixes = prefixes; global_rules = rules }

-- The text of a decision, by what it reports.
pub data Reason : Type 0 where
  nothing_matched : Reason
  over_rule_limit : ℕ → Reason
  over_free : ℕ → ℕ → Reason
  huge_share : ℕ → ℕ → Reason
  fits : ℕ → ℕ → ℕ → Reason

pub record Decision : Type 0 where
  pub allowed : Bool
  pub requires_override : Bool
  pub reason : Reason
  pub prefix_count : ℕ
  pub address_count : ℕ
  pub address_share_ppm : ℕ

-- `d.AddressCount += uint64(1) << (32 - c.Bits())`
unfoldable pub sum_addresses : ℕ → List Prefix → ℕ
sum_addresses acc [] = acc
sum_addresses acc (p ∷ ps) = sum_addresses ((acc + 2 ^ (32 - p.bits)) % 2 ^ 64) ps

unfoldable pub verdict : ℕ → ℕ → ℕ → Bool → Bool → Reason → Decision
verdict count total share allowed override why = record {
  allowed = allowed;
  requires_override = override;
  reason = why;
  prefix_count = count;
  address_count = total;
  address_share_ppm = share;
}

-- What `Check` decides from the two counts, in the order of its tests.
unfoldable pub decide : Tracker → ℕ → ℕ → Decision
unfolding usage free verdict
decide t count total =
    let share = total * 1000000 % 2 ^ 64 / total_ipv4 in
    let left = free (usage t) in
    if count == 0
    then verdict count total share false false nothing_matched
    else if ltb per_rule_max_prefixes count
    then verdict count total share false false (over_rule_limit count)
    else if ltb left count
    then verdict count total share false false (over_free count left)
    else if ltb max_address_share_ppm share
    then verdict count total share true true (huge_share share count)
    else verdict count total share true false (fits count (left - count) share)

unfoldable pub check : Tracker → List Prefix → Decision
unfolding decide sum_addresses
check t cidrs = decide t (length cidrs) (sum_addresses 0 cidrs)
