-- ===== src/Quota/Decisions.antt =====
-- What Check allows.
use xdp_invisible_armor.Common.{
  ℕ, ◌+◌, ◌-◌, ◌*◌, ◌%◌, ◌^◌, ◌≤◌, ◌<◌, ◌≡◌, ◌↔◌, arith, true, List, [], ◌∷◌, length, is_ok,
}
use xdp_invisible_armor.Netip.{Prefix}
use xdp_invisible_armor.PrefixDb.Cidrs.Tiling.{addresses}
use xdp_invisible_armor.Quota.{
  Tracker, check, decide, sum_addresses, reserve, global_high_water, per_rule_max_prefixes,
}

sum_addresses-addresses :
    (ps : List Prefix) (acc : ℕ)
    → acc + addresses ps < 2 ^ 64
    → sum_addresses acc ps ≡ acc + addresses ps
unfolding sum_addresses
sum_addresses-addresses [] acc h = omega arith
sum_addresses-addresses (p ∷ ps) acc h =
    let small : (acc + 2 ^ (32 - p.bits)) % 2 ^ 64 ≡ acc + 2 ^ (32 - p.bits) = omega arith in
    rw small (omega (arith, sum_addresses-addresses ps (acc + 2 ^ (32 - p.bits)) (omega arith)))

decide_lem :
    (t : Tracker) (count total : ℕ)
    → total ≤ 2 ^ 32
    → (((decide t count total).allowed ≡ true) ↔ (
        (0 < count) × (count ≤ per_rule_max_prefixes) × (t.prefixes + count ≤ global_high_water)))
      × (((decide t count total).requires_override ≡ true)
          ↔ (((decide t count total).allowed ≡ true) × (250001 * 2 ^ 32 ≤ total * 1000000)))
unfolding decide
decide_lem t count total h =
    ((λ e. ground arith, λ e. ground arith), (λ e. ground arith, λ e. ground arith))

-- A selection of prefixes that cover at most the whole address space: `Check` counts its addresses
-- without overflow, and allows it exactly if it is not empty and fits the limit of one rule and the
-- free entries, in which case reserving it at once succeeds. It asks for a confirmation exactly if
-- it allows more than 25 % of the space, in whole millionths.
pub check_decides :
    (t : Tracker) (ps : List Prefix)
    → addresses ps ≤ 2 ^ 32
    → ((check t ps).address_count ≡ addresses ps)
      × (((check t ps).allowed ≡ true) ↔ (
          (0 < length ps)
          × (length ps ≤ per_rule_max_prefixes)
          × (t.prefixes + length ps ≤ global_high_water)))
      × (((check t ps).requires_override ≡ true)
          ↔ (((check t ps).allowed ≡ true) × (250001 * 2 ^ 32 ≤ addresses ps * 1000000)))
      × ((check t ps).allowed ≡ true → is_ok (reserve t (check t ps).prefix_count) ≡ true)
unfolding check
check_decides t ps h =
    let e : sum_addresses 0 ps ≡ addresses ps =
      omega (arith, sum_addresses-addresses ps 0 (omega arith)) in
    let (a, o) = decide_lem t (length ps) (addresses ps) h in
    rw e (counted (length ps) (addresses ps), a, o, reserves (length ps) (addresses ps) h)
  where
    counted : (count total : ℕ) → (decide t count total).address_count ≡ total
    counted count total = unfold decide in ground arith

    reserves :
        (count total : ℕ)
        → total ≤ 2 ^ 32
        → (decide t count total).allowed ≡ true
        → is_ok (reserve t (decide t count total).prefix_count) ≡ true
    reserves count total k a = unfold decide reserve in ground arith
