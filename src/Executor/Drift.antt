-- ===== src/Executor/Drift.antt =====
-- A reconciliation reports exactly the acked global bans that the kernel's map has lost.
use xdp_invisible_armor.Common.{
  ℕ, ◌≡◌, Bool, true, false, not, ◌&&◌, All, Option, none, some, Text, is_empty, ok, err, ◌>>=◌,
  Map, lookup,
}
use xdp_invisible_armor.Netip.{Prefix, value, v4_prefix_text}
use xdp_invisible_armor.Banmap.{encode_global_key, parse_ipv4_prefix}
use xdp_invisible_armor.Banmap.Parsing.{IsBanPrefix}
use xdp_invisible_armor.Model.{Dispatch}
use xdp_invisible_armor.Executor.{MapWriter, BanMaps}
use xdp_invisible_armor.Executor.Reconcile.{is_over}

-- Every entry is under the key of a prefix that can be banned.
abbrev pub IsBanTable : Map Text → Type 0
IsBanTable entries =
    All (λ (e : Text × Text). (p : Prefix) × IsBanPrefix p × (encode_global_key p ≡ ok e.0)) entries

abbrev text_of : Prefix → Text
text_of p = v4_prefix_text (value p.addr) p.bits

abbrev pub is_some : Option Text → Bool
is_some none = false
is_some (some v) = true

-- The dispatch is for a global ban whose key is not in the map, and whose time is not over.
abbrev pub lost : {C : Type 0} → MapWriter C → BanMaps C → ℕ → Dispatch → Bool
lost w m now d = elim d.payload [
  | none ↦ false
  | some p ↦ is_empty p.scoped_target && elim (parse_ipv4_prefix p.target >>= encode_global_key) [
    | err e ↦ false
    | ok key ↦ not (is_some (lookup key (w.entries m.global_bans))) && not (is_over now d p)
  ]
]
