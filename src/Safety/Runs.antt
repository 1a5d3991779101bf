-- ===== src/Safety/Runs.antt =====
-- Vetoes at concrete targets.
use xdp_invisible_armor.Common.{
  ◌≡◌, ◌↔◌, inl, refl, arith, [], ◌∷◌, codes, none, some, All, parse_uint,
}
use xdp_invisible_armor.Netip.{v4, Prefix, parse_addr, parse_prefix}
use xdp_invisible_armor.Netip.Overlap.{IsPrefix}
use xdp_invisible_armor.Safety.{Guard, to_prefix, assert_safe}
use xdp_invisible_armor.Safety.Verdicts.{IsClear, Hit, own, assert_safe_lem}

abbrev office : Guard
office = record { protected = record { addr = v4 0xc0a80000; bits = 16 } ∷ [] }

office-IsPrefix : All IsPrefix office.protected
office-IsPrefix = ground arith

abbrev attacker : Prefix
attacker = record { addr = v4 0xc6336404; bits = 32 }

reads : to_prefix (codes "198.51.100.4") ≡ some attacker
unfolding to_prefix parse_prefix parse_addr parse_uint
reads = refl

assert_safe_lem_example :
    (assert_safe office (codes "198.51.100.4") ≡ none) ↔ IsClear office.protected attacker
assert_safe_lem_example =
    assert_safe_lem office (codes "198.51.100.4") attacker office-IsPrefix reads (ground arith)

no_prefix : parse_prefix (codes "nonsense") ≡ none
unfolding parse_prefix
no_prefix = refl

no_addr : parse_addr (codes "nonsense") ≡ none
unfolding parse_addr
no_addr = refl

abbrev itself : Prefix
itself = record { addr = v4 0x7f000001; bits = 32 }

reads_itself : to_prefix (codes "127.0.0.1") ≡ some itself
unfolding to_prefix parse_prefix parse_addr parse_uint
reads_itself = refl

hits_itself : Hit own itself
hits_itself = inl (v4 0x7f000001, refl, refl)
