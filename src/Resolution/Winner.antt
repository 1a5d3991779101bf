-- ===== src/Resolution/Winner.antt =====
-- The decision is that of the hit rule with the smallest precedence.
use xdp_invisible_armor.Common.{
  ◌≡◌, refl, arith, Bool, true, false, ◌||◌, if◌then◌else◌, List, [], any, Text, codes,
}
use xdp_invisible_armor.Resolution.{
  pass, drop, rules, contains, resolve, explain, ban_without_effect,
}

-- What an operator's list of hits comes to, rule by rule: safety first, then the allow list, then
-- any black list; nothing hit passes.
pub resolve_lem :
    (hits : List Text) (veto : Bool)
    → (resolve hits veto).effect ≡ (
        if veto || contains hits (codes "allowlist")
        then pass
        else if contains hits (codes "blacklist_manual")
            || contains hits (codes "blacklist_blackhole")
            || contains hits (codes "blacklist_intel")
        then drop
        else pass)
unfolding resolve
resolve_lem hits true = refl
resolve_lem hits false =
    table (contains hits (codes "allowlist")) (contains hits (codes "blacklist_manual"))
      (contains hits (codes "blacklist_blackhole")) (contains hits (codes "blacklist_intel")) refl
      refl refl refl
  where
    table :
        (a b c d : Bool)
        → contains hits (codes "allowlist") ≡ a
        → contains hits (codes "blacklist_manual") ≡ b
        → contains hits (codes "blacklist_blackhole") ≡ c
        → contains hits (codes "blacklist_intel") ≡ d
        → (resolve hits false).effect ≡ (if a then pass else if b || c || d then drop else pass)
    table true true true true p q r s = ground arith
    table true true true false p q r s = ground arith
    table true true false true p q r s = ground arith
    table true true false false p q r s = ground arith
    table true false true true p q r s = ground arith
    table true false true false p q r s = ground arith
    table true false false true p q r s = ground arith
    table true false false false p q r s = ground arith
    table false true true true p q r s = ground arith
    table false true true false p q r s = ground arith
    table false true false true p q r s = ground arith
    table false true false false p q r s = ground arith
    table false false true true p q r s = ground arith
    table false false true false p q r s = ground arith
    table false false false true p q r s = ground arith
    table false false false false p q r s = ground arith

-- A ban is reported as recorded but without effect whenever its sources are none of the rules' own.
pub explain_unknown_source :
    (hits : List Text)
    → any (λ r. contains hits r.source) rules ≡ false
    → explain (codes "ban") (resolve hits false) ≡ ban_without_effect []
unfolding explain resolve
explain_unknown_source hits h = ground arith
