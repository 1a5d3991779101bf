-- ===== src/Safety.antt =====
-- internal/safety/guard.go: the last check before a ban, against the prefixes that may never be
-- banned. A veto is a value; its text is not modelled.
pub mod Verdicts
mod Runs
use xdp_invisible_armor.Common.{
  ℕ, Bool, true, false, if◌then◌else◌, List, [], ◌∷◌, ◌++◌, find, Option, none, some, Text, codes,
  and_then,
}
use xdp_invisible_armor.Netip.{Addr, Prefix, is6, prefix_from, overlaps, parse_addr, parse_prefix}

pub record Guard : Type 0 where
  pub protected : List Prefix

pub data Veto : Type 0 where
  unreadable : Text → Veto
  hits : Text → Prefix → Veto
  hits_prefix : Prefix → Prefix → Veto

-- A prefix, or an address as the prefix of itself alone.
unfoldable pub to_prefix : Text → Option Prefix
to_prefix s = elim (parse_prefix s) [
  | some p ↦ some p
  | none ↦ and_then (parse_addr s) (λ addr. some (prefix_from addr (if is6 addr then 128 else 32)))
]

-- A text that does not parse is passed over.
unfoldable pub add_one : Guard → Text → Guard
add_one g t = elim (to_prefix t) [
  | some p ↦ record { protected = g.protected ++ p ∷ [] }
  | none ↦ g
]

unfoldable pub add : Guard → List Text → Guard
add g [] = g
add g (t ∷ ts) = add (add_one g t) ts

unfoldable pub built_in : List Text → Guard → Guard
built_in [] g = g
built_in (c ∷ cs) g =
    built_in cs
      (elim (parse_prefix c) [ some p ↦ record { protected = g.protected ++ p ∷ [] } | none ↦ g ])

-- `New`
unfoldable pub new : List Text → Guard
unfolding built_in add add_one
new extra =
    add
      (built_in (codes "127.0.0.0/8" ∷ codes "::1/128" ∷ codes "0.0.0.0/32" ∷ [])
        (record { protected = [] }))
      extra

unfoldable pub assert_safe : Guard → Text → Option Veto
assert_safe g target = elim (to_prefix target) [
  | none ↦ some (unreadable target)
  | some t ↦ elim (find (λ p. overlaps p t) g.protected) [
    | none ↦ none
    | some p ↦ some (hits target p)
  ]
]

unfoldable pub assert_safe_all : Guard → List Prefix → Option Veto
assert_safe_all g [] = none
assert_safe_all g (t ∷ ts) = elim (find (λ p. overlaps p t) g.protected) [
  | some p ↦ some (hits_prefix t p)
  | none ↦ assert_safe_all g ts
]
