-- ===== src/Resolution.antt =====
-- internal/resolution/policy.go: which of several sources that hit an address decides on it.
pub mod Winner
mod Runs
use xdp_invisible_armor.Common.{
  ℕ, zero, suc, Bool, true, false, ◌&&◌, ◌||◌, ltb, if◌then◌else◌, List, [], ◌∷◌, Option, none,
  some, Text, text_eq, codes, is_empty,
}

pub data Effect : Type 0 where
  pass drop : Effect

-- The note of a rule is explanation only, and is left out.
pub record Rule : Type 0 where
  pub source : Text
  pub precedence : ℕ
  pub effect : Effect

abbrev safety_source : Text
safety_source = codes "__safety__"

abbrev rule : Text → ℕ → Effect → Rule
rule source precedence effect = record { source = source; precedence = precedence; effect = effect }

abbrev pub rules : List Rule
rules =
    rule (codes "__safety__") 0 pass
    ∷ rule (codes "allowlist") 10 pass
    ∷ rule (codes "blacklist_manual") 20 drop
    ∷ rule (codes "blacklist_blackhole") 30 drop
    ∷ rule (codes "blacklist_intel") 40 drop
    ∷ []

pub record Resolution : Type 0 where
  pub effect : Effect
  pub decided_by : Text
  pub contributing : List Text

unfoldable pub contains : List Text → Text → Bool
unfolding text_eq
contains [] v = false
contains (x ∷ s) v = text_eq x v || contains s v

-- `winner == nil || r.Precedence < best`, where `best` is the precedence of the winner.
abbrev beats : Option Rule → Rule → Bool
beats none r = true
beats (some w) r = ltb r.precedence w.precedence

unfoldable pub pick : List Text → Option Rule → List Rule → Option Rule
unfolding text_eq
pick hits winner [] = winner
pick hits winner (r ∷ rs) =
    pick hits
      (if text_eq r.source safety_source
        then winner
        else if contains hits r.source && beats winner r
        then some r
        else winner)
      rs

unfoldable pub resolve : List Text → Bool → Resolution
unfolding pick
resolve hits true = record { effect = pass; decided_by = safety_source; contributing = hits }
resolve hits false = elim (pick hits none rules) [
  | none ↦ record { effect = pass; decided_by = []; contributing = [] }
  | some w ↦ record { effect = w.effect; decided_by = w.source; contributing = hits }
]

-- The message of `Explain`, by what it tells the user.
pub data Message : Type 0 where
  ban_in_force ban_without_effect unban_still_dropped : Text → Message
  unban_in_force : Message
  done : Effect → Message

unfoldable pub explain : Text → Resolution → Message
unfolding text_eq
explain action r =
    if text_eq action (codes "ban")
    then elim r.effect [ drop ↦ ban_in_force r.decided_by | pass ↦ ban_without_effect r.decided_by ]
    else if text_eq action (codes "unban")
    then elim r.effect [ pass ↦ unban_in_force | drop ↦ unban_still_dropped r.decided_by ]
    else done r.effect
