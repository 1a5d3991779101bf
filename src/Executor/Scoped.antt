-- ===== src/Executor/Scoped.antt =====
-- How far the writing of a scoped ban's source prefixes comes.
use xdp_invisible_armor.Common.{
  ℕ, ◌+◌, ◌≡◌, ◌⊎◌, List, [], ◌++◌, length, All, Option, none, some, Text, lookup,
}
use xdp_invisible_armor.Model.{Failure, source_prefix, source_write}
use xdp_invisible_armor.Executor.{MapWriter}
use xdp_invisible_armor.Executor.Writes.{SrcKey}

-- The number of prefixes written that a failure reports.
abbrev pub reported : Failure → ℕ
reported (source_prefix n e) = n
reported (source_write n p) = n
reported _ = 0

module _ {C : Type 0} (w : MapWriter C) where
  -- The text is in the map of source bans, with this value.
  abbrev pub IsWritten : ℕ → Text → C → Text → Type 0
  IsWritten tid val c s = (key : Text) × SrcKey tid s key × (lookup key (w.entries c) ≡ some val)

  -- The texts split where the writing stopped: those before are in the map, and a failure counts
  -- them.
  abbrev pub Progress : ℕ → Text → ℕ → List Text → C × Option Failure → Type 0
  Progress tid val start ss r =
      (front : List Text) × (back : List Text) × (ss ≡ front ++ back)
      × All (IsWritten tid val r.0) front
      × (((r.1 ≡ none) × (back ≡ []))
          ⊎ ((e : Failure) × (r.1 ≡ some e) × (reported e ≡ start + length front)))
