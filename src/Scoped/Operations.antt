-- ===== src/Scoped/Operations.antt =====
-- Any sequence of operations on scoped bans, restarts included.
use xdp_invisible_armor.Common.{ℕ, ◌≡◌, Bool, false, List, [], ◌∷◌, Option, Text}
use xdp_invisible_armor.PrefixDb.{Db}
use xdp_invisible_armor.Quota.{Tracker}
use xdp_invisible_armor.Requests.{WebFaults}
use xdp_invisible_armor.Scoped.{Handler, Revoker}
use xdp_invisible_armor.Scoped.Creation.{Form, scoped_ban_create}
use xdp_invisible_armor.Scoped.Approval.{scoped_ban_approve, scoped_ban_reject}
use xdp_invisible_armor.Scoped.Revocation.{scoped_ban_revoke, lookup_rollback}
use xdp_invisible_armor.Scoped.Restore.{restore_quota}

-- The requests that change scoped bans, with what the database refuses of each.
pub data Operation : Type 0 where
  creates : WebFaults → Bool → Option Db → ℕ → Text → Form → ℕ → Operation
  approves : WebFaults → Option Db → ℕ → Text → ℕ → ℕ → Operation
  rejects revokes : WebFaults → ℕ → Text → ℕ → ℕ → Operation
  rolls_back : WebFaults → Text → ℕ → Text → ℕ → ℕ → Operation
  restarts : Operation

-- The database answers the updates whose failure the handler does not see.
abbrev pub Answers : Operation → Type 0
Answers (approves faults pdb user label id now) = faults.store.update_fails ≡ false
Answers (revokes faults user label id now) = faults.store.update_fails ≡ false
Answers (rolls_back faults kind user label id now) = faults.store.update_fails ≡ false
Answers _ = Unit

module _ {M : Type 0} (rv : Revoker M) where
  unfoldable pub operate : Operation → Handler M → Handler M
  operate (creates faults fails pdb user label f now) h =
      (scoped_ban_create faults fails pdb user label f now h).0
  operate (approves faults pdb user label id now) h =
      (scoped_ban_approve faults pdb user label id now h).0
  operate (rejects faults user label id now) h = (scoped_ban_reject faults user label id now h).0
  operate (revokes faults user label id now) h = (scoped_ban_revoke rv faults user label id now h).0
  operate (rolls_back faults kind user label id now) h =
      (lookup_rollback rv faults kind user label id now h).0
  operate restarts h = restore_quota false h

  unfoldable pub run : List Operation → Handler M → Handler M
  run [] h = h
  run (o ∷ os) h = run os (operate o h)

-- The counts that the tracker keeps, without the number of targets.
abbrev pub SameCounts : Tracker → Tracker → Type 0
SameCounts t u =
    (t.prefixes ≡ u.prefixes)
    × (t.rules ≡ u.rules)
    × (t.global_prefixes ≡ u.global_prefixes)
    × (t.global_rules ≡ u.global_rules)
