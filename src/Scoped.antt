-- ===== src/Scoped.antt =====
-- internal/web/scoped.go: bans of a country or an AS number, for one target or for all of them.
-- `Handler` is what the handlers of internal/web share: the site, the quota's tracker, and the state
-- of what carries the bans out, which they reach through the interface Revoker alone.
-- Each handler is one step; of the page it answers with, only the kind is kept.
pub mod Forms
pub mod Creation
pub mod Approval
pub mod Revocation
pub mod Restore
pub mod Totals
pub mod Accounts
pub mod Reservations
pub mod Blocks
pub mod Decided
pub mod Vetoed
pub mod Admitted
pub mod Revoked
pub mod Operations
mod Runs
use xdp_invisible_armor.Common.{
  ℕ, Bool, true, false, ◌==◌, if◌then◌else◌, List, map, find, Option, Text, codes, format, Result,
  ok, err,
}
use xdp_invisible_armor.Quota.{
  Tracker, QuotaError, reserve, release, reserve_global, release_global,
}
use xdp_invisible_armor.Model.{BanState, requested, active, ScopedBan, AuditLog, Failure, Dispatch}
use xdp_invisible_armor.Dispatch.{Database, write_audit}
use xdp_invisible_armor.Requests.{Site, WebFaults}

-- The interface `Revoker`. A failure may leave a part of the work done.
pub record Revoker (M : Type 0) : Type 0 where
  pub revoke_global : Text → M → M × Option Failure
  pub revoke_scoped : Text → List Text → M → M × Option Failure

pub record Handler (M : Type 0) : Type 0 where
  pub site : Site
  pub quota : Tracker
  pub carried : M

pub data Answer : Type 0 where
  done conflict forbidden server_error bad_request unavailable : Answer

-- `if global { ReserveGlobal } else { Reserve }`, and the same of releasing.
unfoldable pub reserve_for : Bool → Tracker → ℕ → Result QuotaError Tracker
unfolding reserve reserve_global
reserve_for true t n = reserve_global t n
reserve_for false t n = reserve t n

unfoldable pub release_for : Bool → Tracker → ℕ → Tracker
unfolding release release_global
release_for true t n = release_global t n
release_for false t n = release t n

abbrev pub find_scoped : ℕ → List ScopedBan → Option ScopedBan
find_scoped id bans = find (λ (b : ScopedBan). b.id == id) bans

abbrev pub update_scoped : ℕ → (ScopedBan → ScopedBan) → List ScopedBan → List ScopedBan
update_scoped id f bans = map (λ (b : ScopedBan). if b.id == id then f b else b) bans

module _ {M : Type 0} where
  abbrev pub scoped_bans : Handler M → List ScopedBan
  scoped_bans h = h.site.db.scoped_bans

  abbrev pub with_db : Database → Handler M → Handler M
  with_db db h = record h { site = record (h.site) { db = db } }

  abbrev pub with_bans : List ScopedBan → Handler M → Handler M
  with_bans bans h = with_db (record (h.site.db) { scoped_bans = bans }) h

  -- An entry on the scoped ban `id`.
  abbrev pub noted : WebFaults → ℕ → Text → ℕ → Text → ℕ → Handler M → Handler M
  noted faults user label id event now h =
      with_db
        (write_audit faults.store
          (record {
            user_id = Option.some user;
            actor_label = label;
            entity_type = codes "ScopedBan";
            entity_id = format id;
            event = event;
            occurred_at = now;
          })
          h.site.db)
        h

abbrev pub is_pending : BanState → Bool
is_pending requested = true
is_pending _ = false

abbrev pub is_active : BanState → Bool
is_active active = true
is_active _ = false
