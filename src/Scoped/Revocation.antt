-- ===== src/Scoped/Revocation.antt =====
-- internal/web/scoped.go, scopedBanRevoke, and internal/web/lookup.go, lookupRollback: taking bans
-- back.
use xdp_invisible_armor.Common.{
  ℕ, not, if◌then◌else◌, List, [], ◌∷◌, keep, Option, none, some, Text, text_eq, codes, has_prefix,
}
use xdp_invisible_armor.Model.{rejected, revoked, BanRequest, ScopedBan, Dispatch, Failure}
use xdp_invisible_armor.Dispatch.{
  Database, DbFaults, write_audit, first_with, ban_id, scoped_kind, global_kind,
}
use xdp_invisible_armor.Requests.{WebFaults, find_request, update_request, entry}
use xdp_invisible_armor.Scoped.{
  Revoker, Handler, Answer, done, server_error, bad_request, release_for, find_scoped,
  update_scoped, is_active, is_pending, scoped_bans, with_db, with_bans, noted,
}

-- Where the database finds nothing or does not answer, there is nothing to take back.
unfoldable pub scoped_dispatch_prefixes : DbFaults → ScopedBan → Database → Option (List Text)
scoped_dispatch_prefixes faults sb db =
    elim (first_with faults (ban_id scoped_kind sb.id sb.target_ip) db) [
      | none ↦ some []
      | some d ↦ elim d.payload [ none ↦ none | some p ↦ some p.prefixes ]
    ]

-- The targets of the payloads; no value where one does not parse.
unfoldable pub payload_targets : List Dispatch → Option (List Text)
payload_targets [] = some []
payload_targets (d ∷ ds) =
    let rest = payload_targets ds in
    elim d.payload [
      | none ↦ none
      | some p ↦ elim rest [ none ↦ none | some ts ↦ some (p.target ∷ ts) ]
    ]

-- `Where("ban_id LIKE ?", prefix+"%")`: no letter of the prefix is a wildcard.
unfoldable pub scoped_global_dispatch_prefixes :
    DbFaults → ScopedBan → Database → Option (List Text)
unfolding payload_targets has_prefix
scoped_global_dispatch_prefixes faults sb db =
    let prefix = ban_id global_kind sb.id [] in
    if faults.find_fails prefix
    then none
    else payload_targets (keep (λ (d : Dispatch). has_prefix d.ban_id prefix) db.dispatches)

module _ {M : Type 0} (rv : Revoker M) where
  -- One after the other, up to the first that fails.
  unfoldable pub revoke_each : List Text → M → M × Option Failure
  revoke_each [] m = (m, none)
  revoke_each (p ∷ ps) m =
      let rest = revoke_each ps (rv.revoke_global p m).0 in
      elim (rv.revoke_global p m).1 [ some e ↦ ((rv.revoke_global p m).0, some e) | none ↦ rest ]

  -- `none` where the dispatches cannot be read.
  unfoldable pub take_back : WebFaults → ScopedBan → Handler M → Option (M × Option Failure)
  unfolding revoke_each
  take_back faults sb h =
      if sb.global
      then elim (scoped_global_dispatch_prefixes faults.store sb h.site.db) [
        | none ↦ none
        | some ps ↦ some (revoke_each ps h.carried)
      ]
      else elim (scoped_dispatch_prefixes faults.store sb h.site.db) [
        | none ↦ none
        | some ps ↦ some (rv.revoke_scoped sb.target_ip ps h.carried)
      ]

  -- The row, the reservation and the audit entry after the work. What the update answers is ignored.
  unfoldable pub settle_revoked : WebFaults → ℕ → Text → ℕ → ScopedBan → Handler M → Handler M
  unfolding release_for
  settle_revoked faults user label now sb h =
      noted faults user label sb.id (codes "rolled_back") now (
        with_bans
          (if faults.store.update_fails
            then scoped_bans h
            else update_scoped sb.id (λ b. record b { state = revoked; revoked_at = some now })
                (scoped_bans h))
          (record h { quota = release_for sb.global h.quota sb.prefix_count }))

  -- The part that scopedBanRevoke and lookupRollback share.
  unfoldable pub revoke_active :
      WebFaults → ℕ → Text → ℕ → ScopedBan → Handler M → Handler M × Answer
  unfolding settle_revoked take_back
  revoke_active faults user label now sb h = elim (take_back faults sb h) [
    | none ↦ (h, server_error)
    | some (m, failure) ↦ elim failure [
      | some e ↦ (record h { carried = m }, server_error)
      | none ↦ (settle_revoked faults user label now sb (record h { carried = m }), done)
    ]
  ]

  unfoldable pub scoped_ban_revoke : WebFaults → ℕ → Text → ℕ → ℕ → Handler M → Handler M × Answer
  unfolding revoke_active
  scoped_ban_revoke faults user label id now h = elim (find_scoped id (scoped_bans h)) [
    | none ↦ (h, done)
    | some sb ↦
        if not (is_active sb.state) then (h, done) else revoke_active faults user label now sb h
  ]

  -- `lookupRollback` of the kind "scoped": a pending ban is rejected.
  unfoldable pub rollback_scoped : WebFaults → ℕ → Text → ℕ → ℕ → Handler M → Handler M × Answer
  unfolding revoke_active release_for
  rollback_scoped faults user label id now h = elim (find_scoped id (scoped_bans h)) [
    | none ↦ (h, done)
    | some sb ↦
        if is_pending sb.state
        then (
          noted faults user label id (codes "rolled_back") now (
              with_bans
                (if faults.store.update_fails
                  then scoped_bans h
                  else update_scoped id (λ b. record b { state = rejected }) (scoped_bans h))
                (record h { quota = release_for sb.global h.quota sb.prefix_count })),
          done,
        )
        else if is_active sb.state
        then revoke_active faults user label now sb h
        else (h, done)
  ]

  abbrev pub settle_request :
      WebFaults → ℕ → Text → ℕ → ℕ → (BanRequest → BanRequest) → Handler M → Handler M
  settle_request faults user label id now f h =
      with_db
        (write_audit faults.store (entry user label id (codes "rolled_back") now)
          (if faults.store.update_fails then h.site.db else update_request id f h.site.db))
        h

  -- `lookupRollback` of the kind "ban".
  unfoldable pub rollback_ban : WebFaults → ℕ → Text → ℕ → ℕ → Handler M → Handler M × Answer
  rollback_ban faults user label id now h = elim (find_request id h.site.db) [
    | none ↦ (h, done)
    | some req ↦
        if is_pending req.state
        then (settle_request faults user label id now (λ r. record r { state = rejected }) h, done)
        else if not (is_active req.state)
        then (h, done)
        else (let (m, failure) = rv.revoke_global req.target h.carried in
            elim failure [
              | some e ↦ (record h { carried = m }, server_error)
              | none ↦ (
                settle_request faults user label id now
                    (λ r. record r { state = revoked; cleared_at = some now })
                    (record h { carried = m }),
                done,
              )
            ])
  ]

  unfoldable pub lookup_rollback :
      WebFaults → Text → ℕ → Text → ℕ → ℕ → Handler M → Handler M × Answer
  unfolding rollback_ban rollback_scoped text_eq
  lookup_rollback faults kind user label id now h =
      if text_eq kind (codes "ban")
      then rollback_ban faults user label id now h
      else if text_eq kind (codes "scoped")
      then rollback_scoped faults user label id now h
      else (h, bad_request)
