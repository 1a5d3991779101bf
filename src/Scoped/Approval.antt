-- ===== src/Scoped/Approval.antt =====
-- internal/web/scoped.go, scopedBanApprove and scopedBanReject.
use xdp_invisible_armor.Common.{
  ℕ, ◌+◌, ◌*◌, not, ◌==◌, if◌then◌else◌, List, length, map, Option, none, some, Text, codes, Result,
  ok, err, ℤ, is_positive, pos_part,
}
use xdp_invisible_armor.Netip.{Prefix, value, v4_prefix_text}
use xdp_invisible_armor.PrefixDb
use xdp_invisible_armor.PrefixDb.{Db}
use xdp_invisible_armor.Quota.{Tracker, QuotaError}
use xdp_invisible_armor.Resolution.{Message}
use xdp_invisible_armor.Model.{active, rejected, ScopedBan, Dispatch}
use xdp_invisible_armor.Dispatch.{
  Database, DispatchError, create_scoped_dispatch, create_global_scoped_dispatch,
}
use xdp_invisible_armor.Requests.{WebFaults, site_guard, record_ladder}
use xdp_invisible_armor.Scoped.{
  Handler, Answer, done, conflict, forbidden, server_error, unavailable, reserve_for, release_for,
  find_scoped, update_scoped, is_pending, scoped_bans, with_db, with_bans, noted,
}

abbrev until : ℕ → Option ℤ → Option ℕ
until now none = none
until now (some ttl) = if is_positive ttl then some (now + pos_part ttl * 1_000_000_000) else none

-- The columns that an approval sets.
unfoldable pub approved_scoped : ℕ → ℕ → ScopedBan → ScopedBan
approved_scoped approver now b = record b {
  state = active;
  approved_by = some approver;
  effective_at = some now;
  expires_at = elim (until now b.ttl_seconds) [ none ↦ b.expires_at | some t ↦ some t ];
}

abbrev pub texts : List Prefix → List Text
texts cidrs = map (λ (p : Prefix). v4_prefix_text (value p.addr) p.bits) cidrs

-- What `Reserve` leaves: a refusal changes nothing.
abbrev pub left : Tracker → Result QuotaError Tracker → Tracker
left t (ok u) = u
left t (err e) = t

module _ {M : Type 0} where
  abbrev pub sent_global :
      Handler M → Database × Result DispatchError (List Dispatch × Message) → Handler M × Answer
  sent_global h (db, err e) = (with_db db h, forbidden)
  sent_global h (db, ok d) = (with_db db h, done)

  abbrev pub sent_scoped :
      WebFaults
      → ℕ
      → ScopedBan
      → Handler M
      → Database × Result DispatchError (Dispatch × Message)
      → Handler M × Answer
  sent_scoped faults now sb h (db, err e) = (with_db db h, forbidden)
  sent_scoped faults now sb h (db, ok d) = (
    record h {
      site = record (h.site) {
        db = db;
        ladders = record_ladder faults.ladder_fails sb.target_ip now h.site.ladders;
      };
    },
    done,
  )

  -- The dispatch of an approved ban; only one for a target of its own moves the ladder.
  unfoldable pub send_scoped :
      WebFaults → ℕ → ScopedBan → List Text → Handler M → Handler M × Answer
  unfolding site_guard record_ladder
  send_scoped faults now sb prefixes h =
      if sb.global
      then sent_global h
          (create_global_scoped_dispatch (site_guard h.site) faults.store now sb prefixes h.site.db)
      else sent_scoped faults now sb h
          (create_scoped_dispatch (site_guard h.site) faults.store now sb prefixes h.site.db)

  -- The number of prefixes may have changed since the request: the reservation is made anew, and
  -- where the new one does not fit, the old one is taken back.
  unfoldable pub fit_drift :
      WebFaults → ℕ → Text → ℕ → ScopedBan → ℕ → Handler M → Result (Handler M) (Handler M)
  unfolding reserve_for release_for
  fit_drift faults user label now sb n h =
      if n == sb.prefix_count
      then ok h
      else (let told = noted faults user label sb.id (codes "prefix_drift") now h in
          let released = release_for sb.global h.quota sb.prefix_count in
          elim (reserve_for sb.global released n) [
            | err e ↦ err (record told {
              quota = left released (reserve_for sb.global released sb.prefix_count);
            })
            | ok t ↦ ok (
                with_bans
                  (if faults.store.update_fails
                    then scoped_bans told
                    else update_scoped sb.id (λ b. record b { prefix_count = n; resolved_at = now })
                        (scoped_bans told))
                  (record told { quota = t }))
          ])

  -- What follows an approval that the table has taken.
  unfoldable pub after_scoped_approval :
      WebFaults → Option Db → ℕ → Text → ℕ → ScopedBan → Handler M → Handler M × Answer
  unfolding fit_drift send_scoped
  after_scoped_approval faults pdb user label now sb h = elim pdb [
    | none ↦ (h, unavailable)
    | some db ↦ elim (PrefixDb.resolve db (record { country = sb.country; asn = sb.asn })) [
      | err e ↦ (h, server_error)
      | ok cidrs ↦ elim (fit_drift faults user label now sb (length cidrs) h) [
        | err h2 ↦ (h2, conflict)
        | ok h2 ↦ send_scoped faults now sb (texts cidrs) h2
      ]
    ]
  ]

  unfoldable pub scoped_ban_approve :
      WebFaults → Option Db → ℕ → Text → ℕ → ℕ → Handler M → Handler M × Answer
  unfolding after_scoped_approval approved_scoped
  scoped_ban_approve faults pdb user label id now h = elim (find_scoped id (scoped_bans h)) [
    | none ↦ (h, done)
    | some sb ↦
        if not (is_pending sb.state)
        then (h, conflict)
        else if faults.transaction_fails
        then (h, server_error)
        else after_scoped_approval faults pdb user label now (approved_scoped user now sb) (
            noted faults user label id (codes "approved") now
              (with_bans (update_scoped id (approved_scoped user now) (scoped_bans h)) h))
  ]

  unfoldable pub scoped_ban_reject : WebFaults → ℕ → Text → ℕ → ℕ → Handler M → Handler M × Answer
  unfolding release_for
  scoped_ban_reject faults user label id now h = elim (find_scoped id (scoped_bans h)) [
    | none ↦ (h, done)
    | some sb ↦
        if not (is_pending sb.state)
        then (h, conflict)
        else if faults.store.update_fails
        then (h, server_error)
        else (
          noted faults user label id (codes "rejected") now (
              with_bans (update_scoped id (λ b. record b { state = rejected }) (scoped_bans h))
                (record h { quota = release_for sb.global h.quota sb.prefix_count })),
          done,
        )
  ]
