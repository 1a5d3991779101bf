-- ===== src/Executor/Reconcile.antt =====
-- cmd/xdpban/reconcile.go: comparing the acked global bans with the kernel's map.
use xdp_invisible_armor.Common.{
  map, ◌++◌, codes, ℕ, ◌+◌, ◌-◌, ◌*◌, ◌%◌, ◌^◌, Bool, true, false, not, ◌&&◌, ltb, if◌then◌else◌,
  List, [], keep, any, none, some, Text, text_eq, is_empty, ok, err, is_positive, pos_part,
}
use xdp_invisible_armor.Netip.{value, v4_prefix_text}
use xdp_invisible_armor.Banmap.{parse_ipv4_prefix}
use xdp_invisible_armor.Model.{BanPayload, pending, acked, failed, Dispatch, AuditLog}
use xdp_invisible_armor.Executor.{MapWriter, BanMaps, list_global_bans}

-- `time.Second` in nanoseconds.
abbrev pub nanos : ℕ
nanos = 1_000_000_000

abbrev pub is_acked : Dispatch → Bool
is_acked d = elim d.state [ pending ↦ false | acked ↦ true | failed ↦ false ]

-- The time the ban took effect: when it was acked, or else when it was created.
abbrev pub applied_at : Dispatch → ℕ
applied_at d = elim d.acked_at [ none ↦ d.created_at | some t ↦ t ]

-- `now` is after `start` and a Go duration of `d` nanoseconds, which is negative from 2 ^ 63 on.
abbrev pub after : ℕ → ℕ → ℕ → Bool
after now start d = if ltb d (2 ^ 63) then ltb (start + d) now else ltb start (now + (2 ^ 64 - d))

-- A ban with a duration that is over is missing by right.
unfoldable pub is_over : ℕ → Dispatch → BanPayload → Bool
is_over now d p =
    is_positive p.ttl_secs && after now (applied_at d) (pos_part p.ttl_secs * nanos % 2 ^ 64)

-- Whether a dispatch that is acked has drifted.
unfoldable pub drifts : List Text → ℕ → Dispatch → Bool
unfolding is_over text_eq
drifts live now d = elim d.payload [
  | none ↦ false
  | some p ↦ if not (is_empty p.scoped_target) then false else elim (parse_ipv4_prefix p.target) [
    | err e ↦ false
    | ok prefix ↦
        if any (λ t. text_eq t (v4_prefix_text (value prefix.addr) prefix.bits)) live
        then false
        else not (is_over now d p)
  ]
]

-- The entry that `reconcile` writes for a drift.
abbrev pub drift_entry : ℕ → Dispatch → AuditLog
drift_entry now d = record {
  user_id = none;
  actor_label = codes "reconciler";
  entity_type = codes "Dispatch";
  entity_id = d.ban_id;
  event = codes "drift_detected";
  occurred_at = now;
}

-- The audit log with an entry for each drift, save those that the database refuses.
abbrev pub with_entries : (ℕ → Bool) → ℕ → List Dispatch → List AuditLog → List AuditLog
with_entries audit_fails now ds audit =
    audit ++ map (drift_entry now) (keep (λ (d : Dispatch). not (audit_fails d.id)) ds)

-- The dispatches that `reconcile` reports, and the audit log after it; a read that fails reports
-- nothing.
unfoldable pub reconcile :
    {C : Type 0}
    → MapWriter C
    → Bool
    → (ℕ → Bool)
    → ℕ
    → List Dispatch
    → List AuditLog
    → BanMaps C
    → List Dispatch × List AuditLog
unfolding drifts list_global_bans
reconcile w find_fails audit_fails now rows audit m =
    if find_fails then ([], audit) else elim (list_global_bans w m) [
      | err e ↦ ([], audit)
      | ok live ↦
          let ds = keep (drifts live now) (keep is_acked rows) in
          (ds, with_entries audit_fails now ds audit)
    ]
