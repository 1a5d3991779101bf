-- ===== src/Dispatch.antt =====
-- internal/dispatch/service.go: turning an approved ban into rows that the executor polls.
-- What the database refuses is an argument. `json.Marshal` does not fail on a payload, and new rows
-- get the least primary key above all others.
pub mod Ids
pub mod Rows
pub mod Global
mod Runs
use xdp_invisible_armor.Common.{
  ℕ, suc, ◌+◌, Bool, true, false, ◌==◌, ltb, if◌then◌else◌, List, [], ◌∷◌, ◌++◌, find, Option, none,
  some, Text, text_eq, codes, format, ℤ, pos, Result, ok, err, map,
}
use xdp_invisible_armor.Netip.{Prefix, parse_prefix}
use xdp_invisible_armor.Safety.{Guard, Veto, assert_safe, assert_safe_all}
use xdp_invisible_armor.Resolution.{Resolution, resolve, Message, explain}
use xdp_invisible_armor.Model.{
  BanPayload, Failure, DispatchState, pending, acked, failed, Dispatch, BanState, safety_blocked,
  BanRequest, ScopedBan, AuditLog,
}

pub record Database : Type 0 where
  pub requests : List BanRequest
  pub scoped_bans : List ScopedBan
  pub dispatches : List Dispatch
  pub audit : List AuditLog

-- A lookup that fails finds nothing; lookups and insertions are told apart by the ban's id.
pub record DbFaults : Type 0 where
  pub find_fails : Text → Bool
  pub create_fails : Text → Bool
  pub update_fails : Bool
  pub audit_fails : Bool

pub data DispatchError : Type 0 where
  vetoed : Veto → DispatchError
  unreadable_prefix : Text → DispatchError
  create_failed : DispatchError

abbrev pub dash : ℕ
dash = b'-'

-- `fmt.Sprintf("<kind>-%d-%s", id, target)`
abbrev pub ban_id : Text → ℕ → Text → Text
ban_id kind id target = kind ++ (dash ∷ (format id ++ (dash ∷ target)))

abbrev pub plain_kind : Text
plain_kind = codes "ban"

abbrev pub scoped_kind : Text
scoped_kind = codes "scoped"

abbrev pub global_kind : Text
global_kind = codes "scoped-global"

abbrev pub fresh_id : List Dispatch → ℕ
fresh_id [] = 1
fresh_id (d ∷ ds) = let n = fresh_id ds in if ltb d.id n then n else suc d.id

-- `Where("ban_id = ?", id).First(&existing)`
abbrev pub first_with : DbFaults → Text → Database → Option Dispatch
first_with faults id db =
    if faults.find_fails id then none else find (λ d. text_eq d.ban_id id) db.dispatches

abbrev seconds : Option ℤ → ℤ
seconds none = pos 0
seconds (some ttl) = ttl

abbrev pub new_dispatch : Database → ℕ → ℕ → BanPayload → Dispatch
new_dispatch db now request p = record {
  id = fresh_id db.dispatches;
  ban_request_id = request;
  ban_id = p.ban_id;
  node_id = codes "local";
  payload = some p;
  state = pending;
  last_error = none;
  attempts = 0;
  acked_at = none;
  created_at = now;
}

abbrev pub create : Dispatch → Database → Database
create d db = record db { dispatches = db.dispatches ++ d ∷ [] }

abbrev audit_entry : Option ℕ → ℕ → Text → ℕ → AuditLog
audit_entry user id event now = record {
  user_id = user;
  actor_label = codes "dispatch";
  entity_type = codes "Dispatch";
  entity_id = format id;
  event = event;
  occurred_at = now;
}

abbrev pub write_audit : DbFaults → AuditLog → Database → Database
write_audit faults e db =
    if faults.audit_fails then db else record db { audit = db.audit ++ e ∷ [] }

-- `Model(req).Update("state", "safety_blocked")`
abbrev pub block_request : DbFaults → ℕ → Database → Database
block_request faults id db = if faults.update_fails then db else record db {
  requests =
      map (λ (r : BanRequest). if r.id == id then record r { state = safety_blocked } else r)
        db.requests;
}

abbrev pub block_scoped : DbFaults → ℕ → Database → Database
block_scoped faults id db = if faults.update_fails then db else record db {
  scoped_bans =
      map (λ (r : ScopedBan). if r.id == id then record r { state = safety_blocked } else r)
        db.scoped_bans;
}

abbrev pub request_payload : BanRequest → BanPayload
request_payload req = record {
  target = req.target;
  ttl_secs = seconds req.ttl_seconds;
  node_id = codes "local";
  req_id = req.id;
  ban_id = ban_id plain_kind req.id req.target;
  backend = codes "xdp";
  reason = req.reason;
  scoped_target = [];
  prefixes = [];
}

abbrev pub scoped_payload : ScopedBan → List Text → BanPayload
scoped_payload sb prefixes = record {
  target = [];
  ttl_secs = seconds sb.ttl_seconds;
  node_id = codes "local";
  req_id = sb.id;
  ban_id = ban_id scoped_kind sb.id sb.target_ip;
  backend = codes "xdp";
  reason = sb.reason;
  scoped_target = sb.target_ip;
  prefixes = prefixes;
}

abbrev pub global_payload : ScopedBan → Text → BanPayload
global_payload sb prefix = record {
  target = prefix;
  ttl_secs = seconds sb.ttl_seconds;
  node_id = codes "local";
  req_id = sb.id;
  ban_id = ban_id global_kind sb.id prefix;
  backend = codes "xdp";
  reason = sb.reason;
  scoped_target = [];
  prefixes = [];
}

-- The dispatch that is there under the payload's ban id, or else a new one, with its audit entry.
unfoldable pub find_or_create :
    DbFaults → ℕ → ℕ → Option ℕ → BanPayload → Database → Database × Result DispatchError Dispatch
find_or_create faults now request approver p db = elim (first_with faults p.ban_id db) [
  | some existing ↦ (db, ok existing)
  | none ↦
      let d = new_dispatch db now request p in
      if faults.create_fails p.ban_id then (db, err create_failed) else (
        write_audit faults (audit_entry approver d.id (codes "created") now) (create d db),
        ok d,
      )
]

-- What `Explain` is given.
abbrev pub manual_message : Text → Message
manual_message source = explain (codes "ban") (resolve (source ∷ []) false)

abbrev pub explained :
    Text
    → Database × Result DispatchError Dispatch
    → Database × Result DispatchError (Dispatch × Message)
explained source (db, ok d) = (db, ok (d, manual_message source))
explained source (db, err e) = (db, err e)

unfoldable pub create_dispatch :
    Guard
    → DbFaults
    → ℕ
    → BanRequest
    → Database
    → Database × Result DispatchError (Dispatch × Message)
unfolding find_or_create
create_dispatch guard faults now req db = elim (assert_safe guard req.target) [
  | some veto ↦ (block_request faults req.id db, err (vetoed veto))
  | none ↦
      explained req.source
        (find_or_create faults now req.id req.approved_by (request_payload req) db)
]

unfoldable pub create_scoped_dispatch :
    Guard
    → DbFaults
    → ℕ
    → ScopedBan
    → List Text
    → Database
    → Database × Result DispatchError (Dispatch × Message)
unfolding find_or_create
create_scoped_dispatch guard faults now sb prefixes db = elim (assert_safe guard sb.target_ip) [
  | some veto ↦ (block_scoped faults sb.id db, err (vetoed veto))
  | none ↦
      explained (codes "manual")
        (find_or_create faults now sb.id sb.approved_by (scoped_payload sb prefixes) db)
]

-- The prefixes of a global ban, read one after the other.
unfoldable pub parse_all : List Text → Result Text (List Prefix)
parse_all [] = ok []
parse_all (s ∷ ss) = elim (parse_prefix s) [
  | none ↦ err s
  | some p ↦ elim (parse_all ss) [ err e ↦ err e | ok ps ↦ ok (p ∷ ps) ]
]

abbrev pub with_first :
    Dispatch → Result DispatchError (List Dispatch) → Result DispatchError (List Dispatch)
with_first d (err e) = err e
with_first d (ok ds) = ok (d ∷ ds)

-- One dispatch per prefix; no audit entry of its own.
unfoldable pub create_each :
    DbFaults
    → ℕ
    → ScopedBan
    → List Text
    → Database
    → Database × Result DispatchError (List Dispatch)
create_each faults now sb [] db = (db, ok [])
create_each faults now sb (prefix ∷ rest) db =
    elim (first_with faults (ban_id global_kind sb.id prefix) db) [
      | some existing ↦
          let (db2, r) = create_each faults now sb rest db in (db2, with_first existing r)
      | none ↦
          let d = new_dispatch db now sb.id (global_payload sb prefix) in
          let (db2, r) = create_each faults now sb rest (create d db) in
          if faults.create_fails (ban_id global_kind sb.id prefix)
          then (db, err create_failed)
          else (db2, with_first d r)
    ]

unfoldable pub create_global_scoped_dispatch :
    Guard
    → DbFaults
    → ℕ
    → ScopedBan
    → List Text
    → Database
    → Database × Result DispatchError (List Dispatch × Message)
unfolding parse_all create_each
create_global_scoped_dispatch guard faults now sb prefixes db = elim (parse_all prefixes) [
  | err s ↦ (db, err (unreadable_prefix s))
  | ok resolved ↦ elim (assert_safe_all guard resolved) [
    | some veto ↦ (block_scoped faults sb.id db, err (vetoed veto))
    | none ↦
        let (db2, r) = create_each faults now sb prefixes db in
        elim r [
          | err e ↦ (db2, err e)
          | ok ds ↦ (
            write_audit faults (audit_entry sb.approved_by sb.id (codes "created_global") now) db2,
            ok (ds, manual_message (codes "manual")),
          )
        ]
  ]
]

-- `MarkAcked` and `MarkFailed`, where the database answers.
abbrev pub mark_acked : ℕ → Dispatch → Dispatch
mark_acked now d = record d { state = acked; acked_at = some now }

abbrev pub mark_failed : Failure → Dispatch → Dispatch
mark_failed e d = record d { state = failed; last_error = some e; attempts = d.attempts + 1 }
