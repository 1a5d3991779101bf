-- ===== src/Requests.antt =====
-- internal/web/services.go (the ladder and the guard) and internal/web/handlers.go (creating,
-- approving and rejecting a ban request, in the page and by the link in the mail).
-- Form fields are what strings.TrimSpace leaves of them. A lock makes each decision one step, so that
-- the second reading of the request in the transaction sees the first one's row.
pub mod Ladder
pub mod Creation
pub mod Decisions
pub mod Approval
mod Runs
use xdp_invisible_armor.Common.{
  ℕ, suc, ◌+◌, ◌*◌, Bool, true, false, not, ◌&&◌, ◌==◌, ltb, if◌then◌else◌, List, [], ◌∷◌, ◌++◌,
  map, find, Option, none, some, Text, text_eq, codes, format, is_empty, ℤ, pos, negsuc,
  is_positive, pos_part, Result, ok, err,
}
use xdp_invisible_armor.Escalation.{
  Penalty, new_penalty, rung, current_ttl, observing, permanent, register_ban, top,
}
use xdp_invisible_armor.Resolution.{Message}
use xdp_invisible_armor.Safety.{Guard, new, add, assert_safe}
use xdp_invisible_armor.Model.{
  BanState, requested, active, rejected, safety_blocked, revoked, BanRequest, Dispatch, BanLadder,
  ApprovalToken, AuditLog,
}
use xdp_invisible_armor.Dispatch.{Database, DbFaults, DispatchError, write_audit, create_dispatch}

-- What `First` says of a row: there is one, or there is none, or the database did not answer.
pub data Found (A : Type 0) : Type 0 where
  found : A → Found A
  not_found no_answer : Found A

-- A missing time is Go's zero time.
abbrev or_zero : Option ℕ → ℕ
or_zero none = 0
or_zero (some t) = t

-- The penalty of a target, from its row.
abbrev pub loaded : Text → Found BanLadder → Penalty
loaded target (found row) = record (new_penalty target) {
  level = row.level;
  offense_count = row.offense_count;
  observe_until = or_zero row.observe_until;
}
loaded target _ = new_penalty target

-- `nextTTL`: the duration that a new request is promised; `none` is a ban without end.
unfoldable pub next_ttl : Text → Found BanLadder → ℕ → Option ℕ
next_ttl target row now =
    let p = loaded target row in
    let ttl = if observing p now && ltb p.level top then rung (p.level + 1) else current_ttl p in
    if ttl == 0 then none else some ttl

abbrev escalates : Text → Found BanLadder → ℕ → Bool
escalates target (found row) now = observing (loaded target (found row)) now
escalates target _ now = false

-- The penalty and the duration that `recordLadder` registers.
unfoldable pub registered : Text → Found BanLadder → ℕ → Penalty × ℕ
registered target row now = register_ban (loaded target row) (escalates target row now) now

abbrev non_zero : ℕ → Option ℕ
non_zero t = if t == 0 then none else some t

abbrev pub ladder_row : Text → Penalty → ℕ → BanLadder
ladder_row target p now = record {
  target = target;
  level = p.level;
  offense_count = p.offense_count;
  last_banned_at = some now;
  observe_until = non_zero p.observe_until;
  expires_at = non_zero p.expires_at;
  permanent = permanent p;
}

abbrev pub find_ladder : Bool → Text → List BanLadder → Found BanLadder
find_ladder fails target ladders =
    if fails then no_answer else elim (find (λ (r : BanLadder). text_eq r.target target) ladders) [
      | none ↦ not_found
      | some r ↦ found r
    ]

-- `recordLadder`. Without an answer, the update has no primary key and gorm refuses it.
unfoldable pub record_ladder : Bool → Text → ℕ → List BanLadder → List BanLadder
unfolding registered
record_ladder fails target now ladders =
    let row = find_ladder fails target ladders in
    let after = ladder_row target (registered target row now).0 now in
    elim row [
      | no_answer ↦ ladders
      | not_found ↦ ladders ++ after ∷ []
      | found r ↦ map (λ (x : BanLadder). if text_eq x.target target then after else x) ladders
    ]

pub record Site : Type 0 where
  pub db : Database
  pub ladders : List BanLadder
  pub tokens : List ApprovalToken
  pub protected_targets : List Text

-- `guard()`, with the active protected targets.
unfoldable pub site_guard : Site → Guard
site_guard s = add (new []) s.protected_targets

pub record WebFaults : Type 0 where
  pub store : DbFaults
  pub transaction_fails : Bool
  pub ladder_fails : Bool

pub data Reply : Type 0 where
  done conflict forbidden server_error bad_request missing : Reply

abbrev pub find_request : ℕ → Database → Option BanRequest
find_request id db = find (λ (r : BanRequest). r.id == id) db.requests

abbrev pub update_request : ℕ → (BanRequest → BanRequest) → Database → Database
update_request id f db = record db {
  requests = map (λ (r : BanRequest). if r.id == id then f r else r) db.requests;
}

abbrev pub is_requested : BanState → Bool
is_requested requested = true
is_requested _ = false

abbrev until : ℕ → Option ℤ → Option ℕ
until now none = none
until now (some ttl) = if is_positive ttl then some (now + pos_part ttl * 1_000_000_000) else none

-- The columns that an approval sets.
unfoldable pub approved : ℕ → Text → ℕ → BanRequest → BanRequest
approved approver way now r = record r {
  state = active;
  approved_by = some approver;
  approved_by_policy = if is_empty way then r.approved_by_policy else way;
  effective_at = some now;
  expires_at = elim (until now r.ttl_seconds) [ none ↦ r.expires_at | some t ↦ some t ];
}

abbrev pub entry : ℕ → Text → ℕ → Text → ℕ → AuditLog
entry user label id event now = record {
  user_id = some user;
  actor_label = label;
  entity_type = codes "BanRequest";
  entity_id = format id;
  event = event;
  occurred_at = now;
}

-- What the answer of the dispatcher leads to: a refusal is shown, and a dispatch moves the ladder.
abbrev pub concluded :
    WebFaults
    → ℕ
    → BanRequest
    → Site
    → Database × Result DispatchError (Dispatch × Message)
    → Site × Reply
concluded faults now req s (db, err e) = (record s { db = db }, forbidden)
concluded faults now req s (db, ok d) = (
  record s { db = db; ladders = record_ladder faults.ladder_fails req.target now s.ladders },
  done,
)

-- What follows an approval that the table has taken: the audit entry, the dispatch, and the ladder.
unfoldable pub after_approval : WebFaults → ℕ → AuditLog → BanRequest → Site → Site × Reply
unfolding site_guard record_ladder
after_approval faults now log req s =
    concluded faults now req s
      (create_dispatch (site_guard s) faults.store now req (write_audit faults.store log s.db))

-- `banApprove`, for the user `user` under the label `label`.
unfoldable pub ban_approve : WebFaults → ℕ → Text → ℕ → ℕ → Site → Site × Reply
unfolding approved after_approval
ban_approve faults user label id now s = elim (find_request id s.db) [
  | none ↦ (s, done)
  | some req ↦
      if not (is_requested req.state)
      then (s, conflict)
      else if faults.transaction_fails
      then (s, server_error)
      else after_approval faults now (entry user label id (codes "approved") now)
          (approved user [] now req)
          (record s { db = update_request id (approved user [] now) s.db })
]

-- `banReject`
unfoldable pub ban_reject : WebFaults → ℕ → Text → ℕ → ℕ → Site → Site × Reply
ban_reject faults user label id now s = elim (find_request id s.db) [
  | none ↦ (s, done)
  | some req ↦
      if not (is_requested req.state)
      then (s, conflict)
      else if faults.store.update_fails
      then (s, server_error)
      else (
        record s {
          db =
              write_audit faults.store (entry user label id (codes "rejected") now)
                (update_request id (λ r. record r { state = rejected }) s.db);
        },
        done,
      )
]

-- A link that is not used and not over.
abbrev pub is_open : Text → ℕ → ApprovalToken → Bool
is_open token now t =
    text_eq t.token token && ltb now t.expires_at && elim t.used_at [ none ↦ true | some u ↦ false ]

abbrev pub use_token : Text → ℕ → List ApprovalToken → List ApprovalToken
use_token token now ts =
    map
      (λ (t : ApprovalToken). if text_eq t.token token then record t { used_at = some now } else t)
      ts

-- The transaction of `approveDo` and what follows it: the link is used up where it decides.
unfoldable pub decide_by_link : WebFaults → Text → Bool → ℕ → Site → Site × Reply
unfolding approved after_approval
decide_by_link faults token approves now s = elim (find (is_open token now) s.tokens) [
  | none ↦ (s, missing)
  | some t ↦ elim (find_request t.ban_request_id s.db) [
    | none ↦ (s, missing)
    | some req ↦
        if not (is_requested req.state)
        then (s, conflict)
        else if faults.transaction_fails
        then (s, missing)
        else if approves
        then after_approval faults now
            (entry t.approver_id (codes "approver:" ++ format t.approver_id) req.id
              (codes "approved_external") now)
            (approved t.approver_id (codes "email_link") now req)
            (record s {
              tokens = use_token token now s.tokens;
              db = update_request req.id (approved t.approver_id (codes "email_link") now) s.db;
            })
        else (
          record s {
            tokens = use_token token now s.tokens;
            db =
                write_audit faults.store
                  (entry t.approver_id (codes "approver:" ++ format t.approver_id) req.id
                    (codes "rejected_external") now)
                  (update_request req.id (λ r. record r { state = rejected }) s.db);
          },
          done,
        )
  ]
]

-- `approveDo`, for the field `action` of the form.
unfoldable pub approve_do : WebFaults → Text → Text → ℕ → Site → Site × Reply
unfolding decide_by_link text_eq
approve_do faults token action now s =
    if text_eq action (codes "approve")
    then decide_by_link faults token true now s
    else if text_eq action (codes "reject")
    then decide_by_link faults token false now s
    else (s, bad_request)
