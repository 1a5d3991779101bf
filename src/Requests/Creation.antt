-- ===== src/Requests/Creation.antt =====
-- internal/web/handlers.go, banCreate, and internal/approval/service.go: a new request, and the
-- mail with the link that approves it. The random token is an argument. Rows of tokens are never
-- deleted, so that a new one's primary key is its place.
pub mod Created
mod Runs
use xdp_invisible_armor.Common.{
  ℕ, suc, ◌+◌, ◌*◌, Bool, true, false, not, ◌&&◌, ◌||◌, ltb, if◌then◌else◌, List, [], ◌∷◌, ◌++◌,
  length, keep, take, Option, none, some, Text, text_eq, codes, format, is_empty, ℤ, pos,
}
use xdp_invisible_armor.Safety.{assert_safe}
use xdp_invisible_armor.Model.{requested, BanRequest, ApprovalToken, AuditLog, User}
use xdp_invisible_armor.Dispatch.{Database, write_audit}
use xdp_invisible_armor.Requests.{
  Site, WebFaults, Reply, done, bad_request, server_error, entry, find_ladder, next_ttl, site_guard,
}

-- `TokenTTL` in nanoseconds.
abbrev pub token_ttl : ℕ
token_ttl = 600 * 1_000_000_000

pub record MailFaults : Type 0 where
  pub users_fail : Bool
  pub token_fails : Bool
  pub mail_fails : Bool
  pub request_fails : Bool

pub data MailOutcome : Type 0 where
  not_needed lookup_failed no_approver token_failed mail_failed mail_sent : MailOutcome

-- `Where("role IN ? AND active = ?", {"admin", "approver"}, true)`
abbrev pub can_approve : User → Bool
can_approve u = (text_eq u.role (codes "admin") || text_eq u.role (codes "approver")) && u.active

abbrev mail_entry : Option ℕ → Text → Text → ℕ → Text → ℕ → AuditLog
mail_entry user actor entity id event now = record {
  user_id = user;
  actor_label = actor;
  entity_type = entity;
  entity_id = format id;
  event = event;
  occurred_at = now;
}

abbrev audited : WebFaults → AuditLog → Site → Site
audited faults e s = record s { db = write_audit faults.store e s.db }

abbrev pub new_token : BanRequest → User → Text → ℕ → ApprovalToken
new_token req approver token now = record {
  ban_request_id = req.id;
  approver_id = approver.id;
  token = token;
  expires_at = now + token_ttl;
  used_at = none;
}

-- The link goes to the first of the approvers.
unfoldable pub send_link :
    WebFaults
    → MailFaults
    → List User
    → Text
    → ℕ
    → BanRequest
    → Option ℕ
    → Site
    → Site × MailOutcome
send_link faults mail [] token now req requester s = (
  audited faults
      (mail_entry requester (codes "system") (codes "BanRequest") req.id
        (codes "approval_mail_skipped") now)
      s,
  no_approver,
)
send_link faults mail (approver ∷ rest) token now req requester s =
    let id = suc (length s.tokens) in
    let saved = record s { tokens = s.tokens ++ new_token req approver token now ∷ [] } in
    if mail.token_fails
    then (s, token_failed)
    else if mail.mail_fails
    then (
      audited faults
          (mail_entry requester (codes "mail") (codes "ApprovalToken") id (codes "mail_failed") now)
          saved,
      mail_failed,
    )
    else (
      audited faults
          (mail_entry requester (codes "mail") (codes "ApprovalToken") id (codes "mail_sent") now)
          saved,
      mail_sent,
    )

-- `GenTokensAndSend`
unfoldable pub gen_tokens_and_send :
    WebFaults
    → MailFaults
    → List User
    → Text
    → ℕ
    → BanRequest
    → Option ℕ
    → Site
    → Site × MailOutcome
unfolding send_link text_eq
gen_tokens_and_send faults mail users token now req requester s =
    if not (text_eq req.approval_mode (codes "manual_dual"))
    then (s, not_needed)
    else if mail.users_fail
    then (s, lookup_failed)
    else send_link faults mail (take 2 (keep can_approve users)) token now req requester s

abbrev pub fresh_request : List BanRequest → ℕ
fresh_request [] = 1
fresh_request (r ∷ rs) = let n = fresh_request rs in if ltb r.id n then n else suc r.id

abbrev as_ttl : Option ℕ → Option ℤ
as_ttl none = none
as_ttl (some ttl) = some (pos ttl)

abbrev pub new_request : WebFaults → ℕ → Text → Text → ℕ → Site → BanRequest
new_request faults user target reason now s = record {
  id = fresh_request s.db.requests;
  action_type = codes "ban";
  target = target;
  source = codes "manual";
  approval_mode = codes "manual_dual";
  state = requested;
  requested_by = some user;
  approved_by = none;
  approved_by_policy = [];
  reason = reason;
  ttl_seconds = as_ttl (next_ttl target (find_ladder faults.ladder_fails target s.ladders) now);
  effective_at = none;
  expires_at = none;
  cleared_at = none;
  created_at = now;
}

abbrev pub with_request : WebFaults → ℕ → Text → ℕ → BanRequest → Site → Site
with_request faults user label now req s =
    audited faults (entry user label req.id (codes "created") now)
      (record s { db = record (s.db) { requests = s.db.requests ++ req ∷ [] } })

-- `banCreate`: what becomes of the mail is not shown.
unfoldable pub ban_create :
    WebFaults → MailFaults → List User → ℕ → Text → Text → Text → Text → ℕ → Site → Site × Reply
unfolding gen_tokens_and_send
ban_create faults mail users user label target reason token now s =
    let req = new_request faults user target reason now s in
    if is_empty target then (s, bad_request) else elim (assert_safe (site_guard s) target) [
      | some veto ↦ (s, bad_request)
      | none ↦ if mail.request_fails then (s, server_error) else (
        (gen_tokens_and_send faults mail users token now req (some user)
            (with_request faults user label now req s)).0,
        done,
      )
    ]
