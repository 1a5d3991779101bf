-- ===== src/Model.antt =====
-- internal/model/model.go: the rows that the dispatcher and the executor share, and the payload of a
-- dispatch (BanPayload in internal/dispatch/service.go and cmd/xdpban/exec_loop.go).
-- A time is a count of nanoseconds. The JSON text of a payload is not modelled: a row holds the
-- payload itself, or `none` for a text that does not parse.
use xdp_invisible_armor.Common.{ℕ, Bool, List, Option, Text, ℤ}
use xdp_invisible_armor.Banmap.{Error}
use xdp_invisible_armor.Netip.{Prefix}

pub record BanPayload : Type 0 where
  pub target : Text
  pub ttl_secs : ℤ
  pub node_id : Text
  pub req_id : ℕ
  pub ban_id : Text
  pub backend : Text
  pub reason : Text
  pub scoped_target : Text
  pub prefixes : List Text

-- Why the executor could not carry out a payload. A source prefix comes with the number of those
-- written before it.
pub data Failure : Type 0 where
  bad_payload : Failure
  bad_prefix : Error → Failure
  global_write : Prefix → Failure
  bad_target_host target_not_v4 target_write : Text → Failure
  source_prefix : ℕ → Error → Failure
  source_write : ℕ → Prefix → Failure

pub data DispatchState : Type 0 where
  pending acked failed : DispatchState

pub record Dispatch : Type 0 where
  pub id : ℕ
  pub ban_request_id : ℕ
  pub ban_id : Text
  pub node_id : Text
  pub payload : Option BanPayload
  pub state : DispatchState
  pub last_error : Option Failure
  pub attempts : ℕ
  pub acked_at : Option ℕ
  pub created_at : ℕ

-- The states of a request and of a scoped ban; no handler gives `expired`, which the report counts.
pub data BanState : Type 0 where
  requested active rejected expired safety_blocked revoked : BanState

pub record BanRequest : Type 0 where
  pub id : ℕ
  pub action_type : Text
  pub target : Text
  pub source : Text
  pub approval_mode : Text
  pub state : BanState
  pub requested_by : Option ℕ
  pub approved_by : Option ℕ
  pub approved_by_policy : Text
  pub reason : Text
  pub ttl_seconds : Option ℤ
  pub effective_at : Option ℕ
  pub expires_at : Option ℕ
  pub cleared_at : Option ℕ
  pub created_at : ℕ

pub record ScopedBan : Type 0 where
  pub id : ℕ
  pub target_ip : Text
  pub global : Bool
  pub country : Text
  pub asn : ℕ
  pub prefix_count : ℕ
  pub address_count : ℕ
  pub reason : Text
  pub state : BanState
  pub ttl_seconds : Option ℤ
  pub requested_by : Option ℕ
  pub approved_by : Option ℕ
  pub override_ack : Bool
  pub resolved_at : ℕ
  pub effective_at : Option ℕ
  pub expires_at : Option ℕ
  pub revoked_at : Option ℕ
  pub created_at : ℕ

-- The detail text of an entry is left out.
pub record AuditLog : Type 0 where
  pub user_id : Option ℕ
  pub actor_label : Text
  pub entity_type : Text
  pub entity_id : Text
  pub event : Text
  pub occurred_at : ℕ

pub record BanLadder : Type 0 where
  pub target : Text
  pub level : ℕ
  pub offense_count : ℕ
  pub last_banned_at : Option ℕ
  pub observe_until : Option ℕ
  pub expires_at : Option ℕ
  pub permanent : Bool

pub record ApprovalToken : Type 0 where
  pub ban_request_id : ℕ
  pub approver_id : ℕ
  pub token : Text
  pub expires_at : ℕ
  pub used_at : Option ℕ

-- The times and the LDAP name of a user are left out.
pub record User : Type 0 where
  pub id : ℕ
  pub username : Text
  pub email : Text
  pub password_hash : Text
  pub role : Text
  pub active : Bool
  pub auth_source : Text
