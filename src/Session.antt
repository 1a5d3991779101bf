-- ===== src/Session.antt =====
-- internal/web/session.go and internal/web/csrf.go: the sessions of logged-in users, and the check
-- of the form token. A time is a count of nanoseconds. The clock and the random token of `Put` are
-- arguments; a lock makes each operation one step.
pub mod Lifetime
pub mod Csrf
mod Runs
use xdp_invisible_armor.Common.{
  ℕ, ◌+◌, Bool, true, false, not, ◌&&◌, ◌||◌, ◌==◌, ltb, if◌then◌else◌, List, [], ◌∷◌, Option, none,
  some, Text, text_eq, is_empty, Map, lookup, insert, erase, retain, any,
}

pub record Entry : Type 0 where
  pub user_id : ℕ
  pub expires_at : ℕ
  pub csrf_token : Text

pub record Store : Type 0 where
  pub sessions : Map Entry
  pub ttl : ℕ

abbrev pub new_store : ℕ → Store
new_store ttl = record { sessions = []; ttl = ttl }

unfoldable pub put : Text → ℕ → Text → ℕ → Store → Store
put token user csrf now s = record s {
  sessions =
      insert token (record { user_id = user; expires_at = now + s.ttl; csrf_token = csrf })
        s.sessions;
}

-- `CSRFToken`
unfoldable pub csrf_token_of : Text → ℕ → Store → Option Text
csrf_token_of token now s = elim (lookup token s.sessions) [
  | none ↦ none
  | some e ↦ if ltb e.expires_at now then none else some e.csrf_token
]

unfoldable pub delete : Text → Store → Store
delete token s = record s { sessions = erase token s.sessions }

-- An expired session is deleted on the way.
unfoldable pub get : Text → ℕ → Store → Option ℕ × Store
unfolding delete
get token now s = elim (lookup token s.sessions) [
  | none ↦ (none, s)
  | some e ↦ if ltb e.expires_at now then (none, delete token s) else (some e.user_id, s)
]

unfoldable pub delete_by_user : ℕ → Store → Store
delete_by_user user s = record s { sessions = retain (λ e. not (e.user_id == user)) s.sessions }

-- The map that `OnlineUsers` returns, as a test.
unfoldable pub online_users : ℕ → Store → ℕ → Bool
online_users now s user =
    any (λ (e : Text × Entry). ltb now e.1.expires_at && e.1.user_id == user) s.sessions

-- One round of `reaper`.
unfoldable pub reap : ℕ → Store → Store
reap now s = record s { sessions = retain (λ e. not (ltb e.expires_at now)) s.sessions }

pub data Method : Type 0 where
  get_method head_method options_method other_method : Method

-- What `requireCSRF` reads of a request: the method, the cookie and the field of the form.
pub record Request : Type 0 where
  pub method : Method
  pub sid : Option Text
  pub csrf_field : Text

pub data Refusal : Type 0 where
  no_session bad_token : Refusal

abbrev changes_state : Method → Bool
changes_state other_method = true
changes_state _ = false

unfoldable pub require_csrf : Request → ℕ → Store → Option Refusal
unfolding csrf_token_of text_eq
require_csrf r now s = if not (changes_state r.method) then none else elim r.sid [
  | none ↦ some no_session
  | some token ↦ elim (csrf_token_of token now s) [
    | none ↦ some no_session
    | some want ↦
        if is_empty r.csrf_field || not (text_eq r.csrf_field want) then some bad_token else none
  ]
]
