-- ===== src/Access.antt =====
-- internal/web/handlers.go, Register and the checks before a handler: which requests reach it. The
-- router of gin, which finds the route of a path, is not modelled: a request comes with its route.
-- bcrypt's comparison is the argument `check_password`. A request is one step at one time.
pub mod Allowed
pub mod Entitled
pub mod Login
mod Runs
use xdp_invisible_armor.Common.{
  ℕ, Bool, true, false, not, ◌&&◌, ◌||◌, ◌==◌, if◌then◌else◌, List, [], ◌∷◌, ◌++◌, find, Option,
  none, some, Text, text_eq, codes, format,
}
use xdp_invisible_armor.Policy.{
  Capability, ban_request_create, ban_request_view, ban_request_approve, ban_request_reject,
  unban_execute, audit_view, user_manage, system_config, allow,
}
use xdp_invisible_armor.Session.{
  Store, put, get, delete, Request, Method, get_method, other_method, require_csrf,
}
use xdp_invisible_armor.Model.{User, AuditLog}

-- The handlers behind the login. The front page stands at "/" as well as at "/dashboard".
pub data Action : Type 0 where
  dashboard bans_list ban_new ban_create ban_approve ban_reject ban_detail : Action
  lookup_page lookup_search lookup_rollback : Action
  scoped_ban_list scoped_ban_new scoped_ban_create scoped_asn_search scoped_preview : Action
  scoped_ban_approve scoped_ban_reject scoped_ban_revoke : Action
  users_list user_create user_change_password user_change_role user_toggle_active user_delete :
      Action
  prefix_db_page prefix_db_sync prefix_db_status prefix_db_upload prefix_db_save_override : Action
  audit_log report_page report_export : Action

-- A line of the group behind the login: the method, and what `requireCap` demands, if it is there.
pub record Route : Type 0 where
  pub posts : Bool
  pub path : Text
  pub demands : Option Capability

abbrev behind_get : Text → Capability → Route
behind_get path cap = record { posts = false; path = path; demands = some cap }

abbrev behind_post : Text → Capability → Route
behind_post path cap = record { posts = true; path = path; demands = some cap }

unfoldable pub route_of : Action → Route
route_of dashboard = record { posts = false; path = codes "/dashboard"; demands = none }
route_of bans_list = behind_get (codes "/bans") ban_request_view
route_of ban_new = behind_get (codes "/bans/new") ban_request_create
route_of ban_create = behind_post (codes "/bans") ban_request_create
route_of ban_approve = behind_post (codes "/bans/:id/approve") ban_request_approve
route_of ban_reject = behind_post (codes "/bans/:id/reject") ban_request_reject
route_of ban_detail = behind_get (codes "/bans/:id") ban_request_view
route_of lookup_page = behind_get (codes "/lookup") ban_request_view
route_of lookup_search = behind_post (codes "/lookup") ban_request_view
route_of lookup_rollback = behind_post (codes "/lookup/:kind/:id/rollback") unban_execute
route_of scoped_ban_list = behind_get (codes "/scoped") ban_request_view
route_of scoped_ban_new = behind_get (codes "/scoped/new") ban_request_create
route_of scoped_ban_create = behind_post (codes "/scoped") ban_request_create
route_of scoped_asn_search = behind_get (codes "/scoped/asn-search") ban_request_create
route_of scoped_preview = behind_post (codes "/scoped/preview") ban_request_create
route_of scoped_ban_approve = behind_post (codes "/scoped/:id/approve") ban_request_approve
route_of scoped_ban_reject = behind_post (codes "/scoped/:id/reject") ban_request_reject
route_of scoped_ban_revoke = behind_post (codes "/scoped/:id/revoke") unban_execute
route_of users_list = behind_get (codes "/users") user_manage
route_of user_create = behind_post (codes "/users") user_manage
route_of user_change_password = behind_post (codes "/users/:id/password") user_manage
route_of user_change_role = behind_post (codes "/users/:id/role") user_manage
route_of user_toggle_active = behind_post (codes "/users/:id/toggle") user_manage
route_of user_delete = behind_post (codes "/users/:id/delete") user_manage
route_of prefix_db_page = behind_get (codes "/prefixdb") system_config
route_of prefix_db_sync = behind_post (codes "/prefixdb/sync") system_config
route_of prefix_db_status = behind_get (codes "/prefixdb/status") system_config
route_of prefix_db_upload = behind_post (codes "/prefixdb/upload") system_config
route_of prefix_db_save_override = behind_post (codes "/prefixdb/overrides") system_config
route_of audit_log = behind_get (codes "/audit") audit_view
route_of report_page = behind_get (codes "/report") audit_view
route_of report_export = behind_get (codes "/report/export") audit_view

-- What the checks read and change.
pub record Portal : Type 0 where
  pub users : List User
  pub sessions : Store
  pub audit : List AuditLog

abbrev pub with_sessions : Portal → Store → Portal
with_sessions p s = record p { sessions = s }

-- The user of an active account, if the database answers.
abbrev pub active_user : Bool → ℕ → List User → Option User
active_user db_fails id us = if db_fails then none else elim (find (λ (u : User). u.id == id) us) [
  | none ↦ none
  | some u ↦ if not u.active then none else some u
]

abbrev pub owner : Bool → Portal → Option ℕ × Store → Option User × Portal
owner db_fails p (none, s) = (none, with_sessions p s)
owner db_fails p (some id, s) = (active_user db_fails id p.users, with_sessions p s)

unfoldable pub current_user : Bool → Request → ℕ → Portal → Option User × Portal
unfolding get
current_user db_fails r now p = elim r.sid [
  | none ↦ (none, p)
  | some token ↦ owner db_fails p (get token now p.sessions)
]

pub data Outcome : Type 0 where
  to_login csrf_refused no_right wrong_method : Outcome
  handled : Outcome

-- The method that the router matches to the route's.
abbrev pub takes : Route → Method → Bool
takes route get_method = not route.posts
takes route other_method = route.posts
takes route _ = false

-- `requireCap`
unfoldable pub require_cap : Bool → Option Capability → Request → ℕ → Portal → Portal × Outcome
unfolding current_user
require_cap db_fails none r now p = (p, handled)
require_cap db_fails (some cap) r now p =
    let (u, q) = current_user db_fails r now p in
    elim u [
      | none ↦ (q, no_right)
      | some u ↦ if not (allow u.role cap) then (q, no_right) else (q, handled)
    ]

-- What follows `requireLogin`.
unfoldable pub logged_in : Bool → Action → Request → ℕ → Option User × Portal → Portal × Outcome
unfolding require_cap require_csrf route_of
logged_in db_fails a r now (none, p) = (p, to_login)
logged_in db_fails a r now (some u, p) = elim (require_csrf r now p.sessions) [
  | some refusal ↦ (p, csrf_refused)
  | none ↦ require_cap db_fails (route_of a).demands r now p
]

-- The checks of the group in their order: login, form token, capability.
unfoldable pub serve : Bool → Action → Request → ℕ → Portal → Portal × Outcome
unfolding current_user logged_in route_of
serve db_fails a r now p =
    if not (takes (route_of a) r.method)
    then (p, wrong_method)
    else logged_in db_fails a r now (current_user db_fails r now p)

-- What `doLogin` and `logout` are given by the program and the database: the answer of bcrypt, and
-- which statements fail.
pub record LoginFaults : Type 0 where
  pub query_fails : Bool
  pub audit_fails : Bool

pub data Welcome : Type 0 where
  unauthorized : Welcome
  to_dashboard : Text → Welcome

-- `username = ? AND active = ?`
abbrev pub account : Bool → Text → List User → Option User
account query_fails name us =
    if query_fails then none else find (λ (u : User). text_eq u.username name && u.active) us

abbrev login_entry : User → ℕ → AuditLog
login_entry u now = record {
  user_id = some u.id;
  actor_label = codes "user:" ++ u.username;
  entity_type = codes "User";
  entity_id = format u.id;
  event = codes "login";
  occurred_at = now;
}

-- The session is opened whatever becomes of the audit entry. The column of the last login is not in
-- the model.
abbrev pub opened : LoginFaults → Text → Text → User → ℕ → Portal → Portal
opened faults token csrf u now p = record p {
  sessions = put token u.id csrf now p.sessions;
  audit = if faults.audit_fails then p.audit else p.audit ++ login_entry u now ∷ [];
}

unfoldable pub do_login :
    (Text → Text → Bool) → LoginFaults → Text → Text → Text → Text → ℕ → Portal → Portal × Welcome
unfolding put text_eq
do_login check_password faults name password token csrf now p =
    elim (account faults.query_fails name p.users) [
      | none ↦ (p, unauthorized)
      | some u ↦
          if not (text_eq u.auth_source (codes "local"))
            || not (check_password u.password_hash password)
          then (p, unauthorized)
          else (opened faults token csrf u now p, to_dashboard token)
    ]

-- `logout`: the cookie is cleared in any case.
unfoldable pub logout : Option Text → Portal → Portal
unfolding delete
logout none p = p
logout (some token) p = with_sessions p (delete token p.sessions)
