-- ===== src/Users.antt =====
-- internal/web/users.go: creating, changing and deleting users. bcrypt is the argument `hash`, which
-- may fail. Each handler is one step. The fields are what strings.TrimSpace leaves of them.
pub mod Admins
mod Runs
use xdp_invisible_armor.Common.{
  ℕ, suc, Bool, true, false, not, ◌&&◌, ◌||◌, ◌==◌, ltb, if◌then◌else◌, List, [], ◌∷◌, ◌++◌, length,
  map, keep, any, find, Option, none, some, Text, text_eq, codes, format, is_empty,
}
use xdp_invisible_armor.Policy.{roles}
use xdp_invisible_armor.Session.{Store, delete_by_user}
use xdp_invisible_armor.Model.{User, AuditLog}
use xdp_invisible_armor.Requests.{
  Reply, done, conflict, forbidden, server_error, bad_request, missing,
}

pub record Directory : Type 0 where
  pub users : List User
  pub sessions : Store
  pub audit : List AuditLog

pub record UserFaults : Type 0 where
  pub count_fails : Bool
  pub write_fails : Bool
  pub audit_fails : Bool

-- The user who acts, and when.
pub record Actor : Type 0 where
  pub id : ℕ
  pub label : Text
  pub now : ℕ

abbrev pub min_password_len : ℕ
min_password_len = 8

unfoldable pub valid_role : Text → Bool
valid_role role = any (λ r. text_eq r role) roles

abbrev pub find_user : ℕ → List User → Option User
find_user id us = find (λ (u : User). u.id == id) us

abbrev pub update_user : ℕ → (User → User) → List User → List User
update_user id f us = map (λ (u : User). if u.id == id then f u else u) us

abbrev pub is_admin : User → Bool
is_admin u = text_eq u.role (codes "admin") && u.active

-- `countActiveAdmins`; a count that fails is 0.
unfoldable pub count_active_admins : UserFaults → ℕ → List User → ℕ
count_active_admins faults exclude us =
    if faults.count_fails
    then 0
    else length (keep (λ (u : User). is_admin u && not (u.id == exclude)) us)

abbrev audited : UserFaults → Actor → ℕ → Text → Directory → Directory
audited faults actor id event d = if faults.audit_fails then d else record d {
  audit =
      d.audit
      ++ record {
        user_id = some actor.id;
        actor_label = actor.label;
        entity_type = codes "User";
        entity_id = format id;
        event = event;
        occurred_at = actor.now;
      }
        ∷ [];
}

-- A change of a user's row, after which the user has to log in again.
abbrev pub changed : ℕ → (User → User) → Directory → Directory
changed id f d = record d {
  users = update_user id f d.users;
  sessions = delete_by_user id d.sessions;
}

unfoldable pub user_change_role : UserFaults → Actor → ℕ → Text → Directory → Directory × Reply
unfolding valid_role count_active_admins
user_change_role faults actor id role d = elim (find_user id d.users) [
  | none ↦ (d, missing)
  | some t ↦
      if not (valid_role role)
      then (d, bad_request)
      else if text_eq role t.role
      then (d, done)
      else if text_eq t.role (codes "admin")
          && not (text_eq role (codes "admin"))
          && count_active_admins faults id d.users == 0
      then (d, conflict)
      else if faults.write_fails
      then (d, server_error)
      else (
        audited faults actor id (codes "role_changed")
            (changed id (λ u. record u { role = role }) d),
        done,
      )
]

unfoldable pub user_toggle_active : UserFaults → Actor → ℕ → Directory → Directory × Reply
unfolding count_active_admins
user_toggle_active faults actor id d = elim (find_user id d.users) [
  | none ↦ (d, missing)
  | some t ↦
      if id == actor.id
      then (d, forbidden)
      else if t.active
          && text_eq t.role (codes "admin")
          && count_active_admins faults id d.users == 0
      then (d, conflict)
      else if faults.write_fails
      then (d, server_error)
      else if t.active
      then (
        audited faults actor id (codes "disabled")
            (changed id (λ u. record u { active = false }) d),
        done,
      )
      else (
        audited faults actor id (codes "enabled")
            (record d { users = update_user id (λ u. record u { active = true }) d.users }),
        done,
      )
]

-- The audit entry comes before the deletion, and stays where that fails.
unfoldable pub user_delete : UserFaults → Actor → ℕ → Directory → Directory × Reply
unfolding count_active_admins
user_delete faults actor id d = elim (find_user id d.users) [
  | none ↦ (d, missing)
  | some t ↦
      if id == actor.id
      then (d, forbidden)
      else if text_eq t.role (codes "admin") && count_active_admins faults id d.users == 0
      then (d, conflict)
      else if faults.write_fails
      then (audited faults actor id (codes "deleted") d, server_error)
      else (
        record (audited faults actor id (codes "deleted") d) {
          users = keep (λ (u : User). not (u.id == id)) d.users;
          sessions = delete_by_user id d.sessions;
        },
        done,
      )
]

unfoldable pub user_change_password :
    (Text → Option Text) → UserFaults → Actor → ℕ → Text → Directory → Directory × Reply
user_change_password hash faults actor id password d = elim (find_user id d.users) [
  | none ↦ (d, missing)
  | some t ↦
      if ltb (length password) min_password_len then (d, bad_request) else elim (hash password) [
        | none ↦ (d, server_error)
        | some h ↦ if faults.write_fails then (d, server_error) else (
          audited faults actor id (codes "password_changed")
              (changed id (λ u. record u { password_hash = h }) d),
          done,
        )
      ]
]

abbrev pub fresh_user : List User → ℕ
fresh_user [] = 1
fresh_user (u ∷ us) = let n = fresh_user us in if ltb u.id n then n else suc u.id

unfoldable pub user_create :
    (Text → Option Text)
    → UserFaults
    → Actor
    → Text
    → Text
    → Text
    → Text
    → Directory
    → Directory × Reply
unfolding valid_role text_eq
user_create hash faults actor username email role password d =
    let id = fresh_user d.users in
    if is_empty username
    then (d, bad_request)
    else if not (valid_role role)
    then (d, bad_request)
    else if ltb (length password) min_password_len
    then (d, bad_request)
    else if not faults.count_fails && any (λ (u : User). text_eq u.username username) d.users
    then (d, conflict)
    else elim (hash password) [
      | none ↦ (d, server_error)
      | some h ↦ if faults.write_fails then (d, server_error) else (
        audited faults actor id (codes "created") (record d {
          users =
              d.users
              ++ record {
                id = id;
                username = username;
                email = email;
                password_hash = h;
                role = role;
                active = true;
                auth_source = codes "local";
              }
                ∷ [];
        }),
        done,
      )
    ]
