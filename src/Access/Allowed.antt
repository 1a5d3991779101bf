-- ===== src/Access/Allowed.antt =====
-- Who may ask for which action, and which actions change something.
use xdp_invisible_armor.Common.{
  ◌≡◌, refl, arith, Bool, true, false, any, List, [], ◌∷◌, Option, none, some, Text, text_eq, codes,
}
use xdp_invisible_armor.Policy.{Capability, roles}
use xdp_invisible_armor.Policy.Roles.{holders}
use xdp_invisible_armor.Access

-- Who may ask for what; the front page is open to any user.
abbrev pub may : Access.Action → Option (List Text)
may Access.dashboard = none
may Access.ban_new = some (codes "admin" ∷ codes "operator" ∷ [])
may Access.ban_create = some (codes "admin" ∷ codes "operator" ∷ [])
may Access.scoped_ban_new = some (codes "admin" ∷ codes "operator" ∷ [])
may Access.scoped_ban_create = some (codes "admin" ∷ codes "operator" ∷ [])
may Access.scoped_asn_search = some (codes "admin" ∷ codes "operator" ∷ [])
may Access.scoped_preview = some (codes "admin" ∷ codes "operator" ∷ [])
may Access.ban_approve = some (codes "admin" ∷ codes "approver" ∷ [])
may Access.ban_reject = some (codes "admin" ∷ codes "approver" ∷ [])
may Access.lookup_rollback = some (codes "admin" ∷ codes "approver" ∷ [])
may Access.scoped_ban_approve = some (codes "admin" ∷ codes "approver" ∷ [])
may Access.scoped_ban_reject = some (codes "admin" ∷ codes "approver" ∷ [])
may Access.scoped_ban_revoke = some (codes "admin" ∷ codes "approver" ∷ [])
may Access.users_list = some (codes "admin" ∷ [])
may Access.user_create = some (codes "admin" ∷ [])
may Access.user_change_password = some (codes "admin" ∷ [])
may Access.user_change_role = some (codes "admin" ∷ [])
may Access.user_toggle_active = some (codes "admin" ∷ [])
may Access.user_delete = some (codes "admin" ∷ [])
may Access.prefix_db_page = some (codes "admin" ∷ [])
may Access.prefix_db_sync = some (codes "admin" ∷ [])
may Access.prefix_db_status = some (codes "admin" ∷ [])
may Access.prefix_db_upload = some (codes "admin" ∷ [])
may Access.prefix_db_save_override = some (codes "admin" ∷ [])
may _ = some roles

abbrev pub held_by : Option Capability → Option (List Text)
held_by none = none
held_by (some cap) = some (holders cap)

pub demands-may : (a : Access.Action) → held_by (Access.route_of a).demands ≡ may a
unfolding Access.route_of
demands-may Access.dashboard = refl
demands-may _ = refl

-- A role is among those who may.
abbrev pub IsAmong : Text → Option (List Text) → Type 0
IsAmong role none = Unit
IsAmong role (some rs) = any (λ r. text_eq role r) rs ≡ true

-- The actions that change the tables, the kernel's maps, the files or the sessions.
abbrev pub changes : Access.Action → Bool
changes Access.ban_create = true
changes Access.ban_approve = true
changes Access.ban_reject = true
changes Access.lookup_rollback = true
changes Access.scoped_ban_create = true
changes Access.scoped_ban_approve = true
changes Access.scoped_ban_reject = true
changes Access.scoped_ban_revoke = true
changes Access.user_create = true
changes Access.user_change_password = true
changes Access.user_change_role = true
changes Access.user_toggle_active = true
changes Access.user_delete = true
changes Access.prefix_db_sync = true
changes Access.prefix_db_upload = true
changes Access.prefix_db_save_override = true
changes _ = false

pub posts-changes : (a : Access.Action) → changes a ≡ true → (Access.route_of a).posts ≡ true
unfolding Access.route_of
posts-changes Access.dashboard h = absurd (ground arith)
posts-changes a h = search

pub no_viewer : (a : Access.Action) → changes a ≡ true → IsAmong (codes "viewer") (may a) → ⊥
unfolding text_eq
no_viewer Access.dashboard h k = absurd (ground arith)
no_viewer a h k = absurd (ground arith)
