-- ===== src/Policy.antt =====
-- internal/policy/permission.go: what each role may do, and which pages it sees.
pub mod Roles
mod Runs
use xdp_invisible_armor.Common.{
  ℕ, Bool, true, false, ◌||◌, if◌then◌else◌, List, [], ◌∷◌, Text, text_eq, codes, Option, none,
  some, keep,
}

pub data Capability : Type 0 where
  dashboard_view ban_request_create ban_request_view ban_request_approve : Capability
  ban_request_reject unban_execute allowlist_manage source_policy_manage : Capability
  audit_view user_manage system_config : Capability

same_capability : Capability → Capability → Bool
same_capability dashboard_view dashboard_view = true
same_capability ban_request_create ban_request_create = true
same_capability ban_request_view ban_request_view = true
same_capability ban_request_approve ban_request_approve = true
same_capability ban_request_reject ban_request_reject = true
same_capability unban_execute unban_execute = true
same_capability allowlist_manage allowlist_manage = true
same_capability source_policy_manage source_policy_manage = true
same_capability audit_view audit_view = true
same_capability user_manage user_manage = true
same_capability system_config system_config = true
same_capability _ _ = false

abbrev pub roles : List Text
roles = codes "admin" ∷ codes "approver" ∷ codes "operator" ∷ codes "viewer" ∷ []

-- `matrix[role]`
unfoldable pub matrix : Text → Option (List Capability)
matrix role =
    if text_eq role (codes "admin")
    then some (
        dashboard_view ∷ ban_request_create ∷ ban_request_view ∷ ban_request_approve
        ∷ ban_request_reject ∷ unban_execute ∷ allowlist_manage ∷ source_policy_manage ∷ audit_view
        ∷ user_manage ∷ system_config ∷ [])
    else if text_eq role (codes "approver")
    then some (
        dashboard_view ∷ ban_request_view ∷ ban_request_approve ∷ ban_request_reject ∷ unban_execute
        ∷ allowlist_manage ∷ audit_view ∷ [])
    else if text_eq role (codes "operator")
    then some (dashboard_view ∷ ban_request_create ∷ ban_request_view ∷ audit_view ∷ [])
    else if text_eq role (codes "viewer")
    then some (dashboard_view ∷ ban_request_view ∷ audit_view ∷ [])
    else none

listed : List Capability → Capability → Bool
unfolding same_capability
listed [] cap = false
listed (c ∷ cs) cap = same_capability c cap || listed cs cap

unfoldable pub allow : Text → Capability → Bool
unfolding listed matrix
allow role cap = elim (matrix role) [ none ↦ false | some caps ↦ listed caps cap ]

-- The label of a section is display only, and is left out.
pub record NavSection : Type 0 where
  pub key : Text
  pub cap : Capability

abbrev section : Text → Capability → NavSection
section key cap = record { key = key; cap = cap }

abbrev pub all_sections : List NavSection
all_sections =
    section (codes "dashboard") dashboard_view
    ∷ section (codes "bans") ban_request_view
    ∷ section (codes "lookup") ban_request_view
    ∷ section (codes "scoped") ban_request_view
    ∷ section (codes "prefixdb") system_config
    ∷ section (codes "audit") audit_view
    ∷ section (codes "report") audit_view
    ∷ section (codes "users") user_manage
    ∷ []

unfoldable pub nav_sections : Text → List NavSection
nav_sections role = keep (λ s. allow role s.cap) all_sections
