-- ===== src/Policy/Roles.antt =====
-- The roles form a ladder of privileges, with the one gap that the operator fills.
use xdp_invisible_armor.Common.{
  ◌≡◌, inl, inr, refl, sym, true, false, List, [], ◌∷◌, Text, text_eq, text_eq→eq, codes, any, none,
  Bool-cases,
}
use mathlib.Core.Path.{subst}
use xdp_invisible_armor.Policy.{
  Capability, dashboard_view, ban_request_create, ban_request_view, ban_request_approve,
  ban_request_reject, unban_execute, allowlist_manage, source_policy_manage, audit_view,
  user_manage, system_config, allow, matrix, roles,
}

-- The roles that hold a capability.
abbrev pub holders : Capability → List Text
holders dashboard_view = roles
holders ban_request_view = roles
holders audit_view = roles
holders ban_request_create = codes "admin" ∷ codes "operator" ∷ []
holders ban_request_approve = codes "admin" ∷ codes "approver" ∷ []
holders ban_request_reject = codes "admin" ∷ codes "approver" ∷ []
holders unban_execute = codes "admin" ∷ codes "approver" ∷ []
holders allowlist_manage = codes "admin" ∷ codes "approver" ∷ []
holders source_policy_manage = codes "admin" ∷ []
holders user_manage = codes "admin" ∷ []
holders system_config = codes "admin" ∷ []

abbrev Agrees : Text → Type 0
Agrees role = (cap : Capability) → allow role cap ≡ any (λ r. text_eq role r) (holders cap)

admin-Agrees : Agrees (codes "admin")
unfolding allow text_eq
admin-Agrees dashboard_view = refl
admin-Agrees _ = refl

approver-Agrees : Agrees (codes "approver")
unfolding allow text_eq
approver-Agrees dashboard_view = refl
approver-Agrees _ = refl

operator-Agrees : Agrees (codes "operator")
unfolding allow text_eq
operator-Agrees dashboard_view = refl
operator-Agrees _ = refl

viewer-Agrees : Agrees (codes "viewer")
unfolding allow text_eq
viewer-Agrees dashboard_view = refl
viewer-Agrees _ = refl

no_row :
    (role : Text)
    → text_eq role (codes "admin") ≡ false
    → text_eq role (codes "approver") ≡ false
    → text_eq role (codes "operator") ≡ false
    → text_eq role (codes "viewer") ≡ false
    → matrix role ≡ none
unfolding matrix
no_row role a b c d = rw (a, b, c, d)

no_role :
    (role : Text) (cap : Capability)
    → text_eq role (codes "admin") ≡ false
    → text_eq role (codes "approver") ≡ false
    → text_eq role (codes "operator") ≡ false
    → text_eq role (codes "viewer") ≡ false
    → allow role cap ≡ any (λ r. text_eq role r) (holders cap)
unfolding allow
no_role role dashboard_view a b c d = rw (allow, no_row role a b c d, a, b, c, d)
no_role role ban_request_view a b c d = rw (allow, no_row role a b c d, a, b, c, d)
no_role role audit_view a b c d = rw (allow, no_row role a b c d, a, b, c, d)
no_role role ban_request_create a b c d = rw (allow, no_row role a b c d, a, c)
no_role role ban_request_approve a b c d = rw (allow, no_row role a b c d, a, b)
no_role role ban_request_reject a b c d = rw (allow, no_row role a b c d, a, b)
no_role role unban_execute a b c d = rw (allow, no_row role a b c d, a, b)
no_role role allowlist_manage a b c d = rw (allow, no_row role a b c d, a, b)
no_role role source_policy_manage a b c d = rw (allow, no_row role a b c d, a)
no_role role user_manage a b c d = rw (allow, no_row role a b c d, a)
no_role role system_config a b c d = rw (allow, no_row role a b c d, a)

named : (role known : Text) → text_eq role known ≡ true → Agrees known → Agrees role
named role known e = subst Agrees (sym (text_eq→eq role known e))

-- A role may do something exactly if it is one of the holders of that capability; a text that is no
-- role may do nothing.
pub allow-holders :
    (role : Text) (cap : Capability) → allow role cap ≡ any (λ r. text_eq role r) (holders cap)
allow-holders role cap = elim (Bool-cases (text_eq role (codes "admin"))) [
  | inl e ↦ named role _ e admin-Agrees cap
  | inr a ↦ elim (Bool-cases (text_eq role (codes "approver"))) [
    | inl e ↦ named role _ e approver-Agrees cap
    | inr b ↦ elim (Bool-cases (text_eq role (codes "operator"))) [
      | inl e ↦ named role _ e operator-Agrees cap
      | inr c ↦ elim (Bool-cases (text_eq role (codes "viewer"))) [
        | inl e ↦ named role _ e viewer-Agrees cap
        | inr d ↦ no_role role cap a b c d
      ]
    ]
  ]
]
