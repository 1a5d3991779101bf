-- ===== src/Access/Entitled.antt =====
-- Which requests reach a handler.
use xdp_invisible_armor.Common.{
  ℕ, ◌≤◌, ◌≡◌, ◌↔◌, ◌⊎◌, refl, sym, ap, ◌∙◌, arith, Bool, true, false, Option, none, some,
  Option-cases, Bool-cases, Text, lookup, inl, inr, ltb,
}
use mathlib.Core.Path.{subst}
use xdp_invisible_armor.Policy.{Capability, allow}
use xdp_invisible_armor.Policy.Roles.{allow-holders}
use xdp_invisible_armor.Session.{
  Entry, Store, get, Request, Method, get_method, other_method, head_method, options_method,
  require_csrf,
}
use xdp_invisible_armor.Session.Csrf.{HasToken, require_csrf_iff}
use xdp_invisible_armor.Model.{User}
use xdp_invisible_armor.Access
use xdp_invisible_armor.Access.Allowed.{may, held_by, demands-may, IsAmong}

none≢some : {A : Type 0} {a : A} → ◌≡◌ {A = Option A} none (some a) → ⊥
none≢some e = cc

true≢false : true ≡ false → ⊥
true≢false e = cc

-- The cookie names a session that has not run out, of an account that is active.
abbrev pub IsSigned : Bool → Request → ℕ → Access.Portal → User → Type 0
IsSigned db_fails r now p u =
    (token : Text) × (e : Entry) × (r.sid ≡ some token)
    × (lookup token p.sessions.sessions ≡ some e)
    × (now ≤ e.expires_at)
    × (Access.active_user db_fails e.user_id p.users ≡ some u)

pub signed-current :
    (db_fails : Bool) (r : Request) (now : ℕ) (p : Access.Portal) (u : User)
    → IsSigned db_fails r now p u
    → Access.current_user db_fails r now p ≡ (some u, p)
unfolding Access.current_user get
signed-current db_fails r now p u (token, e, f, g, k, v) =
    elim (Bool-cases (ltb e.expires_at now)) [
      | inl late ↦ absurd (ground arith)
      | inr live ↦ rw (Access.current_user, f, get, g, live, v) refl
    ]

-- The answer of the session store, with what it says of the session.
owner-IsSigned :
    (db_fails : Bool) (r : Request) (now : ℕ) (p : Access.Portal) (u : User) (token : Text)
    → r.sid ≡ some token
    → (Access.owner db_fails p (get token now p.sessions)).0 ≡ some u
    → IsSigned db_fails r now p u
unfolding get
owner-IsSigned db_fails r now p u token f h =
    elim (Option-cases (lookup token p.sessions.sessions)) [
      | inl n ↦ absurd (none≢some (sym (rw (get, n) refl) ∙ h))
      | inr (e, g) ↦ elim (Bool-cases (ltb e.expires_at now)) [
        | inl late ↦ absurd (none≢some (sym (rw (get, g, late) refl) ∙ h))
        | inr live ↦ (token, e, f, g, ground arith, sym (rw (get, g, live) refl) ∙ h)
      ]
    ]

current-IsSigned :
    (db_fails : Bool) (r : Request) (now : ℕ) (p : Access.Portal) (u : User)
    → (Access.current_user db_fails r now p).0 ≡ some u
    → IsSigned db_fails r now p u
unfolding Access.current_user
current-IsSigned db_fails r now p u h = elim (Option-cases r.sid) [
  | inl n ↦ absurd (none≢some (sym (rw (Access.current_user, n) refl) ∙ h))
  | inr (token, f) ↦
      owner-IsSigned db_fails r now p u token f (sym (rw (Access.current_user, f) refl) ∙ h)
]

-- A request that a handler is given: its method is the route's, it comes from the session of an
-- active account whose role may ask for it, and where the route may change state it repeats the
-- token of that session.
abbrev pub IsEntitled : Bool → Access.Action → Request → ℕ → Access.Portal → Type 0
IsEntitled db_fails a r now p =
    (Access.takes (Access.route_of a) r.method ≡ true)
    × (u : User) × IsSigned db_fails r now p u
    × IsAmong u.role (may a)
    × (r.method ≡ other_method → HasToken r now p.sessions)

abbrev Reaches : Access.Portal × Access.Outcome → Type 0
Reaches out = out.1 ≡ Access.handled

no_right≢handled : Access.no_right ≡ Access.handled → ⊥
no_right≢handled e = cc

to_login≢handled : Access.to_login ≡ Access.handled → ⊥
to_login≢handled e = cc

csrf_refused≢handled : Access.csrf_refused ≡ Access.handled → ⊥
csrf_refused≢handled e = cc

wrong_method≢handled : Access.wrong_method ≡ Access.handled → ⊥
wrong_method≢handled e = cc

module _ (db_fails : Bool) (r : Request) (now : ℕ) (p : Access.Portal) (u : User)
    (c : Access.current_user db_fails r now p ≡ (some u, p)) where
  cap_iff :
      (o : Option Capability)
      → Reaches (Access.require_cap db_fails o r now p) ↔ IsAmong u.role (held_by o)
  unfolding Access.require_cap
  cap_iff none = (λ h. tt, λ h. refl)
  cap_iff (some cap) = elim (Bool-cases (allow u.role cap)) [
    | inl y ↦ (λ h. sym (allow-holders u.role cap) ∙ y, λ h. rw (Access.require_cap, c, y) refl)
    | inr n ↦ (
      λ h. absurd (no_right≢handled (sym (rw (Access.require_cap, c, n) refl) ∙ h)),
      λ h. absurd (true≢false (sym h ∙ sym (allow-holders u.role cap) ∙ n)),
    )
  ]

  checked :
      (a : Access.Action)
      → require_csrf r now p.sessions ≡ none
      → Access.logged_in db_fails a r now (some u, p)
        ≡ Access.require_cap db_fails (Access.route_of a).demands r now p
  unfolding Access.logged_in
  checked a k = rw (Access.logged_in, k) refl

  signed_in :
      (a : Access.Action)
      → Access.takes (Access.route_of a) r.method ≡ true
      → require_csrf r now p.sessions ≡ none
      → Access.serve db_fails a r now p
        ≡ Access.require_cap db_fails (Access.route_of a).demands r now p
  unfolding Access.serve
  signed_in a t k = rw (Access.serve, t) (ap (Access.logged_in db_fails a r now) c ∙ checked a k)

csrf-get : (r : Request) (now : ℕ) (s : Store) → r.method ≡ get_method → require_csrf r now s ≡ none
unfolding require_csrf
csrf-get r now s m = rw (require_csrf, m) refl

takes-method :
    (route : Access.Route) (m : Method)
    → Access.takes route m ≡ true
    → (m ≡ get_method) ⊎ (m ≡ other_method)
takes-method route get_method h = inl refl
takes-method route other_method h = inr refl
takes-method route head_method h = absurd (ground arith)
takes-method route options_method h = absurd (ground arith)

pub get≢other : get_method ≡ other_method → ⊥
get≢other e = cc

csrf_iff :
    (a : Access.Action) (r : Request) (now : ℕ) (s : Store)
    → Access.takes (Access.route_of a) r.method ≡ true
    → (require_csrf r now s ≡ none) ↔ (r.method ≡ other_method → HasToken r now s)
csrf_iff a r now s t = elim (takes-method (Access.route_of a) r.method t) [
  | inl g ↦ (λ h o. absurd (get≢other (sym g ∙ o)), λ h. csrf-get r now s g)
  | inr o ↦ (λ h o2. (require_csrf_iff r now s o).0 h, λ h. (require_csrf_iff r now s o).1 (h o))
]

pub not_in :
    (db_fails : Bool) (a : Access.Action) (r : Request) (now : ℕ) (o : Option User × Access.Portal)
    → o.0 ≡ none
    → (Access.logged_in db_fails a r now o).1 ≡ Access.to_login
unfolding Access.logged_in
not_in db_fails a r now (none, p) h = refl
not_in db_fails a r now (some u, p) h = absurd (none≢some (sym h))

-- What `serve` answers to a request that does not reach the capability's check.
stopped :
    (db_fails : Bool) (a : Access.Action) (r : Request) (now : ℕ) (p : Access.Portal)
    → (Access.current_user db_fails r now p).0 ≡ none
    → Reaches (Access.serve db_fails a r now p)
    → ⊥
unfolding Access.serve
stopped db_fails a r now p n h = elim (Bool-cases (Access.takes (Access.route_of a) r.method)) [
  | inl t ↦ to_login≢handled (
      sym (not_in db_fails a r now (Access.current_user db_fails r now p) n)
      ∙ sym (rw (Access.serve, t) refl)
      ∙ h)
  | inr t ↦ wrong_method≢handled (sym (rw (Access.serve, t) refl) ∙ h)
]

taken :
    (db_fails : Bool) (a : Access.Action) (r : Request) (now : ℕ) (p : Access.Portal)
    → Reaches (Access.serve db_fails a r now p)
    → Access.takes (Access.route_of a) r.method ≡ true
unfolding Access.serve
taken db_fails a r now p h = elim (Bool-cases (Access.takes (Access.route_of a) r.method)) [
  | inl t ↦ t
  | inr t ↦ absurd (wrong_method≢handled (sym (rw (Access.serve, t) refl) ∙ h))
]

passed :
    (db_fails : Bool) (a : Access.Action) (r : Request) (now : ℕ) (p : Access.Portal) (u : User)
    → Access.current_user db_fails r now p ≡ (some u, p)
    → Access.takes (Access.route_of a) r.method ≡ true
    → Reaches (Access.serve db_fails a r now p)
    → require_csrf r now p.sessions ≡ none
unfolding Access.serve Access.logged_in
passed db_fails a r now p u c t h = elim (Option-cases (require_csrf r now p.sessions)) [
  | inl n ↦ n
  | inr (x, n) ↦ absurd (
      csrf_refused≢handled (
        sym (rw (Access.logged_in, n) refl)
        ∙ sym (ap (λ (o : Option User × Access.Portal). (Access.logged_in db_fails a r now o).1) c)
        ∙ sym (rw (Access.serve, t) refl)
        ∙ h))
]

-- A request is given to a handler behind the login exactly if its method is the route's, its cookie
-- names a session that has not run out of an active account, the role of that account is among
-- those that may ask for the action, and, for a form, the form repeats the session's token.
pub serve_iff :
    (db_fails : Bool) (a : Access.Action) (r : Request) (now : ℕ) (p : Access.Portal)
    → ((Access.serve db_fails a r now p).1 ≡ Access.handled) ↔ IsEntitled db_fails a r now p
serve_iff db_fails a r now p = (forth, back)
  where
    back : IsEntitled db_fails a r now p → Reaches (Access.serve db_fails a r now p)
    back (t, u, s, m, k) =
        let c = signed-current db_fails r now p u s in
        ap (λ out. out.1) (signed_in db_fails r now p u c a t ((csrf_iff a r now p.sessions t).1 k))
        ∙ (cap_iff db_fails r now p u c (Access.route_of a).demands).1
            (subst (IsAmong u.role) (sym (demands-may a)) m)

    forth : Reaches (Access.serve db_fails a r now p) → IsEntitled db_fails a r now p
    forth h = elim (Option-cases (Access.current_user db_fails r now p).0) [
      | inl n ↦ absurd (stopped db_fails a r now p n h)
      | inr (u, s) ↦
          let signed = current-IsSigned db_fails r now p u s in
          let c = signed-current db_fails r now p u signed in
          let t = taken db_fails a r now p h in
          let k = passed db_fails a r now p u c t h in
          (
            t,
            u,
            signed,
            subst (IsAmong u.role) (demands-may a) (
                (cap_iff db_fails r now p u c (Access.route_of a).demands).0
                  (sym (ap (λ out. out.1) (signed_in db_fails r now p u c a t k)) ∙ h)),
            (csrf_iff a r now p.sessions t).0 k,
          )
    ]
