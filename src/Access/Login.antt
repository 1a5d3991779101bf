-- ===== src/Access/Login.antt =====
-- What a login opens, and how long it lasts.
use xdp_invisible_armor.Common.{
  ℕ, ◌+◌, ◌≤◌, ◌≡◌, ◌↔◌, refl, sym, ap, ◌∙◌, arith, Bool, true, false, ◌&&◌, ◌==◌, ==_iff, find,
  find-some, List, [], ◌∷◌, All, none, some, some_inj, Option-cases, Bool-cases, Text, text_eq,
  codes, lookup, lookup-insert, lookup-erase, inl, inr,
}
use mathlib.Core.Path.{subst}
use xdp_invisible_armor.Session.{Entry, put, get, delete, Request, get_method}
use xdp_invisible_armor.Model.{User}
use xdp_invisible_armor.Access
use xdp_invisible_armor.Access.Entitled.{serve_iff, not_in, get≢other}

-- The ids of the table of users are a key.
abbrev pub IsKeyed : List User → Type 0
IsKeyed [] = Unit
IsKeyed (u ∷ us) = All (λ (v : User). (u.id == v.id) ≡ false) us × IsKeyed us

All-found :
    (P : User → Type 0) (q : User → Bool) (us : List User) (u : User)
    → All P us
    → find q us ≡ some u
    → P u
All-found P q [] u h f = absurd (ground arith)
All-found P q (v ∷ us) u h f = elim (Bool-cases (q v)) [
  | inl y ↦ subst P (some_inj (sym (rw y refl) ∙ f)) h.0
  | inr n ↦ All-found P q us u h.1 (sym (rw n refl) ∙ f)
]

-- A user who is found in any way is found by his id.
find-id :
    (q : User → Bool) (us : List User) (u : User)
    → IsKeyed us
    → find q us ≡ some u
    → find (λ (v : User). v.id == u.id) us ≡ some u
find-id q [] u h f = absurd (ground arith)
find-id q (v ∷ us) u h f = elim (Bool-cases (q v)) [
  | inl y ↦
      subst (λ (w : User). find (λ (x : User). x.id == w.id) (v ∷ us) ≡ some w) {x = v} {y = u}
        (some_inj (sym (rw y refl) ∙ f)) (rw ((==_iff v.id v.id).1 refl) refl)
  | inr n ↦
      let g = sym (rw n refl) ∙ f in
      rw (All-found (λ (x : User). (v.id == x.id) ≡ false) q us u h.0 g) (find-id q us u h.1 g)
]

module _ (check_password : Text → Text → Bool) (faults : Access.LoginFaults)
    (name password token csrf : Text) (now : ℕ) (p : Access.Portal) where
  -- The account whose password fits.
  abbrev pub Fits : User → Type 0
  Fits u =
      (Access.account faults.query_fails name p.users ≡ some u)
      × (text_eq u.auth_source (codes "local") ≡ true)
      × (check_password u.password_hash password ≡ true)

  abbrev outcome : Access.Portal × Access.Welcome
  outcome = Access.do_login check_password faults name password token csrf now p

  unauthorized≢ :
      {q : Access.Portal}
      → ◌≡◌ {A = Access.Portal × Access.Welcome}
          (p, Access.unauthorized)
          (q, Access.to_dashboard token)
      → ⊥
  unauthorized≢ e = absurd (kinds (ap (λ x. x.1) e))
    where
      kinds : Access.unauthorized ≡ Access.to_dashboard token → ⊥
      kinds f = cc

  opens :
      (q : Access.Portal)
      → outcome ≡ (q, Access.to_dashboard token)
      → (u : User) × Fits u × (Access.opened faults token csrf u now p ≡ q)
  unfolding Access.do_login
  opens q h = elim (Option-cases (Access.account faults.query_fails name p.users)) [
    | inl n ↦ absurd (unauthorized≢ {q = q} (sym (rw (Access.do_login, n) refl) ∙ h))
    | inr (u, f) ↦ elim (Bool-cases (text_eq u.auth_source (codes "local"))) [
      | inr l ↦ absurd (unauthorized≢ {q = q} (sym (rw (Access.do_login, f, l) refl) ∙ h))
      | inl l ↦ elim (Bool-cases (check_password u.password_hash password)) [
        | inr k ↦ absurd (unauthorized≢ {q = q} (sym (rw (Access.do_login, f, l, k) refl) ∙ h))
        | inl k ↦ (
          u,
          (f, l, k),
          ap (λ (x : Access.Portal × Access.Welcome). x.0)
              {x = (Access.opened faults token csrf u now p, Access.to_dashboard token)}
              {y = (q, Access.to_dashboard token)} (sym (rw (Access.do_login, f, l, k) refl) ∙ h),
        )
      ]
    ]
  ]

  account-found :
      (u : User)
      → Access.account faults.query_fails name p.users ≡ some u
      → find (λ (v : User). text_eq v.username name && v.active) p.users ≡ some u
  account-found u h = elim (Bool-cases faults.query_fails) [
    | inl y ↦ absurd (ground (arith, y))
    | inr n ↦ sym (rw n refl) ∙ h
  ]

  account-active :
      (u : User)
      → IsKeyed p.users
      → Access.account faults.query_fails name p.users ≡ some u
      → Access.active_user false u.id p.users ≡ some u
  account-active u keyed h =
      let f = account-found u h in
      let g = find-some (λ (v : User). text_eq v.username name && v.active) p.users u f in
      let on = second (text_eq u.username name) u.active g in
      rw (find-id (λ (v : User). text_eq v.username name && v.active) p.users u keyed f, on) refl
    where
      second : (a b : Bool) → (a && b) ≡ true → b ≡ true
      second true b e = e
      second false b e = absurd (ground arith)

-- The session that a login opens.
abbrev entry : Text → User → ℕ → Access.Portal → Entry
entry csrf u now p = record { user_id = u.id; expires_at = now + p.sessions.ttl; csrf_token = csrf }

module _ (u : User) (faults : Access.LoginFaults) (token csrf : Text) (now : ℕ) (p : Access.Portal)
    (r : Request) (later : ℕ) (known : Access.active_user false u.id p.users ≡ some u)
    (cookie : r.sid ≡ some token) (m : r.method ≡ get_method) where
  abbrev inside : Access.Portal
  inside = Access.opened faults token csrf u now p

  takes_it : Access.takes (Access.route_of Access.dashboard) r.method ≡ true
  unfolding Access.route_of
  takes_it = rw m refl

  session-opened : lookup token inside.sessions.sessions ≡ some (entry csrf u now p)
  unfolding put
  session-opened = lookup-insert token (entry csrf u now p) p.sessions.sessions

  lives :
      ((Access.serve false Access.dashboard r later inside).1 ≡ Access.handled)
      ↔ (later ≤ now + p.sessions.ttl)
  lives = (forth, back)
    where
      forth :
          (Access.serve false Access.dashboard r later inside).1 ≡ Access.handled
          → later ≤ now + p.sessions.ttl
      forth h =
          let (t, v, (tok, e, c, f, k, a), may_ask, form) =
            (serve_iff false Access.dashboard r later inside).0 h in
          subst (λ (x : Entry). later ≤ x.expires_at) {x = e} {y = entry csrf u now p}
            (some_inj (
              sym f
              ∙ ap (λ o. lookup o inside.sessions.sessions) (some_inj (sym c ∙ cookie))
              ∙ session-opened))
            k

      back :
          later ≤ now + p.sessions.ttl
          → (Access.serve false Access.dashboard r later inside).1 ≡ Access.handled
      back k = (serve_iff false Access.dashboard r later inside).1 (
        takes_it,
        u,
        (token, entry csrf u now p, cookie, session-opened, k, known),
        tt,
        λ o. absurd (get≢other (sym m ∙ o)),
      )

  left-signed : (Access.current_user false r later (Access.logout (some token) inside)).0 ≡ none
  unfolding Access.logout Access.current_user get delete
  left-signed =
      rw (Access.current_user, cookie, get, lookup-erase token inside.sessions.sessions) refl

  leaves :
      (Access.serve false Access.dashboard r later (Access.logout (some token) inside)).1
      ≡ Access.to_login
  unfolding Access.serve
  leaves =
      let q = Access.logout (some token) inside in
      rw (Access.serve, takes_it)
        (not_in false Access.dashboard r later (Access.current_user false r later q) left-signed)

-- Where the ids of users are a key, a login that succeeds is that of an active local account whose
-- password fits. With its cookie, the front page is then served, while the database answers, exactly until the session's
-- time has passed, and after a logout the request is sent back to the login.
pub do_login-session :
    (check_password : Text → Text → Bool) (faults : Access.LoginFaults)
    (name password token csrf : Text) (now : ℕ) (p q : Access.Portal) (r : Request) (later : ℕ)
    → IsKeyed p.users
    → Access.do_login check_password faults name password token csrf now p
      ≡ (q, Access.to_dashboard token)
    → r.sid ≡ some token
    → r.method ≡ get_method
    → ((u : User) × Fits check_password faults name password token csrf now p u)
      × (((Access.serve false Access.dashboard r later q).1 ≡ Access.handled)
          ↔ (later ≤ now + p.sessions.ttl))
      × ((Access.serve false Access.dashboard r later (Access.logout (some token) q)).1
          ≡ Access.to_login)
do_login-session check_password faults name password token csrf now p q r later keyed h c m =
    let (u, fits, same) = opens check_password faults name password token csrf now p q h in
    let known =
      account-active check_password faults name password token csrf now p u keyed fits.0 in
    (
      (u, fits),
      subst
          (λ (x : Access.Portal).
            ((Access.serve false Access.dashboard r later x).1 ≡ Access.handled)
            ↔ (later ≤ now + p.sessions.ttl))
          same (lives u faults token csrf now p r later known c m),
      subst
          (λ (x : Access.Portal).
            (Access.serve false Access.dashboard r later (Access.logout (some token) x)).1
            ≡ Access.to_login)
          same (leaves u faults token csrf now p r later known c m),
    )
