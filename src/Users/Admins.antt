-- ===== src/Users/Admins.antt =====
-- The system keeps an administrator who can log in.
use xdp_invisible_armor.Common.{
  ℕ, ◌≡◌, ◌⊎◌, inl, inr, refl, sym, ap, ◌∙◌, arith, Bool, true, false, not, ◌&&◌, ◌||◌, ◌==◌,
  ==_iff, List, [], ◌∷◌, ◌++◌, length, keep, any, any-append, if◌then◌else◌, All, Option, some,
  some_inj, Option-cases, Bool-cases, Text, is_empty, ltb, text_eq, codes, format,
}
use mathlib.Core.Path.{subst}
use xdp_invisible_armor.Model.{User}
use xdp_invisible_armor.Requests.{Reply, done, bad_request, conflict, server_error}
use xdp_invisible_armor.Users.{
  Directory, UserFaults, valid_role, min_password_len, fresh_user, Actor, find_user, update_user,
  is_admin, count_active_admins, user_create, user_change_role, user_toggle_active, user_delete,
  user_change_password,
}

-- Some administrator is active.
abbrev pub IsGoverned : List User → Type 0
IsGoverned us = any is_admin us ≡ true

-- No two users share a primary key.
abbrev pub IsDirectory : List User → Type 0
IsDirectory [] = Unit
IsDirectory (u ∷ us) = All (λ (x : User). (x.id == u.id) ≡ false) us × IsDirectory us

-- An active administrator other than this user.
abbrev others : ℕ → List User → Bool
others id us = any (λ (u : User). is_admin u && not (u.id == id)) us

count-others :
    (faults : UserFaults) (id : ℕ) (us : List User)
    → (count_active_admins faults id us == 0) ≡ false
    → others id us ≡ true
unfolding count_active_admins
count-others faults id us h = elim (Bool-cases faults.count_fails) [
  | inl e ↦ absurd (ground (arith, e))
  | inr e ↦ go us (ground (arith, e))
]
  where
    go :
        (us : List User)
        → (length (keep (λ (u : User). is_admin u && not (u.id == id)) us) == 0) ≡ false
        → others id us ≡ true
    go [] k = absurd (ground arith)
    go (u ∷ us) k = elim (Bool-cases (is_admin u && not (u.id == id))) [
      | inl e ↦ rw e refl
      | inr e ↦ rw e (go us (sym (rw e refl) ∙ k))
    ]

others-update :
    (id : ℕ) (f : User → User) (us : List User)
    → others id us ≡ true
    → IsGoverned (update_user id f us)
others-update id f [] h = absurd (ground arith)
others-update id f (u ∷ us) h = elim (Bool-cases (u.id == id)) [
  | inl e ↦ ground (arith, e, others-update id f us)
  | inr e ↦ ground (arith, e, others-update id f us)
]

others-keep :
    (id : ℕ) (us : List User)
    → others id us ≡ true
    → IsGoverned (keep (λ (u : User). not (u.id == id)) us)
others-keep id [] h = absurd (ground arith)
others-keep id (u ∷ us) h = elim (Bool-cases (u.id == id)) [
  | inl e ↦ ground (arith, e, others-keep id us)
  | inr e ↦ ground (arith, e, others-keep id us)
]

spread :
    (id : ℕ) (us : List User)
    → All (λ (x : User). (x.id == id) ≡ false) us
    → IsGoverned us
    → others id us ≡ true
spread id [] h g = absurd (ground arith)
spread id (u ∷ us) h g = elim (Bool-cases (is_admin u)) [
  | inl e ↦ rw (e, h.0) refl
  | inr e ↦ rw e (spread id us h.1 (sym (rw e refl) ∙ g))
]

-- An active administrator is another user than the one in hand, or that one.
who :
    (id : ℕ) (us : List User) (t : User)
    → IsDirectory us
    → find_user id us ≡ some t
    → IsGoverned us
    → (others id us ≡ true) ⊎ (is_admin t ≡ true)
who id [] t h e g = absurd (ground arith)
who id (u ∷ us) t h e g = elim (Bool-cases (u.id == id)) [
  | inl q ↦ elim (Bool-cases (is_admin u)) [
    | inl a ↦ inr (ap is_admin (sym (same q)) ∙ a)
    | inr a ↦ inl (
        rw (q, a)
          (spread id us
            (subst (λ n. All (λ (x : User). (x.id == n) ≡ false) us) ((==_iff u.id id).0 q) h.0)
            (sym (rw a refl) ∙ g)))
  ]
  | inr q ↦ elim (Bool-cases (is_admin u)) [
    | inl a ↦ inl (rw (q, a) refl)
    | inr a ↦ elim (who id us t h.1 (sym (rw q refl) ∙ e) (sym (rw a refl) ∙ g)) [
      | inl o ↦ inl (rw (q, a) o)
      | inr o ↦ inr o
    ]
  ]
]
  where
    same : (u.id == id) ≡ true → u ≡ t
    same q = some_inj (sym (rw q refl) ∙ e)

-- The user in hand stays an active administrator.
stays :
    (id : ℕ) (f : User → User) (us : List User) (t : User)
    → find_user id us ≡ some t
    → is_admin (f t) ≡ true
    → IsGoverned (update_user id f us)
stays id f [] t e h = absurd (ground arith)
stays id f (u ∷ us) t e h = elim (Bool-cases (u.id == id)) [
  | inl q ↦ rw (q, ap (λ x. is_admin (f x)) (same q) ∙ h) refl
  | inr q ↦ rw q (behind (is_admin u) _ (stays id f us t (sym (rw q refl) ∙ e) h))
]
  where
    same : (u.id == id) ≡ true → u ≡ t
    same q = some_inj (sym (rw q refl) ∙ e)

    behind : (x y : Bool) → y ≡ true → (x || y) ≡ true
    behind x y h = ground arith

-- A change of one user keeps the system governed, if that user stays an active administrator or
-- another one is counted.
updated :
    (id : ℕ) (f : User → User) (us : List User) (t : User)
    → IsDirectory us
    → find_user id us ≡ some t
    → IsGoverned us
    → (is_admin t ≡ true → (is_admin (f t) ≡ true) ⊎ (others id us ≡ true))
    → IsGoverned (update_user id f us)
updated id f us t h e g k = elim (who id us t h e g) [
  | inl o ↦ others-update id f us o
  | inr a ↦ elim (k a) [ inl b ↦ stays id f us t e b | inr o ↦ others-update id f us o ]
]

user_change_role-IsGoverned :
    (faults : UserFaults) (actor : Actor) (id : ℕ) (role : Text) (d : Directory)
    → IsDirectory d.users
    → IsGoverned d.users
    → IsGoverned (user_change_role faults actor id role d).0.users
unfolding user_change_role
user_change_role-IsGoverned faults actor id role d h g =
    elim (Option-cases (find_user id d.users)) [
      | inl n ↦ rw (user_change_role, n) g
      | inr (t, e) ↦ ground (
        arith,
        e,
        updated id (λ u. record u { role = role }) d.users t h e g,
        count-others faults id d.users,
        g,
      )
    ]

user_toggle_active-IsGoverned :
    (faults : UserFaults) (actor : Actor) (id : ℕ) (d : Directory)
    → IsDirectory d.users
    → IsGoverned d.users
    → IsGoverned (user_toggle_active faults actor id d).0.users
unfolding user_toggle_active
user_toggle_active-IsGoverned faults actor id d h g = elim (Option-cases (find_user id d.users)) [
  | inl n ↦ rw (user_toggle_active, n) g
  | inr (t, e) ↦ ground (
    arith,
    e,
    updated id (λ u. record u { active = true }) d.users t h e g,
    updated id (λ u. record u { active = false }) d.users t h e g,
    count-others faults id d.users,
    g,
  )
]

user_delete-IsGoverned :
    (faults : UserFaults) (actor : Actor) (id : ℕ) (d : Directory)
    → IsDirectory d.users
    → IsGoverned d.users
    → IsGoverned (user_delete faults actor id d).0.users
unfolding user_delete
user_delete-IsGoverned faults actor id d h g = elim (Option-cases (find_user id d.users)) [
  | inl n ↦ rw (user_delete, n) g
  | inr (t, e) ↦
      ground (
        arith,
        e,
        who id d.users t h e g,
        others-keep id d.users,
        count-others faults id d.users,
        g,
      )
]

user_change_password-IsGoverned :
    (hash : Text → Option Text) (faults : UserFaults) (actor : Actor) (id : ℕ) (password : Text)
    (d : Directory)
    → IsDirectory d.users
    → IsGoverned d.users
    → IsGoverned (user_change_password hash faults actor id password d).0.users
unfolding user_change_password
user_change_password-IsGoverned hash faults actor id password d h g =
    elim (Option-cases (find_user id d.users)) [
      | inl n ↦ rw (user_change_password, n) g
      | inr (t, e) ↦ elim (Option-cases (hash password)) [
        | inl n ↦ ground (arith, e, n, g)
        | inr (x, f) ↦
            ground
              (arith, e, f, updated id (λ u. record u { password_hash = x }) d.users t h e g, g)
      ]
    ]

grown : (us vs : List User) → IsGoverned us → IsGoverned (us ++ vs)
grown us vs g = any-append is_admin us vs ∙ ap (λ b. b || any is_admin vs) g

refused :
    (p q r c : Bool) (d : Directory) (rest : Directory × Reply)
    → IsGoverned d.users
    → IsGoverned rest.0.users
    → IsGoverned
        (if p
          then (d, bad_request)
          else if q
          then (d, bad_request)
          else if r
          then (d, bad_request)
          else if c
          then (d, conflict)
          else rest).0.users
refused true q r c d rest g k = g
refused false true r c d rest g k = g
refused false false true c d rest g k = g
refused false false false true d rest g k = g
refused false false false false d rest g k = k

written :
    (w a : Bool) (d new noted : Directory)
    → IsGoverned d.users
    → IsGoverned new.users
    → IsGoverned noted.users
    → IsGoverned
        (if◌then◌else◌ {A = Directory × Reply} w
          (d, server_error)
          (if a then new else noted, done)).0.users
written true a d new noted g k l = g
written false true d new noted g k l = k
written false false d new noted g k l = l

abbrev created : Text → Text → Text → Text → List User → User
created username email role h us = record {
  id = fresh_user us;
  username = username;
  email = email;
  password_hash = h;
  role = role;
  active = true;
  auth_source = codes "local";
}

abbrev entered : User → Directory → Directory
entered u d = record d { users = d.users ++ u ∷ [] }

user_create-IsGoverned :
    (hash : Text → Option Text) (faults : UserFaults) (actor : Actor)
    (username email role password : Text) (d : Directory)
    → IsGoverned d.users
    → IsGoverned (user_create hash faults actor username email role password d).0.users
unfolding user_create
user_create-IsGoverned hash faults actor username email role password d g =
    let bad_role = not (valid_role role) in
    let short = ltb (length password) min_password_len in
    let taken = not faults.count_fails && any (λ (u : User). text_eq u.username username) d.users in
    elim (Option-cases (hash password)) [
      | inl n ↦
          rw (user_create, n)
            (refused (is_empty username) bad_role short taken d (d, server_error) g g)
      | inr (h, e) ↦
          let u = created username email role h d.users in
          let new = entered u d in
          let noted = record new {
            audit =
                d.audit
                ++ record {
                  user_id = some actor.id;
                  actor_label = actor.label;
                  entity_type = codes "User";
                  entity_id = format u.id;
                  event = codes "created";
                  occurred_at = actor.now;
                }
                  ∷ [];
          } in
          rw (user_create, e)
            (refused (is_empty username) bad_role short taken d
              (if faults.write_fails
                then (d, server_error)
                else (if faults.audit_fails then new else noted, done))
              g
              (written faults.write_fails faults.audit_fails d new noted g
                (grown d.users (u ∷ []) g) (grown d.users (u ∷ []) g)))
    ]

-- If there is an active administrator and primary keys are distinct, there still is an active
-- administrator after any creation of a user, any change of a role, any switching of a user on or off, any deletion of a user,
-- and any change of a password.
pub users-IsGoverned :
    (hash : Text → Option Text) (faults : UserFaults) (actor : Actor) (id : ℕ)
    (username email role password : Text) (d : Directory)
    → IsDirectory d.users
    → IsGoverned d.users
    → IsGoverned (user_create hash faults actor username email role password d).0.users
      × IsGoverned (user_change_role faults actor id role d).0.users
      × IsGoverned (user_toggle_active faults actor id d).0.users
      × IsGoverned (user_delete faults actor id d).0.users
      × IsGoverned (user_change_password hash faults actor id password d).0.users
users-IsGoverned hash faults actor id username email role password d h g = (
  user_create-IsGoverned hash faults actor username email role password d g,
  user_change_role-IsGoverned faults actor id role d h g,
  user_toggle_active-IsGoverned faults actor id d h g,
  user_delete-IsGoverned faults actor id d h g,
  user_change_password-IsGoverned hash faults actor id password d h g,
)
