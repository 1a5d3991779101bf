-- ===== src/Users/Runs.antt =====
-- A directory with one administrator.
use xdp_invisible_armor.Common.{ℕ, ◌≡◌, refl, true, false, [], ◌∷◌, some, Text, text_eq, codes}
use xdp_invisible_armor.Session.{new_store}
use xdp_invisible_armor.Model.{User}
use xdp_invisible_armor.Requests.{conflict}
use xdp_invisible_armor.Users.{
  Directory, UserFaults, Actor, valid_role, count_active_admins, user_create, user_change_role,
  user_toggle_active, user_delete, user_change_password,
}
use xdp_invisible_armor.Users.Admins.{IsGoverned, users-IsGoverned}

abbrev person : ℕ → Text → User
person id role = record {
  id = id;
  username = codes "u";
  email = codes "u@x";
  password_hash = [];
  role = role;
  active = true;
  auth_source = codes "local";
}

abbrev directory : Directory
directory = record {
  users = person 1 (codes "admin") ∷ person 2 (codes "viewer") ∷ [];
  sessions = new_store 600;
  audit = [];
}

abbrev no_faults : UserFaults
no_faults = record { count_fails = false; write_fails = false; audit_fails = false }

abbrev actor : Actor
actor = record { id = 1; label = codes "user:u"; now = 100 }

last_admin : (user_change_role no_faults actor 1 (codes "viewer") directory).1 ≡ conflict
unfolding user_change_role valid_role count_active_admins text_eq
last_admin = refl

governed : IsGoverned directory.users
unfolding text_eq
governed = refl

users-IsGoverned_example :
    IsGoverned
      (user_create
        (λ p. some p)
        no_faults
        actor
        (codes "w")
        []
        (codes "viewer")
        (codes "long enough")
        directory).0.users
    × IsGoverned (user_change_role no_faults actor 1 (codes "viewer") directory).0.users
    × IsGoverned (user_toggle_active no_faults actor 1 directory).0.users
    × IsGoverned (user_delete no_faults actor 1 directory).0.users
    × IsGoverned
        (user_change_password
          (λ p. some p)
          no_faults
          actor
          1
          (codes "long enough")
          directory).0.users
users-IsGoverned_example =
    users-IsGoverned (λ p. some p) no_faults actor 1 (codes "w") [] (codes "viewer")
      (codes "long enough") directory ((refl, tt), (tt, tt)) governed
