-- ===== src/Access/Runs.antt =====
-- A login, a form, and what becomes of them.
use xdp_invisible_armor.Common.{
  ◌+◌, ◌≤◌, ◌≡◌, ◌↔◌, refl, Bool, true, false, [], ◌∷◌, some, Text, text_eq, codes,
}
use xdp_invisible_armor.Session.{new_store, Request, get_method, other_method}
use xdp_invisible_armor.Policy.{allow}
use xdp_invisible_armor.Model.{User}
use xdp_invisible_armor.Access
use xdp_invisible_armor.Access.Entitled.{IsEntitled, serve_iff}
use xdp_invisible_armor.Access.Login.{Fits, do_login-session}

abbrev approver : User
approver = record {
  id = 7;
  username = codes "ann";
  email = [];
  password_hash = codes "h";
  role = codes "approver";
  active = true;
  auth_source = codes "local";
}

abbrev signed_off : Access.Portal
signed_off = record { users = approver ∷ []; sessions = new_store 600; audit = [] }

abbrev signed_on : Access.Portal
signed_on = record signed_off {
  sessions = record {
    ttl = 600;
    sessions = (codes "t", record { user_id = 7; expires_at = 700; csrf_token = codes "c" }) ∷ [];
  };
}

abbrev approving : Request
approving = record { method = other_method; sid = some (codes "t"); csrf_field = codes "c" }

creation_refused :
    (Access.serve false Access.ban_create approving 650 signed_on).1 ≡ Access.no_right
unfolding Access.serve allow
creation_refused = refl

serve_iff_example :
    ((Access.serve false Access.scoped_ban_approve approving 650 signed_on).1 ≡ Access.handled)
    ↔ IsEntitled false Access.scoped_ban_approve approving 650 signed_on
serve_iff_example = serve_iff false Access.scoped_ban_approve approving 650 signed_on

abbrev same_text : Text → Text → Bool
same_text hash password = text_eq hash password

abbrev no_faults : Access.LoginFaults
no_faults = record { query_fails = false; audit_fails = true }

abbrev looking : Request
looking = record { method = get_method; sid = some (codes "t"); csrf_field = [] }

logged_in :
    Access.do_login same_text no_faults
      (codes "ann")
      (codes "h")
      (codes "t")
      (codes "c")
      100
      signed_off
    ≡ (signed_on, Access.to_dashboard (codes "t"))
unfolding Access.do_login
logged_in = refl

do_login-session_example :
    ((u : User) × Fits same_text no_faults
        (codes "ann")
        (codes "h")
        (codes "t")
        (codes "c")
        100
        signed_off
        u)
    × (((Access.serve false Access.dashboard looking 650 signed_on).1 ≡ Access.handled)
        ↔ (650 ≤ 100 + 600))
    × ((Access.serve false Access.dashboard looking 650
          (Access.logout (some (codes "t")) signed_on)).1
        ≡ Access.to_login)
do_login-session_example =
    do_login-session same_text no_faults (codes "ann") (codes "h") (codes "t") (codes "c") 100
      signed_off signed_on looking 650 (tt, tt) logged_in refl refl
