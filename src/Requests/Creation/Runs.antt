-- ===== src/Requests/Creation/Runs.antt =====
-- A concrete new request and its mail.
use xdp_invisible_armor.Common.{ℕ, Text, true, false, List, [], ◌∷◌, codes}
use xdp_invisible_armor.Model.{BanRequest, User}
use xdp_invisible_armor.Requests.{Site, WebFaults}
use xdp_invisible_armor.Requests.Creation.{MailFaults, new_request}

abbrev site : Site
site = record {
  db = record { requests = []; scoped_bans = []; dispatches = []; audit = [] };
  ladders = [];
  tokens = [];
  protected_targets = [];
}

abbrev faults : WebFaults
faults = record {
  store = record {
    find_fails = λ id. false;
    create_fails = λ id. false;
    update_fails = false;
    audit_fails = false;
  };
  transaction_fails = false;
  ladder_fails = false;
}

abbrev mail : MailFaults
mail = record { users_fail = false; token_fails = false; mail_fails = false; request_fails = false }

abbrev person : ℕ → Text → User
person id role = record {
  id = id;
  username = codes "u";
  email = codes "u@x";
  password_hash = [];
  role = role;
  active = true;
  auth_source = codes "local";
}

abbrev users : List User
users = person 1 (codes "viewer") ∷ person 2 (codes "approver") ∷ []

abbrev request : BanRequest
request = new_request faults 1 (codes "198.51.100.4") [] 500 site
