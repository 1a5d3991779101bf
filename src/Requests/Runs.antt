-- ===== src/Requests/Runs.antt =====
-- Decisions on concrete requests.
use xdp_invisible_armor.Common.{
  ℕ, ◌≡◌, ◌⊎◌, refl, Bool, true, false, [], ◌∷◌, none, some, codes, pos,
}
use xdp_invisible_armor.Safety.{Veto, assert_safe}
use xdp_invisible_armor.Model.{
  BanState, requested, active, safety_blocked, BanRequest, BanLadder, ApprovalToken,
}
use xdp_invisible_armor.Escalation.{observing, rung}
use xdp_invisible_armor.Requests.{
  found, next_ttl, registered, Site, WebFaults, done, forbidden, missing, site_guard, ban_approve,
  decide_by_link,
}
use xdp_invisible_armor.Requests.Ladder.{promised, next_ttl-registered}
use xdp_invisible_armor.Requests.Decisions.{state_of, decide_by_link-once}
use xdp_invisible_armor.Requests.Approval.{ban_approve_lem}

abbrev repeated : BanLadder
repeated = record {
  target = codes "198.51.100.4";
  level = 1;
  offense_count = 2;
  last_banned_at = some 100;
  observe_until = some 900;
  expires_at = some 700;
  permanent = false;
}

second_rung : next_ttl (codes "198.51.100.4") (found repeated) 800 ≡ some 86400
unfolding next_ttl observing rung
second_rung = refl

next_ttl-registered_example :
    next_ttl (codes "198.51.100.4") (found repeated) 800
    ≡ promised (registered (codes "198.51.100.4") (found repeated) 800).1
next_ttl-registered_example = next_ttl-registered (codes "198.51.100.4") (found repeated) 800

abbrev request : BanState → BanRequest
request state = record {
  id = 7;
  action_type = codes "ban";
  target = codes "198.51.100.4";
  source = codes "manual";
  approval_mode = codes "manual_dual";
  state = state;
  requested_by = some 1;
  approved_by = none;
  approved_by_policy = [];
  reason = [];
  ttl_seconds = some (pos 600);
  effective_at = none;
  expires_at = none;
  cleared_at = none;
  created_at = 50;
}

abbrev link : ApprovalToken
link = record {
  ban_request_id = 7;
  approver_id = 2;
  token = codes "t";
  expires_at = 1000;
  used_at = none;
}

abbrev site : BanState → Site
site state = record {
  db = record { requests = request state ∷ []; scoped_bans = []; dispatches = []; audit = [] };
  ladders = [];
  tokens = link ∷ [];
  protected_targets = codes "10.0.0.0/8" ∷ [];
}

abbrev no_faults : WebFaults
no_faults = record {
  store = record {
    find_fails = λ id. false;
    create_fails = λ id. false;
    update_fails = false;
    audit_fails = false;
  };
  transaction_fails = false;
  ladder_fails = false;
}

decide_by_link-once_example :
    let r = decide_by_link no_faults (codes "t") true 500 (site requested) in
    (r.0 ≡ site requested)
    ⊎ ((again : WebFaults) (yes : Bool) (later : ℕ)
        → decide_by_link again (codes "t") yes later r.0 ≡ (r.0, missing))
decide_by_link-once_example = decide_by_link-once no_faults (codes "t") true 500 (site requested)

ban_approve_lem_example :
    let r = ban_approve no_faults 1 (codes "user:a") 7 500 (site requested) in
    ((veto : Veto)
      → assert_safe (site_guard (site requested)) (codes "198.51.100.4") ≡ some veto
      → (r.1 ≡ forbidden)
        × (r.0.db.dispatches ≡ [])
        × (r.0.ladders ≡ [])
        × (false ≡ false → state_of 7 r.0 ≡ some safety_blocked))
    × (r.1 ≡ done
        → (assert_safe (site_guard (site requested)) (codes "198.51.100.4") ≡ none)
          × (state_of 7 r.0 ≡ some active))
ban_approve_lem_example =
    ban_approve_lem no_faults 1 (codes "user:a") 7 500 (site requested) (request requested) refl
      refl refl
