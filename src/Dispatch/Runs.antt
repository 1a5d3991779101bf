-- ===== src/Dispatch/Runs.antt =====
-- The dispatcher on concrete bans.
use xdp_invisible_armor.Common.{
  ℕ, ◌≡◌, refl, true, false, List, [], ◌∷◌, none, some, Text, codes, pos, ok, err,
}
use xdp_invisible_armor.Netip.{v4}
use xdp_invisible_armor.Safety.{Guard, Veto, assert_safe}
use xdp_invisible_armor.Resolution.{Message}
use xdp_invisible_armor.Model.{Dispatch, BanRequest, ScopedBan, requested}
use xdp_invisible_armor.Dispatch.{Database, DbFaults, vetoed, create_dispatch}
use xdp_invisible_armor.Dispatch.Rows.{IsUnique, create_dispatch_lem}

abbrev guard : Guard
guard = record { protected = record { addr = v4 0xc0a80000; bits = 16 } ∷ [] }

abbrev no_faults : DbFaults
no_faults = record {
  find_fails = λ id. false;
  create_fails = λ id. false;
  update_fails = false;
  audit_fails = false;
}

abbrev empty : Database
empty = record { requests = []; scoped_bans = []; dispatches = []; audit = [] }

abbrev request : BanRequest
request = record {
  id = 7;
  action_type = codes "ban";
  target = codes "198.51.100.4";
  source = codes "manual";
  approval_mode = codes "manual_dual";
  state = requested;
  requested_by = some 1;
  approved_by = none;
  approved_by_policy = [];
  reason = [];
  ttl_seconds = some (pos 600);
  effective_at = none;
  expires_at = none;
  cleared_at = none;
  created_at = 50;
}

create_dispatch_lem_example :
    let r = create_dispatch guard no_faults 100 request empty in
    ((veto : Veto)
      → assert_safe guard (codes "198.51.100.4") ≡ some veto
      → (r.1 ≡ err (vetoed veto)) × (r.0.dispatches ≡ []))
    × ((x : Dispatch × Message)
        → r.1 ≡ ok x
        → (assert_safe guard (codes "198.51.100.4") ≡ none)
          × IsUnique r.0.dispatches
          × ((later : ℕ) → create_dispatch guard no_faults later request r.0 ≡ (r.0, ok x)))
create_dispatch_lem_example = create_dispatch_lem guard no_faults 100 request empty refl tt

abbrev scoped_ban : ScopedBan
scoped_ban = record {
  id = 3;
  target_ip = [];
  global = true;
  country = codes "XX";
  asn = 0;
  prefix_count = 1;
  address_count = 256;
  reason = [];
  state = requested;
  ttl_seconds = none;
  requested_by = some 1;
  approved_by = some 1;
  override_ack = false;
  resolved_at = 50;
  effective_at = none;
  expires_at = none;
  revoked_at = none;
  created_at = 50;
}

abbrev sources : List Text
sources = codes "203.0.113.0/24" ∷ []
