-- ===== src/Lookup/Runs.antt =====
-- A lookup over a small table.
use xdp_invisible_armor.Common.{◌≡◌, refl, false, [], ◌∷◌, ◌++◌, none, codes}
use xdp_invisible_armor.Model.{requested, ScopedBan}
use xdp_invisible_armor.Dispatch.{Database}
use xdp_invisible_armor.PrefixDb.Index.{Entry, Db, rebuild_index}
use xdp_invisible_armor.Lookup.{SearchFaults, scoped_label}
use xdp_invisible_armor.Report.Labels.{utf8}

abbrev block : Entry
block = record {
  start = 0x01000000;
  last = 0x010000ff;
  asn = 13335;
  country = codes "AU";
  as_name = [];
}

abbrev table : Db
table = rebuild_index (record {
  entries = block ∷ [];
  by_country = [];
  by_asn = [];
  source_path = codes "x.tsv";
  loaded_at = 1;
  override_count = 0;
})

abbrev waiting : ScopedBan
waiting = record {
  id = 2;
  target_ip = codes "198.51.100.4";
  global = false;
  country = codes "AU";
  asn = 0;
  prefix_count = 1;
  address_count = 256;
  reason = [];
  state = requested;
  ttl_seconds = none;
  requested_by = none;
  approved_by = none;
  override_ack = false;
  resolved_at = 15;
  effective_at = none;
  expires_at = none;
  revoked_at = none;
  created_at = 15;
}

abbrev site : Database
site = record { requests = []; scoped_bans = waiting ∷ []; dispatches = []; audit = [] }

abbrev no_faults : SearchFaults
no_faults = record {
  requests_fail = false;
  scoped_fail = false;
  users_fail = false;
  dispatch_fails = λ id. false;
}

label_run : scoped_label waiting ≡ codes "AU" ++ (utf8 (codes " → ") ++ codes "198.51.100.4")
unfolding scoped_label
label_run = refl
