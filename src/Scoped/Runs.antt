-- ===== src/Scoped/Runs.antt =====
-- Scoped bans on concrete data.
use xdp_invisible_armor.Common.{
  ◌≡◌, refl, true, false, List, [], ◌∷◌, All, none, some, Text, codes, pos, ok, err, text_eq,
  trim_prefix, parse_uint, format, le_bytes, as4,
}
use xdp_invisible_armor.Netip.{Prefix, v4, prefix_from, parse_cidr, v4_text, parse_prefix}
use xdp_invisible_armor.Banmap.{parse_ipv4_prefix, encode_global_key}
use xdp_invisible_armor.PrefixDb.{Db, Selector}
use xdp_invisible_armor.Quota.{Tracker}
use xdp_invisible_armor.Model.{BanState, active, revoked, ScopedBan, Dispatch, acked}
use xdp_invisible_armor.Executor.{BanMaps, revoke_global}
use xdp_invisible_armor.Executor.Runs.{small, small-IsMapWriter}
use xdp_invisible_armor.Requests.{WebFaults}
use xdp_invisible_armor.Scoped.{Handler, find_scoped, scoped_bans, release_for}
use xdp_invisible_armor.Scoped.Forms.{
  SelectorForm, bad_asn, not_a_host, parse_host_target, parse_selector,
}
use xdp_invisible_armor.Scoped.Creation.{Form}
use xdp_invisible_armor.Scoped.Revocation.{
  scoped_ban_revoke, revoke_active, take_back, revoke_each, scoped_global_dispatch_prefixes,
}
use xdp_invisible_armor.Scoped.Revoked.{kernel, IsGone, scoped_ban_revoke-IsGone}
use xdp_invisible_armor.Scoped.Operations.{Operation, creates, approves, restarts}

whole_host : parse_host_target (codes " 198.51.100.4/32 ") ≡ ok (codes "198.51.100.4")
unfolding parse_host_target parse_cidr parse_uint v4_text format
whole_host = refl

not_whole : parse_host_target (codes "198.51.100.0/24") ≡ err not_a_host
unfolding parse_host_target parse_cidr parse_uint
not_whole = refl

abbrev by_asn : Text → SelectorForm
by_asn asn = record { country = codes " cn "; query_country = []; asn = []; query_asn = asn }

selected :
    parse_selector (by_asn (codes "AS4134")) ≡ ok (record { country = codes "CN"; asn = 4134 })
unfolding parse_selector parse_uint trim_prefix
selected = refl

too_wide : parse_selector (by_asn (codes "4294967296")) ≡ err bad_asn
unfolding parse_selector parse_uint trim_prefix
too_wide = refl

abbrev no_faults : WebFaults
no_faults = record {
  store = record {
    find_fails = λ id. false;
    create_fails = λ id. false;
    update_fails = false;
    audit_fails = false;
  };
  transaction_fails = false;
  ladder_fails = false;
}

abbrev db : Db
db = record {
  entries =
      record { start = 0x01000000; last = 0x010000ff; asn = 0; country = codes "AU"; as_name = [] }
      ∷ [];
  by_country = (codes "AU", 0 ∷ []) ∷ [];
  by_asn = [];
  source_path = codes "x.tsv";
  loaded_at = 1;
  override_count = 0;
}

abbrev australia : Selector
australia = record { country = codes "AU"; asn = 0 }

abbrev block : List Prefix
block = prefix_from (v4 0x01000000) 24 ∷ []

abbrev everyone : Form
everyone = record {
  target_ip = [];
  selector = record { country = codes "au"; query_country = []; asn = []; query_asn = [] };
  reason = codes "abuse";
  override_ack = false;
}

abbrev ban : Text → BanState → ScopedBan
ban target state = record {
  id = 3;
  target_ip = target;
  global = elim target [ [] ↦ true | c ∷ cs ↦ false ];
  country = codes "AU";
  asn = 0;
  prefix_count = 1;
  address_count = 256;
  reason = [];
  state = state;
  ttl_seconds = none;
  requested_by = some 1;
  approved_by = none;
  override_ack = false;
  resolved_at = 50;
  effective_at = none;
  expires_at = none;
  revoked_at = none;
  created_at = 50;
}

abbrev dispatched : Dispatch
dispatched = record {
  id = 1;
  ban_request_id = 3;
  ban_id = codes "scoped-global-3-1.0.0.0/24";
  node_id = codes "local";
  payload = some (record {
    target = codes "1.0.0.0/24";
    ttl_secs = pos 0;
    node_id = codes "local";
    req_id = 3;
    ban_id = codes "scoped-global-3-1.0.0.0/24";
    backend = codes "xdp";
    reason = [];
    scoped_target = [];
    prefixes = [];
  });
  state = acked;
  last_error = none;
  attempts = 0;
  acked_at = some 60;
  created_at = 55;
}

abbrev maps : BanMaps (List (Text × Text))
maps = record {
  global_bans = (24 ∷ 0 ∷ 0 ∷ 0 ∷ 1 ∷ 0 ∷ 0 ∷ 0 ∷ [], codes "v") ∷ [];
  target_hosts = [];
  src_bans = [];
  boot_time = 0;
  next_target_id = 1;
  target_ids = [];
}

abbrev handler : List ScopedBan → Tracker → Handler (BanMaps (List (Text × Text)))
handler bans quota = record {
  site = record {
    db = record { requests = []; scoped_bans = bans; dispatches = dispatched ∷ []; audit = [] };
    ladders = [];
    tokens = [];
    protected_targets = codes "198.51.100.4" ∷ [];
  };
  quota = quota;
  carried = maps;
}

abbrev held : Tracker
held = record { prefixes = 1; rules = 1; targets = 0; global_prefixes = 0; global_rules = 0 }

abbrev held_global : Tracker
held_global = record { prefixes = 0; rules = 0; targets = 0; global_prefixes = 1; global_rules = 1 }

scoped_ban_revoke-IsGone_example :
    let b = ban [] active in
    let h = handler (b ∷ []) held_global in
    let r = scoped_ban_revoke (kernel small) no_faults 1 (codes "user:a") 3 100 h in
    (ps : List Text) × (scoped_global_dispatch_prefixes no_faults.store b h.site.db ≡ some ps)
    × All (IsGone small r.0.carried) ps
    × (r.0.quota ≡ release_for true held_global 1)
    × (false ≡ false
        → find_scoped 3 (scoped_bans r.0)
          ≡ some (record b { state = revoked; revoked_at = some 100 }))
unfolding scoped_ban_revoke revoke_active take_back revoke_each scoped_global_dispatch_prefixes
    parse_ipv4_prefix encode_global_key text_eq format revoke_global parse_prefix parse_uint
    le_bytes as4
scoped_ban_revoke-IsGone_example =
    let b = ban [] active in
    scoped_ban_revoke-IsGone small small-IsMapWriter no_faults 1 (codes "user:a") 3 100
      (handler (b ∷ []) held_global) b refl refl refl refl

abbrev day : List Operation
day =
    creates no_faults false (some db) 1 (codes "user:a") everyone 100
    ∷ approves no_faults (some db) 2 (codes "user:b") 1 200
    ∷ restarts
    ∷ []
