-- ===== src/PrefixDb/Sync/Runs.antt =====
-- A table that is uploaded, a rule that is saved, and the theorems over them.
use xdp_invisible_armor.Common.{
  ℕ, ◌≡◌, refl, false, ◌&&◌, if◌then◌else◌, any, Option, none, some, List, [], ◌∷◌, ◌++◌, Text,
  codes, ok, text_eq, has_prefix, trim_prefix, trim_space, to_upper, cut, parse_uint, join,
}
use xdp_invisible_armor.Netip.{Prefix, parse_addr, parse_ip_to4, parse_cidr}
use xdp_invisible_armor.PrefixDb.Load.{open_maybe_gzip, load, entry_of_fields}
use xdp_invisible_armor.PrefixDb.Normalize.{normalize, asn_line}
use xdp_invisible_armor.PrefixDb.Index.{Entry, Db, Selector}
use xdp_invisible_armor.PrefixDb.Cidrs.Tiling.{hits}
use xdp_invisible_armor.PrefixDb.Resolve.{resolve}
use xdp_invisible_armor.PrefixDb.Resolve.Candidates.{matches}
use xdp_invisible_armor.PrefixDb.Resolve.Exact.{in_entry}
use xdp_invisible_armor.PrefixDb.Overrides.{
  Override, absent, validate_overrides, read_rules, applied, apply_text, apply_overrides,
  parse_override_line,
}
use xdp_invisible_armor.PrefixDb.Lines.{scan_lines, small_buffer}
use xdp_invisible_armor.PrefixDb.Overrides.Checked.{error_of, refusal, validate-apply}
use xdp_invisible_armor.PrefixDb.Overrides.Effect.{Answers, table_says, apply_text-effect}
use xdp_invisible_armor.PrefixDb.Overrides.Rows.{IsSound, load-IsSound}
use xdp_invisible_armor.PrefixDb.Sync.{
  TableStore, Source, SyncStatus, body, sync_complete, import_upload, source_by_id,
}
use xdp_invisible_armor.PrefixDb.Sync.Tables.{Settled, sync_complete-Settled}
use xdp_invisible_armor.PrefixDb.Sync.Reached.{at_start, after, uploads, Reached-resolve}

abbrev no_gzip : Text → Option Text
no_gzip s = none

abbrev idle : SyncStatus
idle = record {
  in_progress = false;
  source_id = [];
  started_at = 0;
  finished_at = none;
  bytes_read = 0;
  entries = 0;
  error = none;
}

abbrev fresh : TableStore
fresh = record { active_file = none; rules = absent; global = none; status = idle }

abbrev apnic : Source
apnic = record { id = codes "apnic"; format = codes "rir_delegated" }

apnic_is_known : source_by_id (codes "apnic") ≡ some apnic
unfolding source_by_id text_eq
apnic_is_known = refl

abbrev delegated : Text
delegated = codes "apnic|au|ipv4|1.0.0.0|256|20110811|assigned"

abbrev tab_separated : Text
tab_separated =
    codes "1.0.0.0"
    ++ (b'\t' ∷ (codes "1.0.0.255" ++ (b'\t' ∷ (codes "13335" ++ (b'\t' ∷ codes "au")))))

sync_complete-Settled_example :
    ((sync_complete no_gzip false 9 apnic (body delegated) fresh).0.status.in_progress ≡ false)
    × Settled no_gzip 9 fresh (sync_complete no_gzip false 9 apnic (body delegated) fresh)
sync_complete-Settled_example = sync_complete-Settled no_gzip false 9 apnic (body delegated) fresh

abbrev uploaded : TableStore
uploaded = (import_upload no_gzip false 9 (codes "ip2asn_tsv") (body tab_separated) fresh).0

abbrev block : Entry
block = record {
  start = 0x01000000;
  last = 0x010000ff;
  asn = 13335;
  country = codes "AU";
  as_name = [];
}

abbrev table : Db
table = record {
  entries = block ∷ [];
  by_country = (codes "AU", 0 ∷ []) ∷ [];
  by_asn = (13335, 0 ∷ []) ∷ [];
  source_path = codes "prefixdb.tsv";
  loaded_at = 9;
  override_count = 0;
}

table_in_use : uploaded.global ≡ some table
unfolding import_upload text_eq open_maybe_gzip normalize asn_line has_prefix parse_addr trim_space
    load entry_of_fields parse_ip_to4 apply_overrides to_upper
table_in_use = refl

abbrev australia : Selector
australia = record { country = codes "AU"; asn = 0 }

Reached-resolve_example :
    (ps : List Prefix) × (resolve table australia ≡ ok ps)
    × ((x : ℕ)
        → hits x ps
          ≡ (if any (λ e. matches australia e && in_entry x e) table.entries then 1 else 0))
Reached-resolve_example =
    Reached-resolve no_gzip fresh uploaded table australia refl
      (after at_start (uploads false 9 (codes "ip2asn_tsv") (body tab_separated))) table_in_use refl

abbrev rules : Text
rules = codes "1.0.0.64/26 jp AS64500 hq"

abbrev headquarters : Override
headquarters = record {
  start = 0x01000040;
  last = 0x0100007f;
  asn = 64500;
  country = codes "JP";
  note = codes "hq";
}

rules_read : read_rules 1 (scan_lines small_buffer rules).0 [] ≡ ok (headquarters ∷ [])
unfolding read_rules scan_lines trim_space has_prefix parse_override_line cut parse_cidr parse_uint
    trim_prefix to_upper join
rules_read = refl

rules_applied : apply_text table rules ≡ ok (applied table (headquarters ∷ []))
unfolding apply_text text_eq trim_space has_prefix parse_override_line cut parse_cidr parse_uint
    trim_prefix to_upper join
rules_applied = refl

validate-apply_example : error_of (apply_text table rules) ≡ refusal (validate_overrides rules)
validate-apply_example = validate-apply table rules

table_loads : load no_gzip (codes "prefixdb.tsv") 9 (some tab_separated) ≡ ok table
unfolding load entry_of_fields parse_ip_to4 to_upper text_eq
table_loads = refl

table-IsSound : IsSound table
table-IsSound = load-IsSound no_gzip (codes "prefixdb.tsv") 9 (some tab_separated) table table_loads

apply_text-effect_example :
    Answers
      (applied table (headquarters ∷ [])).0
      australia
      (λ x. table_says x (matches australia) (headquarters ∷ []) table.entries)
apply_text-effect_example =
    apply_text-effect table rules (headquarters ∷ []) (applied table (headquarters ∷ [])) australia
      table-IsSound.0 table-IsSound.1 rules_read rules_applied refl
