-- ===== src/Report/Runs.antt =====
-- A report on two bans.
use xdp_invisible_armor.Common.{
  ℕ, ◌≡◌, refl, true, false, [], ◌∷◌, ◌++◌, map, none, some, Text, codes, drop, pos, format,
  leading_blank,
}
use xdp_invisible_armor.Model.{active, requested, BanRequest, ScopedBan}
use xdp_invisible_armor.Report.{
  Filter, Archive, ReadFaults, rows_of, summarize, build, records, write_csv,
}
use xdp_invisible_armor.Report.Csv.{write_record}
use xdp_invisible_armor.Report.Csv.Reading.{read_csv, shown}
use xdp_invisible_armor.Report.Labels.{utf8, format_ttl}
use xdp_invisible_armor.Report.Counts.{Tells, build-Tells}

-- Halves of a day go to the even neighbour.
day_and_half : format_ttl (some (pos 129600)) ≡ codes "2" ++ utf8 (codes " 天")
unfolding format_ttl format
day_and_half = refl

two_days_and_half : format_ttl (some (pos 216000)) ≡ codes "2" ++ utf8 (codes " 天")
unfolding format_ttl format
two_days_and_half = refl

quoted_line : write_record (codes "a,b" ∷ codes "c" ∷ [] ∷ []) ≡ codes "\"a,b\",c,\n"
unfolding write_record leading_blank
quoted_line = refl

abbrev one_request : BanRequest
one_request = record {
  id = 1;
  action_type = codes "ban";
  target = codes "203.0.113.7";
  source = codes "manual";
  approval_mode = codes "ui";
  state = active;
  requested_by = some 7;
  approved_by = some 8;
  approved_by_policy = codes "email_link";
  reason = codes "a, b";
  ttl_seconds = some (pos 600);
  effective_at = some 20;
  expires_at = none;
  cleared_at = none;
  created_at = 10;
}

abbrev one_scoped : ScopedBan
one_scoped = record {
  id = 2;
  target_ip = [];
  global = true;
  country = codes "CN";
  asn = 0;
  prefix_count = 3;
  address_count = 256;
  reason = [];
  state = requested;
  ttl_seconds = none;
  requested_by = none;
  approved_by = none;
  override_ack = false;
  resolved_at = 15;
  effective_at = none;
  expires_at = none;
  revoked_at = none;
  created_at = 15;
}

abbrev two_bans : Archive
two_bans = record { users = []; requests = one_request ∷ []; scoped_bans = one_scoped ∷ [] }

abbrev spring : Filter
spring = record { from = 5; to = 15 }

abbrev no_faults : ReadFaults
no_faults = record { users_fail = false; requests_fail = false; scoped_fail = false }

abbrev stamp : ℕ → Text
stamp t = codes "t"

build-Tells_example :
    Tells spring two_bans (summarize spring (rows_of spring two_bans) (codes "ann") 99)
    × (read_csv (
          drop 3 (
            write_csv stamp
              (summarize spring (rows_of spring two_bans) (codes "ann") 99)
              (rows_of spring two_bans)))
        ≡ map shown (
            records stamp
              (summarize spring (rows_of spring two_bans) (codes "ann") 99)
              (rows_of spring two_bans)))
unfolding build
build-Tells_example =
    build-Tells stamp no_faults spring (codes "ann") 99 two_bans
      (summarize spring (rows_of spring two_bans) (codes "ann") 99) (rows_of spring two_bans) refl
