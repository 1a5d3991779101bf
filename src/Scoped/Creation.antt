-- ===== src/Scoped/Creation.antt =====
-- internal/web/scoped.go, scopedBanCreate: a new scoped ban with its reservation.
use xdp_invisible_armor.Common.{
  ℕ, suc, Bool, true, false, not, ◌&&◌, ltb, if◌then◌else◌, List, [], ◌∷◌, ◌++◌, Option, none, some,
  Text, codes, is_empty, ok, err, trim_space, ℤ, pos,
}
use xdp_invisible_armor.Netip.{Prefix}
use xdp_invisible_armor.PrefixDb
use xdp_invisible_armor.PrefixDb.{Db, Selector}
use xdp_invisible_armor.Quota.{Tracker, Decision, check}
use xdp_invisible_armor.Safety.{assert_safe, assert_safe_all}
use xdp_invisible_armor.Model.{requested, ScopedBan}
use xdp_invisible_armor.Requests.{Site, WebFaults, site_guard, next_ttl, find_ladder}
use xdp_invisible_armor.Scoped.{
  Handler, Answer, done, conflict, server_error, bad_request, unavailable, reserve_for, release_for,
  with_bans, scoped_bans, noted,
}
use xdp_invisible_armor.Scoped.Forms.{SelectorForm, parse_host_target, parse_selector}

pub record Form : Type 0 where
  pub target_ip : Text
  pub selector : SelectorForm
  pub reason : Text
  pub override_ack : Bool

-- The form after every test that precedes the reservation. A ban of all targets has no target.
pub record Admission : Type 0 where
  pub global : Bool
  pub target : Text
  pub selector : Selector
  pub cidrs : List Prefix
  pub decision : Decision
  pub acknowledged : Bool

abbrev pub host : Site → Text → Option Text
host s raw = elim (parse_host_target raw) [
  | err e ↦ none
  | ok target ↦ elim (assert_safe (site_guard s) target) [ some veto ↦ none | none ↦ some target ]
]

-- The target of the form: none of its own for all targets; no value where it is refused.
unfoldable pub target_of : Site → Text → Option Text
target_of s raw = if is_empty raw then some [] else host s raw

abbrev pub admission : Form → Text → Selector → List Prefix → Decision → Admission
admission f target sel cidrs d = record {
  global = is_empty (trim_space f.target_ip);
  target = target;
  selector = sel;
  cidrs = cidrs;
  decision = d;
  acknowledged = f.override_ack && d.requires_override;
}

abbrev pub judged : Form → Text → Selector → List Prefix → Decision → Option Admission
judged f target sel cidrs d =
    if not d.allowed
    then none
    else if d.requires_override && not f.override_ack
    then none
    else some (admission f target sel cidrs d)

-- The guard judges the prefixes of a ban of all targets.
unfoldable pub passes_guard : Site → Bool → List Prefix → Bool
unfolding site_guard
passes_guard s global cidrs =
    if not global
    then true
    else elim (assert_safe_all (site_guard s) cidrs) [ some veto ↦ false | none ↦ true ]

unfoldable pub admit : Site → Tracker → Db → Form → Option Admission
unfolding trim_space
admit s quota db f = elim (target_of s (trim_space f.target_ip)) [
  | none ↦ none
  | some target ↦ elim (parse_selector f.selector) [
    | err e ↦ none
    | ok sel ↦ elim (PrefixDb.resolve db sel) [
      | err e ↦ none
      | ok cidrs ↦
          if not (passes_guard s (is_empty (trim_space f.target_ip)) cidrs)
          then none
          else judged f target sel cidrs (check quota cidrs)
    ]
  ]
]

abbrev pub fresh_scoped : List ScopedBan → ℕ
fresh_scoped [] = 1
fresh_scoped (b ∷ bs) = let n = fresh_scoped bs in if ltb b.id n then n else suc b.id

abbrev promised : Option ℕ → Option ℤ
promised none = none
promised (some ttl) = some (pos ttl)

abbrev pub new_scoped : WebFaults → ℕ → Form → Admission → ℕ → Site → ScopedBan
new_scoped faults user f a now s = record {
  id = fresh_scoped s.db.scoped_bans;
  target_ip = a.target;
  global = a.global;
  country = a.selector.country;
  asn = a.selector.asn;
  prefix_count = a.decision.prefix_count;
  address_count = a.decision.address_count;
  reason = trim_space f.reason;
  state = requested;
  ttl_seconds =
      if a.global
      then none
      else promised (next_ttl a.target (find_ladder faults.ladder_fails a.target s.ladders) now);
  requested_by = some user;
  approved_by = none;
  override_ack = a.acknowledged;
  resolved_at = now;
  effective_at = none;
  expires_at = none;
  revoked_at = none;
  created_at = now;
}

module _ {M : Type 0} where
  -- The reservation, and the row: where the row is refused, the reservation is given back.
  unfoldable pub enter :
      WebFaults → Bool → ℕ → Text → ScopedBan → ℕ → Handler M → Handler M × Answer
  unfolding reserve_for release_for
  enter faults create_fails user label sb now h =
      elim (reserve_for sb.global h.quota sb.prefix_count) [
        | err e ↦ (h, conflict)
        | ok t ↦
            if create_fails
            then (record h { quota = release_for sb.global t sb.prefix_count }, server_error)
            else (
              noted faults user label sb.id (codes "created") now
                  (with_bans (scoped_bans h ++ sb ∷ []) (record h { quota = t })),
              done,
            )
      ]

  unfoldable pub scoped_ban_create :
      WebFaults → Bool → Option Db → ℕ → Text → Form → ℕ → Handler M → Handler M × Answer
  unfolding enter
  scoped_ban_create faults create_fails pdb user label f now h = elim pdb [
    | none ↦ (h, unavailable)
    | some db ↦ elim (admit h.site h.quota db f) [
      | none ↦ (h, bad_request)
      | some a ↦ enter faults create_fails user label (new_scoped faults user f a now h.site) now h
    ]
  ]
