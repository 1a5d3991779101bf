-- ===== src/Lookup.antt =====
-- internal/web/lookup.go, lookupSearch: the bans that concern an address. What the page shows of a
-- time is the time. A query that fails lists nothing.
pub mod Shown
pub mod Blocks
mod Runs
use xdp_invisible_armor.Common.{
  ℕ, suc, ◌+◌, ◌-◌, ◌/◌, ◌^◌, Bool, true, false, ◌&&◌, ◌||◌, ◌==◌, leb, if◌then◌else◌, List, [],
  ◌∷◌, ◌++◌, map, keep, any, find, take, Option, none, some, Result, ok, err, Text, text_eq, codes,
  format, is_empty, trim_space,
}
use xdp_invisible_armor.Netip.{Prefix, Addr, v4, v6, parse_ip_to4, v4_text}
use xdp_invisible_armor.PrefixDb.{Db, Selector}
use xdp_invisible_armor.PrefixDb
use xdp_invisible_armor.Policy.{allow, unban_execute}
use xdp_invisible_armor.Model.{
  BanState, requested, active, BanRequest, ScopedBan, Dispatch, DispatchState, acked, User,
}
use xdp_invisible_armor.Dispatch.{Database, ban_id}
use xdp_invisible_armor.Report.Labels.{utf8}

pub data HitKind : Type 0 where
  ban scoped : HitKind

pub record Hit : Type 0 where
  pub kind : HitKind
  pub id : ℕ
  pub target : Text
  pub state : BanState
  pub reason : Text
  pub requested_by : Text
  pub approved_by : Text
  pub created_at : ℕ
  pub expires_at : Option ℕ
  pub enforced : Bool
  pub can_rollback : Bool

pub record SearchFaults : Type 0 where
  pub requests_fail : Bool
  pub scoped_fail : Bool
  pub users_fail : Bool
  pub dispatch_fails : Text → Bool

abbrev pub is_live : BanState → Bool
is_live active = true
is_live requested = true
is_live _ = false

-- `Prefix.Contains` of an IPv4 address without a zone: no bit above the host's differs.
abbrev pub contains_addr : ℕ → Prefix → Bool
contains_addr x p = elim p.addr [
  | v4 a ↦ a / 2 ^ (32 - p.bits) == x / 2 ^ (32 - p.bits)
  | v6 a zone ↦ false
]

-- `ScopedBan.Label`
unfoldable pub scoped_label : ScopedBan → Text
scoped_label b =
    let asn = codes "AS" ++ format b.asn in
    let scope =
      if is_empty b.country
      then if b.asn == 0 then utf8 (codes "任意源") else asn
      else if b.asn == 0
      then b.country
      else b.country ++ (codes "/" ++ asn) in
    if b.global
    then scope ++ utf8 (codes " → 全局(所有受保护目标)")
    else scope ++ (utf8 (codes " → ") ++ b.target_ip)

unfoldable pub user_label : Bool → List User → Option ℕ → Text
user_label fails us none = []
user_label fails us (some id) = if fails then [] else elim (find (λ (u : User). u.id == id) us) [
  | none ↦ []
  | some u ↦ codes "user:" ++ u.username
]

abbrev pub is_acked : DispatchState → Bool
is_acked acked = true
is_acked _ = false

unfoldable pub dispatch_acked : SearchFaults → Database → Text → Bool
unfolding text_eq
dispatch_acked faults db id =
    if faults.dispatch_fails id
    then false
    else elim (find (λ (d : Dispatch). text_eq d.ban_id id) db.dispatches) [
      | none ↦ false
      | some d ↦ is_acked d.state
    ]

-- `Order("created_at desc")`, the rows of one time in the order of the table.
module _ {A : Type 0} (time : A → ℕ) where
  insert_desc : A → List A → List A
  insert_desc a [] = a ∷ []
  insert_desc a (b ∷ bs) =
      let rest = insert_desc a bs in if leb (time b) (time a) then a ∷ b ∷ bs else b ∷ rest

  unfoldable pub newest : List A → List A
  unfolding insert_desc
  newest [] = []
  newest (a ∷ rest) = insert_desc a (newest rest)

module _ (faults : SearchFaults) (users : List User) (db : Database) (may_roll_back : Bool) where
  unfoldable pub request_hit : BanRequest → Hit
  unfolding user_label dispatch_acked
  request_hit r = record {
    kind = ban;
    id = r.id;
    target = r.target;
    state = r.state;
    reason = r.reason;
    requested_by = user_label faults.users_fail users r.requested_by;
    approved_by = user_label faults.users_fail users r.approved_by;
    created_at = r.created_at;
    expires_at = r.expires_at;
    enforced = dispatch_acked faults db (ban_id (codes "ban") r.id r.target);
    can_rollback = may_roll_back && is_live r.state;
  }

  unfoldable pub scoped_hit : ScopedBan → Hit
  unfolding user_label dispatch_acked scoped_label
  scoped_hit b = record {
    kind = scoped;
    id = b.id;
    target = scoped_label b;
    state = b.state;
    reason = b.reason;
    requested_by = user_label faults.users_fail users b.requested_by;
    approved_by = user_label faults.users_fail users b.approved_by;
    created_at = b.created_at;
    expires_at = b.expires_at;
    enforced = dispatch_acked faults db (ban_id (codes "scoped") b.id b.target_ip);
    can_rollback = may_roll_back && is_live b.state;
  }

  -- The bans of this very address.
  unfoldable pub request_hits : Text → List Hit
  unfolding newest request_hit
  request_hits ip =
      if faults.requests_fail
      then []
      else map request_hit (
          newest (λ (r : BanRequest). r.created_at)
            (keep
              (λ (r : BanRequest).
                (text_eq r.target ip || text_eq r.target (ip ++ codes "/32")) && is_live r.state)
              db.requests))

-- The newest 200 scoped bans that live.
unfoldable pub live_scoped : SearchFaults → Database → List ScopedBan
unfolding newest
live_scoped faults db =
    if faults.scoped_fail
    then []
    else take 200 (
        newest (λ (b : ScopedBan). b.created_at)
          (keep (λ (b : ScopedBan). is_live b.state) db.scoped_bans))

-- The scoped ban's selector resolves, to prefixes of which one holds the address.
unfoldable pub matches_addr : Option Db → ℕ → ScopedBan → Bool
matches_addr none x b = false
matches_addr (some table) x b =
    elim (PrefixDb.resolve table (record { country = b.country; asn = b.asn })) [
      | err e ↦ false
      | ok cidrs ↦ any (contains_addr x) cidrs
    ]

-- `lookupSearch`: nothing for a text that is no IPv4 address.
unfoldable pub lookup_search :
    SearchFaults → List User → Database → Option Db → Text → Text → Option (List Hit)
unfolding trim_space request_hits live_scoped matches_addr scoped_hit
lookup_search faults users db table role raw = elim (parse_ip_to4 (trim_space raw)) [
  | none ↦ none
  | some x ↦
      let may = allow role unban_execute in
      some (
        request_hits faults users db may (v4_text x)
        ++ map (scoped_hit faults users db may)
            (keep (matches_addr table x) (live_scoped faults db)))
]
