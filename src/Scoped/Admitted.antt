-- ===== src/Scoped/Admitted.antt =====
-- What a scoped ban that is created has been checked for.
use xdp_invisible_armor.Common.{◌≡◌, true, false, none, ok, trim_space}
use xdp_invisible_armor.PrefixDb
use xdp_invisible_armor.PrefixDb.{Db}
use xdp_invisible_armor.Quota.{Tracker, check}
use xdp_invisible_armor.Safety.{assert_safe, assert_safe_all}
use xdp_invisible_armor.Requests.{Site, site_guard}
use xdp_invisible_armor.Scoped.Forms.{parse_selector, parse_host_target}
use xdp_invisible_armor.Scoped.Creation.{Form, Admission}

-- The form names a target that the guard lets pass, or no target and prefixes that it lets pass; its
-- selector resolves; and the quota allows the prefixes, with the user's acknowledgement if it asks.
pub record IsAdmissible (s : Site) (t : Tracker) (db : Db) (f : Form) (a : Admission) : Type 0 where
  pub resolves : PrefixDb.resolve db a.selector ≡ ok a.cidrs
  pub selects : parse_selector f.selector ≡ ok a.selector
  pub decides : a.decision ≡ check t a.cidrs
  pub allowed : a.decision.allowed ≡ true
  pub acknowledged : a.decision.requires_override ≡ true → f.override_ack ≡ true
  pub guarded_all : a.global ≡ true → assert_safe_all (site_guard s) a.cidrs ≡ none
  pub guarded_one :
      a.global ≡ false
      → (parse_host_target (trim_space f.target_ip) ≡ ok a.target)
        × (assert_safe (site_guard s) a.target ≡ none)
