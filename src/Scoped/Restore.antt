-- ===== src/Scoped/Restore.antt =====
-- internal/web/services.go, restoreQuota: the tracker's counts, from the table, at the start.
use xdp_invisible_armor.Common.{
  ℕ, ◌+◌, Bool, true, false, not, ◌&&◌, if◌then◌else◌, List, [], ◌∷◌, length, keep, any, map, Text,
  text_eq,
}
use xdp_invisible_armor.Quota.{set_baseline, set_global_baseline}
use xdp_invisible_armor.Model.{BanState, requested, active, ScopedBan}
use xdp_invisible_armor.Scoped.{Handler, scoped_bans}

-- `state IN {"pending", "active"}`
abbrev pub is_live : BanState → Bool
is_live requested = true
is_live active = true
is_live _ = false

abbrev pub lives : Bool → ScopedBan → Bool
lives global b = is_live b.state && (if global then b.global else not b.global)

unfoldable pub sum_prefixes : List ScopedBan → ℕ
sum_prefixes [] = 0
sum_prefixes (b ∷ bs) = b.prefix_count + sum_prefixes bs

unfoldable pub distinct : List Text → ℕ
distinct [] = 0
distinct (t ∷ ts) = let rest = distinct ts in if any (text_eq t) ts then rest else rest + 1

-- A query that fails leaves zeros.
abbrev answered : Bool → ℕ → ℕ
answered fails n = if fails then 0 else n

module _ {M : Type 0} where
  unfoldable pub restore_quota : Bool → Handler M → Handler M
  unfolding set_baseline set_global_baseline sum_prefixes distinct
  restore_quota fails h =
      let own = keep (lives false) (scoped_bans h) in
      let all = keep (lives true) (scoped_bans h) in
      let targets = map (λ (b : ScopedBan). b.target_ip) own in
      record h {
        quota =
            set_global_baseline
              (set_baseline h.quota (answered fails (sum_prefixes own))
                (answered fails (length own)) (answered fails (distinct targets)))
              (answered fails (sum_prefixes all)) (answered fails (length all));
      }
