-- ===== src/Resolution/Runs.antt =====
-- Decisions at concrete hits.
use xdp_invisible_armor.Common.{◌≡◌, refl, false, [], ◌∷◌, codes, text_eq}
use xdp_invisible_armor.Resolution.{pass, drop, resolve, contains}
use xdp_invisible_armor.Resolution.Winner.{resolve_lem}

allowlist_wins : (resolve (codes "blacklist_manual" ∷ codes "allowlist" ∷ []) false).effect ≡ pass
unfolding resolve contains
allowlist_wins = refl

resolve_lem_example : (resolve (codes "blacklist_intel" ∷ []) false).effect ≡ drop
unfolding contains text_eq
resolve_lem_example = resolve_lem (codes "blacklist_intel" ∷ []) false
