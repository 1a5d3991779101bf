-- ===== src/Escalation/Runs.antt =====
-- Penalties at concrete times.
use xdp_invisible_armor.Common.{ℕ, ◌+◌, ◌*◌, ◌<◌, ◌≡◌, ◌↔◌, refl, arith, true, false, codes}
use xdp_invisible_armor.Escalation.{
  Penalty, new_penalty, register_ban, current_ttl, observing, rung, top, second, observe_window,
  escalated,
}
use xdp_invisible_armor.Escalation.Ladder.{IsOnLadder, register_ban_lem}

abbrev repeated : Penalty
repeated = record (new_penalty (codes "198.51.100.4")) { level = 3; offense_count = 4 }

third_rung : ◌≡◌ {A = ℕ} (register_ban (record repeated { level = 1 }) true 5).1 86400
unfolding register_ban current_ttl escalated rung
third_rung = refl

register_ban_lem_example :
    let r = register_ban repeated true 1000 in
    IsOnLadder r.0
    × (r.0.level ≡ 4)
    × (r.0.offense_count ≡ 5)
    × (r.0.last_banned_at ≡ 1000)
    × (r.1 ≡ rung 4)
    × (r.0.level < top
        → (r.0.expires_at ≡ 1000 + r.1 * second)
          × (r.0.observe_until ≡ r.0.expires_at + observe_window * second)
          × ((t : ℕ) → (observing r.0 t ≡ true) ↔ (t < r.0.observe_until)))
    × (r.0.level ≡ top → (r.0.expires_at ≡ 0) × ((t : ℕ) → observing r.0 t ≡ false))
register_ban_lem_example = register_ban_lem repeated true 1000 (omega arith)
