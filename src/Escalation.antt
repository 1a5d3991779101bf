-- ===== src/Escalation.antt =====
-- internal/escalation/penalty.go: the ladder of ban durations of a target that comes back.
-- A time is its distance in nanoseconds from Go's zero time; the clock is an argument. The level of
-- a penalty is never negative: it starts at 0, and `MaybeDecay` lowers it only above 0.
pub mod Ladder
mod Runs
use xdp_invisible_armor.Common.{
  ℕ, zero, suc, ◌+◌, ◌-◌, ◌*◌, Bool, true, false, not, ◌&&◌, ◌==◌, ltb, if◌then◌else◌, List, [],
  ◌∷◌, Text, length, get_elem?, Option, none, some,
}

-- The durations in seconds; 0 is a ban without end.
abbrev pub ladder : List ℕ
ladder = 600 ∷ 3600 ∷ 86400 ∷ 604800 ∷ 0 ∷ []

abbrev pub observe_window : ℕ
observe_window = 3600

abbrev pub activity_threshold : ℕ
activity_threshold = 5

abbrev pub second : ℕ
second = 1_000_000_000

pub record Penalty : Type 0 where
  pub target : Text
  pub level : ℕ
  pub offense_count : ℕ
  pub last_banned_at : ℕ
  pub observe_until : ℕ
  pub expires_at : ℕ
  pub baseline_packets : ℕ

abbrev pub new_penalty : Text → Penalty
new_penalty target = record {
  target = target;
  level = 0;
  offense_count = 0;
  last_banned_at = 0;
  observe_until = 0;
  expires_at = 0;
  baseline_packets = 0;
}

-- `Ladder[i]`, for an index within the ladder.
unfoldable pub rung : ℕ → ℕ
rung i = elim (get_elem? ladder i) [ none ↦ 0 | some ttl ↦ ttl ]

abbrev pub top : ℕ
top = 4

unfoldable pub current_ttl : Penalty → ℕ
unfolding rung
current_ttl p = rung (if ltb top p.level then top else p.level)

unfoldable pub permanent : Penalty → Bool
permanent p = current_ttl p == 0

unfoldable pub observing : Penalty → ℕ → Bool
observing p now = not (p.observe_until == 0) && ltb now p.observe_until

-- The level after a ban, and then the rest of the record.
unfoldable pub escalated : Penalty → Bool → Penalty
escalated p escalate =
    if escalate then record p { level = if ltb top (p.level + 1) then top else p.level + 1 } else p

-- The new penalty and the duration that `RegisterBan` returns.
unfoldable pub register_ban : Penalty → Bool → ℕ → Penalty × ℕ
register_ban p escalate now =
    let q = escalated p escalate in
    let ttl = current_ttl q in
    if ltb 0 ttl
    then (
      record q {
        offense_count = q.offense_count + 1;
        last_banned_at = now;
        expires_at = now + ttl * second;
        observe_until = now + ttl * second + observe_window * second;
      },
      ttl,
    )
    else (
      record q {
        offense_count = q.offense_count + 1;
        last_banned_at = now;
        expires_at = 0;
        observe_until = 0;
      },
      ttl,
    )

unfoldable pub still_attacking : Penalty → ℕ → Bool
still_attacking p now_packets =
    if ltb now_packets p.baseline_packets
    then false
    else ltb activity_threshold (now_packets - p.baseline_packets)

unfoldable pub maybe_decay : Penalty → ℕ → Penalty
unfolding observing
maybe_decay p now =
    if observing p now then p else if ltb 0 p.level then record p { level = p.level - 1 } else p
