-- ===== src/Escalation/Ladder.antt =====
-- Offenders climb the ladder one rung at a time, and only while they are observed.
use xdp_invisible_armor.Common.{
  ℕ, zero, suc, ◌+◌, ◌*◌, ◌≤◌, ◌<◌, ◌≡◌, ◌↔◌, ◌⊎◌, inl, inr, refl, arith, Bool, true, false, ◌&&◌,
  ltb, if◌then◌else◌, Bool-cases,
}
use xdp_invisible_armor.Escalation.{
  Penalty, rung, top, current_ttl, permanent, observing, escalated, register_ban, observe_window,
  second,
}

abbrev pub IsOnLadder : Penalty → Type 0
IsOnLadder p = p.level ≤ top

-- The five rungs, by cases.
pub rung-cases : (i : ℕ) → i ≤ top → ((i < top) × (600 ≤ rung i)) ⊎ ((i ≡ top) × (rung i ≡ 0))
unfolding rung
rung-cases zero h = inl (omega arith, omega arith)
rung-cases (suc zero) h = inl (omega arith, omega arith)
rung-cases (suc (suc zero)) h = inl (omega arith, omega arith)
rung-cases (suc (suc (suc zero))) h = inl (omega arith, omega arith)
rung-cases (suc (suc (suc (suc zero)))) h = inr (refl, refl)
rung-cases (suc (suc (suc (suc (suc i))))) h = absurd (omega arith)

rung_mono : (i : ℕ) → i + 1 < top → rung i < rung (i + 1)
unfolding rung
rung_mono zero h = omega arith
rung_mono (suc zero) h = omega arith
rung_mono (suc (suc zero)) h = omega arith
rung_mono (suc (suc (suc i))) h = absurd (omega arith)

-- On the ladder a ban is permanent exactly on the top rung; below it, one rung up is longer or
-- permanent.
pub current_ttl_ladder :
    (p : Penalty)
    → IsOnLadder p
    → ((permanent p ≡ true) ↔ (p.level ≡ top))
      × (p.level < top
          → (current_ttl p < current_ttl (record p { level = p.level + 1 }))
            ⊎ (permanent (record p { level = p.level + 1 }) ≡ true))
unfolding permanent current_ttl
current_ttl_ladder p h = (
  (λ e. ground (arith, rung-cases p.level h), λ e. ground (arith, rung-cases p.level h)),
  λ lt. elim (Bool-cases (ltb (p.level + 1) top)) [
    | inl below ↦ inl (ground (arith, rung_mono p.level))
    | inr at_top ↦ inr (ground (arith, rung-cases (p.level + 1)))
  ],
)

-- The rung after a ban: one up if the target was observed and is not at the top.
abbrev pub next_level : Penalty → Bool → ℕ
next_level p escalate = if escalate && ltb p.level top then p.level + 1 else p.level

escalated_level :
    (p : Penalty) (escalate : Bool)
    → IsOnLadder p
    → (escalated p escalate).level ≡ next_level p escalate
unfolding escalated
escalated_level p true h = ground arith
escalated_level p false h = refl

next_level-le : (p : Penalty) (escalate : Bool) → IsOnLadder p → next_level p escalate ≤ top
next_level-le p escalate h = ground arith

escalated_offenses :
    (p : Penalty) (escalate : Bool) → (escalated p escalate).offense_count ≡ p.offense_count
unfolding escalated
escalated_offenses p true = refl
escalated_offenses p false = refl

-- What `RegisterBan` writes, in terms of the penalty that it first escalates.
registered :
    (q : Penalty) (now : ℕ)
    → IsOnLadder q
    → let ttl = current_ttl q in (ttl ≡ rung q.level) × (ltb 0 ttl ≡ ltb q.level top)
unfolding current_ttl
registered q now h = (ground arith, ground (arith, rung-cases q.level h))

-- A ban keeps the target on the ladder, counts the offense, and moves it at most one rung up,
-- exactly if `escalate` is set below the top. It returns the duration of the new rung. The ban and
-- the hour of observation behind it start now, unless the new rung is the permanent one, where
-- neither ends.
pub register_ban_lem :
    (p : Penalty) (escalate : Bool) (now : ℕ)
    → IsOnLadder p
    → let r = register_ban p escalate now in
      IsOnLadder r.0
      × (r.0.level ≡ next_level p escalate)
      × (r.0.offense_count ≡ p.offense_count + 1)
      × (r.0.last_banned_at ≡ now)
      × (r.1 ≡ rung (next_level p escalate))
      × (r.0.level < top
          → (r.0.expires_at ≡ now + r.1 * second)
            × (r.0.observe_until ≡ r.0.expires_at + observe_window * second)
            × ((t : ℕ) → (observing r.0 t ≡ true) ↔ (t < r.0.observe_until)))
      × (r.0.level ≡ top → (r.0.expires_at ≡ 0) × ((t : ℕ) → observing r.0 t ≡ false))
unfolding register_ban observing
register_ban_lem p escalate now h =
    let q = escalated p escalate in
    let level = escalated_level p escalate h in
    let small = next_level-le p escalate h in
    let on : IsOnLadder q = omega (arith, level, small) in
    let (ttl, positive) = registered q now on in
    let offenses = escalated_offenses p escalate in
    (
      ground (arith, level, small, ttl, positive),
      ground (arith, level),
      ground (arith, offenses),
      ground arith,
      ground (arith, level, ttl),
      λ below. (
        ground (arith, positive),
        ground (arith, positive),
        λ t. (λ e. ground (arith, positive), λ e. ground (arith, positive)),
      ),
      λ at_top. (ground (arith, positive), λ t. ground (arith, positive)),
    )
