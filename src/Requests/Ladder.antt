-- ===== src/Requests/Ladder.antt =====
-- The duration that a request is promised is the one that its approval registers.
use xdp_invisible_armor.Common.{
  ℕ, ◌+◌, ◌≡◌, refl, sym, ap, ◌∙◌, arith, Bool, true, false, ◌&&◌, ◌==◌, ltb, if◌then◌else◌, Option,
  none, some, Bool-cases, inl, inr, Text,
}
use xdp_invisible_armor.Escalation.{
  Penalty, new_penalty, rung, current_ttl, observing, escalated, register_ban, top,
}
use xdp_invisible_armor.Model.{BanLadder}
use xdp_invisible_armor.Requests.{Found, found, not_found, no_answer, loaded, next_ttl, registered}

register_ban-ttl :
    (p : Penalty) (e : Bool) (now : ℕ) → (register_ban p e now).1 ≡ current_ttl (escalated p e)
unfolding register_ban
register_ban-ttl p e now = elim (Bool-cases (ltb 0 (current_ttl (escalated p e)))) [
  | inl f ↦ rw f refl
  | inr f ↦ rw f refl
]

-- One rung up while the target is observed, and the same rung otherwise.
climb :
    (p : Penalty) (b : Bool)
    → (if b && ltb p.level top then rung (p.level + 1) else current_ttl p)
      ≡ current_ttl (escalated p b)
unfolding current_ttl escalated
climb p false = refl
climb p true = over p.level
  where
    over :
        (l : ℕ)
        → (if ltb l top then rung (l + 1) else rung (if ltb top l then top else l))
          ≡ rung (let m = if ltb top (l + 1) then top else l + 1 in if ltb top m then top else m)
    over l = elim (Bool-cases (ltb l top)) [
      | inl e ↦ rw e (
          ap rung {x = l + 1}
            {y = let m = if ltb top (l + 1) then top else l + 1 in if ltb top m then top else m}
            (ground (arith, e)))
      | inr e ↦ rw e (
          ap rung {x = if ltb top l then top else l}
            {y = let m = if ltb top (l + 1) then top else l + 1 in if ltb top m then top else m}
            (ground (arith, e)))
    ]

no_window : (target : Text) (now : ℕ) → observing (new_penalty target) now ≡ false
unfolding observing
no_window target now = refl

abbrev pub promised : ℕ → Option ℕ
promised ttl = if ttl == 0 then none else some ttl

-- Whatever the ladder's row says of a target, a request made at some moment is promised exactly the
-- duration that an approval at that moment registers, a ban without end being promised as none.
pub next_ttl-registered :
    (target : Text) (row : Found BanLadder) (now : ℕ)
    → next_ttl target row now ≡ promised (registered target row now).1
unfolding next_ttl registered
next_ttl-registered target (found row) now = ap promised (
    climb (loaded target (found row)) (observing (loaded target (found row)) now)
    ∙ sym (
        register_ban-ttl (loaded target (found row)) (observing (loaded target (found row)) now)
          now))
next_ttl-registered target not_found now = ap promised (
    ap (λ b. if b && ltb 0 top then rung 1 else current_ttl (new_penalty target))
      (no_window target now)
    ∙ climb (new_penalty target) false
    ∙ sym (register_ban-ttl (new_penalty target) false now))
next_ttl-registered target no_answer now = ap promised (
    ap (λ b. if b && ltb 0 top then rung 1 else current_ttl (new_penalty target))
      (no_window target now)
    ∙ climb (new_penalty target) false
    ∙ sym (register_ban-ttl (new_penalty target) false now))
