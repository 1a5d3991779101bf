-- ===== src/Quota/Bounds.antt =====
-- The counts of the tracker: their bounds, and the reservations that they stand for.
use xdp_invisible_armor.Common.{
  ℕ, ◌+◌, ◌≤◌, ◌≡◌, ◌↔◌, refl, arith, true, List, [], ◌∷◌, ◌++◌, length, Result, ok, err, is_ok,
}
use xdp_invisible_armor.Quota.{
  Tracker, QuotaError, reserve, release, reserve_global, release_global, global_high_water,
  global_ban_high_water,
}

-- The calls that handlers make.
pub data Call : Type 0 where
  reserves releases reserves_global releases_global : ℕ → Call

-- A refused reservation leaves the tracker as it was.
abbrev pub after : Tracker → Result QuotaError Tracker → Tracker
after t (ok u) = u
after t (err e) = t

unfoldable pub apply : Tracker → Call → Tracker
unfolding reserve release reserve_global release_global
apply t (reserves n) = after t (reserve t n)
apply t (releases n) = release t n
apply t (reserves_global n) = after t (reserve_global t n)
apply t (releases_global n) = release_global t n

unfoldable pub run : Tracker → List Call → Tracker
run t [] = t
run t (c ∷ cs) = run (apply t c) cs

pub record IsBounded (t : Tracker) : Type 0 where
  pub scoped : t.prefixes ≤ global_high_water
  pub all : t.global_prefixes ≤ global_ban_high_water

-- A reservation is granted exactly if it fits under the mark, and touches no count of the other
-- map; giving it back restores the tracker.
pub release-reserve :
    (t : Tracker) (n : ℕ)
    → ((is_ok (reserve t n) ≡ true) ↔ (t.prefixes + n ≤ global_high_water))
      × ((u : Tracker)
          → reserve t n ≡ ok u
          → (release u n ≡ t)
            × (u.global_prefixes ≡ t.global_prefixes)
            × (u.global_rules ≡ t.global_rules))
unfolding reserve release
release-reserve t n = ((λ h. ground arith, λ h. ground arith), λ u e. ground arith)

pub release_global-reserve_global :
    (t : Tracker) (n : ℕ)
    → ((is_ok (reserve_global t n) ≡ true) ↔ (t.global_prefixes + n ≤ global_ban_high_water))
      × ((u : Tracker)
          → reserve_global t n ≡ ok u
          → (release_global u n ≡ t) × (u.prefixes ≡ t.prefixes) × (u.rules ≡ t.rules))
unfolding reserve_global release_global
release_global-reserve_global t n = ((λ h. ground arith, λ h. ground arith), λ u e. ground arith)

abbrev pub sum : List ℕ → ℕ
sum [] = 0
sum (n ∷ ns) = n + sum ns

-- The tracker stands for the reservations that are held.
pub record Holds (t : Tracker) (held : List ℕ) : Type 0 where
  pub prefixes : t.prefixes ≡ sum held
  pub rules : t.rules ≡ length held

sum-middle : (xs ys : List ℕ) (n : ℕ) → sum (xs ++ n ∷ ys) ≡ n + sum (xs ++ ys)
sum-middle [] ys n = refl
sum-middle (x ∷ xs) ys n = omega (arith, sum-middle xs ys n)

length-middle : (xs ys : List ℕ) (n : ℕ) → length (xs ++ n ∷ ys) ≡ length (xs ++ ys) + 1
length-middle [] ys n = omega arith
length-middle (x ∷ xs) ys n = omega (arith, length-middle xs ys n)

-- Reserving adds a reservation to those held, and releasing one that is held, in whatever order,
-- removes it: the counts never need to be cut off at 0.
pub reserve-release-Holds :
    (t : Tracker) (held front back : List ℕ) (n : ℕ)
    → Holds t held
    → ((u : Tracker) → reserve t n ≡ ok u → Holds u (n ∷ held))
      × (held ≡ front ++ n ∷ back → Holds (release t n) (front ++ back))
unfolding reserve release
reserve-release-Holds t held front back n h =
    (λ u e. ground arith, λ e. ground (arith, sum-middle front back n, length-middle front back n))
