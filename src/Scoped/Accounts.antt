-- ===== src/Scoped/Accounts.antt =====
-- What the tracker's counts stand for: the reservations of the live bans, and of those that lost
-- their life with the reservation kept.
use xdp_invisible_armor.Common.{
  ℕ, suc, ◌+◌, ◌≤◌, ◌≡◌, refl, sym, ap, arith, Bool, true, false, not, if◌then◌else◌, List, [], ◌∷◌,
  ◌++◌, length, some, ok,
}
use mathlib.Core.Path.{ap₂}
use xdp_invisible_armor.Quota.{Tracker, global_high_water, global_ban_high_water}
use xdp_invisible_armor.Model.{BanState, safety_blocked, ScopedBan}
use xdp_invisible_armor.Scoped.{reserve_for, release_for, find_scoped, update_scoped}
use xdp_invisible_armor.Scoped.Creation.{fresh_scoped}
use xdp_invisible_armor.Scoped.Restore.{lives, is_live}
use xdp_invisible_armor.Scoped.Totals.{
  total, AreDistinct, total-append, total-update, AreDistinct-update, AreDistinct-fresh,
  weight-le-total,
}

-- What a ban adds to the counts of a side: nothing, if it is of the other kind.
abbrev pub part : Bool → Bool → ℕ → ℕ
part side global n = if (if side then global else not global) then n else 0

-- The entries and the rule that a live ban takes of the map of its kind.
abbrev pub live_prefixes : Bool → ScopedBan → ℕ
live_prefixes global b = if lives global b then b.prefix_count else 0

abbrev pub live_rules : Bool → ScopedBan → ℕ
live_rules global b = if lives global b then 1 else 0

-- The same, whatever the state.
abbrev pub kept_prefixes : Bool → ScopedBan → ℕ
kept_prefixes global b = part global b.global b.prefix_count

abbrev pub kept_rules : Bool → ScopedBan → ℕ
kept_rules global b = part global b.global 1

abbrev pub is_stopped : BanState → Bool
is_stopped safety_blocked = true
is_stopped _ = false

-- 1 for a ban that the guard stopped at its dispatch.
abbrev pub stopped : ScopedBan → ℕ
stopped b = if is_stopped b.state then 1 else 0

-- `lost` are the bans that died with their reservation kept; each is stopped in the table.
pub record Accounts (lost : List ScopedBan) (t : Tracker) (bans : List ScopedBan) : Type 0 where
  pub distinct : AreDistinct bans
  pub prefixes : t.prefixes ≡ total (live_prefixes false) bans + total (kept_prefixes false) lost
  pub rules : t.rules ≡ total (live_rules false) bans + total (kept_rules false) lost
  pub global_prefixes :
      t.global_prefixes ≡ total (live_prefixes true) bans + total (kept_prefixes true) lost
  pub global_rules : t.global_rules ≡ total (live_rules true) bans + total (kept_rules true) lost
  pub bounded : t.prefixes ≤ global_high_water
  pub globally_bounded : t.global_prefixes ≤ global_ban_high_water
  pub vetoed : length lost ≤ total stopped bans

-- A tracker that has more than another by a ban of `n` prefixes.
pub record Exceeds (global : Bool) (n : ℕ) (t u : Tracker) : Type 0 where
  pub prefixes : u.prefixes ≡ t.prefixes + part false global n
  pub rules : u.rules ≡ t.rules + part false global 1
  pub global_prefixes : u.global_prefixes ≡ t.global_prefixes + part true global n
  pub global_rules : u.global_rules ≡ t.global_rules + part true global 1

reserve_for-Exceeds :
    (global : Bool) (n : ℕ) (t u : Tracker) → reserve_for global t n ≡ ok u → Exceeds global n t u
unfolding reserve_for
reserve_for-Exceeds true n t u e = ground arith
reserve_for-Exceeds false n t u e = ground arith

reserve_for-bounded :
    (global : Bool) (n : ℕ) (t u : Tracker)
    → t.prefixes ≤ global_high_water
    → t.global_prefixes ≤ global_ban_high_water
    → reserve_for global t n ≡ ok u
    → (u.prefixes ≤ global_high_water) × (u.global_prefixes ≤ global_ban_high_water)
unfolding reserve_for
reserve_for-bounded true n t u h k e = ground arith
reserve_for-bounded false n t u h k e = ground arith

release_for-Exceeds :
    (global : Bool) (n : ℕ) (t : Tracker)
    → part false global n ≤ t.prefixes
    → part false global 1 ≤ t.rules
    → part true global n ≤ t.global_prefixes
    → part true global 1 ≤ t.global_rules
    → Exceeds global n (release_for global t n) t
unfolding release_for
release_for-Exceeds true n t p r gp gr = ground arith
release_for-Exceeds false n t p r gp gr = ground arith

live-stopped : (b : ScopedBan) → is_live b.state ≡ true → stopped b ≡ 0
live-stopped b e = ground arith

stopped-one : (b : ScopedBan) → is_stopped b.state ≡ true → stopped b ≡ 1
stopped-one b e = rw e refl

-- A live row weighs what it reserved.
pub live-kept :
    (side : Bool) (b : ScopedBan)
    → is_live b.state ≡ true
    → (live_prefixes side b ≡ kept_prefixes side b) × (live_rules side b ≡ kept_rules side b)
live-kept side b h = (rw h refl, rw h refl)

dead-zero :
    (side : Bool) (b : ScopedBan)
    → is_live b.state ≡ false
    → (live_prefixes side b ≡ 0) × (live_rules side b ≡ 0)
dead-zero side b h = (rw h refl, rw h refl)

-- A new live row, for which there was room.
pub Accounts-enter :
    (lost : List ScopedBan) (t u : Tracker) (bans : List ScopedBan) (b : ScopedBan)
    → Accounts lost t bans
    → is_live b.state ≡ true
    → b.id ≡ fresh_scoped bans
    → reserve_for b.global t b.prefix_count ≡ ok u
    → Accounts lost u (bans ++ b ∷ [])
Accounts-enter lost t u bans b a live id e =
    let x = reserve_for-Exceeds b.global b.prefix_count t u e in
    let k = live-kept false b live in
    let gk = live-kept true b live in
    let bound = reserve_for-bounded b.global b.prefix_count t u a.bounded a.globally_bounded e in
    record {
      distinct = AreDistinct-fresh bans b a.distinct id;
      prefixes =
          omega
            (arith, x.prefixes, a.prefixes, k.0, total-append (live_prefixes false) bans (b ∷ []));
      rules = omega (arith, x.rules, a.rules, k.1, total-append (live_rules false) bans (b ∷ []));
      global_prefixes = omega (
        arith,
        x.global_prefixes,
        a.global_prefixes,
        gk.0,
        total-append (live_prefixes true) bans (b ∷ []),
      );
      global_rules = omega (
        arith,
        x.global_rules,
        a.global_rules,
        gk.1,
        total-append (live_rules true) bans (b ∷ []),
      );
      bounded = bound.0;
      globally_bounded = bound.1;
      vetoed = omega (arith, a.vetoed, total-append stopped bans (b ∷ []));
    }

-- A row is exchanged for another, and the counts change by the difference.
pub Accounts-exchange :
    (lost : List ScopedBan) (t u : Tracker) (bans : List ScopedBan) (id : ℕ) (b : ScopedBan)
    (f : ScopedBan → ScopedBan)
    → Accounts lost t bans
    → find_scoped id bans ≡ some b
    → is_live b.state ≡ true
    → ((c : ScopedBan) → (f c).id ≡ c.id)
    → u.prefixes + live_prefixes false b ≡ t.prefixes + live_prefixes false (f b)
    → u.rules + live_rules false b ≡ t.rules + live_rules false (f b)
    → u.global_prefixes + live_prefixes true b ≡ t.global_prefixes + live_prefixes true (f b)
    → u.global_rules + live_rules true b ≡ t.global_rules + live_rules true (f b)
    → u.prefixes ≤ global_high_water
    → u.global_prefixes ≤ global_ban_high_water
    → Accounts lost u (update_scoped id f bans)
Accounts-exchange lost t u bans id b f a e live k p r gp gr s gs = record {
  distinct = AreDistinct-update f id bans k a.distinct;
  prefixes =
      omega (arith, p, a.prefixes, total-update (live_prefixes false) f id bans b a.distinct e);
  rules = omega (arith, r, a.rules, total-update (live_rules false) f id bans b a.distinct e);
  global_prefixes =
      omega
        (arith, gp, a.global_prefixes, total-update (live_prefixes true) f id bans b a.distinct e);
  global_rules =
      omega (arith, gr, a.global_rules, total-update (live_rules true) f id bans b a.distinct e);
  bounded = s;
  globally_bounded = gs;
  vetoed =
      omega (arith, live-stopped b live, a.vetoed, total-update stopped f id bans b a.distinct e);
}

-- What a live row has reserved can be given back in full.
pub released-Exceeds :
    (lost : List ScopedBan) (t : Tracker) (bans : List ScopedBan) (id : ℕ) (b : ScopedBan)
    → Accounts lost t bans
    → find_scoped id bans ≡ some b
    → is_live b.state ≡ true
    → Exceeds b.global b.prefix_count (release_for b.global t b.prefix_count) t
released-Exceeds lost t bans id b a e live =
    let k = live-kept false b live in
    let gk = live-kept true b live in
    release_for-Exceeds b.global b.prefix_count t
      (omega (arith, k.0, a.prefixes, weight-le-total (live_prefixes false) id bans b e))
      (omega (arith, k.1, a.rules, weight-le-total (live_rules false) id bans b e))
      (omega (arith, gk.0, a.global_prefixes, weight-le-total (live_prefixes true) id bans b e))
      (omega (arith, gk.1, a.global_rules, weight-le-total (live_rules true) id bans b e))

-- A live row dies, and its reservation is given back.
pub Accounts-release :
    (lost : List ScopedBan) (t : Tracker) (bans : List ScopedBan) (id : ℕ) (b : ScopedBan)
    (f : ScopedBan → ScopedBan)
    → Accounts lost t bans
    → find_scoped id bans ≡ some b
    → is_live b.state ≡ true
    → ((c : ScopedBan) → (f c).id ≡ c.id)
    → is_live (f b).state ≡ false
    → Accounts lost (release_for b.global t b.prefix_count) (update_scoped id f bans)
Accounts-release lost t bans id b f a e live k dead =
    let x = released-Exceeds lost t bans id b a e live in
    let w = live-kept false b live in
    let gw = live-kept true b live in
    let z = dead-zero false (f b) dead in
    let gz = dead-zero true (f b) dead in
    Accounts-exchange lost t (release_for b.global t b.prefix_count) bans id b f a e live k
      (omega (arith, x.prefixes, w.0, z.0)) (omega (arith, x.rules, w.1, z.1))
      (omega (arith, x.global_prefixes, gw.0, gz.0)) (omega (arith, x.global_rules, gw.1, gz.1))
      (omega (arith, x.prefixes, a.bounded)) (omega (arith, x.global_prefixes, a.globally_bounded))

-- A row changes and weighs what it did.
pub Accounts-same :
    (lost : List ScopedBan) (t : Tracker) (bans : List ScopedBan) (id : ℕ) (b : ScopedBan)
    (f : ScopedBan → ScopedBan)
    → Accounts lost t bans
    → find_scoped id bans ≡ some b
    → is_live b.state ≡ true
    → ((c : ScopedBan) → (f c).id ≡ c.id)
    → ((side : Bool)
        → (live_prefixes side (f b) ≡ live_prefixes side b)
          × (live_rules side (f b) ≡ live_rules side b))
    → Accounts lost t (update_scoped id f bans)
Accounts-same lost t bans id b f a e live k h =
    Accounts-exchange lost t t bans id b f a e live k (ap (λ n. t.prefixes + n) (sym (h false).0))
      (ap (λ n. t.rules + n) (sym (h false).1)) (ap (λ n. t.global_prefixes + n) (sym (h true).0))
      (ap (λ n. t.global_rules + n) (sym (h true).1)) a.bounded a.globally_bounded

-- A live row dies with its reservation kept: it joins the lost ones.
pub Accounts-lose :
    (lost : List ScopedBan) (t : Tracker) (bans : List ScopedBan) (id : ℕ) (b : ScopedBan)
    (f : ScopedBan → ScopedBan)
    → Accounts lost t bans
    → find_scoped id bans ≡ some b
    → is_live b.state ≡ true
    → ((c : ScopedBan) → (f c).id ≡ c.id)
    → is_live (f b).state ≡ false
    → is_stopped (f b).state ≡ true
    → Accounts (b ∷ lost) t (update_scoped id f bans)
Accounts-lose lost t bans id b f a e live k dead stop =
    let w = live-kept false b live in
    let gw = live-kept true b live in
    let z = dead-zero false (f b) dead in
    let gz = dead-zero true (f b) dead in
    record {
      distinct = AreDistinct-update f id bans k a.distinct;
      prefixes = omega (
        arith,
        w.0,
        z.0,
        a.prefixes,
        total-update (live_prefixes false) f id bans b a.distinct e,
      );
      rules =
          omega
            (arith, w.1, z.1, a.rules, total-update (live_rules false) f id bans b a.distinct e);
      global_prefixes = omega (
        arith,
        gw.0,
        gz.0,
        a.global_prefixes,
        total-update (live_prefixes true) f id bans b a.distinct e,
      );
      global_rules = omega (
        arith,
        gw.1,
        gz.1,
        a.global_rules,
        total-update (live_rules true) f id bans b a.distinct e,
      );
      bounded = a.bounded;
      globally_bounded = a.globally_bounded;
      vetoed = more;
    }
  where
    more : suc (length lost) ≤ total stopped (update_scoped id f bans)
    more = omega (
      arith,
      live-stopped b live,
      stopped-one (f b) stop,
      a.vetoed,
      total-update stopped f id bans b a.distinct e,
    )

-- A reservation that is given back at once restores the tracker, and so does one that is made again.
pub release_for-reserve_for :
    (global : Bool) (n : ℕ) (t u : Tracker)
    → reserve_for global t n ≡ ok u
    → release_for global u n ≡ t
unfolding reserve_for release_for
release_for-reserve_for true n t u e = ground arith
release_for-reserve_for false n t u e = ground arith

pub reserve_for-release_for :
    (global : Bool) (n : ℕ) (t : Tracker)
    → Exceeds global n (release_for global t n) t
    → t.prefixes ≤ global_high_water
    → t.global_prefixes ≤ global_ban_high_water
    → reserve_for global (release_for global t n) n ≡ ok t
unfolding reserve_for release_for
reserve_for-release_for true n t x h k = ground arith
reserve_for-release_for false n t x h k = ground arith

-- A live row takes another number of prefixes, for which there was room once its own were free.
pub Accounts-adjust :
    (lost : List ScopedBan) (t u : Tracker) (bans : List ScopedBan) (id : ℕ) (b : ScopedBan) (n : ℕ)
    (f : ScopedBan → ScopedBan)
    → Accounts lost t bans
    → find_scoped id bans ≡ some b
    → is_live b.state ≡ true
    → ((c : ScopedBan) → (f c).id ≡ c.id)
    → is_live (f b).state ≡ true
    → (f b).global ≡ b.global
    → (f b).prefix_count ≡ n
    → reserve_for b.global (release_for b.global t b.prefix_count) n ≡ ok u
    → Accounts lost u (update_scoped id f bans)
Accounts-adjust lost t u bans id b n f a e live k lives same count r =
    let x = released-Exceeds lost t bans id b a e live in
    let y = reserve_for-Exceeds b.global n (release_for b.global t b.prefix_count) u r in
    let w = live-kept false b live in
    let gw = live-kept true b live in
    let z = live-kept false (f b) lives in
    let gz = live-kept true (f b) lives in
    let bound =
      reserve_for-bounded b.global n (release_for b.global t b.prefix_count) u
        (omega (arith, x.prefixes, a.bounded))
        (omega (arith, x.global_prefixes, a.globally_bounded)) r in
    Accounts-exchange lost t u bans id b f a e live k
      (omega (arith, x.prefixes, y.prefixes, w.0, z.0, moved false))
      (omega (arith, x.rules, y.rules, w.1, z.1, rule false))
      (omega (arith, x.global_prefixes, y.global_prefixes, gw.0, gz.0, moved true))
      (omega (arith, x.global_rules, y.global_rules, gw.1, gz.1, rule true)) bound.0 bound.1
  where
    moved : (side : Bool) → kept_prefixes side (f b) ≡ part side b.global n
    moved side = ap₂ (λ g m. part side g m) same count

    rule : (side : Bool) → kept_rules side (f b) ≡ part side b.global 1
    rule side = ap (λ g. part side g 1) same
