-- ===== src/Scoped/Revoked.antt =====
-- What revoking a ban of all targets leaves in the kernel's map.
use xdp_invisible_armor.Common.{
  ℕ, ◌≡◌, ◌⊎◌, refl, sym, ap, ◌∙◌, arith, true, false, List, [], ◌∷◌, All, Option, none, some, Text,
  text_eq, text_eq→eq, codes, lookup, inl, inr, Bool-cases, Option-cases,
}
use mathlib.Core.Path.{subst}
use xdp_invisible_armor.Model.{ScopedBan, Failure, revoked}
use xdp_invisible_armor.Executor.{BanMaps, MapWriter, IsMapWriter, revoke_global, revoke_scoped}
use xdp_invisible_armor.Executor.Writes.{GlobalKey, Removed, revoke_global_lem}
use xdp_invisible_armor.Requests.{WebFaults}
use xdp_invisible_armor.Scoped.{
  Handler, Revoker, done, server_error, find_scoped, update_scoped, scoped_bans, with_bans,
  is_active, release_for,
}
use xdp_invisible_armor.Scoped.Totals.{find-update}
use xdp_invisible_armor.Scoped.Reservations.{noted-bans, answering, found-id}
use xdp_invisible_armor.Scoped.Revocation.{
  scoped_global_dispatch_prefixes, revoke_each, take_back, settle_revoked, revoke_active,
  scoped_ban_revoke,
}

some≢none : {A : Type 0} {a : A} → some a ≡ none → ⊥
some≢none e = cc

module _ {C : Type 0} (w : MapWriter C) where
  -- The executor's maps, as the handlers see them.
  abbrev pub kernel : Revoker (BanMaps C)
  kernel = record { revoke_global = revoke_global w; revoke_scoped = revoke_scoped w }

  -- The key of a target is in no entry of the global map.
  abbrev pub IsGone : BanMaps C → Text → Type 0
  IsGone m target =
      (key : Text) × GlobalKey target key × (lookup key (w.entries m.global_bans) ≡ none)

  revoke_global-absent :
      (law : IsMapWriter w) (target k : Text) (m : BanMaps C)
      → lookup k (w.entries m.global_bans) ≡ none
      → lookup k (w.entries (revoke_global w target m).0.global_bans) ≡ none
  revoke_global-absent law target k m h = elim (revoke_global_lem w law target m) [
    | inr (e, f) ↦ rw f h
    | inl (key, bans, g, r, f) ↦ rw f (elim (Bool-cases (text_eq k key)) [
      | inl same ↦ subst (λ j. lookup j (w.entries bans) ≡ none) (sym (text_eq→eq k key same)) r.0
      | inr other ↦ r.1 k other ∙ h
    ])
  ]

  revoke_each-absent :
      (law : IsMapWriter w) (ps : List Text) (k : Text) (m : BanMaps C)
      → lookup k (w.entries m.global_bans) ≡ none
      → lookup k (w.entries (revoke_each kernel ps m).0.global_bans) ≡ none
  unfolding revoke_each
  revoke_each-absent law [] k m h = h
  revoke_each-absent law (p ∷ ps) k m h =
      let first = revoke_global-absent law p k m h in
      elim (Option-cases (revoke_global w p m).1) [
        | inr (e, f) ↦ rw (revoke_each, f) first
        | inl n ↦ rw (revoke_each, n) (revoke_each-absent law ps k (revoke_global w p m).0 first)
      ]

  abbrev Taken : Text → BanMaps C → Type 0
  Taken target m =
      ((key : Text) × (bans : C) × GlobalKey target key
        × Removed w key m.global_bans bans
        × (revoke_global w target m ≡ (record m { global_bans = bans }, none)))
      ⊎ ((e : Failure) × (revoke_global w target m ≡ (m, some e)))

  -- Revoking one after the other to the end takes every target out of the map.
  revoke_each-IsGone :
      (law : IsMapWriter w) (ps : List Text) (m : BanMaps C)
      → (revoke_each kernel ps m).1 ≡ none
      → All (IsGone (revoke_each kernel ps m).0) ps
  unfolding revoke_each
  revoke_each-IsGone law [] m e = tt
  revoke_each-IsGone law (p ∷ ps) m e = elim (Option-cases (revoke_global w p m).1) [
    | inr (x, f) ↦ absurd (ground (arith, f))
    | inl n ↦
        subst (λ (r : BanMaps C × Option Failure). All (IsGone r.0) (p ∷ ps)) (sym (step n))
          (
            gone n (revoke_global_lem w law p m),
            revoke_each-IsGone law ps (revoke_global w p m).0 (sym (ap (λ r. r.1) (step n)) ∙ e),
          )
  ]
    where
      step :
          (revoke_global w p m).1 ≡ none
          → revoke_each kernel (p ∷ ps) m ≡ revoke_each kernel ps (revoke_global w p m).0
      step n = rw (revoke_each, n) refl

      gone :
          (revoke_global w p m).1 ≡ none
          → Taken p m
          → IsGone (revoke_each kernel ps (revoke_global w p m).0).0 p
      gone n (inr (x, f)) = absurd (some≢none (sym (ap (λ r. r.1) f) ∙ n))
      gone n (inl (key, bans, g, r, f)) =
          (key, g, revoke_each-absent law ps key (revoke_global w p m).0 (rw f (r.0)))

  module _ (faults : WebFaults) (user : ℕ) (label : Text) (id now : ℕ) (h : Handler (BanMaps C))
      (b : ScopedBan) (e : find_scoped id (scoped_bans h) ≡ some b) (a : is_active b.state ≡ true)
      (g : b.global ≡ true) where
    unread :
        scoped_global_dispatch_prefixes faults.store b h.site.db ≡ none
        → take_back kernel faults b h ≡ none
    unfolding take_back
    unread n = simp (g, n)

    taken :
        (ps : List Text)
        → scoped_global_dispatch_prefixes faults.store b h.site.db ≡ some ps
        → take_back kernel faults b h ≡ some (revoke_each kernel ps h.carried)
    unfolding take_back
    taken ps n = simp (g, n)

    unreadable :
        scoped_global_dispatch_prefixes faults.store b h.site.db ≡ none
        → (scoped_ban_revoke kernel faults user label id now h).1 ≡ server_error
    unfolding scoped_ban_revoke revoke_active
    unreadable n = rw (scoped_ban_revoke, e, a, revoke_active, unread n) refl

    stopped_at :
        (ps : List Text) (x : Failure)
        → scoped_global_dispatch_prefixes faults.store b h.site.db ≡ some ps
        → (revoke_each kernel ps h.carried).1 ≡ some x
        → (scoped_ban_revoke kernel faults user label id now h).1 ≡ server_error
    unfolding scoped_ban_revoke revoke_active
    stopped_at ps x n f = rw (scoped_ban_revoke, e, a, revoke_active, taken ps n, f) refl

    settled :
        (ps : List Text)
        → scoped_global_dispatch_prefixes faults.store b h.site.db ≡ some ps
        → (revoke_each kernel ps h.carried).1 ≡ none
        → (scoped_ban_revoke kernel faults user label id now h).0
          ≡ settle_revoked kernel faults user label now b
              (record h { carried = (revoke_each kernel ps h.carried).0 })
    unfolding scoped_ban_revoke revoke_active
    settled ps n f = rw (scoped_ban_revoke, e, a, revoke_active, taken ps n, f) refl

    settled-row :
        (m : BanMaps C)
        → faults.store.update_fails ≡ false
        → find_scoped id
            (scoped_bans (settle_revoked kernel faults user label now b (record h { carried = m })))
          ≡ some (record b { state = revoked; revoked_at = some now })
    unfolding settle_revoked
    settled-row m up =
        let f = λ (c : ScopedBan). record c { state = revoked; revoked_at = some now } in
        rw (settle_revoked, up)
          (ap (find_scoped id) (
              noted-bans (answering faults) user label b.id (codes "rolled_back") now (
                with_bans (update_scoped b.id f (scoped_bans h))
                  (record h { quota = release_for b.global h.quota b.prefix_count; carried = m })))
            ∙ ap (λ n. find_scoped id (update_scoped n f (scoped_bans h)))
                (found-id id (scoped_bans h) b e)
            ∙ find-update f id (scoped_bans h) b (λ c. refl) e)

  refused : server_error ≡ done → ⊥
  refused q = cc

  -- A ban of all targets that is revoked with success: the prefixes of its dispatches could be read,
  -- none of them has an entry in the global map any more, its reservation is given back, and, where
  -- the database takes the update, its row is revoked.
  pub scoped_ban_revoke-IsGone :
      (law : IsMapWriter w) (faults : WebFaults) (user : ℕ) (label : Text) (id now : ℕ)
      (h : Handler (BanMaps C)) (b : ScopedBan)
      → find_scoped id (scoped_bans h) ≡ some b
      → is_active b.state ≡ true
      → b.global ≡ true
      → (scoped_ban_revoke kernel faults user label id now h).1 ≡ done
      → let r = scoped_ban_revoke kernel faults user label id now h in
        (ps : List Text) × (scoped_global_dispatch_prefixes faults.store b h.site.db ≡ some ps)
        × All (IsGone r.0.carried) ps
        × (r.0.quota ≡ release_for true h.quota b.prefix_count)
        × (faults.store.update_fails ≡ false
            → find_scoped id (scoped_bans r.0)
              ≡ some (record b { state = revoked; revoked_at = some now }))
  unfolding settle_revoked
  scoped_ban_revoke-IsGone law faults user label id now h b e a g answered =
      elim (Option-cases (scoped_global_dispatch_prefixes faults.store b h.site.db)) [
        | inl n ↦
            absurd (refused (sym (unreadable faults user label id now h b e a g n) ∙ answered))
        | inr (ps, n) ↦ elim (Option-cases (revoke_each kernel ps h.carried).1) [
          | inr (x, f) ↦
              absurd
                (refused (sym (stopped_at faults user label id now h b e a g ps x n f) ∙ answered))
          | inl f ↦ rw (settled faults user label id now h b e a g ps n f) (
            ps,
            n,
            revoke_each-IsGone law ps h.carried f,
            ap (λ side. release_for side h.quota b.prefix_count) g,
            λ up.
                settled-row faults user label id now h b e a g (revoke_each kernel ps h.carried).0
                  up,
          )
        ]
      ]
