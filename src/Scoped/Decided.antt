-- ===== src/Scoped/Decided.antt =====
-- Approving a scoped ban and the tracker's account: drift of the prefix database, and a late veto.
use xdp_invisible_armor.Common.{
  ℕ, ◌≡◌, ◌⊎◌, refl, sym, ap, ◌∙◌, Bool, true, false, ◌==◌, if◌then◌else◌, List, ◌∷◌, length,
  Option, none, some, Text, codes, Result, ok, err, inl, inr, Bool-cases, Option-cases,
  Result-cases,
}
use mathlib.Core.Path.{subst}
use xdp_invisible_armor.PrefixDb
use xdp_invisible_armor.PrefixDb.{Db}
use xdp_invisible_armor.Quota.{Tracker}
use xdp_invisible_armor.Model.{ScopedBan, Dispatch}
use xdp_invisible_armor.Resolution.{Message}
use xdp_invisible_armor.Dispatch.{
  Database, DispatchError, create_scoped_dispatch, create_global_scoped_dispatch,
}
use xdp_invisible_armor.Requests.{WebFaults, site_guard}
use xdp_invisible_armor.Scoped.{
  Handler, Answer, reserve_for, release_for, find_scoped, update_scoped, scoped_bans, with_bans,
  noted, is_pending,
}
use xdp_invisible_armor.Scoped.Approval.{
  texts, sent_global, sent_scoped, send_scoped, fit_drift, approved_scoped, after_scoped_approval,
  scoped_ban_approve,
}
use xdp_invisible_armor.Scoped.Restore.{is_live}
use xdp_invisible_armor.Scoped.Totals.{find-update}
use xdp_invisible_armor.Scoped.Accounts.{
  Accounts, Accounts-same, Accounts-lose, live_prefixes, live_rules, live-kept, released-Exceeds,
  reserve_for-release_for, Accounts-adjust,
}
use xdp_invisible_armor.Scoped.Reservations.{
  IsAccounted, IsAccounted-noted, noted-bans, answering, found-id, pending-live,
}
use xdp_invisible_armor.Scoped.Blocks.{
  blocked, Blocks, create_scoped_dispatch-Blocks, create_global-Blocks,
}

weighs :
    (user now : ℕ) (b : ScopedBan)
    → is_pending b.state ≡ true
    → (side : Bool)
    → (live_prefixes side (approved_scoped user now b) ≡ live_prefixes side b)
      × (live_rules side (approved_scoped user now b) ≡ live_rules side b)
unfolding approved_scoped
weighs user now b p side =
    let before = live-kept side b (pending-live b p) in
    let after = live-kept side (approved_scoped user now b) refl in
    (after.0 ∙ sym before.0, after.1 ∙ sym before.1)

module _ {M : Type 0} where
  sent_global-bans :
      (h : Handler M) (r : Database × Result DispatchError (List Dispatch × Message))
      → (scoped_bans (sent_global h r).0 ≡ r.0.scoped_bans) × ((sent_global h r).0.quota ≡ h.quota)
  sent_global-bans h (db, ok d) = (refl, refl)
  sent_global-bans h (db, err e) = (refl, refl)

  sent_scoped-bans :
      (faults : WebFaults) (now : ℕ) (sb : ScopedBan) (h : Handler M)
      (r : Database × Result DispatchError (Dispatch × Message))
      → (scoped_bans (sent_scoped faults now sb h r).0 ≡ r.0.scoped_bans)
        × ((sent_scoped faults now sb h r).0.quota ≡ h.quota)
  sent_scoped-bans faults now sb h (db, ok d) = (refl, refl)
  sent_scoped-bans faults now sb h (db, err e) = (refl, refl)

  -- Sending leaves the tracker alone, and the table but for the block of the ban.
  send_scoped-Blocks :
      (faults : WebFaults) (now : ℕ) (sb : ScopedBan) (ps : List Text) (h : Handler M)
      → let r = (send_scoped faults now sb ps h).0 in
        (r.quota ≡ h.quota) × Blocks sb (scoped_bans h) (scoped_bans r)
  unfolding send_scoped
  send_scoped-Blocks faults now sb ps h =
      either sb.global _ _
        (let d =
            create_global_scoped_dispatch (site_guard h.site) faults.store now sb ps h.site.db in
          let (bans, quota) = sent_global-bans h d in
          (
            quota,
            Blocks-eq bans
                (create_global-Blocks (site_guard h.site) faults.store now sb ps h.site.db),
          ))
        (let d = create_scoped_dispatch (site_guard h.site) faults.store now sb ps h.site.db in
          let (bans, quota) = sent_scoped-bans faults now sb h d in
          (
            quota,
            Blocks-eq bans (
                create_scoped_dispatch-Blocks (site_guard h.site) faults.store now sb ps h.site.db),
          ))
    where
      Blocks-eq :
          {x y : List ScopedBan} → x ≡ y → Blocks sb (scoped_bans h) y → Blocks sb (scoped_bans h) x
      Blocks-eq e (inl p) = inl (e ∙ p)
      Blocks-eq e (inr p) = inr (e ∙ p)

      either :
          (g : Bool) (x y : Handler M × Answer)
          → (x.0.quota ≡ h.quota) × Blocks sb (scoped_bans h) (scoped_bans x.0)
          → (y.0.quota ≡ h.quota) × Blocks sb (scoped_bans h) (scoped_bans y.0)
          → ((if g then x else y).0.quota ≡ h.quota)
            × Blocks sb (scoped_bans h) (scoped_bans (if g then x else y).0)
      either true x y p q = p
      either false x y p q = q

  -- The account after an approval: kept, or the ban is blocked and its reservation lost.
  abbrev pub KeptOrLost : List ScopedBan → ℕ → Handler M → Type 0
  KeptOrLost lost id r =
      IsAccounted lost r
      ⊎ ((c : ScopedBan) × IsAccounted (c ∷ lost) r
          × (find_scoped id (scoped_bans r) ≡ some (blocked c)))

  send_scoped-IsAccounted :
      (lost : List ScopedBan) (faults : WebFaults) (now : ℕ) (sb c : ScopedBan) (ps : List Text)
      (h : Handler M)
      → IsAccounted lost h
      → find_scoped sb.id (scoped_bans h) ≡ some c
      → is_live c.state ≡ true
      → KeptOrLost lost sb.id (send_scoped faults now sb ps h).0
  send_scoped-IsAccounted lost faults now sb c ps h a e live =
      let (q, blocks) = send_scoped-Blocks faults now sb ps h in
      elim blocks [
        | inl same ↦ inl (moved lost _ _ _ q same a)
        | inr changed ↦ inr (
          c,
          moved (c ∷ lost) _ _ _ q changed (
              Accounts-lose lost h.quota (scoped_bans h) sb.id c blocked a e live (λ b. refl) refl
                refl),
          ap (find_scoped sb.id) changed
              ∙ find-update blocked sb.id (scoped_bans h) c (λ b. refl) e,
        )
      ]
    where
      moved :
          (some_lost : List ScopedBan) (q : Tracker) (bans after : List ScopedBan)
          → q ≡ h.quota
          → after ≡ bans
          → Accounts some_lost h.quota bans
          → Accounts some_lost q after
      moved some_lost q bans after p s k =
          subst (λ t. Accounts some_lost t after) (sym p)
            (subst (λ bs. Accounts some_lost h.quota bs) (sym s) k)

  -- What the new reservation leads to: the account is kept, and the row of the ban stays live.
  abbrev Fitted : List ScopedBan → ℕ → Result (Handler M) (Handler M) → Type 0
  Fitted lost id (err h) = IsAccounted lost h
  Fitted lost id (ok h) =
      IsAccounted lost h
      × ((c : ScopedBan) × (find_scoped id (scoped_bans h) ≡ some c) × (is_live c.state ≡ true))

  fit_drift-Fitted :
      (lost : List ScopedBan) (faults : WebFaults) (user : ℕ) (label : Text) (now : ℕ)
      (b : ScopedBan) (n : ℕ) (h : Handler M)
      → faults.store.update_fails ≡ false
      → IsAccounted lost h
      → find_scoped b.id (scoped_bans h) ≡ some b
      → is_live b.state ≡ true
      → Fitted lost b.id (fit_drift faults user label now b n h)
  unfolding fit_drift
  fit_drift-Fitted lost faults user label now b n h up a e live =
      elim (Bool-cases (n == b.prefix_count)) [
        | inl same ↦ rw same (a, (b, e, live))
        | inr other ↦
            elim (Result-cases
              (reserve_for b.global (release_for b.global h.quota b.prefix_count) n)) [
                | inr (x, r) ↦
                    rw (fit_drift, other, r, back)
                      (IsAccounted-noted lost faults user label b.id (codes "prefix_drift") now h a)
                | inl (t, r) ↦
                    let resized =
                      λ (c : ScopedBan). record c { prefix_count = n; resolved_at = now } in
                    rw
                      (
                        fit_drift,
                        other,
                        r,
                        up,
                        noted-bans (answering faults) user label b.id (codes "prefix_drift") now h,
                      )
                      (
                        Accounts-adjust lost h.quota t (scoped_bans h) b.id b n resized a e live
                            (λ c. refl) live refl refl r,
                        (resized b, find-update resized b.id (scoped_bans h) b (λ c. refl) e, live),
                      )
              ]
      ]
    where
      back :
          reserve_for b.global (release_for b.global h.quota b.prefix_count) b.prefix_count
          ≡ ok h.quota
      back =
          reserve_for-release_for b.global b.prefix_count h.quota
            (released-Exceeds lost h.quota (scoped_bans h) b.id b a e live) a.bounded
            a.globally_bounded

  after-IsAccounted :
      (lost : List ScopedBan) (faults : WebFaults) (pdb : Option Db) (user : ℕ) (label : Text)
      (now : ℕ) (b : ScopedBan) (h : Handler M)
      → faults.store.update_fails ≡ false
      → IsAccounted lost h
      → find_scoped b.id (scoped_bans h) ≡ some b
      → is_live b.state ≡ true
      → KeptOrLost lost b.id (after_scoped_approval faults pdb user label now b h).0
  unfolding after_scoped_approval
  after-IsAccounted lost faults none user label now b h up a e live = inl a
  after-IsAccounted lost faults (some db) user label now b h up a e live =
      elim (Result-cases (PrefixDb.resolve db (record { country = b.country; asn = b.asn }))) [
        | inr (x, r) ↦ rw (after_scoped_approval, r) (inl a)
        | inl (cidrs, r) ↦
            let fits = fit_drift-Fitted lost faults user label now b (length cidrs) h up a e live in
            elim (Result-cases (fit_drift faults user label now b (length cidrs) h)) [
              | inr (h2, f) ↦ rw (after_scoped_approval, r, f) (inl (rw f at fits))
              | inl (h2, f) ↦
                  let (k, (c, found, lives)) = subst (Fitted lost b.id) f fits in
                  rw (after_scoped_approval, r, f)
                    (send_scoped-IsAccounted lost faults now b c (texts cidrs) h2 k found lives)
            ]
      ]

  -- Approving a ban.
  pub approve-IsAccounted :
      (lost : List ScopedBan) (faults : WebFaults) (pdb : Option Db) (user : ℕ) (label : Text)
      (id now : ℕ) (h : Handler M)
      → faults.store.update_fails ≡ false
      → IsAccounted lost h
      → KeptOrLost lost id (scoped_ban_approve faults pdb user label id now h).0
  unfolding scoped_ban_approve
  approve-IsAccounted lost faults pdb user label id now h up a =
      elim (Option-cases (find_scoped id (scoped_bans h))) [
        | inl n ↦ rw (scoped_ban_approve, n) (inl a)
        | inr (b, e) ↦ elim (Bool-cases (is_pending b.state)) [
          | inr p ↦ rw (scoped_ban_approve, e, p) (inl a)
          | inl p ↦ elim (Bool-cases faults.transaction_fails) [
            | inl f ↦ rw (scoped_ban_approve, e, p, f) (inl a)
            | inr f ↦ rw (scoped_ban_approve, e, p, f) (going b e p)
          ]
        ]
      ]
    where
      going :
          (b : ScopedBan)
          → find_scoped id (scoped_bans h) ≡ some b
          → is_pending b.state ≡ true
          → KeptOrLost lost id
              (after_scoped_approval
                (record faults { transaction_fails = false })
                pdb
                user
                label
                now
                (approved_scoped user now b)
                (noted
                  (record faults { transaction_fails = false })
                  user
                  label
                  id
                  (codes "approved")
                  now
                  (with_bans (update_scoped id (approved_scoped user now) (scoped_bans h)) h))).0
      going b e p =
          let faults2 = record faults { transaction_fails = false } in
          let f = approved_scoped user now in
          let h2 = with_bans (update_scoped id f (scoped_bans h)) h in
          let h3 = noted faults2 user label id (codes "approved") now h2 in
          subst
            (λ n. KeptOrLost lost n (after_scoped_approval faults2 pdb user label now (f b) h3).0)
            (found-id id (scoped_bans h) b e)
            (after-IsAccounted lost faults2 pdb user label now (f b) h3 up
              (IsAccounted-noted lost faults2 user label id (codes "approved") now h2 (
                Accounts-same lost h.quota (scoped_bans h) id b f a e (pending-live b p)
                  (λ c. unfold approved_scoped in refl) (weighs user now b p)))
              (ap (find_scoped b.id) (noted-bans faults2 user label id (codes "approved") now h2)
                ∙ ap (λ n. find_scoped n (update_scoped id f (scoped_bans h)))
                    (found-id id (scoped_bans h) b e)
                ∙ find-update f id (scoped_bans h) b (λ c. unfold approved_scoped in refl) e)
              (unfold approved_scoped in refl))
