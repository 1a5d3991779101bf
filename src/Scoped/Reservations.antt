-- ===== src/Scoped/Reservations.antt =====
-- Each handler of scoped bans keeps the tracker's account.
use xdp_invisible_armor.Common.{
  ℕ, ◌≡◌, refl, sym, ap, ◌∙◌, arith, Bool, true, false, ◌==◌, ==_iff, find-some, List, [], ◌∷◌,
  ◌++◌, Option, none, some, Text, text_eq, codes, inl, inr, Bool-cases, Option-cases, Result-cases,
}
use mathlib.Core.Path.{subst}
use xdp_invisible_armor.PrefixDb.{Db}
use xdp_invisible_armor.Model.{BanRequest, ScopedBan, rejected, revoked}
use xdp_invisible_armor.Requests.{WebFaults, find_request}
use xdp_invisible_armor.Scoped.{
  Handler, Revoker, reserve_for, release_for, find_scoped, update_scoped, scoped_bans, with_bans,
  noted, is_pending, is_active,
}
use xdp_invisible_armor.Scoped.Creation.{
  Form, admit, fresh_scoped, new_scoped, enter, scoped_ban_create,
}
use xdp_invisible_armor.Scoped.Approval.{scoped_ban_reject}
use xdp_invisible_armor.Scoped.Revocation.{
  take_back, settle_revoked, revoke_active, scoped_ban_revoke, rollback_scoped, rollback_ban,
  settle_request, lookup_rollback,
}
use xdp_invisible_armor.Scoped.Restore.{is_live}
use xdp_invisible_armor.Scoped.Accounts.{
  Accounts, Accounts-enter, Accounts-release, release_for-reserve_for,
}

pub pending-live : (b : ScopedBan) → is_pending b.state ≡ true → is_live b.state ≡ true
pending-live b e = ground arith

pub active-live : (b : ScopedBan) → is_active b.state ≡ true → is_live b.state ≡ true
active-live b e = ground arith

-- The same database, where it answers updates.
abbrev pub answering : WebFaults → WebFaults
answering faults = record faults { store = record (faults.store) { update_fails = false } }

pub found-id :
    (id : ℕ) (bans : List ScopedBan) (b : ScopedBan) → find_scoped id bans ≡ some b → b.id ≡ id
found-id id bans b e = (==_iff b.id id).0 (find-some (λ (x : ScopedBan). x.id == id) bans b e)

module _ {M : Type 0} where
  -- The account of a handler.
  abbrev pub IsAccounted : List ScopedBan → Handler M → Type 0
  IsAccounted lost h = Accounts lost h.quota (scoped_bans h)

  pub noted-bans :
      (faults : WebFaults) (user : ℕ) (label : Text) (id : ℕ) (event : Text) (now : ℕ)
      (h : Handler M)
      → scoped_bans (noted faults user label id event now h) ≡ scoped_bans h
  noted-bans faults user label id event now h = ground arith

  -- An audit entry is no part of the account.
  pub IsAccounted-noted :
      (lost : List ScopedBan) (faults : WebFaults) (user : ℕ) (label : Text) (id : ℕ) (event : Text)
      (now : ℕ) (h : Handler M)
      → IsAccounted lost h
      → IsAccounted lost (noted faults user label id event now h)
  IsAccounted-noted lost faults user label id event now h a =
      subst (λ bans. Accounts lost h.quota bans) (sym (noted-bans faults user label id event now h))
        a

  enter-IsAccounted :
      (lost : List ScopedBan) (faults : WebFaults) (create_fails : Bool) (user : ℕ) (label : Text)
      (sb : ScopedBan) (now : ℕ) (h : Handler M)
      → IsAccounted lost h
      → is_live sb.state ≡ true
      → sb.id ≡ fresh_scoped (scoped_bans h)
      → IsAccounted lost (enter faults create_fails user label sb now h).0
  unfolding enter
  enter-IsAccounted lost faults create_fails user label sb now h a live id =
      elim (Result-cases (reserve_for sb.global h.quota sb.prefix_count)) [
        | inr (x, e) ↦ rw (enter, e) a
        | inl (t, e) ↦ elim (Bool-cases create_fails) [
          | inl f ↦
              rw (enter, e, f)
                (subst (λ q. Accounts lost q (scoped_bans h))
                  (sym (release_for-reserve_for sb.global sb.prefix_count h.quota t e)) a)
          | inr f ↦
              rw (enter, e, f)
                (IsAccounted-noted lost faults user label sb.id _ now
                  (with_bans (scoped_bans h ++ sb ∷ []) (record h { quota = t }))
                  (Accounts-enter lost h.quota t (scoped_bans h) sb a live id e))
        ]
      ]

  -- Creating a ban.
  pub create-IsAccounted :
      (lost : List ScopedBan) (faults : WebFaults) (create_fails : Bool) (pdb : Option Db)
      (user : ℕ) (label : Text) (f : Form) (now : ℕ) (h : Handler M)
      → IsAccounted lost h
      → IsAccounted lost (scoped_ban_create faults create_fails pdb user label f now h).0
  unfolding scoped_ban_create
  create-IsAccounted lost faults create_fails none user label f now h a = a
  create-IsAccounted lost faults create_fails (some db) user label f now h a =
      elim (Option-cases (admit h.site h.quota db f)) [
        | inl e ↦ rw (scoped_ban_create, e) a
        | inr (x, e) ↦
            rw (scoped_ban_create, e)
              (enter-IsAccounted lost faults create_fails user label
                (new_scoped faults user f x now h.site) now h a refl refl)
      ]

  -- Rejecting a ban.
  pub reject-IsAccounted :
      (lost : List ScopedBan) (faults : WebFaults) (user : ℕ) (label : Text) (id now : ℕ)
      (h : Handler M)
      → IsAccounted lost h
      → IsAccounted lost (scoped_ban_reject faults user label id now h).0
  unfolding scoped_ban_reject
  reject-IsAccounted lost faults user label id now h a =
      elim (Option-cases (find_scoped id (scoped_bans h))) [
        | inl n ↦ rw (scoped_ban_reject, n) a
        | inr (b, e) ↦ elim (Bool-cases (is_pending b.state)) [
          | inr p ↦ rw (scoped_ban_reject, e, p) a
          | inl p ↦ elim (Bool-cases faults.store.update_fails) [
            | inl f ↦ rw (scoped_ban_reject, e, p, f) a
            | inr f ↦
                rw (scoped_ban_reject, e, p, f)
                  (IsAccounted-noted lost (answering faults) user label id _ now
                    (with_bans
                      (update_scoped id (λ b. record b { state = rejected }) (scoped_bans h))
                      (record h { quota = release_for b.global h.quota b.prefix_count }))
                    (Accounts-release lost h.quota (scoped_bans h) id b _ a e (pending-live b p)
                      (λ c. refl) refl))
          ]
        ]
      ]

  settle-IsAccounted :
      (rv : Revoker M) (lost : List ScopedBan) (faults : WebFaults) (user : ℕ) (label : Text)
      (now : ℕ) (b : ScopedBan) (h : Handler M)
      → faults.store.update_fails ≡ false
      → IsAccounted lost h
      → find_scoped b.id (scoped_bans h) ≡ some b
      → is_live b.state ≡ true
      → IsAccounted lost (settle_revoked rv faults user label now b h)
  unfolding settle_revoked
  settle-IsAccounted rv lost faults user label now b h up a e live =
      rw (settle_revoked, up)
        (IsAccounted-noted lost (answering faults) user label b.id _ now
          (with_bans
            (update_scoped b.id (λ c. record c { state = revoked; revoked_at = some now })
              (scoped_bans h))
            (record h { quota = release_for b.global h.quota b.prefix_count }))
          (Accounts-release lost h.quota (scoped_bans h) b.id b _ a e live (λ c. refl) refl))

  revoke_active-IsAccounted :
      (rv : Revoker M) (lost : List ScopedBan) (faults : WebFaults) (user : ℕ) (label : Text)
      (now : ℕ) (b : ScopedBan) (h : Handler M)
      → faults.store.update_fails ≡ false
      → IsAccounted lost h
      → find_scoped b.id (scoped_bans h) ≡ some b
      → is_live b.state ≡ true
      → IsAccounted lost (revoke_active rv faults user label now b h).0
  unfolding revoke_active
  revoke_active-IsAccounted rv lost faults user label now b h up a e live =
      elim (Option-cases (take_back rv faults b h)) [
        | inl n ↦ rw (revoke_active, n) a
        | inr (x, t) ↦ elim (Option-cases (x.1)) [
          | inr (y, k) ↦ rw (revoke_active, t, k) a
          | inl k ↦
              rw (revoke_active, t, k)
                (settle-IsAccounted rv lost faults user label now b (record h { carried = x.0 }) up
                  a e live)
        ]
      ]

  -- Revoking a ban.
  pub revoke-IsAccounted :
      (rv : Revoker M) (lost : List ScopedBan) (faults : WebFaults) (user : ℕ) (label : Text)
      (id now : ℕ) (h : Handler M)
      → faults.store.update_fails ≡ false
      → IsAccounted lost h
      → IsAccounted lost (scoped_ban_revoke rv faults user label id now h).0
  unfolding scoped_ban_revoke
  revoke-IsAccounted rv lost faults user label id now h up a =
      elim (Option-cases (find_scoped id (scoped_bans h))) [
        | inl n ↦ rw (scoped_ban_revoke, n) a
        | inr (b, e) ↦ elim (Bool-cases (is_active b.state)) [
          | inr p ↦ rw (scoped_ban_revoke, e, p) a
          | inl p ↦
              rw (scoped_ban_revoke, e, p)
                (revoke_active-IsAccounted rv lost faults user label now b h up a
                  (ap (λ n. find_scoped n (scoped_bans h)) (found-id id (scoped_bans h) b e) ∙ e)
                  (active-live b p))
        ]
      ]

  settled-kept :
      (rv : Revoker M) (faults : WebFaults) (user : ℕ) (label : Text) (id now : ℕ)
      (f : BanRequest → BanRequest) (h : Handler M)
      → scoped_bans (settle_request rv faults user label id now f h) ≡ scoped_bans h
  settled-kept rv faults user label id now f h = ground arith

  rollback_ban-IsAccounted :
      (rv : Revoker M) (lost : List ScopedBan) (faults : WebFaults) (user : ℕ) (label : Text)
      (id now : ℕ) (h : Handler M)
      → IsAccounted lost h
      → IsAccounted lost (rollback_ban rv faults user label id now h).0
  unfolding rollback_ban
  rollback_ban-IsAccounted rv lost faults user label id now h a =
      elim (Option-cases (find_request id h.site.db)) [
        | inl n ↦ rw (rollback_ban, n) a
        | inr (r, e) ↦ elim (Bool-cases (is_pending r.state)) [
          | inl p ↦
              rw (rollback_ban, e, p) (with_equal (settled-kept rv faults user label id now _ h))
          | inr p ↦ elim (Bool-cases (is_active r.state)) [
            | inr q ↦ rw (rollback_ban, e, p, q) a
            | inl q ↦ elim (Option-cases (rv.revoke_global r.target h.carried).1) [
              | inr (x, k) ↦ rw (rollback_ban, e, p, q, k) a
              | inl k ↦
                  rw (rollback_ban, e, p, q, k)
                    (with_equal (
                      settled-kept rv faults user label id now
                        (λ r. record r { state = revoked; cleared_at = some now })
                        (record h { carried = (rv.revoke_global r.target h.carried).0 })))
            ]
          ]
        ]
      ]
    where
      with_equal : {bans : List ScopedBan} → bans ≡ scoped_bans h → Accounts lost h.quota bans
      with_equal q = subst (λ bs. Accounts lost h.quota bs) (sym q) a

  rollback_scoped-IsAccounted :
      (rv : Revoker M) (lost : List ScopedBan) (faults : WebFaults) (user : ℕ) (label : Text)
      (id now : ℕ) (h : Handler M)
      → faults.store.update_fails ≡ false
      → IsAccounted lost h
      → IsAccounted lost (rollback_scoped rv faults user label id now h).0
  unfolding rollback_scoped
  rollback_scoped-IsAccounted rv lost faults user label id now h up a =
      elim (Option-cases (find_scoped id (scoped_bans h))) [
        | inl n ↦ rw (rollback_scoped, n) a
        | inr (b, e) ↦ elim (Bool-cases (is_pending b.state)) [
          | inl p ↦
              rw (rollback_scoped, e, p, up)
                (IsAccounted-noted lost (answering faults) user label id _ now
                  (with_bans (update_scoped id (λ c. record c { state = rejected }) (scoped_bans h))
                    (record h { quota = release_for b.global h.quota b.prefix_count }))
                  (Accounts-release lost h.quota (scoped_bans h) id b _ a e (pending-live b p)
                    (λ c. refl) refl))
          | inr p ↦ elim (Bool-cases (is_active b.state)) [
            | inr q ↦ rw (rollback_scoped, e, p, q) a
            | inl q ↦
                rw (rollback_scoped, e, p, q)
                  (revoke_active-IsAccounted rv lost faults user label now b h up a
                    (ap (λ n. find_scoped n (scoped_bans h)) (found-id id (scoped_bans h) b e) ∙ e)
                    (active-live b q))
          ]
        ]
      ]

  -- The rollback of the lookup page.
  pub lookup_rollback-IsAccounted :
      (rv : Revoker M) (lost : List ScopedBan) (faults : WebFaults) (kind : Text) (user : ℕ)
      (label : Text) (id now : ℕ) (h : Handler M)
      → faults.store.update_fails ≡ false
      → IsAccounted lost h
      → IsAccounted lost (lookup_rollback rv faults kind user label id now h).0
  unfolding lookup_rollback
  lookup_rollback-IsAccounted rv lost faults kind user label id now h up a =
      elim (Bool-cases (text_eq kind (codes "ban"))) [
        | inl e ↦ rw e (rollback_ban-IsAccounted rv lost faults user label id now h a)
        | inr e ↦ elim (Bool-cases (text_eq kind (codes "scoped"))) [
          | inl f ↦ rw (e, f) (rollback_scoped-IsAccounted rv lost faults user label id now h up a)
          | inr f ↦ rw (e, f) a
        ]
      ]
