-- ===== src/Requests/Approval.antt =====
-- What an approval leads to.
use xdp_invisible_armor.Common.{
  ℕ, ◌≡◌, inl, inr, refl, sym, ap, ◌∙◌, arith, true, false, ◌==◌, ==_iff, if◌then◌else◌, List, [],
  ◌∷◌, map, find, find-some, Option, none, some, some_inj, Option-cases, Bool-cases, Text, codes,
  Result, ok, err,
}
use xdp_invisible_armor.Model.{BanState, active, safety_blocked, BanRequest, Dispatch, AuditLog}
use xdp_invisible_armor.Safety.{Veto, assert_safe}
use xdp_invisible_armor.Resolution.{Message}
use xdp_invisible_armor.Dispatch.{
  Database, DbFaults, DispatchError, write_audit, create_dispatch, block_request,
}
use xdp_invisible_armor.Dispatch.Rows.{blocked, create_dispatch-requests}
use xdp_invisible_armor.Requests.{
  Site, WebFaults, done, forbidden, find_request, update_request, is_requested, approved, entry,
  site_guard, concluded, after_approval, ban_approve,
}
use xdp_invisible_armor.Requests.Decisions.{state_of}

find-updated :
    (id : ℕ) (f : BanRequest → BanRequest) (rs : List BanRequest) (r : BanRequest)
    → ((x : BanRequest) → (f x).id ≡ x.id)
    → find (λ (x : BanRequest). x.id == id) rs ≡ some r
    → find
        (λ (x : BanRequest). x.id == id)
        (map (λ (x : BanRequest). if x.id == id then f x else x) rs)
      ≡ some (f r)
find-updated id f [] r k e = absurd (ground arith)
find-updated id f (x ∷ xs) r k e = elim (Bool-cases (x.id == id)) [
  | inr h ↦ rw (h, h) (find-updated id f xs r k (sym (rw h refl) ∙ e))
  | inl h ↦
      rw (h, ap (λ n. n == id) (k x) ∙ h) (ap (λ y. some (f y)) (some_inj (sym (rw h refl) ∙ e)))
]

vetoed-approval :
    (faults : WebFaults) (now : ℕ) (log : AuditLog) (req : BanRequest) (s : Site) (veto : Veto)
    → assert_safe (site_guard s) req.target ≡ some veto
    → after_approval faults now log req s ≡ (
      record s { db = block_request faults.store req.id (write_audit faults.store log s.db) },
      forbidden,
    )
unfolding after_approval
vetoed-approval faults now log req s veto e =
    ap (concluded faults now req s)
      (blocked (site_guard s) faults.store now req (write_audit faults.store log s.db) veto e)

refused : forbidden ≡ done → ⊥
refused e = cc

concluded-requests :
    (faults : WebFaults) (now : ℕ) (req : BanRequest) (s : Site)
    → (r : Database × Result DispatchError (Dispatch × Message))
    → (concluded faults now req s r).1 ≡ done
    → (concluded faults now req s r).0.db.requests ≡ r.0.requests
concluded-requests faults now req s (db, ok d) h = refl
concluded-requests faults now req s (db, err e) h = absurd (refused h)

done-approval :
    (faults : WebFaults) (now : ℕ) (log : AuditLog) (req : BanRequest) (s : Site)
    → (after_approval faults now log req s).1 ≡ done
    → (assert_safe (site_guard s) req.target ≡ none)
      × ((after_approval faults now log req s).0.db.requests ≡ s.db.requests)
unfolding after_approval
done-approval faults now log req s h = elim (Option-cases (assert_safe (site_guard s) req.target)) [
  | inr (veto, e) ↦
      absurd (refused (ap (λ r. r.1) (sym (vetoed-approval faults now log req s veto e)) ∙ h))
  | inl e ↦ (
    e,
    concluded-requests faults now req s
          (create_dispatch (site_guard s) faults.store now req (write_audit faults.store log s.db))
          h
        ∙ create_dispatch-requests (site_guard s) faults.store now req
            (write_audit faults.store log s.db) e
        ∙ audited faults.store log s.db,
  )
]
  where
    audited :
        (f : DbFaults) (log : AuditLog) (db : Database)
        → (write_audit f log db).requests ≡ db.requests
    audited f log db = ground arith

approve_step :
    (faults : WebFaults) (user : ℕ) (label : Text) (id now : ℕ) (s : Site) (req : BanRequest)
    → find_request id s.db ≡ some req
    → is_requested req.state ≡ true
    → faults.transaction_fails ≡ false
    → ban_approve faults user label id now s
      ≡ after_approval faults now
          (entry user label id (codes "approved") now)
          (approved user [] now req)
          (record s { db = update_request id (approved user [] now) s.db })
unfolding ban_approve
approve_step faults user label id now s req e g h = simp (ban_approve, e, g, h)

updated :
    (id user now : ℕ) (s : Site) (req : BanRequest)
    → find_request id s.db ≡ some req
    → find_request id (update_request id (approved user [] now) s.db)
      ≡ some (approved user [] now req)
unfolding approved
updated id user now s req e = find-updated id (approved user [] now) s.db.requests req (λ x. refl) e

approved-target : (user now : ℕ) (req : BanRequest) → (approved user [] now req).target ≡ req.target
unfolding approved
approved-target user now req = refl

abbrev state_in : Option BanRequest → Option BanState
state_in none = none
state_in (some r) = some r.state

blocked-state :
    (faults : DbFaults) (log : AuditLog) (id key : ℕ) (db : Database) (r : BanRequest)
    → faults.update_fails ≡ false
    → key ≡ id
    → find_request id db ≡ some r
    → find_request id (block_request faults key (write_audit faults log db))
      ≡ some (record r { state = safety_blocked })
blocked-state faults log id key db r u k e =
    ap (λ n. find_request id (block_request faults n (write_audit faults log db))) k
    ∙ ap (λ rs. find (λ (x : BanRequest). x.id == id) rs) (rows id)
    ∙ find-updated id (λ x. record x { state = safety_blocked }) db.requests r (λ x. refl) e
  where
    audited : (write_audit faults log db).requests ≡ db.requests
    audited = ground arith

    rows :
        (n : ℕ)
        → (block_request faults n (write_audit faults log db)).requests
          ≡ map
              (λ (x : BanRequest). if x.id == n then record x { state = safety_blocked } else x)
              db.requests
    rows n = ground (arith, u)

blocked-dispatches :
    (faults : DbFaults) (log : AuditLog) (key : ℕ) (db : Database)
    → (block_request faults key (write_audit faults log db)).dispatches ≡ db.dispatches
blocked-dispatches faults log key db = ground arith

-- Approving a pending request, where the transaction succeeds. If the guard vetoes its target, the
-- answer is a refusal, no dispatch is added, the ladder does not move, and the request ends as blocked
-- where the database takes that state. If the answer is that it is done, the guard allows the target and
-- the request is active.
pub ban_approve_lem :
    (faults : WebFaults) (user : ℕ) (label : Text) (id now : ℕ) (s : Site) (req : BanRequest)
    → find_request id s.db ≡ some req
    → is_requested req.state ≡ true
    → faults.transaction_fails ≡ false
    → let r = ban_approve faults user label id now s in
      ((veto : Veto)
        → assert_safe (site_guard s) req.target ≡ some veto
        → (r.1 ≡ forbidden)
          × (r.0.db.dispatches ≡ s.db.dispatches)
          × (r.0.ladders ≡ s.ladders)
          × (faults.store.update_fails ≡ false → state_of id r.0 ≡ some safety_blocked))
      × (r.1 ≡ done
          → (assert_safe (site_guard s) req.target ≡ none) × (state_of id r.0 ≡ some active))
unfolding site_guard approved
ban_approve_lem faults user label id now s req e g h =
    rw (approve_step faults user label id now s req e g h) (
      λ veto f.
          let step = vetoed-approval faults now log (approved user [] now req) after veto f in
          (
            ap (λ r. r.1) step,
            ap (λ r. r.0.db.dispatches) step ∙ blocked-dispatches faults.store log req.id after.db,
            ap (λ r. r.0.ladders) step,
            λ u.
                ap (λ r. state_in (find_request id r.0.db)) step
                ∙ ap state_in (
                    blocked-state faults.store log id req.id after.db (approved user [] now req) u
                      same_id (updated id user now s req e)),
          ),
      λ f.
          let facts = done-approval faults now log (approved user [] now req) after f in
          (
            facts.0,
            ap (λ rs. state_in (find (λ (x : BanRequest). x.id == id) rs)) facts.1
                ∙ ap state_in (updated id user now s req e),
          ),
    )
  where
    log : AuditLog
    log = entry user label id (codes "approved") now

    after : Site
    after = record s { db = update_request id (approved user [] now) s.db }

    same_id : req.id ≡ id
    same_id = (==_iff req.id id).0 (find-some (λ (x : BanRequest). x.id == id) s.db.requests req e)
