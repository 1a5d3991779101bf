-- ===== src/Scoped/Blocks.antt =====
-- What the dispatcher does to the table of scoped bans.
use xdp_invisible_armor.Common.{
  ℕ, ◌≡◌, ◌⊎◌, refl, ◌∙◌, arith, List, [], ◌∷◌, Option, Text, Result, ok, err, inl, inr, Bool-cases,
  Option-cases, Result-cases,
}
use xdp_invisible_armor.Safety.{Guard, assert_safe, assert_safe_all}
use xdp_invisible_armor.Model.{BanPayload, ScopedBan, Dispatch, safety_blocked}
use xdp_invisible_armor.Dispatch.{
  Database, DbFaults, DispatchError, find_or_create, explained, first_with, create_each, create,
  new_dispatch, global_payload, ban_id, global_kind, scoped_payload, parse_all,
  create_scoped_dispatch, create_global_scoped_dispatch,
}
use xdp_invisible_armor.Scoped.{update_scoped}

abbrev pub blocked : ScopedBan → ScopedBan
blocked b = record b { state = safety_blocked }

find_or_create-bans :
    (faults : DbFaults) (now request : ℕ) (approver : Option ℕ) (p : BanPayload) (db : Database)
    → (find_or_create faults now request approver p db).0.scoped_bans ≡ db.scoped_bans
unfolding find_or_create
find_or_create-bans faults now request approver p db =
    elim (Option-cases (first_with faults p.ban_id db)) [
      | inr (d, e) ↦ rw (find_or_create, e) refl
      | inl n ↦ elim (Bool-cases (faults.create_fails p.ban_id)) [
        | inl f ↦ rw (find_or_create, n, f) refl
        | inr f ↦ rw (find_or_create, n, f) (ground arith)
      ]
    ]

explained-bans :
    (source : Text) (r : Database × Result DispatchError Dispatch)
    → (explained source r).0.scoped_bans ≡ r.0.scoped_bans
explained-bans source (db, ok d) = refl
explained-bans source (db, err e) = refl

create_each-bans :
    (faults : DbFaults) (now : ℕ) (sb : ScopedBan) (ps : List Text) (db : Database)
    → (create_each faults now sb ps db).0.scoped_bans ≡ db.scoped_bans
unfolding create_each
create_each-bans faults now sb [] db = refl
create_each-bans faults now sb (p ∷ ps) db =
    elim (Option-cases (first_with faults (ban_id global_kind sb.id p) db)) [
      | inr (d, e) ↦ rw (create_each, e) (create_each-bans faults now sb ps db)
      | inl n ↦ elim (Bool-cases (faults.create_fails (ban_id global_kind sb.id p))) [
        | inl f ↦ rw (create_each, n, f) refl
        | inr f ↦
            rw (create_each, n, f)
              (create_each-bans faults now sb ps
                (create (new_dispatch db now sb.id (global_payload sb p)) db))
      ]
    ]

-- A dispatch leaves the table of bans alone, or blocks the ban.
abbrev pub Blocks : ScopedBan → List ScopedBan → List ScopedBan → Type 0
Blocks sb before after = (after ≡ before) ⊎ (after ≡ update_scoped sb.id blocked before)

pub create_scoped_dispatch-Blocks :
    (guard : Guard) (faults : DbFaults) (now : ℕ) (sb : ScopedBan) (ps : List Text) (db : Database)
    → Blocks sb db.scoped_bans (create_scoped_dispatch guard faults now sb ps db).0.scoped_bans
unfolding create_scoped_dispatch
create_scoped_dispatch-Blocks guard faults now sb ps db =
    elim (Option-cases (assert_safe guard sb.target_ip)) [
      | inr (v, e) ↦ elim (Bool-cases faults.update_fails) [
        | inl f ↦ inl (rw (create_scoped_dispatch, e, f) refl)
        | inr f ↦ inr (rw (create_scoped_dispatch, e, f) refl)
      ]
      | inl n ↦ inl (
          rw (create_scoped_dispatch, n)
            (explained-bans _ _
              ∙ find_or_create-bans faults now sb.id sb.approved_by (scoped_payload sb ps) db))
    ]

pub create_global-Blocks :
    (guard : Guard) (faults : DbFaults) (now : ℕ) (sb : ScopedBan) (ps : List Text) (db : Database)
    → Blocks sb db.scoped_bans
        (create_global_scoped_dispatch guard faults now sb ps db).0.scoped_bans
unfolding create_global_scoped_dispatch
create_global-Blocks guard faults now sb ps db = elim (Result-cases (parse_all ps)) [
  | inr (s, e) ↦ inl (rw (create_global_scoped_dispatch, e) refl)
  | inl (resolved, e) ↦ elim (Option-cases (assert_safe_all guard resolved)) [
    | inr (v, g) ↦ elim (Bool-cases faults.update_fails) [
      | inl f ↦ inl (rw (create_global_scoped_dispatch, e, g, f) refl)
      | inr f ↦ inr (rw (create_global_scoped_dispatch, e, g, f) refl)
    ]
    | inl n ↦ elim (Result-cases (create_each faults now sb ps db).1) [
      | inr (x, k) ↦
          inl (rw (create_global_scoped_dispatch, e, n, k) (create_each-bans faults now sb ps db))
      | inl (ds, k) ↦ inl (
          rw (create_global_scoped_dispatch, e, n, k)
            (ground (arith, create_each-bans faults now sb ps db)))
    ]
  ]
]
