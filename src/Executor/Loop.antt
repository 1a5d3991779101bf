-- ===== src/Executor/Loop.antt =====
-- cmd/xdpban/exec_loop.go: one poll of the executor over the table of dispatches. What the database
-- refuses is an argument, and so is the clock, by the dispatch in hand.
use xdp_invisible_armor.Common.{
  ℕ, ◌+◌, ◌≡◌, ◌≢◌, refl, ap, Bool, true, false, ◌==◌, ==_iff, if◌then◌else◌, List, [], ◌∷◌, ◌++◌,
  map, keep, take, All, none, some, Text, codes, format, Bool-cases, inl, inr,
}
use xdp_invisible_armor.Model.{Failure, bad_payload, pending, acked, failed, Dispatch, AuditLog}
use xdp_invisible_armor.Executor.{MapWriter, BanMaps, apply}

pub record Faults : Type 0 where
  pub find_fails : Bool
  pub update_fails : ℕ → Bool
  pub audit_fails : ℕ → Bool

pub record Node (C : Type 0) : Type 0 where
  pub maps : BanMaps C
  pub dispatches : List Dispatch
  pub audit : List AuditLog

abbrev pub is_pending : Dispatch → Bool
is_pending d = elim d.state [ pending ↦ true | acked ↦ false | failed ↦ false ]

-- `Where("state = ?", "pending").Limit(50)`
abbrev pub batch_size : ℕ
batch_size = 50

abbrev pub pending_rows : List Dispatch → List Dispatch
pending_rows rows = keep is_pending rows

-- `Model(d).Updates(…)`: the row with that primary key.
abbrev pub update_row : ℕ → (Dispatch → Dispatch) → List Dispatch → List Dispatch
update_row id f rows = map (λ r. if r.id == id then f r else r) rows

abbrev entry : ℕ → Text → ℕ → AuditLog
entry id event now = record {
  user_id = none;
  actor_label = codes "executor";
  entity_type = codes "Dispatch";
  entity_id = format id;
  event = event;
  occurred_at = now;
}

module _ {C : Type 0} where
  -- The audit entry is written only after the row, and its own failure is ignored.
  abbrev write_audit : Faults → ℕ → Text → ℕ → Node C → Node C
  write_audit faults id event now n =
      if faults.audit_fails id then n else record n { audit = n.audit ++ entry id event now ∷ [] }

  unfoldable pub mark_acked : Faults → ℕ → Dispatch → Node C → Node C
  mark_acked faults now d n =
      if faults.update_fails d.id
      then n
      else write_audit faults d.id (codes "acked") now (record n {
        dispatches =
            update_row d.id (λ r. record r { state = acked; acked_at = some now }) n.dispatches;
      })

  unfoldable pub mark_failed : Faults → ℕ → Dispatch → Failure → Node C → Node C
  mark_failed faults now d e n =
      if faults.update_fails d.id
      then n
      else write_audit faults d.id (codes "failed") now (record n {
        dispatches =
            update_row d.id
              (λ r. record r { state = failed; last_error = some e; attempts = d.attempts + 1 })
              n.dispatches;
      })

  unfoldable pub execute : MapWriter C → Faults → (ℕ → ℕ) → Dispatch → Node C → Node C
  unfolding mark_acked mark_failed
  execute w faults clock d n = elim d.payload [
    | none ↦ mark_failed faults (clock d.id) d bad_payload n
    | some p ↦
        let (maps, failure) = apply w p (clock d.id) n.maps in
        elim failure [
          | some e ↦ mark_failed faults (clock d.id) d e (record n { maps = maps })
          | none ↦ mark_acked faults (clock d.id) d (record n { maps = maps })
        ]
  ]

  unfoldable pub execute_all : MapWriter C → Faults → (ℕ → ℕ) → List Dispatch → Node C → Node C
  execute_all w faults clock [] n = n
  execute_all w faults clock (d ∷ ds) n = execute_all w faults clock ds (execute w faults clock d n)

  unfoldable pub poll_and_execute : MapWriter C → Faults → (ℕ → ℕ) → Node C → Node C
  unfolding execute_all
  poll_and_execute w faults clock n =
      if faults.find_fails
      then n
      else execute_all w faults clock (take batch_size (pending_rows n.dispatches)) n

-- No two rows have the same primary key.
abbrev pub IsTable : List Dispatch → Type 0
IsTable [] = Unit
IsTable (d ∷ ds) = All (λ r. r.id ≢ d.id) ds × IsTable ds

pub untouched :
    (id : ℕ) (f : Dispatch → Dispatch) (rows : List Dispatch)
    → All (λ r. r.id ≢ id) rows
    → update_row id f rows ≡ rows
untouched id f [] h = refl
untouched id f (r ∷ rs) h = elim (Bool-cases (r.id == id)) [
  | inl e ↦ absurd (h.0 ((==_iff r.id id).0 e))
  | inr e ↦ rw e (ap (λ l. r ∷ l) (untouched id f rs h.1))
]
