-- ===== src/Executor/Settling.antt =====
-- Each poll settles the oldest pending dispatches, and only those.
use xdp_invisible_armor.Common.{
  ℕ, zero, suc, ◌+◌, ◌≡◌, ◌≢◌, refl, sym, ap, ◌∙◌, arith, false, ◌==◌, ==_iff, List, [], ◌∷◌, take,
  drop, All, some, Option-cases, Bool-cases, inl, inr,
}
use mathlib.Core.Path.{subst}
use mathlib.Core.List.{head-eq_of_cons-eq, tail-eq_of_cons-eq}
use xdp_invisible_armor.Model.{Failure, bad_payload, acked, failed, Dispatch}
use xdp_invisible_armor.Executor.{MapWriter, apply}
use xdp_invisible_armor.Executor.Loop.{
  Faults, Node, is_pending, batch_size, pending_rows, update_row, IsTable, mark_acked, mark_failed,
  execute, execute_all, poll_and_execute, untouched,
}

-- A change that settles a row and keeps its primary key.
pub record IsSettling (f : Dispatch → Dispatch) : Type 0 where
  pub key : (r : Dispatch) → (f r).id ≡ r.id
  pub settled : (r : Dispatch) → is_pending (f r) ≡ false

update-differs :
    (id x : ℕ) (f : Dispatch → Dispatch) (rows : List Dispatch)
    → IsSettling f
    → All (λ r. r.id ≢ x) rows
    → All (λ r. r.id ≢ x) (update_row id f rows)
update-differs id x f [] s h = tt
update-differs id x f (r ∷ rs) s h = elim (Bool-cases (r.id == id)) [
  | inl e ↦ rw e ((λ q. h.0 (sym (s.key r) ∙ q)), update-differs id x f rs s h.1)
  | inr e ↦ rw e (h.0, update-differs id x f rs s h.1)
]

update-IsTable :
    (id : ℕ) (f : Dispatch → Dispatch) (rows : List Dispatch)
    → IsSettling f
    → IsTable rows
    → IsTable (update_row id f rows)
update-IsTable id f [] s h = tt
update-IsTable id f (r ∷ rs) s h = elim (Bool-cases (r.id == id)) [
  | inl e ↦ rw e (
    subst (λ x. All (λ y. y.id ≢ x) (update_row id f rs)) (sym (s.key r))
        (update-differs id r.id f rs s h.0),
    update-IsTable id f rs s h.1,
  )
  | inr e ↦ rw e (update-differs id r.id f rs s h.0, update-IsTable id f rs s h.1)
]

-- Settling the first pending row takes it, and no other, from the pending rows.
settle-first :
    (f : Dispatch → Dispatch) (rows rest : List Dispatch) (d : Dispatch)
    → IsSettling f
    → IsTable rows
    → pending_rows rows ≡ d ∷ rest
    → pending_rows (update_row d.id f rows) ≡ rest
settle-first f [] rest d s h e = absurd (ground arith)
settle-first f (r ∷ rs) rest d s h e = elim (Bool-cases (is_pending r)) [
  | inl p ↦ taken (sym (rw p refl) ∙ e)
  | inr p ↦ elim (Bool-cases (r.id == d.id)) [
    | inl q ↦ rw (q, s.settled r) (settle-first f rs rest d s h.1 (sym (rw p refl) ∙ e))
    | inr q ↦ rw (q, p) (settle-first f rs rest d s h.1 (sym (rw p refl) ∙ e))
  ]
]
  where
    taken : r ∷ pending_rows rs ≡ d ∷ rest → pending_rows (update_row d.id f (r ∷ rs)) ≡ rest
    taken g =
        let same = head-eq_of_cons-eq g in
        let here = (==_iff r.id d.id).1 (ap (λ x. x.id) same) in
        rw (here, s.settled r)
          (ap pending_rows
              (untouched d.id f rs (subst (λ x. All (λ y. y.id ≢ x) rs) (ap (λ x. x.id) same) h.0))
            ∙ tail-eq_of_cons-eq g)

module _ {C : Type 0} (w : MapWriter C) (faults : Faults) (clock : ℕ → ℕ) where
  -- The rows after one dispatch: one settling change of its row.
  abbrev Settles : Dispatch → List Dispatch → List Dispatch → Type 0
  Settles d before after =
      (f : Dispatch → Dispatch) × IsSettling f × (after ≡ update_row d.id f before)

  mark_acked-Settles :
      (now : ℕ) (d : Dispatch) (n : Node C)
      → faults.update_fails d.id ≡ false
      → Settles d n.dispatches (mark_acked faults now d n).dispatches
  unfolding mark_acked
  mark_acked-Settles now d n h = (
    λ r. record r { state = acked; acked_at = some now },
    record { key = λ r. refl; settled = λ r. refl },
    ground (arith, h),
  )

  mark_failed-Settles :
      (now : ℕ) (d : Dispatch) (e : Failure) (n : Node C)
      → faults.update_fails d.id ≡ false
      → Settles d n.dispatches (mark_failed faults now d e n).dispatches
  unfolding mark_failed
  mark_failed-Settles now d e n h = (
    λ r. record r { state = failed; last_error = some e; attempts = d.attempts + 1 },
    record { key = λ r. refl; settled = λ r. refl },
    ground (arith, h),
  )

  execute-Settles :
      (d : Dispatch) (n : Node C)
      → faults.update_fails d.id ≡ false
      → Settles d n.dispatches (execute w faults clock d n).dispatches
  unfolding execute
  execute-Settles d n h = elim (Option-cases d.payload) [
    | inl e ↦ rw (execute, e) (mark_failed-Settles (clock d.id) d bad_payload n h)
    | inr (p, e) ↦ elim (Option-cases (apply w p (clock d.id) n.maps).1) [
      | inl f ↦ rw (execute, e, f) (mark_acked-Settles (clock d.id) d (record n { maps = _ }) h)
      | inr (x, f) ↦
          rw (execute, e, f) (mark_failed-Settles (clock d.id) d x (record n { maps = _ }) h)
    ]
  ]

  all_settled :
      (k : ℕ) (ps : List Dispatch) (n : Node C)
      → ((id : ℕ) → faults.update_fails id ≡ false)
      → IsTable n.dispatches
      → pending_rows n.dispatches ≡ ps
      → IsTable (execute_all w faults clock (take k ps) n).dispatches
        × (pending_rows (execute_all w faults clock (take k ps) n).dispatches ≡ drop k ps)
  unfolding execute_all
  all_settled zero ps n u t e = (t, e)
  all_settled (suc k) [] n u t e = (t, e)
  all_settled (suc k) (d ∷ ps) n u t e =
      let (f, s, q) = execute-Settles d n (u d.id) in
      all_settled k ps (execute w faults clock d n) u
        (subst IsTable (sym q) (update-IsTable d.id f n.dispatches s t))
        (ap pending_rows q ∙ settle-first f n.dispatches ps d s t e)

  -- Where the database answers and no two dispatches share a primary key, a poll leaves exactly the
  -- pending dispatches after the first fifty, and primary keys stay distinct.
  pub poll_and_execute-pending :
      (n : Node C)
      → faults.find_fails ≡ false
      → ((id : ℕ) → faults.update_fails id ≡ false)
      → IsTable n.dispatches
      → IsTable (poll_and_execute w faults clock n).dispatches
        × (pending_rows (poll_and_execute w faults clock n).dispatches
            ≡ drop batch_size (pending_rows n.dispatches))
  unfolding poll_and_execute execute
  poll_and_execute-pending n h u t =
      rw (poll_and_execute, h) (all_settled batch_size (pending_rows n.dispatches) n u t refl)
