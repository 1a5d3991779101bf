-- ===== src/Dispatch/Rows.antt =====
-- What one call of the dispatcher leaves in the table.
use xdp_invisible_armor.Common.{
  some_inj, ℕ, ◌≡◌, ◌⊎◌, inl, inr, refl, sym, ap, ◌∙◌, arith, Bool, true, false, List, [], ◌∷◌,
  ◌++◌, find, All, All-append, Option, none, some, Option-cases, Bool-cases, Text, text_eq,
  text_eq→eq, text_eq_self, Result, ok, err,
}
use mathlib.Core.Path.{subst}
use xdp_invisible_armor.Safety.{Guard, Veto, assert_safe}
use xdp_invisible_armor.Resolution.{Message}
use xdp_invisible_armor.Model.{BanPayload, Dispatch, BanRequest}
use xdp_invisible_armor.Dispatch.{
  Database, DbFaults, DispatchError, vetoed, create_failed, first_with, new_dispatch,
  find_or_create, create_dispatch, ban_id, plain_kind, request_payload, block_request, explained,
  manual_message,
}

-- No two dispatches are for the same ban.
abbrev pub IsUnique : List Dispatch → Type 0
IsUnique [] = Unit
IsUnique (d ∷ ds) = All (λ (r : Dispatch). text_eq r.ban_id d.ban_id ≡ false) ds × IsUnique ds

find-none :
    (id : Text) (ds : List Dispatch)
    → find (λ d. text_eq d.ban_id id) ds ≡ none
    → All (λ (d : Dispatch). text_eq d.ban_id id ≡ false) ds
find-none id [] h = tt
find-none id (d ∷ ds) h = elim (Bool-cases (text_eq d.ban_id id)) [
  | inl e ↦ absurd (ground (arith, e))
  | inr e ↦ (e, find-none id ds (ground (arith, e)))
]

eq_sym : (s t : Text) → text_eq s t ≡ false → text_eq t s ≡ false
eq_sym s t e = elim (Bool-cases (text_eq t s)) [
  | inr f ↦ f
  | inl f ↦ absurd (clash (text_eq→eq t s f))
]
  where
    false≢true : false ≡ true → ⊥
    false≢true q = cc

    clash : t ≡ s → ⊥
    clash q = false≢true (sym e ∙ ap (λ x. text_eq s x) q ∙ text_eq_self s)

pub append-IsUnique :
    (ds : List Dispatch) (d : Dispatch)
    → IsUnique ds
    → All (λ (r : Dispatch). text_eq r.ban_id d.ban_id ≡ false) ds
    → IsUnique (ds ++ d ∷ [])
append-IsUnique [] d h k = (tt, tt)
append-IsUnique (r ∷ rs) d h k = (
  All-append (λ (x : Dispatch). text_eq x.ban_id r.ban_id ≡ false) rs (d ∷ []) h.0
      (eq_sym _ _ k.0, tt),
  append-IsUnique rs d h.1 k.1,
)

-- The row was there, or the insertion failed, or the row is new and the last.
pub find_or_create-cases :
    (faults : DbFaults) (now request : ℕ) (approver : Option ℕ) (p : BanPayload) (db : Database)
    → let r = find_or_create faults now request approver p db in
      ((d : Dispatch) × (first_with faults p.ban_id db ≡ some d) × (r ≡ (db, ok d)))
      ⊎ ((r ≡ (db, err create_failed))
          ⊎ ((first_with faults p.ban_id db ≡ none)
              × (r.1 ≡ ok (new_dispatch db now request p))
              × (r.0.dispatches ≡ db.dispatches ++ new_dispatch db now request p ∷ [])))
unfolding find_or_create
find_or_create-cases faults now request approver p db =
    elim (Option-cases (first_with faults p.ban_id db)) [
      | inr (d, e) ↦ inl (d, e, rw (find_or_create, e) refl)
      | inl n ↦ elim (Bool-cases (faults.create_fails p.ban_id)) [
        | inl f ↦ inr (inl (rw (find_or_create, n, f) refl))
        | inr f ↦ elim (Bool-cases faults.audit_fails) [
          | inl g ↦ inr (inr (n, rw (find_or_create, n, f) refl, rw (find_or_create, n, f, g) refl))
          | inr g ↦ inr (inr (n, rw (find_or_create, n, f) refl, rw (find_or_create, n, f, g) refl))
        ]
      ]
    ]

find-append :
    (p : Dispatch → Bool) (ds : List Dispatch) (d : Dispatch)
    → find p ds ≡ none
    → p d ≡ true
    → find p (ds ++ d ∷ []) ≡ some d
find-append p [] d h k = rw k refl
find-append p (x ∷ xs) d h k = elim (Bool-cases (p x)) [
  | inl e ↦ absurd (ground (arith, e))
  | inr e ↦ rw e (find-append p xs d (ground (arith, e)) k)
]

ok_inj : {A : Type 0} {x y : A} → ◌≡◌ {A = Result DispatchError A} (ok x) (ok y) → x ≡ y
ok_inj e = cc

err≢ok :
    {A : Type 0} {x : DispatchError} {y : A} → ◌≡◌ {A = Result DispatchError A} (err x) (ok y) → ⊥
err≢ok e = cc

listed :
    (faults : DbFaults) (id : Text) (db : Database)
    → faults.find_fails id ≡ false
    → first_with faults id db ≡ find (λ d. text_eq d.ban_id id) db.dispatches
listed faults id db h = ground (arith, h)

-- The row that is returned is the one in the table under the ban's id, and ids stay unique.
pub find_or_create_lem :
    (faults : DbFaults) (now request : ℕ) (approver : Option ℕ) (p : BanPayload) (db : Database)
    → faults.find_fails p.ban_id ≡ false
    → IsUnique db.dispatches
    → let r = find_or_create faults now request approver p db in
      IsUnique r.0.dispatches
      × ((d : Dispatch) → r.1 ≡ ok d → first_with faults p.ban_id r.0 ≡ some d)
find_or_create_lem faults now request approver p db h u =
    elim (find_or_create-cases faults now request approver p db) [
      | inl (d, e, f) ↦ rw f (u, λ x q. e ∙ ap some (ok_inj q))
      | inr (inl f) ↦ rw f (u, λ x q. absurd (err≢ok q))
      | inr (inr (n, e, f)) ↦
          let fresh = sym (listed faults p.ban_id db h) ∙ n in
          (
            subst IsUnique (sym f)
                (append-IsUnique db.dispatches _ u (find-none p.ban_id db.dispatches fresh)),
            λ x q.
                listed faults p.ban_id (find_or_create faults now request approver p db).0 h
                ∙ ap (λ l. find (λ d. text_eq d.ban_id p.ban_id) l) f
                ∙ find-append (λ d. text_eq d.ban_id p.ban_id) db.dispatches _ fresh
                    (text_eq_self p.ban_id)
                ∙ ap some (ok_inj (sym e ∙ q)),
          )
    ]

explained-ok :
    (source : Text) (r : Database × Result DispatchError Dispatch) (x : Dispatch × Message)
    → (explained source r).1 ≡ ok x
    → (r.1 ≡ ok x.0) × (x.1 ≡ manual_message source)
explained-ok source (db, ok d) x e = (ap (λ t. ok t.0) (ok_inj e), sym (ap (λ t. t.1) (ok_inj e)))
explained-ok source (db, err y) x e = absurd (err≢ok e)

explained-db :
    (source : Text) (r : Database × Result DispatchError Dispatch) → (explained source r).0 ≡ r.0
explained-db source (db, ok d) = refl
explained-db source (db, err y) = refl

find_or_create-again :
    (faults : DbFaults) (later request : ℕ) (approver : Option ℕ) (p : BanPayload) (db : Database)
    (d : Dispatch)
    → first_with faults p.ban_id db ≡ some d
    → find_or_create faults later request approver p db ≡ (db, ok d)
unfolding find_or_create
find_or_create-again faults later request approver p db d e = rw (find_or_create, e) refl

pub blocked :
    (guard : Guard) (faults : DbFaults) (now : ℕ) (req : BanRequest) (db : Database) (veto : Veto)
    → assert_safe guard req.target ≡ some veto
    → create_dispatch guard faults now req db ≡ (block_request faults req.id db, err (vetoed veto))
unfolding create_dispatch
blocked guard faults now req db veto e = rw (create_dispatch, e) refl

allowed :
    (guard : Guard) (faults : DbFaults) (now : ℕ) (req : BanRequest) (db : Database)
    → assert_safe guard req.target ≡ none
    → create_dispatch guard faults now req db
      ≡ explained req.source
          (find_or_create faults now req.id req.approved_by (request_payload req) db)
unfolding create_dispatch
allowed guard faults now req db e = rw (create_dispatch, e) refl

block_request-dispatches :
    (faults : DbFaults) (id : ℕ) (db : Database)
    → (block_request faults id db).dispatches ≡ db.dispatches
block_request-dispatches faults id db = ground arith

-- A request whose target the guard vetoes gets no dispatch. Where its lookup works and ids are
-- unique, a request that gets a dispatch has the guard's leave, ids stay unique, and asking again,
-- at any later time, gives the same dispatch and changes nothing.
pub create_dispatch_lem :
    (guard : Guard) (faults : DbFaults) (now : ℕ) (req : BanRequest) (db : Database)
    → faults.find_fails (ban_id plain_kind req.id req.target) ≡ false
    → IsUnique db.dispatches
    → let r = create_dispatch guard faults now req db in
      ((veto : Veto)
        → assert_safe guard req.target ≡ some veto
        → (r.1 ≡ err (vetoed veto)) × (r.0.dispatches ≡ db.dispatches))
      × ((x : Dispatch × Message)
          → r.1 ≡ ok x
          → (assert_safe guard req.target ≡ none)
            × IsUnique r.0.dispatches
            × ((later : ℕ) → create_dispatch guard faults later req r.0 ≡ (r.0, ok x)))
create_dispatch_lem guard faults now req db h u =
    elim (Option-cases (assert_safe guard req.target)) [
      | inr (veto, e) ↦ rw (blocked guard faults now req db veto e) (
        λ v f. (
          ap (λ o. err (vetoed o)) (some_inj (sym e ∙ f)),
          block_request-dispatches faults req.id db,
        ),
        λ x f. absurd (err≢ok f),
      )
      | inl e ↦
          rw (allowed guard faults now req db e)
            (λ v f. absurd (none≢some (sym e ∙ f)), λ x f. made e x f)
    ]
  where
    none≢some : {v : Veto} → none ≡ some v → ⊥
    none≢some e = cc

    row : Database × Result DispatchError Dispatch
    row = find_or_create faults now req.id req.approved_by (request_payload req) db

    facts :
        IsUnique row.0.dispatches
        × ((d : Dispatch)
            → row.1 ≡ ok d
            → first_with faults (request_payload req).ban_id row.0 ≡ some d)
    facts = find_or_create_lem faults now req.id req.approved_by (request_payload req) db h u

    repeat :
        assert_safe guard req.target ≡ none
        → (x : Dispatch × Message) → (explained req.source row).1 ≡ ok x
        → (later : ℕ) → create_dispatch guard faults later req row.0 ≡ (row.0, ok x)
    repeat e x f later =
        allowed guard faults later req row.0 e
        ∙ ap (explained req.source) (
            find_or_create-again faults later req.id req.approved_by (request_payload req) row.0 x.0
              (facts.1 x.0 (explained-ok req.source row x f).0))
        ∙ ap (λ m. (row.0, ok (x.0, m))) (sym (explained-ok req.source row x f).1)

    made :
        assert_safe guard req.target ≡ none
        → (x : Dispatch × Message) → (explained req.source row).1 ≡ ok x
        → (assert_safe guard req.target ≡ none)
          × IsUnique (explained req.source row).0.dispatches
          × ((later : ℕ)
              → create_dispatch guard faults later req (explained req.source row).0
                ≡ ((explained req.source row).0, ok x))
    made e x f = rw (explained-db req.source row) (e, facts.0, repeat e x f)

-- A dispatch that the guard allows leaves the requests alone.
pub create_dispatch-requests :
    (guard : Guard) (faults : DbFaults) (now : ℕ) (req : BanRequest) (db : Database)
    → assert_safe guard req.target ≡ none
    → (create_dispatch guard faults now req db).0.requests ≡ db.requests
unfolding find_or_create
create_dispatch-requests guard faults now req db e =
    ap (λ r. r.0.requests) (allowed guard faults now req db e)
    ∙ ap (λ d. d.requests) (explained-db req.source _)
    ∙ kept faults now req.id req.approved_by (request_payload req) db
  where
    kept :
        (faults : DbFaults) (now request : ℕ) (approver : Option ℕ) (p : BanPayload) (db : Database)
        → (find_or_create faults now request approver p db).0.requests ≡ db.requests
    kept faults now request approver p db = elim (Option-cases (first_with faults p.ban_id db)) [
      | inr (d, e) ↦ rw (find_or_create, e) refl
      | inl n ↦ elim (Bool-cases (faults.create_fails p.ban_id)) [
        | inl f ↦ rw (find_or_create, n, f) refl
        | inr f ↦ elim (Bool-cases faults.audit_fails) [
          | inl g ↦ rw (find_or_create, n, f, g) refl
          | inr g ↦ rw (find_or_create, n, f, g) refl
        ]
      ]
    ]
