-- ===== src/Requests/Decisions.antt =====
-- A request is decided once.
use xdp_invisible_armor.Common.{
  ℕ, ◌≡◌, ◌⊎◌, inl, inr, refl, ap, ◌∙◌, arith, Bool, true, false, List, [], ◌∷◌, find, Option, none,
  some, Option-cases, Bool-cases, Text, text_eq, Result, ok, err,
}
use xdp_invisible_armor.Model.{BanState, BanRequest, Dispatch, ApprovalToken, AuditLog}
use xdp_invisible_armor.Resolution.{Message}
use xdp_invisible_armor.Dispatch.{Database, DispatchError, write_audit, create_dispatch}
use xdp_invisible_armor.Requests.{
  Site, WebFaults, missing, find_request, is_requested, after_approval, concluded, site_guard,
  is_open, use_token, decide_by_link,
}

-- The state of a request, where there is one.
abbrev pub state_of : ℕ → Site → Option BanState
state_of id s = elim (find_request id s.db) [ none ↦ none | some r ↦ some r.state ]

used-closed :
    (token : Text) (now later : ℕ) (ts : List ApprovalToken)
    → find (is_open token later) (use_token token now ts) ≡ none
used-closed token now later [] = refl
used-closed token now later (t ∷ ts) = elim (Bool-cases (text_eq t.token token)) [
  | inl e ↦ ground (arith, e, used-closed token now later ts)
  | inr e ↦ ground (arith, e, used-closed token now later ts)
]

after_approval-tokens :
    (faults : WebFaults) (now : ℕ) (log : AuditLog) (req : BanRequest) (s : Site)
    → (after_approval faults now log req s).0.tokens ≡ s.tokens
unfolding after_approval
after_approval-tokens faults now log req s =
    go (create_dispatch (site_guard s) faults.store now req (write_audit faults.store log s.db))
  where
    go :
        (r : Database × Result DispatchError (Dispatch × Message))
        → (concluded faults now req s r).0.tokens ≡ s.tokens
    go (db, ok d) = refl
    go (db, err e) = refl

decide_by_link-tokens :
    (faults : WebFaults) (token : Text) (approves : Bool) (now : ℕ) (s : Site)
    → ((decide_by_link faults token approves now s).0 ≡ s)
      ⊎ ((decide_by_link faults token approves now s).0.tokens ≡ use_token token now s.tokens)
unfolding decide_by_link
decide_by_link-tokens faults token approves now s =
    elim (Option-cases (find (is_open token now) s.tokens)) [
      | inl e ↦ inl (rw (decide_by_link, e) refl)
      | inr (t, e) ↦ elim (Option-cases (find_request t.ban_request_id s.db)) [
        | inl f ↦ inl (rw (decide_by_link, e, f) refl)
        | inr (req, f) ↦ elim (Bool-cases (is_requested req.state)) [
          | inr g ↦ inl (rw (decide_by_link, e, f, g) refl)
          | inl g ↦ elim (Bool-cases faults.transaction_fails) [
            | inl h ↦ inl (rw (decide_by_link, e, f, g, h) refl)
            | inr h ↦ inr (decided approves t req e f g h)
          ]
        ]
      ]
    ]
  where
    decided :
        (yes : Bool) (t : ApprovalToken) (req : BanRequest)
        → find (is_open token now) s.tokens ≡ some t
        → find_request t.ban_request_id s.db ≡ some req
        → is_requested req.state ≡ true
        → faults.transaction_fails ≡ false
        → (decide_by_link faults token yes now s).0.tokens ≡ use_token token now s.tokens
    decided true t req e f g h =
        rw (decide_by_link, e, f, g, h)
          (after_approval-tokens (record faults { transaction_fails = false }) now _ _ _)
    decided false t req e f g h = rw (decide_by_link, e, f, g, h) refl

shut :
    (faults : WebFaults) (token : Text) (approves : Bool) (later : ℕ) (s : Site)
    → find (is_open token later) s.tokens ≡ none
    → decide_by_link faults token approves later s ≡ (s, missing)
unfolding decide_by_link
shut faults token approves later s e = rw (decide_by_link, e) refl

-- A link of the mail decides at most once: either it changes nothing, or every later use of it, for
-- approval or rejection, finds no link and changes nothing.
pub decide_by_link-once :
    (faults : WebFaults) (token : Text) (approves : Bool) (now : ℕ) (s : Site)
    → let r = decide_by_link faults token approves now s in
      (r.0 ≡ s)
      ⊎ ((again : WebFaults) (yes : Bool) (later : ℕ)
          → decide_by_link again token yes later r.0 ≡ (r.0, missing))
decide_by_link-once faults token approves now s =
    elim (decide_by_link-tokens faults token approves now s) [
      | inl e ↦ inl e
      | inr e ↦ inr (λ again yes later.
          shut again token yes later (decide_by_link faults token approves now s).0
            (ap (λ ts. find (is_open token later) ts) e ∙ used-closed token now later s.tokens))
    ]
