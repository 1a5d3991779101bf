-- ===== src/Session/Lifetime.antt =====
-- How long a session lives, whatever else happens to the store.
use xdp_invisible_armor.Common.{
  ◌⊎◌, some_inj, text_eq→eq, ℕ, ◌+◌, ◌≤◌, ◌<◌, ◌≡◌, ◌≢◌, refl, sym, ap, ◌∙◌, arith, false, not,
  ◌==◌, ltb, if◌then◌else◌, List, [], ◌∷◌, All, Option, none, some, Text, text_eq, lookup, IsMap,
  insert-IsMap, erase-IsMap, retain-IsMap, lookup-insert, lookup-insert_other, lookup-erase,
  lookup-erase_other, lookup-retain, passing, inl, inr, Bool-cases,
}
use mathlib.Core.Path.{subst}
use xdp_invisible_armor.Session.{Entry, Store, put, get, delete, delete_by_user, reap}

-- What can happen to the store.
pub data Event : Type 0 where
  on_put : Text → ℕ → Text → ℕ → Event
  on_get : Text → ℕ → Event
  on_delete : Text → Event
  on_delete_by_user : ℕ → Event
  on_reap : ℕ → Event

abbrev pub happen : Event → Store → Store
happen (on_put token user csrf now) s = put token user csrf now s
happen (on_get token now) s = (get token now s).1
happen (on_delete token) s = delete token s
happen (on_delete_by_user user) s = delete_by_user user s
happen (on_reap now) s = reap now s

abbrev pub run : List Event → Store → Store
run [] s = s
run (e ∷ es) s = run es (happen e s)

-- The event is not about this session, and does not come after its end.
abbrev pub Spares : Text → Entry → Event → Type 0
Spares token e (on_put other user csrf now) = text_eq token other ≡ false
Spares token e (on_get other now) = now ≤ e.expires_at
Spares token e (on_delete other) = text_eq token other ≡ false
Spares token e (on_delete_by_user user) = e.user_id ≢ user
Spares token e (on_reap now) = now ≤ e.expires_at

-- A lookup leaves the store alone, or deletes the expired session it was asked for.
get-cases :
    (token : Text) (now : ℕ) (s : Store)
    → ((get token now s).1 ≡ s)
      ⊎ ((e : Entry) × (lookup token s.sessions ≡ some e)
          × (e.expires_at < now)
          × ((get token now s).1 ≡ delete token s))
unfolding get
get-cases token now s = go (lookup token s.sessions) refl
  where
    go :
        (o : Option Entry)
        → lookup token s.sessions ≡ o
        → ((get token now s).1 ≡ s)
          ⊎ ((e : Entry) × (lookup token s.sessions ≡ some e)
              × (e.expires_at < now)
              × ((get token now s).1 ≡ delete token s))
    go none f = inl (ground (arith, f))
    go (some e) f = elim (Bool-cases (ltb e.expires_at now)) [
      | inl g ↦ inr (e, f, ground arith, ground (arith, f))
      | inr g ↦ inl (ground (arith, f))
    ]

get-IsMap :
    (token : Text) (now : ℕ) (s : Store) → IsMap s.sessions → IsMap (get token now s).1.sessions
get-IsMap token now s h = elim (get-cases token now s) [
  | inl e ↦ subst (λ t. IsMap t.sessions) (sym e) h
  | inr (x, f, g, e) ↦
      subst (λ t. IsMap t.sessions) (sym e) (unfold delete in erase-IsMap token s.sessions h)
]

get-kept :
    (other : Text) (now : ℕ) (s : Store) (token : Text) (x : Entry)
    → lookup token s.sessions ≡ some x
    → now ≤ x.expires_at
    → lookup token (get other now s).1.sessions ≡ some x
unfolding delete
get-kept other now s token x e k = elim (get-cases other now s) [
  | inl f ↦ ap (λ t. lookup token t.sessions) f ∙ e
  | inr (y, g, l, f) ↦ elim (Bool-cases (text_eq token other)) [
    | inl same ↦
        absurd (expired y l (ap (λ t. lookup t s.sessions) (text_eq→eq token other same) ∙ g))
    | inr differ ↦
        ap (λ t. lookup token t.sessions) f ∙ lookup-erase_other token other s.sessions differ ∙ e
  ]
]
  where
    later : (x y : Entry) → x ≡ y → y.expires_at < now → x.expires_at < now
    later x y e l = subst (λ t. t.expires_at < now) (sym e) l

    expired : (y : Entry) → y.expires_at < now → lookup token s.sessions ≡ some y → ⊥
    expired y l g = omega (arith, k, later x y (some_inj (sym e ∙ g)) l)

-- The tokens of the store stay distinct.
pub happen-IsMap : (e : Event) (s : Store) → IsMap s.sessions → IsMap (happen e s).sessions
unfolding put delete delete_by_user reap
happen-IsMap (on_put token user csrf now) s h =
    insert-IsMap token (record { user_id = user; expires_at = now + s.ttl; csrf_token = csrf })
      s.sessions h
happen-IsMap (on_get token now) s h = get-IsMap token now s h
happen-IsMap (on_delete token) s h = erase-IsMap token s.sessions h
happen-IsMap (on_delete_by_user user) s h = retain-IsMap _ s.sessions h
happen-IsMap (on_reap now) s h = retain-IsMap _ s.sessions h

happen-kept :
    (e : Event) (s : Store) (token : Text) (x : Entry)
    → IsMap s.sessions
    → lookup token s.sessions ≡ some x
    → Spares token x e
    → lookup token (happen e s).sessions ≡ some x
unfolding put delete delete_by_user reap
happen-kept (on_put other user csrf now) s token x h e k =
    lookup-insert_other token other _ s.sessions k ∙ e
happen-kept (on_get other now) s token x h e k = get-kept other now s token x e k
happen-kept (on_delete other) s token x h e k = lookup-erase_other token other s.sessions k ∙ e
happen-kept (on_delete_by_user user) s token x h e k =
    lookup-retain _ token s.sessions h ∙ rw e (ground arith)
happen-kept (on_reap now) s token x h e k = lookup-retain _ token s.sessions h ∙ rw e (ground arith)

kept :
    (es : List Event) (s : Store) (token : Text) (x : Entry)
    → IsMap s.sessions
    → lookup token s.sessions ≡ some x
    → All (Spares token x) es
    → lookup token (run es s).sessions ≡ some x
kept [] s token x h e k = e
kept (v ∷ es) s token x h e k =
    kept es (happen v s) token x (happen-IsMap v s h) (happen-kept v s token x h e k.0) k.1

-- The answer for a session that is still in the store.
get-present :
    (token : Text) (now : ℕ) (s : Store) (x : Entry)
    → lookup token s.sessions ≡ some x
    → now ≤ x.expires_at
    → (get token now s).0 ≡ some x.user_id
unfolding get
get-present token now s x e k = ground (arith, e)

get-late :
    (token : Text) (now : ℕ) (s : Store) (x : Entry)
    → lookup token s.sessions ≡ some x
    → x.expires_at < now
    → ((get token now s).0 ≡ none) × ((get token now s).1 ≡ delete token s)
unfolding get
get-late token now s x e k = (ground (arith, e), ground (arith, e))

-- A session that was put answers with its user until its time is over, and then is deleted at the first
-- question, whatever happened to other sessions and users in between: other logins, questions and
-- logouts, the removal of other users, and rounds of the reaper no later than its end.
pub put-lifetime :
    (s : Store) (token : Text) (user : ℕ) (csrf : Text) (start : ℕ) (es : List Event) (now : ℕ)
    → IsMap s.sessions
    → All
        (Spares token (record { user_id = user; expires_at = start + s.ttl; csrf_token = csrf }))
        es
    → (now ≤ start + s.ttl → (get token now (run es (put token user csrf start s))).0 ≡ some user)
      × (start + s.ttl < now
          → ((get token now (run es (put token user csrf start s))).0 ≡ none)
            × (lookup token (get token now (run es (put token user csrf start s))).1.sessions
                ≡ none))
put-lifetime s token user csrf start es now h k = (
  get-present token now after _ there,
  λ l. (
    (get-late token now after _ there l).0,
    ap (λ t. lookup token t.sessions) (get-late token now after _ there l).1 ∙ deleted after,
  ),
)
  where
    after : Store
    after = run es (put token user csrf start s)

    there :
        lookup token (run es (put token user csrf start s)).sessions
        ≡ some (record { user_id = user; expires_at = start + s.ttl; csrf_token = csrf })
    there =
        kept es (put token user csrf start s) token _
          (happen-IsMap (on_put token user csrf start) s h)
          (unfold put in lookup-insert token _ s.sessions) k

    deleted : (t : Store) → lookup token (delete token t).sessions ≡ none
    deleted t = unfold delete in lookup-erase token t.sessions

abbrev answer : ℕ → Option Entry → Option ℕ
answer now none = none
answer now (some e) = if ltb e.expires_at now then none else some e.user_id

get-answer :
    (token : Text) (now : ℕ) (s : Store)
    → (get token now s).0 ≡ answer now (lookup token s.sessions)
unfolding get
get-answer token now s = go (lookup token s.sessions) refl
  where
    go : (o : Option Entry) → lookup token s.sessions ≡ o → (get token now s).0 ≡ answer now o
    go none e = ground (arith, e)
    go (some x) e = ground (arith, e)

unreaped :
    (round now : ℕ) (o : Option Entry)
    → round ≤ now
    → answer now (passing (λ e. not (ltb e.expires_at round)) o) ≡ answer now o
unreaped round now none h = refl
unreaped round now (some e) h = ground arith

-- Once a round of the reaper is over, every question is answered as if it had not taken place.
pub get-reap :
    (s : Store) (token : Text) (round now : ℕ)
    → IsMap s.sessions
    → round ≤ now
    → (get token now (reap round s)).0 ≡ (get token now s).0
unfolding reap
get-reap s token round now h k =
    get-answer token now (reap round s)
    ∙ ap (answer now) (lookup-retain (λ e. not (ltb e.expires_at round)) token s.sessions h)
    ∙ unreaped round now (lookup token s.sessions) k
    ∙ sym (get-answer token now s)

abbrev pub other_user : ℕ → Option ℕ → Option ℕ
other_user user none = none
other_user user (some u) = if u == user then none else some u

removed :
    (user now : ℕ) (o : Option Entry)
    → answer now (passing (λ e. not (e.user_id == user)) o) ≡ other_user user (answer now o)
removed user now none = refl
removed user now (some e) = ground arith

-- After the removal of a user's sessions, no session answers with that user, and each session of
-- another user answers as before.
pub get-delete_by_user :
    (s : Store) (token : Text) (user now : ℕ)
    → IsMap s.sessions
    → (get token now (delete_by_user user s)).0 ≡ other_user user (get token now s).0
unfolding delete_by_user
get-delete_by_user s token user now h =
    get-answer token now (delete_by_user user s)
    ∙ ap (answer now) (lookup-retain (λ e. not (e.user_id == user)) token s.sessions h)
    ∙ removed user now (lookup token s.sessions)
    ∙ ap (other_user user) (sym (get-answer token now s))
