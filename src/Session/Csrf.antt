-- ===== src/Session/Csrf.antt =====
-- When a request passes the check of the form token.
use xdp_invisible_armor.Common.{
  ℕ, ◌≤◌, ◌≡◌, ◌↔◌, inl, inr, refl, sym, ap, ◌∙◌, text_eq→eq, arith, true, false, Option, none,
  some, Option-cases, Text, text_eq, text_eq_iff, is_empty, lookup,
}
use xdp_invisible_armor.Session.{Entry, Store, csrf_token_of, other_method, Request, require_csrf}

-- The token of the request's session, while it lives.
abbrev pub HasToken : Request → ℕ → Store → Type 0
HasToken r now s =
    (token : Text) × (e : Entry) × (r.sid ≡ some token)
    × (lookup token s.sessions ≡ some e)
    × (now ≤ e.expires_at)
    × (r.csrf_field ≡ e.csrf_token)
    × (is_empty e.csrf_token ≡ false)

live :
    (token : Text) (now : ℕ) (s : Store) (want : Text)
    → csrf_token_of token now s ≡ some want
    → (e : Entry) × (lookup token s.sessions ≡ some e)
      × (now ≤ e.expires_at)
      × (e.csrf_token ≡ want)
unfolding csrf_token_of
live token now s want h = go (lookup token s.sessions) refl
  where
    go :
        (o : Option Entry)
        → lookup token s.sessions ≡ o
        → (e : Entry) × (lookup token s.sessions ≡ some e)
          × (now ≤ e.expires_at)
          × (e.csrf_token ≡ want)
    go none f = absurd (ground (arith, f))
    go (some e) f = (e, f, ground (arith, f), ground (arith, f))

alive :
    (token : Text) (now : ℕ) (s : Store) (e : Entry)
    → lookup token s.sessions ≡ some e
    → now ≤ e.expires_at
    → csrf_token_of token now s ≡ some e.csrf_token
unfolding csrf_token_of
alive token now s e f k = ground (arith, f)

-- A request that may change state passes exactly if its cookie names a live session and its form
-- repeats the token of that session, which is not empty.
pub require_csrf_iff :
    (r : Request) (now : ℕ) (s : Store)
    → r.method ≡ other_method
    → (require_csrf r now s ≡ none) ↔ HasToken r now s
unfolding require_csrf
require_csrf_iff r now s m = (go r.sid refl, back)
  where
    back : HasToken r now s → require_csrf r now s ≡ none
    back (token, e, f, g, k, q, n) =
        ground (arith, m, f, alive token now s e g k, text_eq_iff r.csrf_field e.csrf_token, q, n)

    checked :
        (token want : Text)
        → r.sid ≡ some token
        → csrf_token_of token now s ≡ some want
        → require_csrf r now s ≡ none
        → (text_eq r.csrf_field want ≡ true) × (is_empty r.csrf_field ≡ false)
    checked token want f g h = (ground (arith, m, f, g), ground (arith, m, f, g))

    go : (o : Option Text) → r.sid ≡ o → require_csrf r now s ≡ none → HasToken r now s
    go none f h = absurd (ground (arith, m, f))
    go (some token) f h = elim (Option-cases (csrf_token_of token now s)) [
      | inl n ↦ absurd (ground (arith, m, f, n))
      | inr (want, g) ↦
          let (e, a, b, c) = live token now s want g in
          let (t, n) = checked token want f g h in
          let same = text_eq→eq r.csrf_field want t in
          (token, e, f, a, b, same ∙ sym c, ap (λ x. is_empty x) (c ∙ sym same) ∙ n)
    ]
