-- ===== src/Dispatch/Ids.antt =====
-- A ban's id tells which ban it is.
use xdp_invisible_armor.Common.{
  ℕ, ◌+◌, ◌≡◌, refl, sym, ap, ◌∙◌, arith, true, [], ◌∷◌, ◌++◌, All, some_inj, Text, codes, is_digit,
  format, format_head, format-All, parse_uint, parse_uint-format,
}
use mathlib.Core.Path.{subst}
use mathlib.Core.List.{head-eq_of_cons-eq, tail-eq_of_cons-eq}
use xdp_invisible_armor.Dispatch.{ban_id, dash, plain_kind, scoped_kind, global_kind}

pub data BanKind : Type 0 where
  plain scoped global : BanKind

abbrev pub kind_text : BanKind → Text
kind_text plain = plain_kind
kind_text scoped = scoped_kind
kind_text global = global_kind

format-injective : (i j : ℕ) → format i ≡ format j → i ≡ j
format-injective i j e = some_inj (
    sym (parse_uint-format (i + j) i (omega arith))
    ∙ ap (λ t. parse_uint (i + j) t) e
    ∙ parse_uint-format (i + j) j (omega arith))

-- Digits before a dash are the same if what follows them may differ.
until_dash :
    (a b s t : Text)
    → All (λ c. is_digit c ≡ true) a
    → All (λ c. is_digit c ≡ true) b
    → a ++ (dash ∷ s) ≡ b ++ (dash ∷ t)
    → (a ≡ b) × (s ≡ t)
until_dash [] [] s t h k e = (refl, tail-eq_of_cons-eq e)
until_dash [] (c ∷ b) s t h k e = absurd (not_digit c k.0 (head-eq_of_cons-eq e))
  where
    not_digit : (c : ℕ) → is_digit c ≡ true → dash ≡ c → ⊥
    not_digit c d e = ground arith
until_dash (c ∷ a) [] s t h k e = absurd (not_digit c h.0 (head-eq_of_cons-eq e))
  where
    not_digit : (c : ℕ) → is_digit c ≡ true → c ≡ dash → ⊥
    not_digit c d e = ground arith
until_dash (c ∷ a) (d ∷ b) s t h k e =
    let (f, g) = until_dash a b s t h.1 k.1 (tail-eq_of_cons-eq e) in
    (cons_eq (head-eq_of_cons-eq e) f, g)
  where
    cons_eq : {c d : ℕ} {a b : Text} → c ≡ d → a ≡ b → c ∷ a ≡ d ∷ b
    cons_eq e f = cc

numbered :
    (i j : ℕ) (s t : Text) → format i ++ (dash ∷ s) ≡ format j ++ (dash ∷ t) → (i ≡ j) × (s ≡ t)
numbered i j s t e =
    let (f, g) = until_dash (format i) (format j) s t (format-All i) (format-All j) e in
    (format-injective i j f, g)

strip : (k : Text) (s t : Text) → k ++ s ≡ k ++ t → s ≡ t
strip [] s t e = e
strip (c ∷ k) s t e = strip k s t (tail-eq_of_cons-eq e)

same_kind :
    (k : BanKind) (i j : ℕ) (s t : Text)
    → ban_id (kind_text k) i s ≡ ban_id (kind_text k) j t
    → (i ≡ j) × (s ≡ t)
same_kind k i j s t e = numbered i j s t (tail-eq_of_cons-eq (strip (kind_text k) _ _ e))

-- A number never starts like `global`.
scoped≢global : (i j : ℕ) (s t : Text) → ban_id scoped_kind i s ≡ ban_id global_kind j t → ⊥
scoped≢global i j s t e =
    let (c, r, f) = format_head i in
    clash c (subst (λ l. All (λ x. is_digit x ≡ true) l) f (format-All i)).0
      (head-eq_of_cons-eq (ap (λ l. l ++ (dash ∷ s)) (sym f) ∙ strip (codes "scoped-") _ _ e))
  where
    clash : (c : ℕ) → is_digit c ≡ true → c ≡ b'g' → ⊥
    clash c d h = ground arith

-- Two bans have the same id only if they are of one kind, of one request, and of one target.
pub ban_id-injective :
    (k l : BanKind) (i j : ℕ) (s t : Text)
    → ban_id (kind_text k) i s ≡ ban_id (kind_text l) j t
    → (k ≡ l) × (i ≡ j) × (s ≡ t)
ban_id-injective plain plain i j s t e = let (f, g) = same_kind plain i j s t e in (refl, f, g)
ban_id-injective scoped scoped i j s t e = let (f, g) = same_kind scoped i j s t e in (refl, f, g)
ban_id-injective global global i j s t e = let (f, g) = same_kind global i j s t e in (refl, f, g)
ban_id-injective scoped global i j s t e = absurd (scoped≢global i j s t e)
ban_id-injective global scoped i j s t e = absurd (scoped≢global j i t s (sym e))
ban_id-injective plain scoped i j s t e = absurd (other_head (head-eq_of_cons-eq e))
  where
    other_head : ◌≡◌ {A = ℕ} b'b' b's' → ⊥
    other_head h = omega arith
ban_id-injective plain global i j s t e = absurd (other_head (head-eq_of_cons-eq e))
  where
    other_head : ◌≡◌ {A = ℕ} b'b' b's' → ⊥
    other_head h = omega arith
ban_id-injective scoped plain i j s t e = absurd (other_head (head-eq_of_cons-eq e))
  where
    other_head : ◌≡◌ {A = ℕ} b's' b'b' → ⊥
    other_head h = omega arith
ban_id-injective global plain i j s t e = absurd (other_head (head-eq_of_cons-eq e))
  where
    other_head : ◌≡◌ {A = ℕ} b's' b'b' → ⊥
    other_head h = omega arith
