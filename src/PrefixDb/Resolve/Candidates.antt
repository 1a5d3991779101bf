-- ===== src/PrefixDb/Resolve/Candidates.antt =====
-- The candidates of a selector are the rows of the entries that match it.
use xdp_invisible_armor.Common.{
  ℕ, ◌+◌, ◌≡◌, refl, ap, ◌∙◌, arith, Bool, true, false, ◌&&◌, ◌||◌, ◌==◌, ltb, if◌then◌else◌, List,
  [], ◌∷◌, length, Result, ok, err, Text, text_eq, text_eq→eq, is_empty, codes, Bool-cases, inl,
  inr,
}
use mathlib.Core.Path.{ap₂, fun_ext}
use xdp_invisible_armor.PrefixDb.Index.{Entry, Db, Selector, rows_of}
use xdp_invisible_armor.PrefixDb.Index.Positions.{positions, in_country, in_asn, IsIndexed}
use xdp_invisible_armor.PrefixDb.Resolve.{Error, no_selector, filter_rows, candidates}
use xdp_invisible_armor.PrefixDb.Resolve.Rows.{filter_rows-positions}

-- The entries that a selector means: of its country, if it names one, and of its AS number.
abbrev pub matches : Selector → Entry → Bool
matches sel e =
    (is_empty sel.country || in_country sel.country e) && (sel.asn == 0 || in_asn sel.asn e)

abbrev pub is_blank : Selector → Bool
is_blank sel = is_empty sel.country && sel.asn == 0

positions_sub :
    (p r : Entry → Bool) (i : ℕ) (es : List Entry)
    → ((e : Entry) → r e ≡ true → p e ≡ true)
    → positions p i es ≡ []
    → positions r i es ≡ []
positions_sub p r i [] h e = refl
positions_sub p r i (x ∷ es) h e = elim (Bool-cases (r x)) [
  | inl hit ↦ absurd (cons_nil (rw (h x hit) at e))
  | inr miss ↦ elim (Bool-cases (p x)) [
    | inl hit ↦ absurd (cons_nil (rw hit at e))
    | inr gone ↦ rw miss (positions_sub p r (i + 1) es h (rw gone at e))
  ]
]
  where
    cons_nil : {n : ℕ} {ns : List ℕ} → ◌≡◌ {A = List ℕ} (n ∷ ns) [] → ⊥
    cons_nil e = cc

positions-false :
    (p : Entry → Bool) (i : ℕ) (es : List Entry)
    → ((e : Entry) → p e ≡ false)
    → positions p i es ≡ []
positions-false p i [] h = refl
positions-false p i (e ∷ es) h = rw (h e) (positions-false p (i + 1) es h)

-- No entry is listed under the country code that stands for none.
in_country_none : (c : Text) (e : Entry) → text_eq c (codes "NONE") ≡ true → in_country c e ≡ false
in_country_none c e h = ground (arith, text_eq→eq e.country c)

in_country-text_eq :
    (c : Text) (e : Entry)
    → is_empty c ≡ false
    → text_eq c (codes "NONE") ≡ false
    → in_country c e ≡ text_eq e.country c
in_country-text_eq c e h k = ground (arith, text_eq→eq e.country c)

-- What the shorter row list is filtered by tells its entries apart as the selector does.
by_asn_first :
    (sel : Selector) (db : Db)
    → IsIndexed db
    → is_empty sel.country ≡ false
    → text_eq sel.country (codes "NONE") ≡ false
    → filter_rows db (λ e. text_eq e.country sel.country) (positions (in_asn sel.asn) 0 db.entries)
      ≡ ok (positions (λ e. in_country sel.country e && in_asn sel.asn e) 0 db.entries)
by_asn_first sel db v h k =
    filter_rows-positions db (in_asn sel.asn) (λ e. text_eq e.country sel.country) [] db.entries
      refl
    ∙ ap (λ p. ok (positions p 0 db.entries)) (fun_ext same)
  where
    same :
        (e : Entry)
        → (in_asn sel.asn e && text_eq e.country sel.country)
          ≡ (in_country sel.country e && in_asn sel.asn e)
    same e = ground (arith, in_country-text_eq sel.country e h k)

by_country_first :
    (sel : Selector) (db : Db)
    → IsIndexed db
    → (sel.asn == 0) ≡ false
    → filter_rows db (λ e. e.asn == sel.asn) (positions (in_country sel.country) 0 db.entries)
      ≡ ok (positions (λ e. in_country sel.country e && in_asn sel.asn e) 0 db.entries)
by_country_first sel db v h =
    filter_rows-positions db (in_country sel.country) (λ e. e.asn == sel.asn) [] db.entries refl
    ∙ ap (λ p. ok (positions p 0 db.entries)) (fun_ext same)
  where
    same :
        (e : Entry)
        → (in_country sel.country e && e.asn == sel.asn)
          ≡ (in_country sel.country e && in_asn sel.asn e)
    same e = ground arith

length_nil : (is : List ℕ) → (length is == 0) ≡ true → is ≡ []
length_nil [] h = refl
length_nil (i ∷ is) h = absurd (ground arith)

-- The choice among the row lists, once a selector names both.
unfoldable pub choose : Db → Selector → List ℕ → List ℕ → Result Error (List ℕ)
choose db sel by_c by_a =
    if length by_c == 0 || length by_a == 0
    then ok []
    else if ltb (length by_a) (length by_c)
    then filter_rows db (λ e. text_eq e.country sel.country) by_a
    else filter_rows db (λ e. e.asn == sel.asn) by_c

choose_lem :
    (db : Db) (sel : Selector)
    → IsIndexed db
    → is_empty sel.country ≡ false
    → (sel.asn == 0) ≡ false
    → choose db sel
        (positions (in_country sel.country) 0 db.entries)
        (positions (in_asn sel.asn) 0 db.entries)
      ≡ ok (positions (λ e. in_country sel.country e && in_asn sel.asn e) 0 db.entries)
unfolding choose
choose_lem db sel v h k =
    let by_c = positions (in_country sel.country) 0 db.entries in
    let by_a = positions (in_asn sel.asn) 0 db.entries in
    elim (Bool-cases (length by_c == 0)) [
      | inl e ↦ rw (
        e,
        positions_sub (in_country sel.country) (λ x. in_country sel.country x && in_asn sel.asn x) 0
            db.entries (λ x t. ground arith) (length_nil by_c e),
      )
      | inr ne ↦ elim (Bool-cases (length by_a == 0)) [
        | inl e ↦ rw (
          ne,
          e,
          positions_sub (in_asn sel.asn) (λ x. in_country sel.country x && in_asn sel.asn x) 0
              db.entries (λ x t. ground arith) (length_nil by_a e),
        )
        | inr na ↦ elim (Bool-cases (ltb (length by_a) (length by_c))) [
          | inl shorter ↦ rw (ne, na, shorter) (by_asn_first sel db v h (listed ne))
          | inr longer ↦ rw (ne, na, longer) (by_country_first sel db v k)
        ]
      ]
    ]
  where
    listed :
        (length (positions (in_country sel.country) 0 db.entries) == 0) ≡ false
        → text_eq sel.country (codes "NONE") ≡ false
    listed ne = elim (Bool-cases (text_eq sel.country (codes "NONE"))) [
      | inl e ↦
          let gone =
            positions-false (in_country sel.country) 0 db.entries
              (λ x. in_country_none sel.country x e) in
          absurd (ground (arith, ap length gone))
      | inr e ↦ e
    ]

same_rows :
    (db : Db) (p q : Entry → Bool)
    → ((e : Entry) → p e ≡ q e)
    → ◌≡◌ {A = Result Error (List ℕ)}
        (ok (positions p 0 db.entries))
        (ok (positions q 0 db.entries))
same_rows db p q h = ap (λ r. ok (positions r 0 db.entries)) (fun_ext h)

-- Over right indexes the candidates are the rows of the entries that match, in order; the selector
-- that names nothing is refused.
pub candidates-positions :
    (db : Db) (sel : Selector)
    → IsIndexed db
    → candidates db sel
      ≡ (if is_blank sel then err no_selector else ok (positions (matches sel) 0 db.entries))
unfolding rows_of choose
candidates-positions db sel v = elim (Bool-cases (is_empty sel.country)) [
  | inl c0 ↦ elim (Bool-cases (sel.asn == 0)) [
    | inl a0 ↦ unfold candidates in rw (c0, a0)
    | inr a1 ↦
        unfold candidates in
        rw (c0, a1)
          (ap ok (v.asns sel.asn) ∙ same_rows db (in_asn sel.asn) (matches sel) (λ e. ground arith))
  ]
  | inr c1 ↦ elim (Bool-cases (sel.asn == 0)) [
    | inl a0 ↦
        unfold candidates in
        rw (c1, a0)
          (ap ok (v.countries sel.country)
            ∙ same_rows db (in_country sel.country) (matches sel) (λ e. ground arith))
    | inr a1 ↦
        unfold candidates in
        rw (c1, a1)
          (ap₂ (choose db sel) (v.countries sel.country) (v.asns sel.asn)
            ∙ choose_lem db sel v c1 a1
            ∙ same_rows db (λ e. in_country sel.country e && in_asn sel.asn e) (matches sel)
                (λ e. ground arith))
  ]
]
