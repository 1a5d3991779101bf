-- ===== src/PrefixDb/Resolve/Rows.antt =====
-- What candidates and the ranges of its rows are, over indexes that are right.
use xdp_invisible_armor.Common.{
  ℕ, ◌+◌, ◌≡◌, refl, sym, ap, ◌∙◌, Bool, true, false, ◌&&◌, if◌then◌else◌, List, [], ◌∷◌, ◌++◌,
  length, length-append, get_elem?, some, ok, Bool-cases, inl, inr,
}
use mathlib.Core.Path.{subst}
use mathlib.Core.List.{append_assoc}
use xdp_invisible_armor.PrefixDb.Merge.{Range}
use xdp_invisible_armor.PrefixDb.Index.{Entry, Db}
use xdp_invisible_armor.PrefixDb.Index.Positions.{positions}
use xdp_invisible_armor.PrefixDb.Resolve.{row, filter_rows, ranges}

get_elem?-append {ℓ} :
    {A : Type ℓ} (xs ys : List A) (a : A) → get_elem? (xs ++ a ∷ ys) (length xs) ≡ some a
get_elem?-append [] ys a = refl
get_elem?-append (x ∷ xs) ys a = get_elem?-append xs ys a

row_at :
    (db : Db) (front : List Entry) (e : Entry) (back : List Entry)
    → db.entries ≡ front ++ e ∷ back
    → row db (length front) ≡ ok e
unfolding row
row_at db front e back h =
    found (ap (λ t. get_elem? t (length front)) h ∙ get_elem?-append front back e)
  where
    found : get_elem? db.entries (length front) ≡ some e → row db (length front) ≡ ok e
    found g = rw (g, row)

-- The front of the entries grows by one.
shift :
    (db : Db) (front : List Entry) (e : Entry) (back : List Entry)
    → db.entries ≡ front ++ e ∷ back
    → (db.entries ≡ (front ++ e ∷ []) ++ back) × (length (front ++ e ∷ []) ≡ length front + 1)
shift db front e back h = (h ∙ sym (append_assoc front (e ∷ []) back), length-append front (e ∷ []))

both_step :
    (i : ℕ) (rest : List ℕ) (a b : Bool)
    → (if a then (if b then i ∷ rest else rest) else rest) ≡ (if a && b then i ∷ rest else rest)
both_step i rest true b = refl
both_step i rest false b = refl

filter_rows_step :
    (db : Db) (q : Entry → Bool) (i : ℕ) (is out : List ℕ) (e : Entry)
    → row db i ≡ ok e
    → filter_rows db q is ≡ ok out
    → filter_rows db q (i ∷ is) ≡ ok (if q e then i ∷ out else out)
unfolding filter_rows
filter_rows_step db q i is out e h k = rw (h, k)

pub filter_rows-positions :
    (db : Db) (p q : Entry → Bool) (front es : List Entry)
    → db.entries ≡ front ++ es
    → filter_rows db q (positions p (length front) es)
      ≡ ok (positions (λ e. p e && q e) (length front) es)
unfolding filter_rows
filter_rows-positions db p q front [] h = refl
filter_rows-positions db p q front (e ∷ es) h =
    let (h', n) = shift db front e es h in
    let ih = filter_rows-positions db p q (front ++ e ∷ []) es h' in
    let tail : filter_rows db q (positions p (length front + 1) es)
        ≡ ok (positions (λ e. p e && q e) (length front + 1) es) =
      subst (λ k. filter_rows db q (positions p k es) ≡ ok (positions (λ e. p e && q e) k es)) n
        ih in
    elim (Bool-cases (p e)) [
      | inl listed ↦ rw listed (filter_rows_step db q _ _ _ e (row_at db front e es h) tail)
      | inr unlisted ↦ rw unlisted tail
    ]

-- The ranges of the entries that pass a test.
unfoldable pub ranges_where : (Entry → Bool) → List Entry → List Range
ranges_where p [] = []
ranges_where p (e ∷ es) =
    let rest = ranges_where p es in
    if p e then record { start = e.start; last = e.last } ∷ rest else rest

ranges_step :
    (db : Db) (i : ℕ) (is : List ℕ) (out : List Range) (e : Entry)
    → row db i ≡ ok e
    → ranges db is ≡ ok out
    → ranges db (i ∷ is) ≡ ok (record { start = e.start; last = e.last } ∷ out)
unfolding ranges
ranges_step db i is out e h k = rw (h, k)

ranges-positions_from :
    (db : Db) (p : Entry → Bool) (front es : List Entry)
    → db.entries ≡ front ++ es
    → ranges db (positions p (length front) es) ≡ ok (ranges_where p es)
unfolding ranges ranges_where
ranges-positions_from db p front [] h = refl
ranges-positions_from db p front (e ∷ es) h =
    let (h', n) = shift db front e es h in
    let ih = ranges-positions_from db p (front ++ e ∷ []) es h' in
    let tail : ranges db (positions p (length front + 1) es) ≡ ok (ranges_where p es) =
      subst (λ k. ranges db (positions p k es) ≡ ok (ranges_where p es)) n ih in
    elim (Bool-cases (p e)) [
      | inl listed ↦ rw listed (ranges_step db _ _ _ e (row_at db front e es h) tail)
      | inr unlisted ↦ rw unlisted tail
    ]

pub ranges-positions :
    (db : Db) (p : Entry → Bool)
    → ranges db (positions p 0 db.entries) ≡ ok (ranges_where p db.entries)
ranges-positions db p = ranges-positions_from db p [] db.entries refl
