-- ===== src/PrefixDb/Index/Positions.antt =====
-- The indexes list the rows that carry a key, in order.
use xdp_invisible_armor.Common.{
  ℕ, ◌+◌, ◌≡◌, ◌↔◌, refl, sym, ap, ◌∙◌, Bool, true, false, ◌&&◌, ◌==◌, ==_iff, if◌then◌else◌, List,
  [], ◌∷◌, ◌++◌, Text, text_eq, text_eq_iff, Bool-cases, inl, inr,
}
use mathlib.Core.Bool.{false≢true}
use mathlib.Core.List.{append-nil, append_assoc}
use xdp_invisible_armor.PrefixDb.Index.{
  Entry, Db, rows_of, add_row, lists_country, lists_asn, index_entry, index_from, rebuild_index,
}

-- The numbers of the entries that pass a test, counted from `i` on.
abbrev pub positions : (Entry → Bool) → ℕ → List Entry → List ℕ
positions p i [] = []
positions p i (e ∷ es) = let rest = positions p (i + 1) es in if p e then i ∷ rest else rest

module _ {ℓ} {K : Type ℓ} (same : K → K → Bool)
    (same_iff : (a b : K) → (same a b ≡ true) ↔ (a ≡ b)) where
  -- The key that a row is added at gets it at the end, and every other key keeps its rows.
  rows_of-add_row :
      (k j : K) (i : ℕ) (m : List (K × List ℕ))
      → rows_of same j (add_row same k i m)
        ≡ (rows_of same j m ++ (if same k j then i ∷ [] else []))
  unfolding rows_of add_row
  rows_of-add_row k j i [] = elim (Bool-cases (same k j)) [ inl e ↦ rw e | inr e ↦ rw e ]
  rows_of-add_row k j i ((h, is) ∷ m) = elim (Bool-cases (same h k)) [
    | inl hit ↦ elim (Bool-cases (same h j)) [
      | inl e ↦ rw (hit, rw ((same_iff h k).0 hit) at e, e)
      | inr e ↦ rw (hit, rw ((same_iff h k).0 hit) at e, e) (sym (append-nil _))
    ]
    | inr miss ↦ elim (Bool-cases (same h j)) [
      | inl e ↦ elim (Bool-cases (same k j)) [
        | inl f ↦ absurd (
            false≢true
              (sym (sym ((same_iff h k).1 ((same_iff h j).0 e ∙ sym ((same_iff k j).0 f))) ∙ miss)))
        | inr f ↦ rw (miss, e, f) (sym (append-nil is))
      ]
      | inr e ↦ rw (miss, e) (rows_of-add_row k j i m)
    ]
  ]

-- The test by which an index lists an entry under a key.
abbrev pub in_country : Text → Entry → Bool
in_country c e = lists_country e && text_eq e.country c

abbrev pub in_asn : ℕ → Entry → Bool
in_asn a e = lists_asn e && e.asn == a

push :
    (rows more : List ℕ) (i : ℕ) (b : Bool)
    → (rows ++ (if b then i ∷ [] else [])) ++ more ≡ rows ++ (if b then i ∷ more else more)
push rows more i true = append_assoc rows (i ∷ []) more
push rows more i false = ap (λ t. t ++ more) (append-nil rows)

index_entry_country :
    (c : Text) (db : Db) (i : ℕ) (e : Entry)
    → rows_of text_eq c (index_entry db i e).by_country
      ≡ (rows_of text_eq c db.by_country ++ (if in_country c e then i ∷ [] else []))
unfolding index_entry
index_entry_country c db i e = elim (Bool-cases (lists_country e)) [
  | inl listed ↦ rw listed (rows_of-add_row text_eq text_eq_iff e.country c i db.by_country)
  | inr unlisted ↦ rw unlisted (sym (append-nil _))
]

index_entry_asn :
    (a : ℕ) (db : Db) (i : ℕ) (e : Entry)
    → rows_of ◌==◌ a (index_entry db i e).by_asn
      ≡ (rows_of ◌==◌ a db.by_asn ++ (if in_asn a e then i ∷ [] else []))
unfolding index_entry
index_entry_asn a db i e = elim (Bool-cases (lists_asn e)) [
  | inl listed ↦ rw listed (rows_of-add_row ◌==◌ ==_iff e.asn a i db.by_asn)
  | inr unlisted ↦ rw unlisted (sym (append-nil _))
]

index_from_country :
    (c : Text) (db : Db) (i : ℕ) (es : List Entry)
    → rows_of text_eq c (index_from db i es).by_country
      ≡ (rows_of text_eq c db.by_country ++ positions (in_country c) i es)
unfolding index_from
index_from_country c db i [] = sym (append-nil _)
index_from_country c db i (e ∷ es) =
    index_from_country c (index_entry db i e) (i + 1) es
    ∙ ap (λ t. t ++ positions (in_country c) (i + 1) es) (index_entry_country c db i e)
    ∙ push _ _ i (in_country c e)

index_from_asn :
    (a : ℕ) (db : Db) (i : ℕ) (es : List Entry)
    → rows_of ◌==◌ a (index_from db i es).by_asn
      ≡ (rows_of ◌==◌ a db.by_asn ++ positions (in_asn a) i es)
unfolding index_from
index_from_asn a db i [] = sym (append-nil _)
index_from_asn a db i (e ∷ es) =
    index_from_asn a (index_entry db i e) (i + 1) es
    ∙ ap (λ t. t ++ positions (in_asn a) (i + 1) es) (index_entry_asn a db i e)
    ∙ push _ _ i (in_asn a e)

index_from_entries : (db : Db) (i : ℕ) (es : List Entry) → (index_from db i es).entries ≡ db.entries
unfolding index_from index_entry
index_from_entries db i [] = refl
index_from_entries db i (e ∷ es) = index_from_entries (index_entry db i e) (i + 1) es

-- Both indexes are right: a country or AS number has the rows of the entries that carry it.
pub record IsIndexed (db : Db) : Type 0 where
  pub countries :
      (c : Text) → rows_of text_eq c db.by_country ≡ positions (in_country c) 0 db.entries
  pub asns : (a : ℕ) → rows_of ◌==◌ a db.by_asn ≡ positions (in_asn a) 0 db.entries

-- `rebuildIndex` keeps the entries and makes both indexes right, whatever they were.
pub rebuild_index-IsIndexed :
    (db : Db) → IsIndexed (rebuild_index db) × ((rebuild_index db).entries ≡ db.entries)
rebuild_index-IsIndexed db = (
  record {
    countries = λ c. index_country c ∙ ap (positions (in_country c) 0) (sym same);
    asns = λ a. index_asn a ∙ ap (positions (in_asn a) 0) (sym same);
  },
  same,
)
  where
    same : (rebuild_index db).entries ≡ db.entries
    same =
        unfold rebuild_index in
        index_from_entries (record db { by_country = []; by_asn = [] }) 0 db.entries

    index_country :
        (c : Text)
        → rows_of text_eq c (rebuild_index db).by_country ≡ positions (in_country c) 0 db.entries
    index_country c =
        unfold rebuild_index rows_of in
        index_from_country c (record db { by_country = []; by_asn = [] }) 0 db.entries

    index_asn :
        (a : ℕ) → rows_of ◌==◌ a (rebuild_index db).by_asn ≡ positions (in_asn a) 0 db.entries
    index_asn a =
        unfold rebuild_index rows_of in
        index_from_asn a (record db { by_country = []; by_asn = [] }) 0 db.entries
