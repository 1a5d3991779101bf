-- ===== src/PrefixDb/Overrides/Effect.antt =====
-- Where a rule covers an address, the table says what the rule says.
use xdp_invisible_armor.Common.{
  ℕ, ◌≡◌, refl, sym, ap, ◌∙◌, arith, Bool, true, false, not, ◌&&◌, ◌||◌, ltb, if◌then◌else◌, List,
  [], ◌∷◌, ◌++◌, map, keep, any, any-append, All, All-append, length, ok, ok-injective, Text, inl,
  inr, Bool-cases,
}
use mathlib.Core.Path.{subst}
use xdp_invisible_armor.Netip.{Prefix}
use xdp_invisible_armor.PrefixDb.Index.{Entry, Db, Selector, rebuild_index}
use xdp_invisible_armor.PrefixDb.Index.Positions.{IsIndexed, rebuild_index-IsIndexed}
use xdp_invisible_armor.PrefixDb.Load.{insert_entry, sort_entries}
use xdp_invisible_armor.PrefixDb.Lines.{scan_lines, small_buffer}
use xdp_invisible_armor.PrefixDb.Cidrs.Tiling.{hits}
use xdp_invisible_armor.PrefixDb.Resolve.{resolve}
use xdp_invisible_armor.PrefixDb.Resolve.Candidates.{matches, is_blank}
use xdp_invisible_armor.PrefixDb.Resolve.Exact.{IsEntry, in_entry, resolve_exact}
use xdp_invisible_armor.PrefixDb.Overrides.{
  Override, read_rules, as_entry, overlaps_any, override_entries, too_long, refused, applied,
  apply_text,
}
use xdp_invisible_armor.PrefixDb.Overrides.Bounds.{read_rules-IsEntry, err≢ok}

any-insert :
    (p : Entry → Bool) (e : Entry) (es : List Entry) → any p (insert_entry e es) ≡ (p e || any p es)
unfolding insert_entry
any-insert p e [] = refl
any-insert p e (x ∷ xs) = elim (Bool-cases (ltb x.start e.start)) [
  | inl l ↦ ground (arith, l, any-insert p e xs)
  | inr l ↦ ground (arith, l)
]

any-sort : (p : Entry → Bool) (es : List Entry) → any p (sort_entries es) ≡ any p es
unfolding sort_entries
any-sort p [] = refl
any-sort p (e ∷ es) = any-insert p e (sort_entries es) ∙ ap (λ b. p e || b) (any-sort p es)

All-insert :
    (e : Entry) (es : List Entry) → IsEntry e → All IsEntry es → All IsEntry (insert_entry e es)
unfolding insert_entry
All-insert e [] h k = (h, tt)
All-insert e (x ∷ xs) h k = elim (Bool-cases (ltb x.start e.start)) [
  | inl l ↦ rw l (k.0, All-insert e xs h k.1)
  | inr l ↦ rw l (h, k)
]

pub All-sort : (es : List Entry) → All IsEntry es → All IsEntry (sort_entries es)
unfolding sort_entries
All-sort [] h = tt
All-sort (e ∷ es) h = All-insert e (sort_entries es) h.0 (All-sort es h.1)

All-keep : (p : Entry → Bool) (es : List Entry) → All IsEntry es → All IsEntry (keep p es)
All-keep p [] h = tt
All-keep p (e ∷ es) h = elim (Bool-cases (p e)) [
  | inl l ↦ rw l (h.0, All-keep p es h.1)
  | inr l ↦ rw l (All-keep p es h.1)
]

All-map :
    (ovs : List Override)
    → All (λ (o : Override). IsEntry (as_entry o)) ovs
    → All IsEntry (map as_entry ovs)
All-map [] h = tt
All-map (o ∷ ovs) h = (h.0, All-map ovs h.1)

-- Some rule covers the address.
abbrev pub covers : ℕ → List Override → Bool
covers x ovs = any (λ (o : Override). in_entry x (as_entry o)) ovs

-- An entry that holds a covered address overlaps a rule.
held-overlaps :
    (x : ℕ) (e : Entry) (ovs : List Override)
    → covers x ovs ≡ true
    → in_entry x e ≡ true
    → overlaps_any e.start e.last ovs ≡ true
unfolding overlaps_any
held-overlaps x e [] c h = absurd (ground arith)
held-overlaps x e (o ∷ ovs) c h = elim (Bool-cases (in_entry x (as_entry o))) [
  | inl k ↦ ground (arith, k)
  | inr k ↦ ground (arith, k, held-overlaps x e ovs)
]

abbrev untouched : List Override → Entry → Bool
untouched ovs e = not (overlaps_any e.start e.last ovs)

-- No entry that is kept holds a covered address.
kept-misses :
    (x : ℕ) (p : Entry → Bool) (ovs : List Override) (es : List Entry)
    → covers x ovs ≡ true
    → any (λ e. p e && in_entry x e) (keep (untouched ovs) es) ≡ false
kept-misses x p ovs [] c = refl
kept-misses x p ovs (e ∷ es) c = elim (Bool-cases (overlaps_any e.start e.last ovs)) [
  | inl o ↦ rw o (kept-misses x p ovs es c)
  | inr o ↦ elim (Bool-cases (in_entry x e)) [
    | inl h ↦ absurd (ground (arith, o, held-overlaps x e ovs c h))
    | inr h ↦ ground (arith, o, h, kept-misses x p ovs es c)
  ]
]

kept-any :
    (p : Entry → Bool) (ovs : List Override) (es : List Entry)
    → any p (keep (untouched ovs) es) ≡ any (λ e. p e && untouched ovs e) es
kept-any p ovs [] = refl
kept-any p ovs (e ∷ es) = elim (Bool-cases (overlaps_any e.start e.last ovs)) [
  | inl o ↦ ground (arith, o, kept-any p ovs es)
  | inr o ↦ ground (arith, o, kept-any p ovs es)
]

any-map :
    (p : Entry → Bool) (ovs : List Override)
    → any p (map as_entry ovs) ≡ any (λ o. p (as_entry o)) ovs
any-map p [] = refl
any-map p (o ∷ ovs) = ap (λ b. p (as_entry o) || b) (any-map p ovs)

uncovered :
    (x : ℕ) (p : Entry → Bool) (ovs : List Override)
    → covers x ovs ≡ false
    → any (λ o. p (as_entry o) && in_entry x (as_entry o)) ovs ≡ false
uncovered x p [] c = refl
uncovered x p (o ∷ ovs) c = ground (arith, uncovered x p ovs)

-- What the table with the rules says of an address.
abbrev pub table_says : ℕ → (Entry → Bool) → List Override → List Entry → Bool
table_says x p ovs es =
    if covers x ovs
    then any (λ o. p (as_entry o) && in_entry x (as_entry o)) ovs
    else any (λ e. p e && in_entry x e && untouched ovs e) es

override_entries-any :
    (x : ℕ) (p : Entry → Bool) (ovs : List Override) (es : List Entry)
    → any (λ e. p e && in_entry x e) (override_entries ovs es) ≡ table_says x p ovs es
unfolding override_entries
override_entries-any x p ovs es =
    let q = λ (e : Entry). p e && in_entry x e in
    any-sort q (keep (untouched ovs) es ++ map as_entry ovs)
    ∙ any-append q (keep (untouched ovs) es) (map as_entry ovs)
    ∙ ap (λ b. any q (keep (untouched ovs) es) || b) (any-map q ovs)
    ∙ elim (Bool-cases (covers x ovs)) [
      | inl c ↦ rw (c, kept-misses x p ovs es c) refl
      | inr c ↦ rw (c, uncovered x p ovs c) (ground (arith, kept-any q ovs es))
    ]

no_rule :
    (x : ℕ) (p : Entry → Bool) (es : List Entry)
    → any (λ e. p e && in_entry x e) es ≡ table_says x p [] es
unfolding overlaps_any
no_rule x p [] = refl
no_rule x p (e ∷ es) = ground (arith, no_rule x p es)

-- What an answer over a table says, the table's entries described by a test.
abbrev pub Answers : Db → Selector → (ℕ → Bool) → Type 0
Answers db sel says =
    (ps : List Prefix) × (resolve db sel ≡ ok ps)
    × ((x : ℕ) → hits x ps ≡ (if says x then 1 else 0))

answers :
    (db : Db) (rows : List Entry) (sel : Selector) (says : ℕ → Bool)
    → IsIndexed db
    → db.entries ≡ rows
    → All IsEntry rows
    → is_blank sel ≡ false
    → ((x : ℕ) → any (λ e. matches sel e && in_entry x e) rows ≡ says x)
    → Answers db sel says
answers db rows sel says v same w b f =
    let (ps, r, h) = (resolve_exact db sel v (subst (All IsEntry) (sym same) w)).1 b in
    (
      ps,
      r,
      λ x.
          h x
          ∙ ap (λ (es : List Entry). if any (λ e. matches sel e && in_entry x e) es then 1 else 0)
              same
          ∙ ap (λ t. if t then 1 else 0) (f x),
    )

pub IsEntry-overridden :
    (db : Db) (ovs : List Override)
    → All IsEntry db.entries
    → All (λ (o : Override). IsEntry (as_entry o)) ovs
    → All IsEntry (override_entries ovs db.entries)
unfolding override_entries
IsEntry-overridden db ovs w h = All-sort (keep (untouched ovs) db.entries ++ map as_entry ovs) (
    All-append IsEntry (keep (untouched ovs) db.entries) (map as_entry ovs)
      (All-keep (untouched ovs) db.entries w) (All-map ovs h))

pub applied-some :
    (db : Db) (o : Override) (ovs : List Override)
    → applied db (o ∷ ovs) ≡ (
      rebuild_index (record db { entries = override_entries (o ∷ ovs) db.entries }),
      length (o ∷ ovs),
    )
unfolding applied
applied-some db o ovs = ground arith

applied-Answers :
    (db : Db) (ovs : List Override) (sel : Selector)
    → IsIndexed db
    → All IsEntry db.entries
    → All (λ (o : Override). IsEntry (as_entry o)) ovs
    → is_blank sel ≡ false
    → Answers (applied db ovs).0 sel (λ x. table_says x (matches sel) ovs db.entries)
unfolding applied
applied-Answers db [] sel v w h b =
    answers db db.entries sel (λ x. table_says x (matches sel) [] db.entries) v refl w b
      (λ x. no_rule x (matches sel) db.entries)
applied-Answers db (o ∷ ovs) sel v w h b =
    let rows = override_entries (o ∷ ovs) db.entries in
    let (right, same) = rebuild_index-IsIndexed (record db { entries = rows }) in
    subst (λ (t : Db × ℕ). Answers t.0 sel (λ x. table_says x (matches sel) (o ∷ ovs) db.entries))
      (sym (applied-some db o ovs))
      (answers (rebuild_index (record db { entries = rows })) rows sel
        (λ x. table_says x (matches sel) (o ∷ ovs) db.entries) right same
        (IsEntry-overridden db (o ∷ ovs) w h) b
        (λ x. override_entries-any x (matches sel) (o ∷ ovs) db.entries))

pub apply_text-applied :
    (db : Db) (text : Text) (ovs : List Override) (r : Db × ℕ)
    → read_rules 1 (scan_lines small_buffer text).0 [] ≡ ok ovs
    → apply_text db text ≡ ok r
    → applied db ovs ≡ r
unfolding apply_text
apply_text-applied db text ovs r h e = elim (Bool-cases (scan_lines small_buffer text).1) [
  | inl long ↦ absurd (err≢ok {x = refused too_long} (sym (rw (apply_text, h, long) refl) ∙ e))
  | inr short ↦ ok-injective (sym (rw (apply_text, h, short) refl) ∙ e)
]

-- Over right indexes and valid entries, let a file of rules be read and applied. Then a selector
-- that is not blank still resolves. Its prefixes hold an address that some rule covers exactly once
-- if a rule that covers it matches the selector, whatever the table said of it; they hold any other
-- address exactly once if an entry matches that holds it and overlaps no rule; and they hold no
-- address besides. An entry that overlaps a rule is lost as a whole.
pub apply_text-effect :
    (db : Db) (text : Text) (ovs : List Override) (r : Db × ℕ) (sel : Selector)
    → IsIndexed db
    → All IsEntry db.entries
    → read_rules 1 (scan_lines small_buffer text).0 [] ≡ ok ovs
    → apply_text db text ≡ ok r
    → is_blank sel ≡ false
    → Answers r.0 sel (λ x. table_says x (matches sel) ovs db.entries)
apply_text-effect db text ovs r sel v w h e b =
    subst (λ (t : Db × ℕ). Answers t.0 sel (λ x. table_says x (matches sel) ovs db.entries))
      {x = applied db ovs} {y = r} (apply_text-applied db text ovs r h e)
      (applied-Answers db ovs sel v w
        (read_rules-IsEntry 1 (scan_lines small_buffer text).0 [] ovs tt h) b)
