-- ===== src/Report/Csv/Reading.antt =====
-- A reader of comma-separated lines takes back what the writer was given.
use xdp_invisible_armor.Common.{
  ℕ, ◌≡◌, refl, ap, ◌∙◌, arith, Bool, true, false, ◌||◌, ◌==◌, any, if◌then◌else◌, List, [], ◌∷◌,
  ◌++◌, map, Text, has_byte, inl, inr, Bool-cases,
}
use mathlib.Core.List.{append_assoc, append-nil}
use xdp_invisible_armor.Report.Csv.{
  field_needs_quotes, escaped, write_field, write_more, write_record, write_records,
}

-- Where a reader stands: at the start of a field, in a bare one, in a quoted one, behind a quote that
-- may end it.
pub data Mode : Type 0 where
  start bare quoted closed : Mode

-- The rest of the field, the fields behind it in its line, and the lines behind that.
abbrev pub Rest : Type 0
Rest = Text × List Text × List (List Text)

abbrev onto : ℕ → Rest → Rest
onto c (f, fs, rs) = (c ∷ f, fs, rs)

abbrev onto_text : Text → Rest → Rest
onto_text f (g, fs, rs) = (f ++ g, fs, rs)

abbrev comma : Rest → Rest
comma (f, fs, rs) = ([], f ∷ fs, rs)

abbrev lines_of : Rest → List (List Text)
lines_of (f, fs, rs) = (f ∷ fs) ∷ rs

-- The lines of a text that stands at the start of one.
abbrev lines_or_none : Text → Rest → List (List Text)
lines_or_none [] r = []
lines_or_none (c ∷ s) r = lines_of r

-- A byte outside quotes: a comma, a line end, or a byte of the field.
abbrev plain : ℕ → Text → Rest → Rest → Rest
plain c s at_start in_bare =
    if c == b','
    then comma at_start
    else if c == b'\n'
    then ([], [], lines_or_none s at_start)
    else onto c in_bare

-- A reader by RFC 4180.
unfoldable pub read : Mode → Text → Rest
read m [] = ([], [], [])
read start (c ∷ s) =
    let at_start = read start s in
    let in_bare = read bare s in
    let in_quoted = read quoted s in if c == b'"' then in_quoted else plain c s at_start in_bare
read bare (c ∷ s) = plain c s (read start s) (read bare s)
read quoted (c ∷ s) =
    let in_closed = read closed s in
    let in_quoted = read quoted s in if c == b'"' then in_closed else onto c in_quoted
read closed (c ∷ s) =
    let at_start = read start s in
    let in_bare = read bare s in
    let in_quoted = read quoted s in
    if c == b'"' then onto c in_quoted else plain c s at_start in_bare

abbrev pub read_csv : Text → List (List Text)
read_csv s = lines_or_none s (read start s)

-- A byte that a bare field may hold.
abbrev is_bare : ℕ → Bool
is_bare c = c == b',' || c == b'"' || c == b'\n'

read-bare : (f t : Text) → any is_bare f ≡ false → read bare (f ++ t) ≡ onto_text f (read bare t)
unfolding read
read-bare [] t h = refl
read-bare (c ∷ f) t h = ground (arith, read-bare f t)

read-quoted : (f t : Text) → read quoted (escaped f ++ (b'"' ∷ t)) ≡ onto_text f (read closed t)
unfolding read escaped
read-quoted [] t = refl
read-quoted (c ∷ f) t = elim (Bool-cases (c == b'"')) [
  | inl q ↦ ground (arith, q, read-quoted f t)
  | inr q ↦ ground (arith, q, read-quoted f t)
]

bare-tests : (f : Text) → any is_bare f ≡ (has_byte b',' f || has_byte b'"' f || has_byte b'\n' f)
bare-tests [] = refl
bare-tests (c ∷ f) = ground (arith, bare-tests f)

unquoted-bare : (f : Text) → field_needs_quotes f ≡ false → any is_bare f ≡ false
unfolding field_needs_quotes
unquoted-bare [] h = refl
unquoted-bare (c ∷ f) h = ground (arith, bare-tests (c ∷ f))

-- What follows a field.
abbrev ended : ℕ → Text → Rest
ended d t = plain d t (read start t) (read bare t)

abbrev IsEnd : ℕ → Type 0
IsEnd d = (d == b',' || d == b'\n') ≡ true

read-start-bare :
    (f t : Text) (d : ℕ)
    → IsEnd d
    → any is_bare f ≡ false
    → read start (f ++ (d ∷ t)) ≡ onto_text f (ended d t)
unfolding read
read-start-bare [] t d e h = ground arith
read-start-bare (c ∷ f) t d e h = ground (arith, read-bare f (d ∷ t))

read-closed : (t : Text) (d : ℕ) → IsEnd d → read closed (d ∷ t) ≡ ended d t
unfolding read
read-closed t d e = ground arith

shift : (f t : Text) (d : ℕ) → (f ++ (b'"' ∷ [])) ++ (d ∷ t) ≡ f ++ (b'"' ∷ d ∷ t)
shift [] t d = refl
shift (c ∷ f) t d = ap (λ s. c ∷ s) (shift f t d)

write_field-read :
    (f t : Text) (d : ℕ) → IsEnd d → read start (write_field f ++ (d ∷ t)) ≡ onto_text f (ended d t)
unfolding write_field
write_field-read f t d e = elim (Bool-cases (field_needs_quotes f)) [
  | inr n ↦ rw (write_field, n) (read-start-bare f t d e (unquoted-bare f n))
  | inl y ↦
      rw (write_field, y)
        (opening (escaped f) t d
          ∙ ap (read quoted) (shift (escaped f) t d)
          ∙ read-quoted f (d ∷ t)
          ∙ ap (onto_text f) (read-closed t d e))
]
  where
    opening :
        (s t : Text) (d : ℕ)
        → read start ((b'"' ∷ (s ++ (b'"' ∷ []))) ++ (d ∷ t))
          ≡ read quoted ((s ++ (b'"' ∷ [])) ++ (d ∷ t))
    opening s t d = unfold read in refl

-- What stands behind the first field of a line: it begins with a comma or a line end, and is read as
-- the other fields and the lines behind.
abbrev Tail : List Text → Text → Type 0
Tail fs t =
    (d : ℕ) × (s : Text) × (write_more fs ++ (b'\n' ∷ t) ≡ d ∷ s)
    × IsEnd d
    × (ended d s ≡ ([], fs, lines_or_none t (read start t)))

write_more-Tail : (fs : List Text) (t : Text) → Tail fs t
unfolding write_more
write_more-Tail [] t = (b'\n', t, refl, refl, refl)
write_more-Tail (g ∷ gs) t =
    let (d, s, e, end, h) = write_more-Tail gs t in
    (
      b',',
      write_field g ++ (d ∷ s),
      ap (λ x. b',' ∷ x)
          (append_assoc (write_field g) (write_more gs) (b'\n' ∷ t)
            ∙ ap (λ x. write_field g ++ x) e),
      refl,
      ap comma (write_field-read g s d end ∙ ap (onto_text g) h)
          ∙ ap (λ (x : Text). ([], x ∷ gs, lines_or_none t (read start t))) (append-nil g),
    )

-- An empty record is a line, which is read as one empty field.
abbrev pub shown : List Text → List Text
shown [] = [] ∷ []
shown (f ∷ fs) = f ∷ fs

abbrev front : List Text → Text
front [] = []
front (f ∷ fs) = f

abbrev behind : List Text → List Text
behind [] = []
behind (f ∷ fs) = fs

write_record-read :
    (r : List Text) (t : Text)
    → read start (write_record r ++ t) ≡ (front r, behind r, lines_or_none t (read start t))
unfolding write_record read
write_record-read [] t = refl
write_record-read (f ∷ fs) t =
    let (d, s, e, end, h) = write_more-Tail fs t in
    ap (read start) (
      append_assoc (write_field f) (write_more fs ++ (b'\n' ∷ [])) t
      ∙ ap (λ x. write_field f ++ x) (append_assoc (write_more fs) (b'\n' ∷ []) t ∙ e))
    ∙ write_field-read f s d end
    ∙ ap (onto_text f) h
    ∙ ap (λ (x : Text). (x, fs, lines_or_none t (read start t))) (append-nil f)

not_empty : (a s : Text) (d : ℕ) (x : Rest) → lines_or_none (a ++ (d ∷ s)) x ≡ lines_of x
not_empty [] s d x = refl
not_empty (c ∷ a) s d x = refl

write_record-lines :
    (r : List Text) (t : Text) (x : Rest) → lines_or_none (write_record r ++ t) x ≡ lines_of x
unfolding write_record
write_record-lines [] t x = refl
write_record-lines (f ∷ fs) t x =
    ap (λ s. lines_or_none s x)
      (append_assoc (write_field f) (write_more fs ++ (b'\n' ∷ [])) t
        ∙ ap (λ s. write_field f ++ s)
            (append_assoc (write_more fs) (b'\n' ∷ []) t ∙ (write_more-Tail fs t).2))
    ∙ not_empty (write_field f) (write_more-Tail fs t).1 (write_more-Tail fs t).0 x

lines-shown :
    (r : List Text) (rs : List (List Text)) → lines_of (front r, behind r, rs) ≡ shown r ∷ rs
lines-shown [] rs = refl
lines-shown (f ∷ fs) rs = refl

-- A reader of comma-separated lines gives back the records that were written, whatever bytes their
-- fields hold; a record without fields comes back as one empty field.
pub write_records-read_csv : (rs : List (List Text)) → read_csv (write_records rs) ≡ map shown rs
unfolding write_records read
write_records-read_csv [] = refl
write_records-read_csv (r ∷ rs) =
    let t = write_records rs in
    write_record-lines r t (read start (write_record r ++ t))
    ∙ ap lines_of (write_record-read r t)
    ∙ lines-shown r (read_csv t)
    ∙ ap (λ x. shown r ∷ x) (write_records-read_csv rs)
