-- ===== src/Report/Csv.antt =====
-- encoding/csv as internal/report/report.go uses it: a record is a line, a field is quoted where a
-- reader could take it for something else.
pub mod Reading
use xdp_invisible_armor.Common.{
  ℕ, Bool, true, false, ◌||◌, ◌==◌, if◌then◌else◌, List, [], ◌∷◌, ◌++◌, Text, text_eq, codes,
  has_byte, leading_blank,
}

-- `fieldNeedsQuotes`
unfoldable pub field_needs_quotes : Text → Bool
unfolding text_eq
field_needs_quotes [] = false
field_needs_quotes (c ∷ s) =
    text_eq (c ∷ s) (codes "\\.")
    || has_byte b',' (c ∷ s)
    || has_byte b'"' (c ∷ s)
    || has_byte b'\n' (c ∷ s)
    || has_byte 13 (c ∷ s)
    || leading_blank (c ∷ s)

-- A quote within quotes is doubled.
unfoldable pub escaped : Text → Text
escaped [] = []
escaped (c ∷ s) = if c == b'"' then c ∷ c ∷ escaped s else c ∷ escaped s

unfoldable pub write_field : Text → Text
unfolding field_needs_quotes escaped
write_field f = if field_needs_quotes f then b'"' ∷ (escaped f ++ (b'"' ∷ [])) else f

unfoldable pub write_more : List Text → Text
unfolding write_field
write_more [] = []
write_more (f ∷ fs) = b',' ∷ (write_field f ++ write_more fs)

-- `Writer.Write`: the fields with commas between them, and a line end.
unfoldable pub write_record : List Text → Text
unfolding write_field write_more
write_record [] = b'\n' ∷ []
write_record (f ∷ fs) = write_field f ++ (write_more fs ++ (b'\n' ∷ []))

unfoldable pub write_records : List (List Text) → Text
unfolding write_record
write_records [] = []
write_records (r ∷ rs) = write_record r ++ write_records rs
