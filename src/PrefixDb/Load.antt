-- ===== src/PrefixDb/Load.antt =====
-- internal/prefixdb/db.go, Load: a table of tab-separated lines becomes entries with their indexes.
-- The gzip reader is the argument `gunzip`: what it makes of the file's bytes, or nothing.
use xdp_invisible_armor.Common.{
  ℕ, ◌+◌, ◌-◌, ◌*◌, ◌^◌, ◌&&◌, ◌==◌, ltb, leb, if◌then◌else◌, List, [], ◌∷◌, length, Option, none,
  some, and_then, Result, ok, err, Text, is_digit, split, trim_space, to_upper,
}
use xdp_invisible_armor.Netip.{parse_ip_to4}
use xdp_invisible_armor.PrefixDb.Index.{Entry, Db, rebuild_index}
use xdp_invisible_armor.PrefixDb.Lines.{scan_lines, large_buffer}

pub data LoadError : Type 0 where
  cannot_open cannot_unpack line_too_long no_records : LoadError

-- `n, _ := strconv.ParseUint(s, 10, w)` with `limit` = 2 ^ w - 1: a number that is too large comes
-- out as the largest, and what is no number as 0.
unfoldable pub scan_lax : ℕ → Text → ℕ → ℕ
scan_lax limit [] n = n
scan_lax limit (c ∷ s) n =
    let more = scan_lax limit s (n * 10 + (c - b'0')) in
    if is_digit c then if leb (n * 10 + (c - b'0')) limit then more else limit else 0

abbrev pub parse_uint_lax : ℕ → Text → ℕ
parse_uint_lax limit s = scan_lax limit s 0

abbrev pub name_of : List Text → Text
name_of [] = []
name_of (n ∷ rest) = trim_space n

unfoldable pub entry_of_fields : List Text → Option Entry
unfolding scan_lax trim_space
entry_of_fields (a ∷ b ∷ n ∷ c ∷ rest) = and_then (parse_ip_to4 (trim_space a)) (λ start.
    and_then (parse_ip_to4 (trim_space b)) (λ last.
      if ltb last start
      then none
      else some (record {
        start = start;
        last = last;
        asn = parse_uint_lax (2 ^ 32 - 1) (trim_space n);
        country = to_upper (trim_space c);
        as_name = name_of rest;
      })))
entry_of_fields _ = none

abbrev pub entry_of : Text → Option Entry
entry_of line = entry_of_fields (split b'\t' line)

-- The lines that make an entry.
unfoldable pub entries_of : List Text → List Entry
entries_of [] = []
entries_of (l ∷ ls) =
    let rest = entries_of ls in elim (entry_of l) [ none ↦ rest | some e ↦ e ∷ rest ]

-- `sort.Slice` by start: of the orders that it may return for equal starts, the stable one.
unfoldable pub insert_entry : Entry → List Entry → List Entry
insert_entry e [] = e ∷ []
insert_entry e (x ∷ xs) =
    let rest = insert_entry e xs in if ltb x.start e.start then x ∷ rest else e ∷ x ∷ xs

unfoldable pub sort_entries : List Entry → List Entry
unfolding insert_entry
sort_entries [] = []
sort_entries (e ∷ es) = insert_entry e (sort_entries es)

-- A file that begins with the bytes of gzip is unpacked.
unfoldable pub open_maybe_gzip : (Text → Option Text) → Option Text → Result LoadError Text
open_maybe_gzip gunzip none = err cannot_open
open_maybe_gzip gunzip (some (a ∷ b ∷ s)) =
    if a == 0x1f && b == 0x8b
    then elim (gunzip (a ∷ b ∷ s)) [ none ↦ err cannot_unpack | some t ↦ ok t ]
    else ok (a ∷ b ∷ s)
open_maybe_gzip gunzip (some s) = ok s

unfoldable pub load_text : Text → ℕ → Text → Result LoadError Db
unfolding scan_lines entries_of sort_entries rebuild_index
load_text path now text =
    let (lines, too_long) = scan_lines large_buffer text in
    if too_long
    then err line_too_long
    else if length (entries_of lines) == 0
    then err no_records
    else ok (
        rebuild_index (record {
          entries = sort_entries (entries_of lines);
          by_country = [];
          by_asn = [];
          source_path = path;
          loaded_at = now;
          override_count = 0;
        }))

unfoldable pub load : (Text → Option Text) → Text → ℕ → Option Text → Result LoadError Db
unfolding open_maybe_gzip load_text
load gunzip path now file = elim (open_maybe_gzip gunzip file) [
  | err e ↦ err e
  | ok text ↦ load_text path now text
]

pub record Stats : Type 0 where
  pub source_path : Text
  pub entries : ℕ
  pub countries : ℕ
  pub asns : ℕ
  pub loaded_at : ℕ
  pub override_count : ℕ

unfoldable pub stats : Db → Stats
stats db = record {
  source_path = db.source_path;
  entries = length db.entries;
  countries = length db.by_country;
  asns = length db.by_asn;
  loaded_at = db.loaded_at;
  override_count = db.override_count;
}
