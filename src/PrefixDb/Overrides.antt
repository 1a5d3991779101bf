-- ===== src/PrefixDb/Overrides.antt =====
-- internal/prefixdb/sync.go: the rules that override the table, their check, and their effect.
pub mod Bounds
pub mod Effect
pub mod Rows
pub mod Checked
use xdp_invisible_armor.Common.{
  ℕ, suc, ◌+◌, ◌-◌, ◌^◌, Bool, true, false, not, ◌&&◌, ◌||◌, ◌==◌, ltb, leb, if◌then◌else◌, List,
  [], ◌∷◌, ◌++◌, length, keep, any, map, Option, none, some, and_then, Result, ok, err, Text, codes,
  is_empty, cut, parse_uint, trim_space, to_upper, has_prefix, trim_prefix, has_byte, fields,
  replace_byte, join,
}
use xdp_invisible_armor.Netip.{Addr, v4, v6, Prefix, parse_cidr, parse_ip_to4}
use xdp_invisible_armor.PrefixDb.Index.{Entry, Db, rebuild_index}
use xdp_invisible_armor.PrefixDb.Lines.{scan_lines, small_buffer}
use xdp_invisible_armor.PrefixDb.Load.{sort_entries}

pub record Override : Type 0 where
  pub start : ℕ
  pub last : ℕ
  pub asn : ℕ
  pub country : Text
  pub note : Text

pub data OverrideError : Type 0 where
  too_few_fields bad_cidr not_ipv4 no_end bad_address backwards : OverrideError

-- The note of a rule without one, in UTF-8.
abbrev pub local_note : Text
local_note = 0xe6 ∷ 0x9c ∷ 0xac ∷ 0xe5 ∷ 0x9c ∷ 0xb0 ∷ 0xe8 ∷ 0xa6 ∷ 0x86 ∷ 0xe7 ∷ 0x9b ∷ 0x96 ∷ []

-- What stands before a comment.
abbrev pub uncommented : Text → Text
uncommented line = elim (cut b'#' line) [ none ↦ line | some (front, back) ↦ trim_space front ]

-- A rule's range, and the fields behind it.
abbrev pub network_range : Addr × Prefix → List Text → Result OverrideError (ℕ × ℕ × List Text)
network_range (a, net) rest = elim net.addr [
  | v6 x zone ↦ err not_ipv4
  | v4 start ↦ ok (start, start + 2 ^ (32 - net.bits) - 1, rest)
]

abbrev address_range : Option ℕ → Option ℕ → List Text → Result OverrideError (ℕ × ℕ × List Text)
address_range (some s) (some e) rest = if ltb e s then err backwards else ok (s, e, rest)
address_range _ _ rest = err bad_address

unfoldable pub range_of : List Text → Result OverrideError (ℕ × ℕ × List Text)
range_of (f ∷ g ∷ rest) =
    if has_byte b'/' f
    then elim (parse_cidr f) [ none ↦ err bad_cidr | some p ↦ network_range p (g ∷ rest) ]
    else if length rest == 0
    then err no_end
    else address_range (parse_ip_to4 f) (parse_ip_to4 g) rest
range_of _ = err too_few_fields

abbrev country_of : List Text → Text
country_of [] = []
country_of (c ∷ rest) = to_upper c

-- A text that is no AS number counts as none.
abbrev asn_of : List Text → ℕ
asn_of (c ∷ a ∷ rest) = elim (parse_uint (2 ^ 32 - 1) (trim_prefix (to_upper a) (codes "AS"))) [
  | none ↦ 0
  | some n ↦ n
]
asn_of _ = 0

abbrev note_of : List Text → Text
note_of (c ∷ a ∷ rest) = join (codes " ") rest
note_of _ = []

abbrev pub override_of : ℕ × ℕ × List Text → Override
override_of (start, last, rest) = record {
  start = start;
  last = last;
  asn = asn_of rest;
  country = country_of rest;
  note = if is_empty (note_of rest) then local_note else note_of rest;
}

unfoldable pub parse_override_line : Text → Result OverrideError Override
unfolding range_of fields trim_space
parse_override_line line = elim (range_of (fields (replace_byte b'\t' b' ' (uncommented line)))) [
  | err e ↦ err e
  | ok r ↦ ok (override_of r)
]

-- Why a file of rules is refused: a line, or one that is too long.
pub data RuleError : Type 0 where
  bad_line : ℕ → OverrideError → RuleError
  too_long : RuleError

abbrev pub is_rule : Text → Bool
is_rule line = not (is_empty line || has_prefix line (codes "#"))

-- The loop of ValidateOverrides, from a line number on.
unfoldable pub validate_lines : ℕ → List Text → Option RuleError
validate_lines n [] = none
validate_lines n (l ∷ ls) =
    let rest = validate_lines (suc n) ls in
    if not (is_rule (trim_space l))
    then rest
    else elim (parse_override_line (trim_space l)) [ err e ↦ some (bad_line n e) | ok o ↦ rest ]

-- `ValidateOverrides`: nothing where the text is accepted.
unfoldable pub validate_overrides : Text → Option RuleError
unfolding scan_lines validate_lines
validate_overrides text =
    let (lines, long) = scan_lines small_buffer text in
    elim (validate_lines 1 lines) [ some e ↦ some e | none ↦ if long then some too_long else none ]

-- The loop of applyOverrides.
unfoldable pub read_rules : ℕ → List Text → List Override → Result RuleError (List Override)
read_rules n [] ovs = ok ovs
read_rules n (l ∷ ls) ovs =
    let skip = read_rules (suc n) ls ovs in
    if not (is_rule (trim_space l)) then skip else elim (parse_override_line (trim_space l)) [
      | err e ↦ err (bad_line n e)
      | ok o ↦ read_rules (suc n) ls (ovs ++ o ∷ [])
    ]

unfoldable pub overlaps_any : ℕ → ℕ → List Override → Bool
overlaps_any start last [] = false
overlaps_any start last (o ∷ ovs) =
    leb start o.last && leb o.start last || overlaps_any start last ovs

abbrev pub as_entry : Override → Entry
as_entry o = record {
  start = o.start;
  last = o.last;
  asn = o.asn;
  country = o.country;
  as_name = o.note;
}

unfoldable pub override_entries : List Override → List Entry → List Entry
unfolding overlaps_any sort_entries
override_entries ovs es =
    sort_entries
      (keep (λ (e : Entry). not (overlaps_any e.start e.last ovs)) es ++ map as_entry ovs)

pub data RuleFile : Type 0 where
  absent unreadable : RuleFile
  content : Text → RuleFile

pub data ApplyError : Type 0 where
  cannot_read : ApplyError
  refused : RuleError → ApplyError

unfoldable pub applied : Db → List Override → Db × ℕ
unfolding override_entries rebuild_index
applied db ovs =
    if length ovs == 0
    then (db, 0)
    else (rebuild_index (record db { entries = override_entries ovs db.entries }), length ovs)

unfoldable pub apply_text : Db → Text → Result ApplyError (Db × ℕ)
unfolding scan_lines read_rules applied
apply_text db text =
    let (lines, long) = scan_lines small_buffer text in
    elim (read_rules 1 lines []) [
      | err e ↦ err (refused e)
      | ok ovs ↦ if long then err (refused too_long) else ok (applied db ovs)
    ]

unfoldable pub apply_overrides : Db → RuleFile → Result ApplyError (Db × ℕ)
unfolding apply_text
apply_overrides db absent = ok (db, 0)
apply_overrides db unreadable = err cannot_read
apply_overrides db (content text) = apply_text db text
