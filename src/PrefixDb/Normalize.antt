-- ===== src/PrefixDb/Normalize.antt =====
-- internal/prefixdb/sync.go, normalize: a downloaded table becomes the lines that Load reads.
-- Writing to the temporary file is taken to succeed.
pub mod Words
pub mod Loaded
use xdp_invisible_armor.Common.{
  ℕ, ◌+◌, ◌-◌, ◌%◌, ◌^◌, Bool, false, not, ◌||◌, ◌==◌, ltb, if◌then◌else◌, List, [], ◌∷◌, ◌++◌,
  length, Option, none, some, and_then, Result, ok, err, Text, text_eq, codes, is_empty, split,
  trim_space, to_upper, has_prefix, parse_uint,
}
use xdp_invisible_armor.Netip.{parse_addr, parse_ip_to4, has_zone, v4_text}
use xdp_invisible_armor.PrefixDb.Merge.{Range}
use xdp_invisible_armor.PrefixDb.Lines.{scan_lines, large_buffer}

pub data NormalizeError : Type 0 where
  unknown_format line_too_long no_records : NormalizeError

abbrev pub skipped : Text → Bool
skipped line = is_empty line || has_prefix line (codes "#")

-- `net.ParseIP(s) != nil`
abbrev is_ip : Text → Bool
is_ip s = elim (parse_addr s) [ none ↦ false | some a ↦ not (has_zone a) ]

abbrev asn_fields : Text → List Text → Option Text
asn_fields line (a ∷ b ∷ c ∷ d ∷ rest) = if is_ip (trim_space a) then some line else none
asn_fields line _ = none

-- A line of the format "ip2asn_tsv" is taken as it is, or left out.
unfoldable pub asn_line : Text → Option Text
asn_line line = if skipped line then none else asn_fields line (split b'\t' line)

-- A record of a registry: the country, the range, and the registry.
pub record Allocation : Type 0 where
  pub registry : Text
  pub country : Text
  pub range : Range

-- `end := start + uint32(cnt-1)` wraps around.
abbrev pub allocated : Text → Text → ℕ → ℕ → Option Allocation
allocated registry cc start count =
    let last = (start + (count - 1)) % 2 ^ 32 in
    if ltb last start
    then none
    else some (record {
      registry = trim_space registry;
      country = to_upper (trim_space cc);
      range = record { start = start; last = last };
    })

unfoldable pub allocation_of_fields : List Text → Option Allocation
allocation_of_fields (registry ∷ cc ∷ kind ∷ ip ∷ count ∷ date ∷ status ∷ rest) =
    if not (text_eq kind (codes "ipv4"))
    then none
    else and_then (parse_uint (2 ^ 32 - 1) (trim_space count)) (λ n.
      and_then (parse_ip_to4 (trim_space ip))
        (λ start. if n == 0 then none else allocated registry cc start n))
allocation_of_fields _ = none

unfoldable pub allocation_of : Text → Option Allocation
unfolding allocation_of_fields
allocation_of line = if skipped line then none else allocation_of_fields (split b'|' line)

-- `"%s\t%s\t0\t%s\tRIR-%s\n"` without its line end.
unfoldable pub rir_text : Allocation → Text
rir_text a =
    v4_text a.range.start
    ++ (b'\t'
        ∷ (v4_text a.range.last
            ++ (b'\t' ∷ b'0' ∷ b'\t' ∷ (a.country ++ (b'\t' ∷ (codes "RIR-" ++ a.registry))))))

unfoldable pub rir_line : Text → Option Text
unfolding rir_text allocation_of
rir_line line = elim (allocation_of line) [ none ↦ none | some a ↦ some (rir_text a) ]

-- The lines that are kept.
unfoldable pub kept_lines : (Text → Option Text) → List Text → List Text
kept_lines keep [] = []
kept_lines keep (l ∷ ls) =
    let rest = kept_lines keep ls in elim (keep l) [ none ↦ rest | some t ↦ t ∷ rest ]

unfoldable pub unlines : List Text → Text
unlines [] = []
unlines (l ∷ ls) = l ++ (b'\n' ∷ unlines ls)

unfoldable pub normalize_with : (Text → Option Text) → Text → Result NormalizeError (Text × ℕ)
unfolding scan_lines kept_lines unlines
normalize_with keep text =
    let (lines, too_long) = scan_lines large_buffer text in
    let out = kept_lines keep lines in
    if too_long
    then err line_too_long
    else if length out == 0
    then err no_records
    else ok (unlines out, length out)

unfoldable pub normalize : Text → Text → Result NormalizeError (Text × ℕ)
unfolding normalize_with text_eq
normalize format text =
    if text_eq format (codes "ip2asn_tsv")
    then normalize_with asn_line text
    else if text_eq format (codes "rir_delegated")
    then normalize_with rir_line text
    else err unknown_format
