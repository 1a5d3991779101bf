-- ===== src/PrefixDb/Overrides/Checked.antt =====
-- The check of the rules on the page, and their reading by the loader, agree.
use xdp_invisible_armor.Common.{
  ℕ, suc, ◌≡◌, refl, ap, ◌∙◌, List, [], ◌∷◌, ◌++◌, Option, none, some, Result, ok, err, Text,
  trim_space, inl, inr, Bool-cases, Result-cases,
}
use xdp_invisible_armor.PrefixDb.Index.{Db}
use xdp_invisible_armor.PrefixDb.Lines.{scan_lines, small_buffer}
use xdp_invisible_armor.PrefixDb.Overrides.{
  Override, RuleError, is_rule, parse_override_line, validate_lines, validate_overrides, read_rules,
  refused, ApplyError, apply_text,
}

-- The error of a reading.
abbrev pub error_of {ℓ κ} : {E : Type ℓ} {A : Type κ} → Result E A → Option E
error_of (ok a) = none
error_of (err e) = some e

validate-read :
    (n : ℕ) (ls : List Text) (ovs : List Override)
    → validate_lines n ls ≡ error_of (read_rules n ls ovs)
unfolding validate_lines read_rules
validate-read n [] ovs = refl
validate-read n (l ∷ ls) ovs = elim (Bool-cases (is_rule (trim_space l))) [
  | inr r ↦ rw r (validate-read (suc n) ls ovs)
  | inl r ↦ elim (Result-cases (parse_override_line (trim_space l))) [
    | inr (e, p) ↦ rw (r, validate_lines, read_rules, p) refl
    | inl (o, p) ↦ rw (r, validate_lines, read_rules, p) (validate-read (suc n) ls (ovs ++ o ∷ []))
  ]
]

abbrev pub refusal : Option RuleError → Option ApplyError
refusal none = none
refusal (some e) = some (refused e)

-- A file of rules that the page accepts is one that the loader applies, and the loader refuses any
-- other with the very error that the page shows.
pub validate-apply :
    (db : Db) (text : Text) → error_of (apply_text db text) ≡ refusal (validate_overrides text)
unfolding apply_text validate_overrides
validate-apply db text =
    let lines = (scan_lines small_buffer text).0 in
    elim (Result-cases (read_rules 1 lines [])) [
      | inr (e, p) ↦
          rw (apply_text, validate_overrides, p, validate-read 1 lines [] ∙ ap error_of p) refl
      | inl (ovs, p) ↦ elim (Bool-cases (scan_lines small_buffer text).1) [
        | inl long ↦
            rw (apply_text, validate_overrides, p, validate-read 1 lines [] ∙ ap error_of p, long)
              refl
        | inr short ↦
            rw (apply_text, validate_overrides, p, validate-read 1 lines [] ∙ ap error_of p, short)
              refl
      ]
    ]
