-- ===== src/PrefixDb/Overrides/Rows.antt =====
-- The tables that the loader and the rules make hold valid entries under right indexes.
use xdp_invisible_armor.Common.{
  ℕ, ◌≡◌, refl, sym, ◌∙◌, arith, ◌==◌, ltb, List, [], ◌∷◌, All, Option, some, some_inj,
  and_then-some, ok, ok-injective, Text, trim_space, to_upper, ◌^◌, ◌-◌, split, inl, inr,
  Bool-cases, Option-cases, Result-cases, length,
}
use mathlib.Core.Path.{subst}
use xdp_invisible_armor.Netip.{parse_ip_to4}
use xdp_invisible_armor.PrefixDb.Index.{Entry, Db, rebuild_index}
use xdp_invisible_armor.PrefixDb.Index.Positions.{IsIndexed, rebuild_index-IsIndexed}
use xdp_invisible_armor.PrefixDb.Lines.{scan_lines, large_buffer, small_buffer}
use xdp_invisible_armor.PrefixDb.Load.{
  entry_of_fields, entry_of, entries_of, sort_entries, load_text, load, open_maybe_gzip,
  line_too_long, no_records, parse_uint_lax, name_of,
}
use xdp_invisible_armor.PrefixDb.Resolve.Exact.{IsEntry}
use xdp_invisible_armor.PrefixDb.Overrides.Bounds.{parse_ip_to4-lt, read_rules-IsEntry, err≢ok}
use xdp_invisible_armor.PrefixDb.Overrides.Effect.{
  All-sort, IsEntry-overridden, applied-some, apply_text-applied,
}
use xdp_invisible_armor.PrefixDb.Overrides.{
  Override, as_entry, override_entries, applied, apply_text, apply_overrides, read_rules, refused,
  RuleFile, absent, unreadable, content,
}

-- Right indexes over valid entries.
abbrev pub IsSound : Db → Type 0
IsSound db = IsIndexed db × All IsEntry db.entries

abbrev made : ℕ → ℕ → Text → Text → List Text → Entry
made start last n c rest = record {
  start = start;
  last = last;
  asn = parse_uint_lax (2 ^ 32 - 1) (trim_space n);
  country = to_upper (trim_space c);
  as_name = name_of rest;
}

entry_of_fields-IsEntry : (fs : List Text) (e : Entry) → entry_of_fields fs ≡ some e → IsEntry e
unfolding entry_of_fields
entry_of_fields-IsEntry (a ∷ b ∷ n ∷ c ∷ rest) e h =
    let (s, p, k) = and_then-some (parse_ip_to4 (trim_space a)) _ h in
    let (l, q, m) = and_then-some (parse_ip_to4 (trim_space b)) _ k in
    elim (Bool-cases (ltb l s)) [
      | inl t ↦ absurd (ground (arith, t))
      | inr t ↦
          subst IsEntry {x = made s l n c rest} {y = e} (some_inj (sym (rw t refl) ∙ m))
            (ground (arith, t, parse_ip_to4-lt (trim_space b) l q))
    ]
entry_of_fields-IsEntry [] e h = absurd (ground arith)
entry_of_fields-IsEntry (a ∷ []) e h = absurd (ground arith)
entry_of_fields-IsEntry (a ∷ b ∷ []) e h = absurd (ground arith)
entry_of_fields-IsEntry (a ∷ b ∷ c ∷ []) e h = absurd (ground arith)

entries_of-IsEntry : (ls : List Text) → All IsEntry (entries_of ls)
unfolding entries_of
entries_of-IsEntry [] = tt
entries_of-IsEntry (l ∷ ls) = elim (Option-cases (entry_of l)) [
  | inl n ↦ rw (entries_of, n) (entries_of-IsEntry ls)
  | inr (e, p) ↦
      rw (entries_of, p) (entry_of_fields-IsEntry (split b'\t' l) e p, entries_of-IsEntry ls)
]

rebuild_index-IsSound : (db : Db) → All IsEntry db.entries → IsSound (rebuild_index db)
rebuild_index-IsSound db w =
    let (right, same) = rebuild_index-IsIndexed db in (right, subst (All IsEntry) (sym same) w)

abbrev table : Text → ℕ → List Entry → Db
table path now rows = record {
  entries = sort_entries rows;
  by_country = [];
  by_asn = [];
  source_path = path;
  loaded_at = now;
  override_count = 0;
}

load_text-IsSound :
    (path : Text) (now : ℕ) (text : Text) (db : Db) → load_text path now text ≡ ok db → IsSound db
unfolding load_text
load_text-IsSound path now text db h =
    let rows = entries_of (scan_lines large_buffer text).0 in
    elim (Bool-cases (scan_lines large_buffer text).1) [
      | inl long ↦ absurd (err≢ok {x = line_too_long} (sym (rw (load_text, long) refl) ∙ h))
      | inr short ↦ elim (Bool-cases (length rows == 0)) [
        | inl z ↦ absurd (err≢ok {x = no_records} (sym (rw (load_text, short, z) refl) ∙ h))
        | inr z ↦
            subst IsSound {x = rebuild_index (table path now rows)} {y = db}
              (ok-injective (sym (rw (load_text, short, z) refl) ∙ h))
              (rebuild_index-IsSound (table path now rows)
                (All-sort rows (entries_of-IsEntry (scan_lines large_buffer text).0)))
      ]
    ]

pub load-IsSound :
    (gunzip : Text → Option Text) (path : Text) (now : ℕ) (file : Option Text) (db : Db)
    → load gunzip path now file ≡ ok db
    → IsSound db
unfolding load
load-IsSound gunzip path now file db h = elim (Result-cases (open_maybe_gzip gunzip file)) [
  | inr (e, p) ↦ absurd (err≢ok {x = e} (sym (rw (load, p) refl) ∙ h))
  | inl (text, p) ↦ load_text-IsSound path now text db (sym (rw (load, p) refl) ∙ h)
]

applied-IsSound :
    (db : Db) (ovs : List Override)
    → IsSound db
    → All (λ (o : Override). IsEntry (as_entry o)) ovs
    → IsSound (applied db ovs).0
unfolding applied
applied-IsSound db [] w h = w
applied-IsSound db (o ∷ ovs) w h =
    subst (λ (t : Db × ℕ). IsSound t.0) (sym (applied-some db o ovs))
      (rebuild_index-IsSound (record db { entries = override_entries (o ∷ ovs) db.entries })
        (IsEntry-overridden db (o ∷ ovs) w.1 h))

apply_text-IsSound :
    (db : Db) (text : Text) (r : Db × ℕ) → IsSound db → apply_text db text ≡ ok r → IsSound r.0
unfolding apply_text
apply_text-IsSound db text r w e =
    let lines = (scan_lines small_buffer text).0 in
    elim (Result-cases (read_rules 1 lines [])) [
      | inr (x, p) ↦ absurd (err≢ok {x = refused x} (sym (rw (apply_text, p) refl) ∙ e))
      | inl (ovs, p) ↦
          subst (λ (t : Db × ℕ). IsSound t.0) {x = applied db ovs} {y = r}
            (apply_text-applied db text ovs r p e)
            (applied-IsSound db ovs w (read_rules-IsEntry 1 lines [] ovs tt p))
    ]

pub apply_overrides-IsSound :
    (db : Db) (f : RuleFile) (r : Db × ℕ) → IsSound db → apply_overrides db f ≡ ok r → IsSound r.0
unfolding apply_overrides
apply_overrides-IsSound db absent r w e = subst (λ (t : Db × ℕ). IsSound t.0) (ok-injective e) w
apply_overrides-IsSound db unreadable r w e = absurd (err≢ok e)
apply_overrides-IsSound db (content text) r w e = apply_text-IsSound db text r w e
