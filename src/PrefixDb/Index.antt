-- ===== src/PrefixDb/Index.antt =====
-- internal/prefixdb/db.go: the entries, and the two indexes that rebuildIndex makes of them.
pub mod Positions
use xdp_invisible_armor.Common.{
  ℕ, suc, ◌+◌, Bool, true, false, not, ◌&&◌, ◌||◌, ◌==◌, if◌then◌else◌, List, [], ◌∷◌, ◌++◌, Text,
  text_eq, is_empty, codes,
}

pub record Entry : Type 0 where
  pub start : ℕ
  pub last : ℕ
  pub asn : ℕ
  pub country : Text
  pub as_name : Text

pub record Db : Type 0 where
  pub entries : List Entry
  pub by_country : List (Text × List ℕ)
  pub by_asn : List (ℕ × List ℕ)
  pub source_path : Text
  pub loaded_at : ℕ
  pub override_count : ℕ

pub record Selector : Type 0 where
  pub country : Text
  pub asn : ℕ

module _ {ℓ} {K : Type ℓ} (same : K → K → Bool) where
  -- `m[k]` of a Go map of slices: a missing key has no rows.
  unfoldable pub rows_of : K → List (K × List ℕ) → List ℕ
  rows_of k [] = []
  rows_of k ((j, is) ∷ m) = if same j k then is else rows_of k m

  -- `m[k] = append(m[k], i)`
  unfoldable pub add_row : K → ℕ → List (K × List ℕ) → List (K × List ℕ)
  add_row k i [] = (k, i ∷ []) ∷ []
  add_row k i ((j, is) ∷ m) = if same j k then (j, is ++ i ∷ []) ∷ m else (j, is) ∷ add_row k i m

abbrev pub lists_country : Entry → Bool
lists_country e = not (is_empty e.country) && not (text_eq e.country (codes "NONE"))

abbrev pub lists_asn : Entry → Bool
lists_asn e = not (e.asn == 0)

-- One round of the loop over the entries.
index_entry : Db → ℕ → Entry → Db
unfolding add_row
index_entry db i e = record db {
  by_country = if lists_country e then add_row text_eq e.country i db.by_country else db.by_country;
  by_asn = if lists_asn e then add_row ◌==◌ e.asn i db.by_asn else db.by_asn;
}

index_from : Db → ℕ → List Entry → Db
unfolding index_entry
index_from db i [] = db
index_from db i (e ∷ es) = index_from (index_entry db i e) (i + 1) es

unfoldable pub rebuild_index : Db → Db
unfolding index_from
rebuild_index db = index_from (record db { by_country = []; by_asn = [] }) 0 db.entries
