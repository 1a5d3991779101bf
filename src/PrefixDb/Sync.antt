-- ===== src/PrefixDb/Sync.antt =====
-- internal/prefixdb/sync.go, SyncFrom, ImportUpload and Reload, and internal/web/prefixdb.go, the
-- saving of the rules: how the table in use is exchanged. A download takes time, so that a sync is two
-- steps, between which others may come. What the network and the file system answer are arguments;
-- a renaming is atomic.
mod Runs
pub mod Tables
pub mod Reached
use xdp_invisible_armor.Common.{
  ℕ, Bool, true, false, ◌==◌, if◌then◌else◌, List, [], ◌∷◌, find, length, Option, none, some,
  Result, ok, err, Text, text_eq, codes,
}
use xdp_invisible_armor.PrefixDb.Index.{Db}
use xdp_invisible_armor.PrefixDb.Load.{LoadError, load, open_maybe_gzip}
use xdp_invisible_armor.PrefixDb.Normalize.{NormalizeError, normalize}
use xdp_invisible_armor.PrefixDb.Overrides.{
  RuleFile, content, RuleError, ApplyError, apply_overrides, validate_overrides,
}

pub record Source : Type 0 where
  pub id : Text
  pub format : Text

abbrev pub sources : List Source
sources =
    record { id = codes "apnic"; format = codes "rir_delegated" }
    ∷ record { id = codes "ripe"; format = codes "rir_delegated" }
    ∷ record { id = codes "arin"; format = codes "rir_delegated" }
    ∷ []

unfoldable pub source_by_id : Text → Option Source
source_by_id id = find (λ (s : Source). text_eq s.id id) sources

pub data ReloadError : Type 0 where
  not_loaded : LoadError → ReloadError
  bad_rules : ApplyError → ReloadError

pub data SyncError : Type 0 where
  no_directory no_answer no_temp_file broken_copy not_renamed : SyncError
  bad_status : ℕ → SyncError
  not_unpacked : LoadError → SyncError
  not_normalized : NormalizeError → SyncError
  not_reloaded : ReloadError → SyncError

pub record SyncStatus : Type 0 where
  pub in_progress : Bool
  pub source_id : Text
  pub started_at : ℕ
  pub finished_at : Option ℕ
  pub bytes_read : ℕ
  pub entries : ℕ
  pub error : Option SyncError

-- The two files of the data directory, the table in use, and the status of the last sync.
pub record TableStore : Type 0 where
  pub active_file : Option Text
  pub rules : RuleFile
  pub global : Option Db
  pub status : SyncStatus

abbrev pub with_count : Db → ℕ → Db
with_count db n = if n == 0 then db else record db { override_count = n }

-- The table that the two files make.
unfoldable pub built : (Text → Option Text) → ℕ → TableStore → Result ReloadError Db
built gunzip now s = elim (load gunzip (codes "prefixdb.tsv") now s.active_file) [
  | err e ↦ err (not_loaded e)
  | ok db ↦ elim (apply_overrides db s.rules) [
    | err e ↦ err (bad_rules e)
    | ok r ↦ ok (with_count r.0 r.1)
  ]
]

unfoldable pub reload : (Text → Option Text) → ℕ → TableStore → TableStore × Option ReloadError
unfolding built
reload gunzip now s = elim (built gunzip now s) [
  | err e ↦ (s, some e)
  | ok db ↦ (record s { global = some db }, none)
]

-- The first half of SyncFrom, under the lock: refused while a sync is under way.
unfoldable pub sync_begin : Source → ℕ → TableStore → Option TableStore
sync_begin src now s =
    if s.status.in_progress
    then none
    else some (record s {
      status = record {
        in_progress = true;
        source_id = src.id;
        started_at = now;
        finished_at = none;
        bytes_read = 0;
        entries = 0;
        error = none;
      };
    })

-- What became of the download: the body, or where it stopped.
pub data Download : Type 0 where
  stopped : SyncError → ℕ → Download
  body : Text → Download

abbrev pub finish : ℕ → ℕ → ℕ → Option SyncError → TableStore → TableStore
finish now entries n e s = record s {
  status = record (s.status) {
    in_progress = false;
    finished_at = some now;
    entries = entries;
    bytes_read = n;
    error = elim e [ none ↦ s.status.error | some x ↦ some x ];
  };
}

-- `normalize` on a file.
unfoldable pub normalize_file : (Text → Option Text) → Text → Text → Result SyncError (Text × ℕ)
normalize_file gunzip format bytes = elim (open_maybe_gzip gunzip (some bytes)) [
  | err e ↦ err (not_unpacked e)
  | ok text ↦ elim (normalize format text) [ err e ↦ err (not_normalized e) | ok r ↦ ok r ]
]

-- The new file takes the place of the old one, and is loaded.
unfoldable pub exchange :
    (Text → Option Text) → Bool → ℕ → Text → TableStore → TableStore × Option SyncError
unfolding reload
exchange gunzip rename_fails now text s =
    if rename_fails
    then (s, some not_renamed)
    else (let (t, e) = reload gunzip now (record s { active_file = some text }) in
        elim e [ none ↦ (t, none) | some x ↦ (t, some (not_reloaded x)) ])

-- The second half of SyncFrom.
unfoldable pub sync_complete :
    (Text → Option Text) → Bool → ℕ → Source → Download → TableStore → TableStore × Option SyncError
unfolding exchange normalize_file
sync_complete gunzip rename_fails now src (stopped e n) s = (finish now 0 n (some e) s, some e)
sync_complete gunzip rename_fails now src (body bytes) s =
    elim (normalize_file gunzip src.format bytes) [
      | err e ↦ (finish now 0 (length bytes) (some e) s, some e)
      | ok r ↦
          let (t, e) = exchange gunzip rename_fails now r.0 s in
          (finish now r.1 (length bytes) e t, e)
    ]

unfoldable pub import_upload :
    (Text → Option Text) → Bool → ℕ → Text → Download → TableStore → TableStore × Option SyncError
unfolding exchange normalize_file
import_upload gunzip rename_fails now format (stopped e n) s = (s, some e)
import_upload gunzip rename_fails now format (body bytes) s =
    elim (normalize_file gunzip format bytes) [
      | err e ↦ (s, some e)
      | ok r ↦ exchange gunzip rename_fails now r.0 s
    ]

pub data SaveAnswer : Type 0 where
  saved bad_format not_written : SaveAnswer

-- `prefixDBSaveOverride`: a reload that fails is only noted in the audit log.
unfoldable pub save_override :
    (Text → Option Text) → Bool → ℕ → Text → TableStore → TableStore × SaveAnswer
unfolding reload
save_override gunzip write_fails now text s = elim (validate_overrides text) [
  | some e ↦ (s, bad_format)
  | none ↦
      if write_fails
      then (s, not_written)
      else ((reload gunzip now (record s { rules = content text })).0, saved)
]
