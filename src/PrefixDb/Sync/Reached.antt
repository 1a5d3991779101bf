-- ===== src/PrefixDb/Sync/Reached.antt =====
-- Every table that is ever in use answers queries exactly.
use xdp_invisible_armor.Common.{
  ℕ, ◌≡◌, sym, Bool, true, false, ◌&&◌, if◌then◌else◌, any, Option, none, some, Text, ok, inl, inr,
  Bool-cases, List,
}
use mathlib.Core.Path.{subst}
use xdp_invisible_armor.Netip.{Prefix}
use xdp_invisible_armor.PrefixDb.Index.{Db, Selector}
use xdp_invisible_armor.PrefixDb.Cidrs.Tiling.{hits}
use xdp_invisible_armor.PrefixDb.Resolve.{resolve}
use xdp_invisible_armor.PrefixDb.Resolve.Candidates.{matches, is_blank}
use xdp_invisible_armor.PrefixDb.Resolve.Exact.{in_entry, resolve_exact}
use xdp_invisible_armor.PrefixDb.Sync.{
  TableStore, reload, Source, sync_begin, Download, sync_complete, import_upload, save_override,
}
use xdp_invisible_armor.PrefixDb.Sync.Tables.{
  InUse, reload-InUse, sync_complete-InUse, import_upload-InUse, save_override-InUse,
}

abbrev BegunInUse : Option TableStore → Type 0
BegunInUse none = Unit
BegunInUse (some t) = InUse t.global

module _ (gunzip : Text → Option Text) where
  -- One step of the server. The end of a sync is one only while a sync is under way; what the network and
  -- the file system do is free.
  pub data Step : TableStore → TableStore → Type 0 where
    begins : {s t : TableStore} (src : Source) (now : ℕ) → sync_begin src now s ≡ some t → Step s t
    completes :
        {s : TableStore} (fails : Bool) (now : ℕ) (src : Source) (d : Download)
        → s.status.in_progress ≡ true
        → Step s (sync_complete gunzip fails now src d s).0
    uploads :
        {s : TableStore} (fails : Bool) (now : ℕ) (format : Text) (d : Download)
        → Step s (import_upload gunzip fails now format d s).0
    saves :
        {s : TableStore} (fails : Bool) (now : ℕ) (text : Text)
        → Step s (save_override gunzip fails now text s).0
    reloads : {s : TableStore} (now : ℕ) → Step s (reload gunzip now s).0

  pub data Reached (s : TableStore) : TableStore → Type 0 where
    at_start : Reached s s
    after : {t u : TableStore} → Reached s t → Step t u → Reached s u

  -- A sync that begins, or does not, leaves the table in use.
  begun-InUse :
      (src : Source) (now : ℕ) (s : TableStore) → InUse s.global → BegunInUse (sync_begin src now s)
  unfolding sync_begin
  begun-InUse src now s h = elim (Bool-cases s.status.in_progress) [
    | inl b ↦ rw (sync_begin, b) tt
    | inr b ↦ rw (sync_begin, b) h
  ]

  Step-InUse : {s t : TableStore} → Step s t → InUse s.global → InUse t.global
  Step-InUse {s} {t} (begins src now e) h = subst BegunInUse e (begun-InUse src now s h)
  Step-InUse {s} (completes fails now src d b) h = sync_complete-InUse gunzip fails now src d s h
  Step-InUse {s} (uploads fails now format d) h = import_upload-InUse gunzip fails now format d s h
  Step-InUse {s} (saves fails now text) h = save_override-InUse gunzip fails now text s h
  Step-InUse {s} (reloads now) h = reload-InUse gunzip now s h

  Reached-InUse : {s t : TableStore} → InUse s.global → Reached s t → InUse t.global
  Reached-InUse h at_start = h
  Reached-InUse h (after r step) = Step-InUse step (Reached-InUse h r)

  -- From a start without a table in use, let any course of syncs, uploads, saved rules and reloads, each of which
  -- may fail, lead to a table in use. Then a selector that is not blank resolves over it, and its
  -- prefixes hold an address exactly once if an entry that matches holds it, and otherwise not at all.
  pub Reached-resolve :
      (s t : TableStore) (db : Db) (sel : Selector)
      → s.global ≡ none
      → Reached s t
      → t.global ≡ some db
      → is_blank sel ≡ false
      → (ps : List Prefix) × (resolve db sel ≡ ok ps)
        × ((x : ℕ)
            → hits x ps ≡ (if any (λ e. matches sel e && in_entry x e) db.entries then 1 else 0))
  Reached-resolve s t db sel z r u b =
      let (right, valid) = subst InUse u (Reached-InUse (subst InUse (sym z) tt) r) in
      (resolve_exact db sel right valid).1 b
