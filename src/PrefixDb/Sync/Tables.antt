-- ===== src/PrefixDb/Sync/Tables.antt =====
-- The table in use, over any course of downloads, uploads, saved rules and reloads.
use xdp_invisible_armor.Common.{
  ℕ, ◌≡◌, ◌⊎◌, refl, sym, ◌∙◌, Bool, true, false, ◌==◌, Option, none, some, ok, ok-injective, Text,
  codes, inl, inr, Bool-cases, Option-cases, Result-cases, length,
}
use mathlib.Core.Path.{subst}
use xdp_invisible_armor.PrefixDb.Index.{Db}
use xdp_invisible_armor.PrefixDb.Load.{load}
use xdp_invisible_armor.PrefixDb.Overrides.{apply_overrides, validate_overrides, content}
use xdp_invisible_armor.PrefixDb.Overrides.Bounds.{err≢ok}
use xdp_invisible_armor.PrefixDb.Overrides.Rows.{IsSound, load-IsSound, apply_overrides-IsSound}
use xdp_invisible_armor.PrefixDb.Sync.{
  TableStore, SyncError, ReloadError, not_loaded, bad_rules, not_reloaded, with_count, built,
  reload, Source, Download, stopped, body, finish, normalize_file, exchange, sync_complete,
  import_upload, save_override,
}

counted : (n : ℕ) (db : Db) → IsSound db → IsSound (with_count db n)
counted n db (v, w) = elim (Bool-cases (n == 0)) [
  | inl z ↦ rw z (v, w)
  | inr z ↦ rw z (record { countries = v.countries; asns = v.asns }, w)
]

-- What is in use, if anything, is sound.
abbrev pub InUse : Option Db → Type 0
InUse none = Unit
InUse (some db) = IsSound db

module _ (gunzip : Text → Option Text) where
  built-IsSound : (now : ℕ) (s : TableStore) (db : Db) → built gunzip now s ≡ ok db → IsSound db
  unfolding built
  built-IsSound now s db h =
      elim (Result-cases (load gunzip (codes "prefixdb.tsv") now s.active_file)) [
        | inr (e, p) ↦ absurd (err≢ok {x = not_loaded e} (sym (rw (built, p) refl) ∙ h))
        | inl (raw, p) ↦ elim (Result-cases (apply_overrides raw s.rules)) [
          | inr (e, q) ↦ absurd (err≢ok {x = bad_rules e} (sym (rw (built, p, q) refl) ∙ h))
          | inl (r, q) ↦
              subst IsSound {x = with_count r.0 r.1} {y = db}
                (ok-injective (sym (rw (built, p, q) refl) ∙ h))
                (counted r.1 r.0 (
                  apply_overrides-IsSound raw s.rules r
                    (load-IsSound gunzip (codes "prefixdb.tsv") now s.active_file raw p) q))
        ]
      ]

  -- A reload changes nothing, or puts the table that the files make into use.
  Reloaded : ℕ → TableStore → TableStore × Option ReloadError → Type 0
  Reloaded now s r =
      ((e : ReloadError) × (r ≡ (s, some e)))
      ⊎ ((db : Db) × (built gunzip now s ≡ ok db) × (r ≡ (record s { global = some db }, none)))

  reload-cases : (now : ℕ) (s : TableStore) → Reloaded now s (reload gunzip now s)
  unfolding Reloaded reload
  reload-cases now s = elim (Result-cases (built gunzip now s)) [
    | inr (e, p) ↦ inl (e, rw (reload, p) refl)
    | inl (db, p) ↦ inr (db, p, rw (reload, p) refl)
  ]

  pub reload-InUse :
      (now : ℕ) (s : TableStore) → InUse s.global → InUse (reload gunzip now s).0.global
  unfolding Reloaded
  reload-InUse now s h = elim (reload-cases now s) [
    | inl (e, p) ↦ rw p h
    | inr (db, b, p) ↦ rw p (built-IsSound now s db b)
  ]

  -- The end of a sync: a failure leaves the table in use, a success has put the one that the files
  -- make into use.
  abbrev pub Settled : ℕ → TableStore → TableStore × Option SyncError → Type 0
  Settled now s (t, some x) = t.global ≡ s.global
  Settled now s (t, none) = (db : Db) × (t.global ≡ some db) × (built gunzip now t ≡ ok db)

  exchanged : TableStore × Option ReloadError → TableStore × Option SyncError
  exchanged (t, none) = (t, none)
  exchanged (t, some x) = (t, some (not_reloaded x))

  exchange-Settled :
      (fails : Bool) (now : ℕ) (text : Text) (s : TableStore)
      → Settled now s (exchange gunzip fails now text s)
  unfolding exchange Reloaded exchanged built
  exchange-Settled true now text s = refl
  exchange-Settled false now text s =
      elim (reload-cases now (record s { active_file = some text })) [
        | inl (e, p) ↦ subst (λ r. Settled now s (exchanged r)) (sym p) refl
        | inr (db, b, p) ↦ subst (λ r. Settled now s (exchanged r)) (sym p) (db, refl, b)
      ]

  finish-Settled :
      (now at n m : ℕ) (s : TableStore) (r : TableStore × Option SyncError)
      → Settled now s r
      → Settled now s (finish at n m r.1 r.0, r.1)
  unfolding built
  finish-Settled now at n m s (t, some x) h = h
  finish-Settled now at n m s (t, none) h = h

  -- However a sync ends, no sync is under way thereafter. If it fails, at whatever stage, the table in
  -- use is the one before; if it succeeds, it is the one that the files in the data directory make.
  pub sync_complete-Settled :
      (fails : Bool) (now : ℕ) (src : Source) (d : Download) (s : TableStore)
      → ((sync_complete gunzip fails now src d s).0.status.in_progress ≡ false)
        × Settled now s (sync_complete gunzip fails now src d s)
  unfolding sync_complete
  sync_complete-Settled fails now src (stopped e n) s = (refl, refl)
  sync_complete-Settled fails now src (body bytes) s =
      elim (Result-cases (normalize_file gunzip src.format bytes)) [
        | inr (e, p) ↦ rw (sync_complete, p) (refl, refl)
        | inl (r, p) ↦
            rw (sync_complete, p)
              (
                refl,
                finish-Settled now now r.1 (length bytes) s (exchange gunzip fails now r.0 s)
                    (exchange-Settled fails now r.0 s),
              )
      ]

  exchange-InUse :
      (fails : Bool) (now : ℕ) (text : Text) (s : TableStore)
      → InUse s.global
      → InUse (exchange gunzip fails now text s).0.global
  unfolding exchange Reloaded exchanged
  exchange-InUse true now text s h = h
  exchange-InUse false now text s h =
      elim (reload-cases now (record s { active_file = some text })) [
        | inl (e, p) ↦ subst (λ r. InUse (exchanged r).0.global) (sym p) h
        | inr (db, b, p) ↦
            subst (λ r. InUse (exchanged r).0.global) (sym p)
              (built-IsSound now (record s { active_file = some text }) db b)
      ]

  pub sync_complete-InUse :
      (fails : Bool) (now : ℕ) (src : Source) (d : Download) (s : TableStore)
      → InUse s.global
      → InUse (sync_complete gunzip fails now src d s).0.global
  unfolding sync_complete
  sync_complete-InUse fails now src (stopped e n) s h = h
  sync_complete-InUse fails now src (body bytes) s h =
      elim (Result-cases (normalize_file gunzip src.format bytes)) [
        | inr (e, p) ↦ rw (sync_complete, p) h
        | inl (r, p) ↦ rw (sync_complete, p) (exchange-InUse fails now r.0 s h)
      ]

  pub import_upload-InUse :
      (fails : Bool) (now : ℕ) (format : Text) (d : Download) (s : TableStore)
      → InUse s.global
      → InUse (import_upload gunzip fails now format d s).0.global
  unfolding import_upload
  import_upload-InUse fails now format (stopped e n) s h = h
  import_upload-InUse fails now format (body bytes) s h =
      elim (Result-cases (normalize_file gunzip format bytes)) [
        | inr (e, p) ↦ rw (import_upload, p) h
        | inl (r, p) ↦ rw (import_upload, p) (exchange-InUse fails now r.0 s h)
      ]

  pub save_override-InUse :
      (fails : Bool) (now : ℕ) (text : Text) (s : TableStore)
      → InUse s.global
      → InUse (save_override gunzip fails now text s).0.global
  unfolding save_override
  save_override-InUse fails now text s h = elim (Option-cases (validate_overrides text)) [
    | inr (e, p) ↦ rw (save_override, p) h
    | inl p ↦ elim (Bool-cases fails) [
      | inl w ↦ rw (save_override, p, w) h
      | inr w ↦ rw (save_override, p, w) (reload-InUse now (record s { rules = content text }) h)
    ]
  ]
