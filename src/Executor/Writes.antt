-- ===== src/Executor/Writes.antt =====
-- What a payload leaves in the maps, on success and on failure, and what taking it back removes.
use xdp_invisible_armor.Common.{
  ℕ, ◌≡◌, ◌⊎◌, inl, inr, refl, false, none, some, Text, text_eq, ok, err, Result-cases, lookup,
}
use xdp_invisible_armor.Netip.{Prefix}
use xdp_invisible_armor.Banmap.{Error, encode_global_key, encode_src_key, parse_ipv4_prefix}
use xdp_invisible_armor.Model.{Failure, bad_prefix, global_write}
use xdp_invisible_armor.Executor.{
  Removal, removed, missing, failed, MapWriter, IsMapWriter, BanMaps, revoke_global,
}

-- The key of a text in the global map, and in the map of source bans.
abbrev pub GlobalKey : Text → Text → Type 0
GlobalKey s key =
    (prefix : Prefix) × (parse_ipv4_prefix s ≡ ok prefix) × (encode_global_key prefix ≡ ok key)

abbrev pub SrcKey : ℕ → Text → Text → Type 0
SrcKey tid s key =
    (prefix : Prefix) × (parse_ipv4_prefix s ≡ ok prefix) × (encode_src_key tid prefix ≡ ok key)

global-cases :
    (s : Text)
    → ((prefix : Prefix) × (key : Text) × (parse_ipv4_prefix s ≡ ok prefix)
        × (encode_global_key prefix ≡ ok key))
      ⊎ (((e : Error) × (parse_ipv4_prefix s ≡ err e))
          ⊎ ((prefix : Prefix) × (e : Error) × (parse_ipv4_prefix s ≡ ok prefix)
              × (encode_global_key prefix ≡ err e)))
global-cases s = elim (Result-cases (parse_ipv4_prefix s)) [
  | inr (e, f) ↦ inr (inl (e, f))
  | inl (p, f) ↦ elim (Result-cases (encode_global_key p)) [
    | inl (k, g) ↦ inl (p, k, f, g)
    | inr (e, g) ↦ inr (inr (p, e, f, g))
  ]
]

pub source-cases :
    (tid : ℕ) (s : Text)
    → ((prefix : Prefix) × (key : Text) × (parse_ipv4_prefix s ≡ ok prefix)
        × (encode_src_key tid prefix ≡ ok key))
      ⊎ (((e : Error) × (parse_ipv4_prefix s ≡ err e))
          ⊎ ((prefix : Prefix) × (e : Error) × (parse_ipv4_prefix s ≡ ok prefix)
              × (encode_src_key tid prefix ≡ err e)))
source-cases tid s = elim (Result-cases (parse_ipv4_prefix s)) [
  | inr (e, f) ↦ inr (inl (e, f))
  | inl (p, f) ↦ elim (Result-cases (encode_src_key tid p)) [
    | inl (k, g) ↦ inl (p, k, f, g)
    | inr (e, g) ↦ inr (inr (p, e, f, g))
  ]
]

module _ {C : Type 0} (w : MapWriter C) where
  -- The ban is in the map under its key, and no other entry has changed.
  abbrev pub Added : Text → Text → C → C → Type 0
  Added key val before after =
      (lookup key (w.entries after) ≡ some val)
      × ((j : Text)
          → text_eq j key ≡ false
          → lookup j (w.entries after) ≡ lookup j (w.entries before))

  abbrev pub Removed : Text → C → C → Type 0
  Removed key before after =
      (lookup key (w.entries after) ≡ none)
      × ((j : Text)
          → text_eq j key ≡ false
          → lookup j (w.entries after) ≡ lookup j (w.entries before))

  -- A global ban that is taken back is not in the map afterwards, and no other entry has changed; where
  -- that fails, the maps are as before.
  pub revoke_global_lem :
      (law : IsMapWriter w) (target : Text) (m : BanMaps C)
      → ((key : Text) × (bans : C) × GlobalKey target key
          × Removed key m.global_bans bans
          × (revoke_global w target m ≡ (record m { global_bans = bans }, none)))
        ⊎ ((e : Failure) × (revoke_global w target m ≡ (m, some e)))
  unfolding revoke_global
  revoke_global_lem law target m = elim (global-cases target) [
    | inr (inl (e, f)) ↦ inr (bad_prefix e, rw (revoke_global, f) refl)
    | inr (inr (q, e, f, g)) ↦ inr (bad_prefix e, rw (revoke_global, f, g) refl)
    | inl (q, key, f, g) ↦ at_key q key f g (w.remove key m.global_bans) refl
  ]
    where
      at_key :
          (q : Prefix) (key : Text)
          → parse_ipv4_prefix target ≡ ok q
          → encode_global_key q ≡ ok key
          → (r : Removal C) → w.remove key m.global_bans ≡ r
          → ((key : Text) × (bans : C) × GlobalKey target key
              × Removed key m.global_bans bans
              × (revoke_global w target m ≡ (record m { global_bans = bans }, none)))
            ⊎ ((e : Failure) × (revoke_global w target m ≡ (m, some e)))
      at_key q key f g failed h = inr (global_write q, rw (revoke_global, f, g, h) refl)
      at_key q key f g missing h = inl (
        key,
        m.global_bans,
        (q, f, g),
        (law.remove-missing key _ h, λ j d. refl),
        rw (revoke_global, f, g, h) refl,
      )
      at_key q key f g (removed bans) h = inl (
        key,
        bans,
        (q, f, g),
        (law.remove-same key _ bans h, λ j d. law.remove-other j key _ bans h d),
        rw (revoke_global, f, g, h) refl,
      )
