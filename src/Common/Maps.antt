-- ===== src/Common/Maps.antt =====
-- Go's maps and the kernel's hash maps: association lists whose keys are texts or bytes, each key
-- once.
use mathlib.Core.Path.{◌≡◌, refl, sym, ap, ◌∙◌}
use mathlib.Core.Bool.{Bool, true, false}
use mathlib.Core.List.{List, [], ◌∷◌}
use mathlib.Core.Logic.{inl, inr}
use mathlib.Core.Option.{Option, none, some}
use native.Mathlib.Omega.{arith}
use xdp_invisible_armor.Common.Tests.{if◌then◌else◌, Bool-cases}
use xdp_invisible_armor.Common.Texts.{Text, text_eq, text_eq→eq, text_eq_self}

abbrev pub Map {ℓ} : Type ℓ → Type ℓ
Map V = List (Text × V)

same_keys : (k j l : Text) → text_eq l k ≡ false → text_eq k j ≡ true → text_eq l j ≡ false
same_keys k j l e f = ap (λ t. text_eq l t) (sym (text_eq→eq k j f)) ∙ e

module _ {ℓ} {V : Type ℓ} where
  abbrev pub lookup : Text → Map V → Option V
  lookup k [] = none
  lookup k ((j, v) ∷ m) = if text_eq k j then some v else lookup k m

  abbrev pub erase : Text → Map V → Map V
  erase k [] = []
  erase k ((j, v) ∷ m) = let rest = erase k m in if text_eq k j then rest else (j, v) ∷ rest

  abbrev pub insert : Text → V → Map V → Map V
  insert k v m = (k, v) ∷ erase k m

  -- The entries whose value passes a test.
  abbrev pub retain : (V → Bool) → Map V → Map V
  retain p [] = []
  retain p ((j, v) ∷ m) = let rest = retain p m in if p v then (j, v) ∷ rest else rest

  abbrev pub IsMap : Map V → Type ℓ
  IsMap [] = Unit {ℓ}
  IsMap ((j, v) ∷ m) = (lookup j m ≡ none) × IsMap m

  abbrev pub passing : (V → Bool) → Option V → Option V
  passing p none = none
  passing p (some v) = if p v then some v else none

  pub lookup-insert : (k : Text) (v : V) (m : Map V) → lookup k (insert k v m) ≡ some v
  lookup-insert k v m = rw (text_eq_self k) refl

  pub lookup-erase : (k : Text) (m : Map V) → lookup k (erase k m) ≡ none
  lookup-erase k [] = refl
  lookup-erase k ((j, v) ∷ m) = ground (arith, lookup-erase k m)

  pub lookup-erase_other :
      (l k : Text) (m : Map V) → text_eq l k ≡ false → lookup l (erase k m) ≡ lookup l m
  lookup-erase_other l k [] e = refl
  lookup-erase_other l k ((j, v) ∷ m) e =
      ground (arith, same_keys k j l e, lookup-erase_other l k m e)

  pub lookup-insert_other :
      (l k : Text) (v : V) (m : Map V) → text_eq l k ≡ false → lookup l (insert k v m) ≡ lookup l m
  lookup-insert_other l k v m e = rw e (lookup-erase_other l k m e)

  lookup-none-erase : (l k : Text) (m : Map V) → lookup l m ≡ none → lookup l (erase k m) ≡ none
  lookup-none-erase l k [] e = refl
  lookup-none-erase l k ((j, v) ∷ m) e = ground (arith, lookup-none-erase l k m)

  pub erase-IsMap : (k : Text) (m : Map V) → IsMap m → IsMap (erase k m)
  erase-IsMap k [] h = tt
  erase-IsMap k ((j, v) ∷ m) h = elim (Bool-cases (text_eq k j)) [
    | inl e ↦ rw e (erase-IsMap k m h.1)
    | inr e ↦ rw e (lookup-none-erase j k m h.0, erase-IsMap k m h.1)
  ]

  pub insert-IsMap : (k : Text) (v : V) (m : Map V) → IsMap m → IsMap (insert k v m)
  insert-IsMap k v m h = (lookup-erase k m, erase-IsMap k m h)

  lookup-none-retain :
      (p : V → Bool) (l : Text) (m : Map V) → lookup l m ≡ none → lookup l (retain p m) ≡ none
  lookup-none-retain p l [] e = refl
  lookup-none-retain p l ((j, v) ∷ m) e = ground (arith, lookup-none-retain p l m)

  pub retain-IsMap : (p : V → Bool) (m : Map V) → IsMap m → IsMap (retain p m)
  retain-IsMap p [] h = tt
  retain-IsMap p ((j, v) ∷ m) h = elim (Bool-cases (p v)) [
    | inl e ↦ rw e (lookup-none-retain p j m h.0, retain-IsMap p m h.1)
    | inr e ↦ rw e (retain-IsMap p m h.1)
  ]

  absent :
      (p : V → Bool) (k j : Text) (m : Map V)
      → text_eq k j ≡ true
      → lookup j m ≡ none
      → lookup k (retain p m) ≡ none
  absent p k j m e h = lookup-none-retain p k m (ap (λ t. lookup t m) (text_eq→eq k j e) ∙ h)

  pub lookup-retain :
      (p : V → Bool) (k : Text) (m : Map V)
      → IsMap m
      → lookup k (retain p m) ≡ passing p (lookup k m)
  lookup-retain p k [] h = refl
  lookup-retain p k ((j, v) ∷ m) h = ground (arith, absent p k j m, lookup-retain p k m h.1, h.0)
