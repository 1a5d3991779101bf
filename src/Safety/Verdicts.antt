-- ===== src/Safety/Verdicts.antt =====
-- A veto is raised exactly for targets that share an address with a protected prefix.
use mathlib.Core.Path.{subst}
use mathlib.Core.List.{append_assoc}
use xdp_invisible_armor.Common.{
  ◌≢◌, parse_uint, ◌≡◌, ◌↔◌, ◌⊎◌, inl, inr, refl, ◌∙◌, ap, arith, List, [], ◌∷◌, ◌++◌, find, All,
  Option, none, some, Option-cases, Bool-cases, Text,
}
use xdp_invisible_armor.Netip.{Addr, v4, v6, Prefix, Contains, overlaps, parse_addr, parse_prefix}
use xdp_invisible_armor.Netip.Overlap.{IsPrefix, overlaps_iff}
use xdp_invisible_armor.Safety.{
  Guard, unreadable, to_prefix, add_one, add, new, assert_safe, assert_safe_all, built_in,
}

-- No address of `t` is protected.
abbrev pub IsClear : List Prefix → Prefix → Type 0
IsClear ps t = All (λ p. ¬ ((x : Addr) × Contains p x × Contains t x)) ps

-- Some address of `t` is protected, by one of the prefixes.
abbrev pub Hit : List Prefix → Prefix → Type 0
Hit [] t = ⊥
Hit (p ∷ ps) t = ((x : Addr) × Contains p x × Contains t x) ⊎ Hit ps t

find-IsClear :
    (ps : List Prefix) (t : Prefix)
    → All IsPrefix ps
    → IsPrefix t
    → find (λ p. overlaps p t) ps ≡ none
    → IsClear ps t
find-IsClear [] t h k e = tt
find-IsClear (p ∷ ps) t h k e = elim (Bool-cases (overlaps p t)) [
  | inl o ↦ absurd (ground arith)
  | inr o ↦
      (λ s. ground (arith, (overlaps_iff p t h.0 k).1 s), find-IsClear ps t h.1 k (ground arith))
]

find-Hit :
    (ps : List Prefix) (t q : Prefix)
    → All IsPrefix ps
    → IsPrefix t
    → find (λ p. overlaps p t) ps ≡ some q
    → Hit ps t
find-Hit [] t q h k e = absurd (ground arith)
find-Hit (p ∷ ps) t q h k e = elim (Bool-cases (overlaps p t)) [
  | inl o ↦ inl ((overlaps_iff p t h.0 k).0 o)
  | inr o ↦ inr (find-Hit ps t q h.1 k (ground arith))
]

not_both : (ps : List Prefix) (t : Prefix) → IsClear ps t → Hit ps t → ⊥
not_both [] t c h = h
not_both (p ∷ ps) t c (inl s) = c.0 s
not_both (p ∷ ps) t c (inr h) = not_both ps t c.1 h

-- For well-formed protected prefixes and a target that reads as a well-formed prefix, the guard
-- lets the target pass exactly if no address of it is protected.
pub assert_safe_lem :
    (g : Guard) (target : Text) (t : Prefix)
    → All IsPrefix g.protected
    → to_prefix target ≡ some t
    → IsPrefix t
    → (assert_safe g target ≡ none) ↔ IsClear g.protected t
unfolding assert_safe
assert_safe_lem g target t h e k = elim (Option-cases (find (λ p. overlaps p t) g.protected)) [
  | inl n ↦ (λ _. find-IsClear g.protected t h k n, λ _. rw (assert_safe, e, n) refl)
  | inr (q, s) ↦ (
    λ r. absurd (vetoed q s r),
    λ c. absurd (not_both g.protected t c (find-Hit g.protected t q h k s)),
  )
]
  where
    vetoed :
        (q : Prefix)
        → find (λ p. overlaps p t) g.protected ≡ some q
        → assert_safe g target ≡ none
        → ⊥
    vetoed q s r = ground (arith, e, s)

-- A target that is neither a prefix nor an address is vetoed.
pub assert_safe-unreadable :
    (g : Guard) (target : Text)
    → parse_prefix target ≡ none
    → parse_addr target ≡ none
    → assert_safe g target ≡ some (unreadable target)
unfolding assert_safe to_prefix
assert_safe-unreadable g target e f = rw (assert_safe, to_prefix, e, f) refl

-- A list of well-formed prefixes passes the guard exactly if none of their addresses is protected.
pub assert_safe_all_lem :
    (g : Guard) (ts : List Prefix)
    → All IsPrefix g.protected
    → All IsPrefix ts
    → (assert_safe_all g ts ≡ none) ↔ All (λ t. IsClear g.protected t) ts
unfolding assert_safe_all
assert_safe_all_lem g [] h k = (λ _. tt, λ _. refl)
assert_safe_all_lem g (t ∷ ts) h k = elim (Option-cases (find (λ p. overlaps p t) g.protected)) [
  | inl n ↦ (
    λ r. (
      find-IsClear g.protected t h k.0 n,
      (assert_safe_all_lem g ts h k.1).0 (ground (arith, n)),
    ),
    λ c. rw (assert_safe_all, n) ((assert_safe_all_lem g ts h k.1).1 c.1),
  )
  | inr (q, s) ↦ (
    λ r. absurd (ground (arith, s)),
    λ c. absurd (not_both g.protected t c.0 (find-Hit g.protected t q h k.0 s)),
  )
]

add_one-append :
    (g : Guard) (t : Text) (qs ps : List Prefix)
    → g.protected ≡ qs ++ ps
    → (rest : List Prefix) × ((add_one g t).protected ≡ qs ++ rest)
unfolding add_one
add_one-append g t qs ps e = go (to_prefix t)
  where
    go :
        (o : Option Prefix)
        → (rest : List Prefix) × ((elim o as (λ x. Guard) [
          | some p ↦ record { protected = g.protected ++ p ∷ [] }
          | none ↦ g
        ]).protected
            ≡ qs ++ rest)
    go none = (ps, e)
    go (some p) = (ps ++ p ∷ [], ap (λ l. l ++ p ∷ []) e ∙ append_assoc qs ps (p ∷ []))

add-append :
    (g : Guard) (ts : List Text) (qs ps : List Prefix)
    → g.protected ≡ qs ++ ps
    → (rest : List Prefix) × ((add g ts).protected ≡ qs ++ rest)
unfolding add
add-append g [] qs ps e = (ps, e)
add-append g (t ∷ ts) qs ps e =
    let (more, f) = add_one-append g t qs ps e in add-append (add_one g t) ts qs more f

-- The prefixes of this machine itself, which every guard protects.
abbrev pub own : List Prefix
own =
    record { addr = v4 0x7f000000; bits = 8 }
    ∷ record { addr = v6 1 []; bits = 128 }
    ∷ record { addr = v4 0; bits = 32 }
    ∷ []

own-IsPrefix : All IsPrefix own
own-IsPrefix = ground arith

built_in-own : (new []).protected ≡ own
unfolding new add built_in parse_prefix parse_uint
built_in-own = refl

new-own : (extra : List Text) → (rest : List Prefix) × ((new extra).protected ≡ own ++ rest)
unfolding new
new-own extra = add-append (new []) extra own [] built_in-own

Hit-find :
    (ps rest : List Prefix) (t : Prefix)
    → All IsPrefix ps
    → IsPrefix t
    → Hit ps t
    → find (λ p. overlaps p t) (ps ++ rest) ≢ none
Hit-find [] rest t h k s e = s
Hit-find (p ∷ ps) rest t h k (inl s) e = ground (arith, (overlaps_iff p t h.0 k).1 s)
Hit-find (p ∷ ps) rest t h k (inr s) e = elim (Bool-cases (overlaps p t)) [
  | inl o ↦ ground arith
  | inr o ↦ Hit-find ps rest t h.1 k s (ground arith)
]

-- Whatever else is protected, a target that reads as a well-formed prefix and shares an address with
-- the machine's own prefixes is vetoed.
pub new-own_vetoed :
    (extra : List Text) (target : Text) (t : Prefix)
    → to_prefix target ≡ some t
    → IsPrefix t
    → Hit own t
    → assert_safe (new extra) target ≢ none
unfolding assert_safe
new-own_vetoed extra target t e k s n =
    let (rest, f) = new-own extra in
    Hit-find own rest t own-IsPrefix k s
      (subst (λ l. find (λ p. overlaps p t) l ≡ none) f (passed n))
  where
    passed :
        assert_safe (new extra) target ≡ none
        → find (λ p. overlaps p t) (new extra).protected ≡ none
    passed n = ground (arith, e)
