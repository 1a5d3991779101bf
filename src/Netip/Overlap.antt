-- ===== src/Netip/Overlap.antt =====
-- Two prefixes overlap if and only if some address lies in both.
use xdp_invisible_armor.Common.{
  ℕ, ◌+◌, ◌-◌, ◌*◌, ◌/◌, ◌^◌, ◌≤◌, ◌<◌, min, ◌≡◌, ◌↔◌, ◌∷◌, refl, sym, ap, ◌∙◌, inl, inr, arith,
  Bool, true, false, ◌&&◌, ◌==◌, ==_iff, ltb, if◌then◌else◌, Bool-cases, [], Text, text_eq, pow_pos,
  pow_split, clear-eq_iff,
}
use native.Mathlib.Nat.{div-div-eq-div-mul, mod-eq_of_lt}
use mathlib.Core.Path.{subst}
use xdp_invisible_armor.Netip.Defs.{
  Addr, v4, v6, Prefix, bit_len, value, without_zone, clear_low, overlaps, Contains,
}

-- A prefix as the parsers give it: it fits its family and has no zone.
abbrev pub IsPrefix : Prefix → Type 0
IsPrefix p =
    (p.bits ≤ bit_len p.addr) × (value p.addr < 2 ^ bit_len p.addr) × (without_zone p.addr ≡ p.addr)

-- Numbers that agree above `j` bits agree above `k` bits.
pub clear_coarser :
    (j k a b : ℕ) → j ≤ k → clear_low j a ≡ clear_low j b → clear_low k a ≡ clear_low k b
clear_coarser j k a b h e = (clear-eq_iff (2 ^ k) a b (pow_pos k)).1 (
    up a
    ∙ ap (λ (t : ℕ). t / 2 ^ (k - j)) ((clear-eq_iff (2 ^ j) a b (pow_pos j)).0 e)
    ∙ sym (up b))
  where
    power : 2 ^ k ≡ 2 ^ j * 2 ^ (k - j)
    power = ap (λ (t : ℕ). 2 ^ t) {x = k} {y = j + (k - j)} (omega arith) ∙ pow_split j (k - j)

    up : (x : ℕ) → x / 2 ^ k ≡ x / 2 ^ j / 2 ^ (k - j)
    up x = ap (λ (t : ℕ). x / t) power ∙ sym (div-div-eq-div-mul x (2 ^ j) (2 ^ (k - j)))

-- The test of `Overlaps` within a family of width `w`.
abbrev agree : ℕ → ℕ → ℕ → ℕ → ℕ → Bool
agree w a m b n =
    if a == b && m == n
    then true
    else if min m n == 0
    then true
    else clear_low (w - min m n) a == clear_low (w - min m n) b

clear_all : (w a : ℕ) → a < 2 ^ w → clear_low w a ≡ 0
clear_all w a h = omega (arith, mod-eq_of_lt h)

agree→clear :
    (w a m b n : ℕ)
    → a < 2 ^ w
    → b < 2 ^ w
    → agree w a m b n ≡ true
    → clear_low (w - min m n) a ≡ clear_low (w - min m n) b
agree→clear w a m b n ha hb e = elim (Bool-cases (a == b && m == n)) [
  | inl s ↦ ap (λ (t : ℕ). clear_low (w - min m n) t) {x = a} {y = b} (ground arith)
  | inr s ↦ elim (Bool-cases (min m n == 0)) [
    | inl z ↦
        ap (λ (t : ℕ). clear_low t a) {x = w - min m n} {y = w} (ground arith)
        ∙ clear_all w a ha
        ∙ sym (clear_all w b hb)
        ∙ ap (λ (t : ℕ). clear_low t b) {x = w} {y = w - min m n} (ground arith)
    | inr z ↦ (==_iff _ _).0 (last s z)
  ]
]
  where
    last :
        (a == b && m == n) ≡ false
        → (min m n == 0) ≡ false
        → (clear_low (w - min m n) a == clear_low (w - min m n) b) ≡ true
    last s z = subst (λ t. t ≡ true) (rw (s, z) refl) e

clear→agree :
    (w a m b n : ℕ) → clear_low (w - min m n) a ≡ clear_low (w - min m n) b → agree w a m b n ≡ true
clear→agree w a m b n e = rw ((==_iff _ _).1 e) (over (a == b && m == n) (min m n == 0))
  where
    over : (s z : Bool) → (if s then true else if z then true else true) ≡ true
    over s z = ground arith

-- An address that two prefixes of one family share makes them agree on the shorter length.
share→clear :
    (w a m b n x : ℕ)
    → clear_low (w - m) x ≡ clear_low (w - m) a
    → clear_low (w - n) x ≡ clear_low (w - n) b
    → clear_low (w - min m n) a ≡ clear_low (w - min m n) b
share→clear w a m b n x e f =
    sym (clear_coarser (w - m) (w - min m n) x a (omega arith) e)
    ∙ clear_coarser (w - n) (w - min m n) x b (omega arith) f

clear→share :
    (w a m b n : ℕ)
    → clear_low (w - min m n) a ≡ clear_low (w - min m n) b
    → (x : ℕ) × (clear_low (w - m) x ≡ clear_low (w - m) a)
      × (clear_low (w - n) x ≡ clear_low (w - n) b)
clear→share w a m b n e = elim (Bool-cases (ltb n m)) [
  | inl s ↦ (
    a,
    refl,
    ap (λ (t : ℕ). clear_low t a) {x = w - n} {y = w - min m n} (ground arith)
        ∙ e
        ∙ ap (λ (t : ℕ). clear_low t b) {x = w - min m n} {y = w - n} (ground arith),
  )
  | inr s ↦ (
    b,
    ap (λ (t : ℕ). clear_low t b) {x = w - m} {y = w - min m n} (ground arith)
        ∙ sym e
        ∙ ap (λ (t : ℕ). clear_low t a) {x = w - min m n} {y = w - m} (ground arith),
    refl,
  )
]

abbrev Shared : Prefix → Prefix → Type 0
Shared p q = (x : Addr) × Contains p x × Contains q x

overlaps-v4 :
    (a m b n : ℕ)
    → overlaps (record { addr = v4 a; bits = m }) (record { addr = v4 b; bits = n })
      ≡ agree 32 a m b n
unfolding overlaps
overlaps-v4 a m b n = refl

overlaps-v6 :
    (a m b n : ℕ)
    → overlaps (record { addr = v6 a []; bits = m }) (record { addr = v6 b []; bits = n })
      ≡ agree 128 a m b n
unfolding overlaps text_eq
overlaps-v6 a m b n = ground arith

v4_inj : {a b : ℕ} → v4 a ≡ v4 b → a ≡ b
v4_inj e = cc

v6_inj : {a b : ℕ} → v6 a [] ≡ v6 b [] → a ≡ b
v6_inj e = cc

share-agree4 :
    (a m b n : ℕ)
    → Shared (record { addr = v4 a; bits = m }) (record { addr = v4 b; bits = n })
    → agree 32 a m b n ≡ true
share-agree4 a m b n (v4 x, f, g) =
    clear→agree 32 a m b n (share→clear 32 a m b n x (v4_inj f) (v4_inj g))
share-agree4 a m b n (v6 x z, f, g) = absurd (ground arith)

share-agree6 :
    (a m b n : ℕ)
    → Shared (record { addr = v6 a []; bits = m }) (record { addr = v6 b []; bits = n })
    → agree 128 a m b n ≡ true
share-agree6 a m b n (v6 x z, f, g) =
    clear→agree 128 a m b n (share→clear 128 a m b n x (v6_inj f) (v6_inj g))
share-agree6 a m b n (v4 x, f, g) = absurd (ground arith)

share-family :
    (a m b n : ℕ) (z y : Text)
    → ((Shared (record { addr = v4 a; bits = m }) (record { addr = v6 b z; bits = n }) → ⊥)
        × (Shared (record { addr = v6 b y; bits = m }) (record { addr = v4 a; bits = n }) → ⊥))
share-family a m b n z y = (left, right)
  where
    left : Shared (record { addr = v4 a; bits = m }) (record { addr = v6 b z; bits = n }) → ⊥
    left (v4 x, f, g) = ground arith
    left (v6 x w, f, g) = ground arith

    right : Shared (record { addr = v6 b y; bits = m }) (record { addr = v4 a; bits = n }) → ⊥
    right (v4 x, f, g) = ground arith
    right (v6 x w, f, g) = ground arith

Shared-iff :
    (a b : Addr) (m n : ℕ)
    → IsPrefix (record { addr = a; bits = m })
    → IsPrefix (record { addr = b; bits = n })
    → (overlaps (record { addr = a; bits = m }) (record { addr = b; bits = n }) ≡ true)
      ↔ Shared (record { addr = a; bits = m }) (record { addr = b; bits = n })
Shared-iff (v4 a) (v4 b) m n h k = (
  λ e.
      let (x, f, g) =
        clear→share 32 a m b n (agree→clear 32 a m b n h.1 k.1 (sym (overlaps-v4 a m b n) ∙ e)) in
      (v4 x, ap v4 f, ap v4 g),
  λ s. overlaps-v4 a m b n ∙ share-agree4 a m b n s,
)
Shared-iff (v6 a []) (v6 b []) m n h k = (
  λ e.
      let (x, f, g) =
        clear→share 128 a m b n (agree→clear 128 a m b n h.1 k.1 (sym (overlaps-v6 a m b n) ∙ e)) in
      (v6 x [], ap (λ t. v6 t []) f, ap (λ t. v6 t []) g),
  λ s. overlaps-v6 a m b n ∙ share-agree6 a m b n s,
)
Shared-iff (v4 a) (v6 b z) m n h k =
    (λ e. absurd (unfold overlaps in ground arith), λ s. absurd ((share-family a m b n z []).0 s))
Shared-iff (v6 b z) (v4 a) m n h k =
    (λ e. absurd (unfold overlaps in ground arith), λ s. absurd ((share-family a m b n [] z).1 s))
Shared-iff (v6 a (c ∷ z)) (v6 b y) m n h k = absurd (ground (arith, h.2))
Shared-iff (v6 a []) (v6 b (c ∷ z)) m n h k = absurd (ground (arith, k.2))

-- Two prefixes overlap if and only if they share an address.
pub overlaps_iff :
    (p q : Prefix)
    → IsPrefix p
    → IsPrefix q
    → (overlaps p q ≡ true) ↔ ((x : Addr) × Contains p x × Contains q x)
overlaps_iff p q h k = Shared-iff p.addr q.addr p.bits q.bits h k
