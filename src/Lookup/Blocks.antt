-- ===== src/Lookup/Blocks.antt =====
-- The prefixes that a selector resolves to are blocks, for which containing an address is lying in it.
use xdp_invisible_armor.Common.{
  ℕ, ◌+◌, ◌-◌, ◌*◌, ◌/◌, ◌%◌, ◌<◌, ◌≡◌, refl, sym, ap, ◌∙◌, arith, Bool, true, ◌==◌, ==_iff, leb,
  ltb, ◌&&◌, if◌then◌else◌, List, [], ◌∷◌, any, All, All-append, pow_pos, Bool-cases, inl, inr,
}
use native.Mathlib.Nat.{div-add-mod', div-eq_of_lt-le, mod-lt}
use mathlib.Core.Path.{subst}
use xdp_invisible_armor.Netip.{Addr, Prefix, v4, v6, value, is4}
use xdp_invisible_armor.PrefixDb.Cidrs.{range_to_cidrs}
use xdp_invisible_armor.PrefixDb.Cidrs.Tiling.{
  Tiles, IsBlock, size, hits, in_block, range_to_cidrs-Tiles,
}
use xdp_invisible_armor.PrefixDb.Merge.{Range, blocks, merge, sort, merge_loop}
use xdp_invisible_armor.PrefixDb.Merge.Coverage.{
  Apart, IsRange, SortedFrom, sort-SortedFrom, merge_loop-Apart,
}
use xdp_invisible_armor.Lookup.{contains_addr}

Tiles-IsBlock : (start stop : ℕ) (ps : List Prefix) → Tiles start stop ps → All IsBlock ps
Tiles-IsBlock start stop [] t = tt
Tiles-IsBlock start stop (p ∷ ps) t = (t.1, Tiles-IsBlock (start + size p) stop ps t.2)

blocks-IsBlock : (n : ℕ) (rs : List Range) → Apart n rs → All IsBlock (blocks rs)
unfolding blocks
blocks-IsBlock n [] a = tt
blocks-IsBlock n (r ∷ rs) a =
    All-append IsBlock (range_to_cidrs r.start r.last) (blocks rs)
      (Tiles-IsBlock r.start (r.last + 1) (range_to_cidrs r.start r.last)
        (range_to_cidrs-Tiles r.start r.last a.1.0 a.1.1))
      (blocks-IsBlock (r.last + 1) rs a.2)

pub merged-IsBlock : (rs : List Range) → All IsRange rs → All IsBlock (blocks (merge (sort rs)))
unfolding merge
merged-IsBlock rs h = go (sort rs) (sort-SortedFrom rs h)
  where
    go : (qs : List Range) → SortedFrom 0 qs → All IsBlock (blocks (merge qs))
    go [] s = unfold blocks in tt
    go (q ∷ qs) s =
        unfold merge in
        blocks-IsBlock 0 (merge_loop q qs) (merge_loop-Apart 0 q qs (omega arith) s.1 s.2)

next_block : (m q : ℕ) → q * m + m ≡ (q + 1) * m
next_block m q = grind arith

-- Dividing by the size of a block tells its addresses from all others.
same_block : (m a x : ℕ) → 0 < m → a % m ≡ 0 → (a / m == x / m) ≡ (leb a x && ltb x (a + m))
same_block m a x pos h = elim (Bool-cases (leb a x && ltb x (a + m))) [
  | inl within ↦ elim (Bool-cases (a / m == x / m)) [
    | inl e ↦ e ∙ sym within
    | inr n ↦ absurd (ground (arith, n, sym (same within)))
  ]
  | inr outside ↦ elim (Bool-cases (a / m == x / m)) [
    | inr n ↦ n ∙ sym outside
    | inl e ↦ absurd (ground (arith, outside, beyond ((==_iff (a / m) (x / m)).0 e), mod-lt x pos))
  ]
]
  where
    whole : a / m * m ≡ a
    whole = omega (arith, div-add-mod' a m, h)

    same : (leb a x && ltb x (a + m)) ≡ true → x / m ≡ a / m
    same w =
        div-eq_of_lt-le m (ground (arith, whole, w))
          (subst (λ n. x < n) (next_block m (a / m)) (ground (arith, whole, w)))

    beyond : a / m ≡ x / m → a + x % m ≡ x
    beyond e = omega (arith, whole, div-add-mod' x m, ap (λ n. n * m) e)

as_v4 : (p : Prefix) → IsBlock p → p.addr ≡ v4 (value p.addr)
as_v4 p h = go p.addr h.0
  where
    go : (a : Addr) → is4 a ≡ true → a ≡ v4 (value a)
    go (v4 x) e = refl
    go (v6 x zone) e = absurd (ground arith)

-- An address is contained in a block exactly if it lies in it.
contains-in_block : (x : ℕ) (p : Prefix) → IsBlock p → contains_addr x p ≡ in_block p x
contains-in_block x p h =
    ap (λ (a : Addr). contains_addr x (record { addr = a; bits = p.bits })) (as_v4 p h)
    ∙ same_block (size p) (value p.addr) x (pow_pos (32 - p.bits)) h.2

-- So for a list of blocks of which none or one holds the address.
pub any-contains :
    (x : ℕ) (b : Bool) (ps : List Prefix)
    → All IsBlock ps
    → hits x ps ≡ (if b then 1 else 0)
    → any (contains_addr x) ps ≡ b
any-contains x b [] h e = ground arith
any-contains x b (p ∷ ps) h e = elim (Bool-cases (in_block p x)) [
  | inl y ↦ ground (arith, y, contains-in_block x p h.0)
  | inr n ↦ ground (arith, n, contains-in_block x p h.0, any-contains x b ps h.1)
]
