-- ===== src/PrefixDb/Merge/Coverage.antt =====
-- Sorting, joining and cutting keep the addresses, and no address is in two blocks.
use xdp_invisible_armor.Common.{
  ℕ, ◌+◌, ◌^◌, ◌≤◌, ◌<◌, ◌≡◌, refl, ap, ◌∙◌, arith, true, false, ◌||◌, Bool-cases, inl, inr, ltb,
  if◌then◌else◌, List, [], ◌∷◌, any, All,
}
use xdp_invisible_armor.PrefixDb.Cidrs.{range_to_cidrs}
use xdp_invisible_armor.PrefixDb.Cidrs.Tiling.{hits, hits-append, range_to_cidrs-Tiles, Tiles-hits}
use xdp_invisible_armor.PrefixDb.Merge.{
  Range, insert, sort, joins, widen, merge_loop, merge, blocks, in_range,
}

abbrev pub IsRange : Range → Type 0
IsRange r = (r.start ≤ r.last) × (r.last < 2 ^ 32)

-- Valid ranges whose starts do not fall, from `low` on.
abbrev pub SortedFrom : ℕ → List Range → Type 0
SortedFrom low [] = Unit {0}
SortedFrom low (r ∷ rs) = (low ≤ r.start) × IsRange r × SortedFrom r.start rs

-- Valid ranges, each past the end of the one before it, from `low` on.
abbrev pub Apart : ℕ → List Range → Type 0
Apart low [] = Unit {0}
Apart low (r ∷ rs) = (low ≤ r.start) × IsRange r × Apart (r.last + 1) rs

SortedFrom-mono :
    (low high : ℕ) (rs : List Range) → low ≤ high → SortedFrom high rs → SortedFrom low rs
SortedFrom-mono low high [] h s = tt
SortedFrom-mono low high (r ∷ rs) h s = (omega arith, s.1, s.2)

insert-SortedFrom :
    (low : ℕ) (r : Range) (rs : List Range)
    → low ≤ r.start
    → IsRange r
    → SortedFrom low rs
    → SortedFrom low (insert r rs)
unfolding insert
insert-SortedFrom low r [] h v s = (h, v, tt)
insert-SortedFrom low r (q ∷ rs) h v s = elim (Bool-cases (ltb q.start r.start)) [
  | inl before ↦ rw before (s.0, s.1, insert-SortedFrom q.start r rs (ground arith) v s.2)
  | inr after ↦ rw after (h, v, (ground arith, s.1, s.2))
]

pub sort-SortedFrom : (rs : List Range) → All IsRange rs → SortedFrom 0 (sort rs)
unfolding sort
sort-SortedFrom [] h = tt
sort-SortedFrom (r ∷ rs) h =
    insert-SortedFrom 0 r (sort rs) (omega arith) h.0 (sort-SortedFrom rs h.1)

any-insert :
    (x : ℕ) (r : Range) (rs : List Range)
    → any (in_range x) (insert r rs) ≡ (in_range x r || any (in_range x) rs)
unfolding insert
any-insert x r [] = refl
any-insert x r (q ∷ rs) = ground (arith, any-insert x r rs)

any-sort : (x : ℕ) (rs : List Range) → any (in_range x) (sort rs) ≡ any (in_range x) rs
unfolding sort
any-sort x [] = refl
any-sort x (r ∷ rs) = ground (arith, any-insert x r (sort rs), any-sort x rs)

-- What two joined ranges hold is what the wider one holds.
in_range-widen :
    (x : ℕ) (cur r : Range)
    → cur.start ≤ r.start
    → IsRange cur
    → IsRange r
    → joins cur r ≡ true
    → in_range x (widen cur r) ≡ (in_range x cur || in_range x r)
unfolding widen
in_range-widen x cur r h v w j = ground arith

widen_shape :
    (cur r : Range)
    → cur.start ≤ r.start
    → IsRange cur
    → IsRange r
    → ((widen cur r).start ≡ cur.start) × IsRange (widen cur r)
unfolding widen
widen_shape cur r h v w = ground arith

pub merge_loop-Apart :
    (low : ℕ) (cur : Range) (rs : List Range)
    → low ≤ cur.start
    → IsRange cur
    → SortedFrom cur.start rs
    → Apart low (merge_loop cur rs)
unfolding merge_loop
merge_loop-Apart low cur [] h v s = (h, v, tt)
merge_loop-Apart low cur (r ∷ rs) h v s = elim (Bool-cases (joins cur r)) [
  | inl meet ↦
      let (same, w) = widen_shape cur r s.0 v s.1 in
      rw (meet, merge_loop)
        (merge_loop-Apart low (widen cur r) rs (omega arith) w
          (SortedFrom-mono (widen cur r).start r.start rs (omega arith) s.2))
  | inr gap ↦
      rw (gap, merge_loop) (h, v, merge_loop-Apart (cur.last + 1) r rs (ground arith) s.1 s.2)
]

any-merge_loop :
    (x : ℕ) (cur : Range) (rs : List Range)
    → IsRange cur
    → SortedFrom cur.start rs
    → any (in_range x) (merge_loop cur rs) ≡ (in_range x cur || any (in_range x) rs)
unfolding merge_loop
any-merge_loop x cur [] v s = refl
any-merge_loop x cur (r ∷ rs) v s = elim (Bool-cases (joins cur r)) [
  | inl meet ↦
      let (same, w) = widen_shape cur r s.0 v s.1 in
      rw (meet, merge_loop)
        (ground (
          arith,
          any-merge_loop x (widen cur r) rs w
              (SortedFrom-mono (widen cur r).start r.start rs (omega arith) s.2),
          in_range-widen x cur r s.0 v s.1 meet,
        ))
  | inr gap ↦ rw (gap, merge_loop) (ground (arith, any-merge_loop x r rs s.1 s.2))
]

any-Apart : (low x : ℕ) (rs : List Range) → Apart low rs → x < low → any (in_range x) rs ≡ false
any-Apart low x [] a h = refl
any-Apart low x (r ∷ rs) a h = ground (arith, any-Apart (r.last + 1) x rs a.2)

-- Ranges that lie apart: an address is in one block if it is in a range, and in none otherwise.
hits-blocks :
    (low x : ℕ) (rs : List Range)
    → Apart low rs
    → hits x (blocks rs) ≡ (if any (in_range x) rs then 1 else 0)
unfolding blocks
hits-blocks low x [] a = refl
hits-blocks low x (r ∷ rs) a =
    hits-append x (range_to_cidrs r.start r.last) (blocks rs)
    ∙ ground (
      arith,
      Tiles-hits r.start (r.last + 1) x _ (range_to_cidrs-Tiles r.start r.last a.1.0 a.1.1),
      hits-blocks (r.last + 1) x rs a.2,
      any-Apart (r.last + 1) x rs a.2,
    )

-- Whatever valid ranges come in, an address lies in exactly one of the resulting blocks if it lies
-- in some range, and in none otherwise.
pub hits-merge :
    (x : ℕ) (rs : List Range)
    → All IsRange rs
    → hits x (blocks (merge (sort rs))) ≡ (if any (in_range x) rs then 1 else 0)
hits-merge x rs h =
    sorted (sort rs) (sort-SortedFrom rs h) ∙ ap (λ b. if b then 1 else 0) (any-sort x rs)
  where
    sorted :
        (qs : List Range)
        → SortedFrom 0 qs
        → hits x (blocks (merge qs)) ≡ (if any (in_range x) qs then 1 else 0)
    sorted [] s = unfold merge blocks in refl
    sorted (q ∷ qs) s =
        unfold merge in
        (hits-blocks 0 x (merge_loop q qs) (merge_loop-Apart 0 q qs (omega arith) s.1 s.2)
          ∙ ap (λ b. if b then 1 else 0) (any-merge_loop x q qs s.1 s.2))
