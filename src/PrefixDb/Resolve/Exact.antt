-- ===== src/PrefixDb/Resolve/Exact.antt =====
-- A selector resolves to exactly the addresses of the entries that match it.
use xdp_invisible_armor.Common.{
  ℕ, ◌^◌, ◌≤◌, ◌<◌, ◌≡◌, refl, ap, ◌∙◌, arith, Bool, true, false, ◌&&◌, ◌==◌, leb, if◌then◌else◌,
  List, [], ◌∷◌, length, ok, err, ok-injective, any, All,
}
use xdp_invisible_armor.Netip.{Prefix}
use xdp_invisible_armor.PrefixDb.Cidrs.Tiling.{hits}
use xdp_invisible_armor.PrefixDb.Merge.{Range, in_range, sort, merge, blocks}
use xdp_invisible_armor.PrefixDb.Merge.Coverage.{IsRange, hits-merge}
use xdp_invisible_armor.PrefixDb.Index.{Entry, Db, Selector}
use xdp_invisible_armor.PrefixDb.Index.Positions.{positions, IsIndexed}
use xdp_invisible_armor.PrefixDb.Resolve.Candidates.{matches, is_blank, candidates-positions}
use xdp_invisible_armor.PrefixDb.Resolve.{no_selector, candidates, ranges, resolve}
use xdp_invisible_armor.PrefixDb.Resolve.Rows.{ranges_where, ranges-positions}

-- An entry holds an address.
abbrev pub in_entry : ℕ → Entry → Bool
in_entry x e = leb e.start x && leb x e.last

abbrev pub IsEntry : Entry → Type 0
IsEntry e = (e.start ≤ e.last) × (e.last < 2 ^ 32)

any-ranges_where :
    (x : ℕ) (p : Entry → Bool) (es : List Entry)
    → any (in_range x) (ranges_where p es) ≡ any (λ e. p e && in_entry x e) es
unfolding ranges_where
any-ranges_where x p [] = refl
any-ranges_where x p (e ∷ es) = ground (arith, any-ranges_where x p es)

pub All-ranges_where :
    (p : Entry → Bool) (es : List Entry) → All IsEntry es → All IsRange (ranges_where p es)
unfolding ranges_where
All-ranges_where p [] h = tt
All-ranges_where p (e ∷ es) h = ground (arith, All-ranges_where p es h.1)

-- No rows, no prefixes; else the blocks of their ranges.
pub resolve_rows :
    (db : Db) (sel : Selector) (is : List ℕ) (rs : List Range)
    → candidates db sel ≡ ok is
    → ranges db is ≡ ok rs
    → resolve db sel ≡ ok (if length is == 0 then [] else blocks (merge (sort rs)))
unfolding resolve
resolve_rows db sel [] rs h k = rw h
resolve_rows db sel (i ∷ is) rs h k = rw (h, k) (ground arith)

hits_rows :
    (db : Db) (x : ℕ) (is : List ℕ) (rs : List Range)
    → ranges db is ≡ ok rs
    → All IsRange rs
    → hits x (if length is == 0 then [] else blocks (merge (sort rs)))
      ≡ (if any (in_range x) rs then 1 else 0)
unfolding ranges
hits_rows db x [] rs k w = ap (λ r. if any (in_range x) r then 1 else 0) (ok-injective k)
hits_rows db x (i ∷ is) rs k w = nonempty (ground arith)
  where
    nonempty :
        (length (i ∷ is) == 0) ≡ false
        → hits x (if length (i ∷ is) == 0 then [] else blocks (merge (sort rs)))
          ≡ (if any (in_range x) rs then 1 else 0)
    nonempty e = rw e (hits-merge x rs w)

-- Over right indexes and valid entries `Resolve` fails only on the blank selector. Its prefixes
-- hold an address exactly once if some entry that matches holds it, and otherwise not at all.
pub resolve_exact :
    (db : Db) (sel : Selector)
    → IsIndexed db
    → All IsEntry db.entries
    → (is_blank sel ≡ true → resolve db sel ≡ err no_selector)
      × (is_blank sel ≡ false
          → (ps : List Prefix) × (resolve db sel ≡ ok ps)
            × ((x : ℕ)
                → hits x ps
                  ≡ (if any (λ e. matches sel e && in_entry x e) db.entries then 1 else 0)))
resolve_exact db sel v w = (
  λ b. blank (candidates-positions db sel v ∙ ap (λ t. if t then err no_selector else ok found) b),
  λ b. named (candidates-positions db sel v ∙ ap (λ t. if t then err no_selector else ok found) b),
)
  where
    found : List ℕ
    found = positions (matches sel) 0 db.entries

    rs : List Range
    rs = ranges_where (matches sel) db.entries

    blank : candidates db sel ≡ err no_selector → resolve db sel ≡ err no_selector
    blank e = unfold resolve in rw e

    out : List Prefix
    out = if length found == 0 then [] else blocks (merge (sort rs))

    covered :
        (x : ℕ)
        → hits x out ≡ (if any (λ e. matches sel e && in_entry x e) db.entries then 1 else 0)
    covered x =
        hits_rows db x found rs (ranges-positions db (matches sel))
          (All-ranges_where (matches sel) db.entries w)
        ∙ ap (λ t. if t then 1 else 0) (any-ranges_where x (matches sel) db.entries)

    named :
        candidates db sel ≡ ok found
        → (ps : List Prefix) × (resolve db sel ≡ ok ps)
          × ((x : ℕ)
              → hits x ps ≡ (if any (λ e. matches sel e && in_entry x e) db.entries then 1 else 0))
    named e = (out, resolve_rows db sel found rs e (ranges-positions db (matches sel)), covered)
