-- ===== src/PrefixDb/Resolve.antt =====
-- internal/prefixdb/resolve.go: from a country or AS number to the prefixes to ban.
pub mod Rows
pub mod Candidates
pub mod Exact
use xdp_invisible_armor.Common.{
  ℕ, zero, suc, ◌+◌, ◌-◌, ◌%◌, ◌^◌, Bool, true, false, not, ◌&&◌, ◌||◌, ◌==◌, ltb, leb,
  if◌then◌else◌, List, [], ◌∷◌, ◌++◌, length, get_elem?, Option, none, some, Result, ok, err, ◌>>=◌,
  Text, text_eq, is_empty, codes, format,
}
use xdp_invisible_armor.Netip.{Prefix, value, v4_prefix_text}
use xdp_invisible_armor.PrefixDb.Merge.{Range, sort, merge, blocks}
use xdp_invisible_armor.PrefixDb.Index.{Entry, Db, Selector, rows_of}

-- `row_out_of_range` is Go's panic on a row number that the entries do not have.
pub data Error : Type 0 where
  no_selector : Error
  row_out_of_range : ℕ → Error

-- `&db.entries[i]`
unfoldable pub row : Db → ℕ → Result Error Entry
row db i = elim (get_elem? db.entries i) [ none ↦ err (row_out_of_range i) | some e ↦ ok e ]

-- The rows of `is` whose entries pass the test.
unfoldable pub filter_rows : Db → (Entry → Bool) → List ℕ → Result Error (List ℕ)
filter_rows db p [] = ok []
filter_rows db p (i ∷ is) = do
  e ← row db i
  rest ← filter_rows db p is
  ok (if p e then i ∷ rest else rest)

unfoldable pub candidates : Db → Selector → Result Error (List ℕ)
candidates db sel =
    let by_c = rows_of text_eq sel.country db.by_country in
    let by_a = rows_of ◌==◌ sel.asn db.by_asn in
    if is_empty sel.country && sel.asn == 0
    then err no_selector
    else if not (is_empty sel.country) && not (sel.asn == 0)
    then if length by_c == 0 || length by_a == 0
      then ok []
      else if ltb (length by_a) (length by_c)
      then filter_rows db (λ e. text_eq e.country sel.country) by_a
      else filter_rows db (λ e. e.asn == sel.asn) by_c
    else if not (is_empty sel.country)
    then ok by_c
    else ok by_a

-- The ranges of the rows.
unfoldable pub ranges : Db → List ℕ → Result Error (List Range)
ranges db [] = ok []
ranges db (i ∷ is) = do
  e ← row db i
  rest ← ranges db is
  ok (record { start = e.start; last = e.last } ∷ rest)

unfoldable pub resolve : Db → Selector → Result Error (List Prefix)
resolve db sel = do
  idxs ← candidates db sel
  if length idxs == 0 then ok [] else (ranges db idxs >>= λ rs. ok (blocks (merge (sort rs))))

pub record Preview : Type 0 where
  pub selector : Selector
  pub cidr_count : ℕ
  pub addr_count : ℕ
  pub samples : List Text
  pub truncated : Bool

-- `p.AddrCount += uint64(1) << (32 - c.Bits())`
unfoldable pub count_addresses : ℕ → List Prefix → ℕ
count_addresses acc [] = acc
count_addresses acc (p ∷ ps) = count_addresses ((acc + 2 ^ (32 - p.bits)) % 2 ^ 64) ps

-- The loop over the samples: at `limit` it stops and notes that it did.
unfoldable pub sample : ℕ → List Prefix → List Text × Bool
sample limit [] = ([], false)
sample zero (p ∷ ps) = ([], true)
sample (suc limit) (p ∷ ps) =
    let rest = sample limit ps in (v4_prefix_text (value p.addr) p.bits ∷ rest.0, rest.1)

unfoldable pub preview : Db → Selector → ℕ → Result Error Preview
unfolding count_addresses sample
preview db sel limit = do
  cidrs ← resolve db sel
  ok (record {
    selector = sel;
    cidr_count = length cidrs;
    addr_count = count_addresses 0 cidrs;
    samples = (sample limit cidrs).0;
    truncated = (sample limit cidrs).1;
  })
