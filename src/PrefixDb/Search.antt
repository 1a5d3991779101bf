-- ===== src/PrefixDb/Search.antt =====
-- internal/prefixdb/query.go, cloud_asns.go, and the lists of resolve.go: what the page of scoped bans
-- offers. The order in which Go runs through a map is unspecified; here it is that of the list.
use xdp_invisible_armor.Common.{
  ℕ, ◌-◌, ◌^◌, Bool, true, ◌==◌, ltb, if◌then◌else◌, List, [], ◌∷◌, length, get_elem?, find, map,
  Option, none, some, Text, codes, is_empty, parse_uint, trim_space, trim_prefix, to_upper,
  contains,
}
use xdp_invisible_armor.PrefixDb.Index.{Entry, Db}

pub record AsnQuery : Type 0 where
  pub asn : ℕ
  pub keyword : Text

unfoldable pub normalize_asn_query : Text → AsnQuery
unfolding trim_space trim_prefix to_upper
normalize_asn_query q =
    elim (parse_uint (2 ^ 32 - 1)
      (trim_prefix (trim_prefix (trim_space q) (codes "AS")) (codes "as"))) [
        | some n ↦ record { asn = n; keyword = [] }
        | none ↦ record { asn = 0; keyword = to_upper (trim_space q) }
      ]

unfoldable pub match_asn : ℕ → Text → AsnQuery → Bool
unfolding contains to_upper
match_asn asn name q =
    if q.asn == 0
    then if is_empty q.keyword then true else contains (to_upper name) q.keyword
    else asn == q.asn

-- Several names stand for one provider.
abbrev pub cloud_provider_asns : List (ℕ × Text)
cloud_provider_asns =
    (16509, codes "AWS")
    ∷ (14618, codes "AWS")
    ∷ (8987, codes "AWS")
    ∷ (15169, codes "Google Cloud")
    ∷ (396982, codes "Google Cloud")
    ∷ (19527, codes "Google Cloud")
    ∷ (8075, codes "Microsoft Azure")
    ∷ (8068, codes "Microsoft Azure")
    ∷ (37963, codes "Alibaba Cloud")
    ∷ (45102, codes "Alibaba Cloud")
    ∷ (31898, codes "Oracle Cloud")
    ∷ (138915, codes "Oracle Cloud")
    ∷ []

unfoldable pub cloud_provider_name : ℕ → Option Text
cloud_provider_name asn = elim (find (λ (p : ℕ × Text). p.0 == asn) cloud_provider_asns) [
  | none ↦ none
  | some p ↦ some p.1
]

pub record AsnOption : Type 0 where
  pub asn : ℕ
  pub name : Text
  pub country : Text
  pub cidr_blocks : ℕ

pub record CountryOption : Type 0 where
  pub code : Text
  pub cidr_blocks : ℕ

-- `sort.Slice` by falling counts: of the orders for equal counts, the stable one.
insert_by {ℓ} : {A : Type ℓ} → (A → ℕ) → A → List A → List A
insert_by size x [] = x ∷ []
insert_by size x (y ∷ ys) =
    let rest = insert_by size x ys in if ltb (size x) (size y) then y ∷ rest else x ∷ y ∷ ys

unfoldable pub sort_by {ℓ} : {A : Type ℓ} → (A → ℕ) → List A → List A
unfolding insert_by
sort_by size [] = []
sort_by size (x ∷ xs) = insert_by size x (sort_by size xs)

unfoldable pub countries : Db → List CountryOption
unfolding sort_by
countries db =
    sort_by (λ o. o.cidr_blocks)
      (map (λ (p : Text × List ℕ). record { code = p.0; cidr_blocks = length p.1 }) db.by_country)

-- The entry of the first row; a row that is not there is Go's panic, and ends the search.
abbrev first_entry : Db → List ℕ → Option Entry
first_entry db [] = none
first_entry db (i ∷ is) = get_elem? db.entries i

-- The loop over the map, up to `limit` results. Each key comes once, so that `seen` is never true.
abbrev with_option : AsnOption → Option (List AsnOption) → Option (List AsnOption)
with_option o none = none
with_option o (some os) = some (o ∷ os)

unfoldable pub matching : Db → AsnQuery → ℕ → List (ℕ × List ℕ) → Option (List AsnOption)
unfolding match_asn
matching db q limit [] = some []
matching db q limit ((asn, rows) ∷ ps) =
    let taken = matching db q (limit - 1) ps in
    let passed = matching db q limit ps in
    if limit == 0 then some [] else elim (first_entry db rows) [
      | none ↦ none
      | some e ↦
          if match_asn asn e.as_name q
          then with_option
              (record {
                asn = asn;
                name = e.as_name;
                country = e.country;
                cidr_blocks = length rows;
              })
              taken
          else passed
    ]

unfoldable pub search_asn : Db → Text → ℕ → Option (List AsnOption)
unfolding matching sort_by normalize_asn_query
search_asn db query limit = elim (matching db (normalize_asn_query query) limit db.by_asn) [
  | none ↦ none
  | some os ↦ some (sort_by (λ o. o.cidr_blocks) os)
]
