-- ===== src/Netip/V6.antt =====
-- The dotted quad and the IPv6 reader of net/netip, after its source.
use xdp_invisible_armor.Common.{
  ℕ, zero, suc, ◌+◌, ◌-◌, ◌*◌, ◌/◌, ◌%◌, Bool, true, false, ◌&&◌, ◌||◌, ◌==◌, ltb, leb,
  if◌then◌else◌, List, [], ◌∷◌, ◌++◌, Option, none, some, Text, is_empty, is_digit, length, take,
  drop, replicate, cut,
}

-- `parseIPv4Fields`: the value and the number of digits of the octet at hand, and the octets done.
unfoldable pub v4_fields : Text → ℕ → ℕ → List ℕ → Option (List ℕ)
v4_fields [] val dig_len fields = if length fields == 3 then some (fields ++ val ∷ []) else none
v4_fields (c ∷ s) val dig_len fields =
    let digit = v4_fields s (val * 10 + (c - b'0')) (dig_len + 1) fields in
    let dot = v4_fields s 0 0 (fields ++ val ∷ []) in
    if is_digit c
    then if dig_len == 1 && val == 0
      then none
      else if ltb 255 (val * 10 + (c - b'0'))
      then none
      else digit
    else if c == b'.'
    then if dig_len == 0 || is_empty s || length fields == 3 then none else dot
    else none

hex_digit : ℕ → Option ℕ
hex_digit c =
    if is_digit c
    then some (c - b'0')
    else if leb b'a' c && leb c b'f'
    then some (c - b'a' + 10)
    else if leb b'A' c && leb c b'F'
    then some (c - b'A' + 10)
    else none

-- The hexadecimal digits in front: their value, their number (4 at most), and what follows.
hex_run : Text → ℕ → ℕ → Option (ℕ × ℕ × Text)
hex_run [] acc off = some (acc, off, [])
hex_run (c ∷ s) acc off = elim (hex_digit c) [
  | none ↦ some (acc, off, c ∷ s)
  | some d ↦ let rest = hex_run s (acc * 16 + d) (off + 1) in if ltb 3 off then none else rest
]

pub data Round : Type 0 where
  fail : Round
  done more : Text → List ℕ → Option ℕ → Round

-- After a group: the end of the text, or a colon and more, or the ellipsis.
after_group : Text → List ℕ → Option ℕ → Round
after_group [] out ellipsis = done [] out ellipsis
after_group (c ∷ []) out ellipsis = fail
after_group (c ∷ d ∷ s) out ellipsis =
    if not_colon c
    then fail
    else if d == b':'
    then elim ellipsis [
      | some e ↦ fail
      | none ↦
          if is_empty s then done [] out (some (length out)) else more s out (some (length out))
    ]
    else more (d ∷ s) out ellipsis
  where
    not_colon : ℕ → Bool
    not_colon x = if x == b':' then false else true

-- A dotted quad at the end.
trailing_v4 : Text → List ℕ → Option ℕ → Round
trailing_v4 s out ellipsis =
    if length out == 12 || has ellipsis && ltb (length out) 13
    then elim (v4_fields s 0 0 []) [ none ↦ fail | some fs ↦ done [] (out ++ fs) ellipsis ]
    else fail
  where
    has : Option ℕ → Bool
    has none = false
    has (some e) = true

starts_dot : Text → Bool
starts_dot [] = false
starts_dot (c ∷ s) = c == b'.'

-- One round of the loop: a group of hexadecimal digits, two bytes of the address.
round : Text → List ℕ → Option ℕ → Round
round s out ellipsis = elim (hex_run s 0 0) [
  | none ↦ fail
  | some (acc, off, rest) ↦
      if off == 0
      then fail
      else if starts_dot rest
      then trailing_v4 s out ellipsis
      else after_group rest (out ++ (acc / 256) ∷ (acc % 256) ∷ []) ellipsis
]

-- Eight groups fill the address.
rounds : ℕ → Text → List ℕ → Option ℕ → Option (Text × List ℕ × Option ℕ)
rounds zero s out ellipsis = some (s, out, ellipsis)
rounds (suc f) s out ellipsis = elim (round s out ellipsis) [
  | fail ↦ none
  | done s' out' e' ↦ some (s', out', e')
  | more s' out' e' ↦ rounds f s' out' e'
]

join_bytes : List ℕ → ℕ → ℕ
join_bytes [] acc = acc
join_bytes (b ∷ bs) acc = join_bytes bs (acc * 256 + b)

-- The whole text is used, and the ellipsis stands for one group of zeros at least.
expand : Text × List ℕ × Option ℕ → Option ℕ
expand (c ∷ s, out, ellipsis) = none
expand ([], out, none) = if length out == 16 then some (join_bytes out 0) else none
expand ([], out, some e) =
    if ltb (length out) 16
    then some (join_bytes (take e out ++ (replicate (16 - length out) 0 ++ drop e out)) 0)
    else none

parse_groups : Text → Option ℕ
parse_groups (c ∷ d ∷ s) =
    if c == b':' && d == b':'
    then if is_empty s
      then some 0
      else elim (rounds 8 s [] (some 0)) [ none ↦ none | some r ↦ expand r ]
    else elim (rounds 8 (c ∷ d ∷ s) [] none) [ none ↦ none | some r ↦ expand r ]
parse_groups s = elim (rounds 8 s [] none) [ none ↦ none | some r ↦ expand r ]

-- `parseIPv6`: a zone is not empty.
unfoldable pub parse_ipv6 : Text → Option (ℕ × Text)
unfolding parse_groups rounds round hex_run hex_digit after_group trailing_v4 starts_dot expand
    join_bytes v4_fields cut
parse_ipv6 s = elim (cut b'%' s) [
  | none ↦ elim (parse_groups s) [ none ↦ none | some a ↦ some (a, []) ]
  | some (front, zone) ↦
      if is_empty zone
      then none
      else elim (parse_groups front) [ none ↦ none | some a ↦ some (a, zone) ]
]
