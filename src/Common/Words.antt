-- ===== src/Common/Words.antt =====
-- Go's package strings over bytes: TrimSpace, ToUpper, HasPrefix, TrimPrefix, Split, Fields, Join.
-- A letter outside ASCII has no case here.
use Prim.Native.Nat.{ℕ, zero, suc, ◌-◌}
use mathlib.Core.Bool.{Bool, true, false, not, ◌&&◌, ◌||◌}
use mathlib.Core.List.{List, [], ◌∷◌, ◌++◌, map, reverse}
use xdp_invisible_armor.Common.Tests.{leb, ◌==◌, if◌then◌else◌}
use xdp_invisible_armor.Common.Lists.{drop, any, length}
use xdp_invisible_armor.Common.Texts.{Text, is_empty}

-- The white space of ASCII.
abbrev pub is_blank : ℕ → Bool
is_blank c = (leb 9 c && leb c 13) || c == 32

-- The white space that takes two bytes, and the one that takes three.
abbrev is_blank2 : ℕ → ℕ → Bool
is_blank2 c d = c == 0xc2 && (d == 0x85 || d == 0xa0)

abbrev is_blank3 : ℕ → ℕ → ℕ → Bool
is_blank3 c d e =
    c == 0xe1 && d == 0x9a && e == 0x80
    || c == 0xe2 && d == 0x80 && (leb 0x80 e && leb e 0x8a || e == 0xa8 || e == 0xa9 || e == 0xaf)
    || c == 0xe2 && d == 0x81 && e == 0x9f
    || c == 0xe3 && d == 0x80 && e == 0x80

-- How many bytes the white space at the front takes, and, of the reversed text, at the back.
unfoldable pub blank_front : Text → ℕ
blank_front (c ∷ d ∷ e ∷ s) =
    if is_blank c then 1 else if is_blank2 c d then 2 else if is_blank3 c d e then 3 else 0
blank_front (c ∷ d ∷ []) = if is_blank c then 1 else if is_blank2 c d then 2 else 0
blank_front (c ∷ []) = if is_blank c then 1 else 0
blank_front [] = 0

-- The text begins with white space.
unfoldable pub leading_blank : Text → Bool
unfolding blank_front
leading_blank s = not (blank_front s == 0)

unfoldable pub blank_back : Text → ℕ
blank_back (c ∷ d ∷ e ∷ s) =
    if is_blank c then 1 else if is_blank2 d c then 2 else if is_blank3 e d c then 3 else 0
blank_back (c ∷ d ∷ []) = if is_blank c then 1 else if is_blank2 d c then 2 else 0
blank_back (c ∷ []) = if is_blank c then 1 else 0
blank_back [] = 0

-- Each round takes a byte at least, so that the text's length is enough.
unfoldable pub strip : (Text → ℕ) → ℕ → Text → Text
strip blank zero s = s
strip blank (suc f) s = elim (blank s) [ zero ↦ s | suc n ↦ strip blank f (drop (suc n) s) ]

unfoldable pub trim_left : Text → Text
unfolding strip blank_front
trim_left s = strip blank_front (length s) s

unfoldable pub trim_space : Text → Text
unfolding trim_left strip blank_back
trim_space s = let t = reverse (trim_left s) in reverse (strip blank_back (length t) t)

unfoldable pub to_upper : Text → Text
to_upper s = map (λ c. if leb b'a' c && leb c b'z' then c - 32 else c) s

unfoldable pub has_prefix : Text → Text → Bool
has_prefix s [] = true
has_prefix [] (c ∷ p) = false
has_prefix (x ∷ s) (c ∷ p) = x == c && has_prefix s p

unfoldable pub trim_prefix : Text → Text → Text
unfolding has_prefix
trim_prefix s p = if has_prefix s p then drop (length p) s else s

abbrev pub has_byte : ℕ → Text → Bool
has_byte c s = any (λ x. x == c) s

-- The parts of `strings.Split` at one byte.
abbrev pub onto_first : ℕ → List Text → List Text
onto_first c [] = (c ∷ []) ∷ []
onto_first c (p ∷ ps) = (c ∷ p) ∷ ps

unfoldable pub split : ℕ → Text → List Text
split sep [] = [] ∷ []
split sep (c ∷ s) = let rest = split sep s in if c == sep then [] ∷ rest else onto_first c rest

unfoldable pub join : Text → List Text → Text
join sep [] = []
join sep (p ∷ []) = p
join sep (p ∷ q ∷ ps) = p ++ (sep ++ join sep (q ∷ ps))

-- The words of `strings.Fields`; each round takes a byte at least.
abbrev pub flush : Text → List Text → List Text
flush [] ws = ws
flush (c ∷ w) ws = (c ∷ w) ∷ ws

words : ℕ → Text → Text → List Text
words zero s w = flush w []
words (suc f) [] w = flush w []
words (suc f) (c ∷ s) w = elim (blank_front (c ∷ s)) [
  | zero ↦ words f s (w ++ c ∷ [])
  | suc n ↦ flush w (words f (drop n s) [])
]

unfoldable pub fields : Text → List Text
unfolding words blank_front
fields s = words (suc (length s)) s []

-- `strings.ReplaceAll` of one byte by another.
abbrev pub replace_byte : ℕ → ℕ → Text → Text
replace_byte old new s = map (λ c. if c == old then new else c) s

-- `strings.Contains`
unfoldable pub contains : Text → Text → Bool
unfolding has_prefix
contains [] p = is_empty p
contains (c ∷ s) p = has_prefix (c ∷ s) p || contains s p
