-- ===== src/PrefixDb/Normalize/Words.antt =====
-- Words without white space, as the fields of a line: trimming leaves them, and splitting finds them.
use xdp_invisible_armor.Common.{
  ℕ, zero, suc, ◌/◌, ◌%◌, ◌^◌, ◌≡◌, refl, ap, ◌∙◌, arith, Bool, true, false, ◌||◌, leb, [], ◌∷◌,
  ◌++◌, any, any-append, All, Text, is_blank, is_digit, split, trim_space, trim_left, to_upper,
  format, format-All, length, strip, blank_front, blank_back,
}
use mathlib.Core.List.{reverse, reverse-cons, reverse-reverse}
use xdp_invisible_armor.Netip.{v4_text}

-- A byte that a word does not hold.
abbrev pub breaks : ℕ → Bool
breaks c = is_blank c || leb 0x80 c

abbrev pub IsWord : Text → Type 0
IsWord s = any breaks s ≡ false

IsWord-format : (n : ℕ) → IsWord (format n)
IsWord-format n = digits (format n) (format-All n)
  where
    digits : (s : Text) → All (λ c. is_digit c ≡ true) s → IsWord s
    digits [] h = refl
    digits (c ∷ s) h = ground (arith, h.0, digits s h.1)

pub IsWord-v4_text : (a : ℕ) → IsWord (v4_text a)
unfolding v4_text
IsWord-v4_text a = ground (
  arith,
  any-append breaks (format (a / 2 ^ 24 % 256)) (
      b'.' ∷ format (a / 2 ^ 16 % 256)
      ++ (b'.' ∷ format (a / 2 ^ 8 % 256) ++ (b'.' ∷ format (a % 256)))),
  any-append breaks (format (a / 2 ^ 16 % 256))
      (b'.' ∷ format (a / 2 ^ 8 % 256) ++ (b'.' ∷ format (a % 256))),
  any-append breaks (format (a / 2 ^ 8 % 256)) (b'.' ∷ format (a % 256)),
  IsWord-format (a / 2 ^ 24 % 256),
  IsWord-format (a / 2 ^ 16 % 256),
  IsWord-format (a / 2 ^ 8 % 256),
  IsWord-format (a % 256),
)

-- Splitting at a byte that breaks.
pub split-word :
    (sep : ℕ) (a b : Text)
    → breaks sep ≡ true
    → IsWord a
    → split sep (a ++ (sep ∷ b)) ≡ a ∷ split sep b
unfolding split
split-word sep [] b h w = ground arith
split-word sep (c ∷ a) b h w = ground (arith, split-word sep a b h)

pub split-last : (sep : ℕ) (a : Text) → breaks sep ≡ true → IsWord a → split sep a ≡ a ∷ []
unfolding split
split-last sep [] h w = refl
split-last sep (c ∷ a) h w = ground (arith, split-last sep a h)

front-word : (s : Text) → IsWord s → blank_front s ≡ 0
unfolding blank_front
front-word [] w = refl
front-word (c ∷ []) w = ground arith
front-word (c ∷ d ∷ []) w = ground arith
front-word (c ∷ d ∷ e ∷ s) w = ground arith

back-word : (s : Text) → IsWord s → blank_back s ≡ 0
unfolding blank_back
back-word [] w = refl
back-word (c ∷ []) w = ground arith
back-word (c ∷ d ∷ []) w = ground arith
back-word (c ∷ d ∷ e ∷ s) w = ground arith

strip-nothing : (blank : Text → ℕ) (n : ℕ) (s : Text) → blank s ≡ 0 → strip blank n s ≡ s
unfolding strip
strip-nothing blank zero s h = refl
strip-nothing blank (suc n) s h = rw (strip, h) refl

any-reverse : (s : Text) → any breaks (reverse s) ≡ any breaks s
any-reverse [] = refl
any-reverse (c ∷ s) =
    ap (any breaks) (reverse-cons c s)
    ∙ any-append breaks (reverse s) (c ∷ [])
    ∙ ground (arith, any-reverse s)

pub trim_space-word : (s : Text) → IsWord s → trim_space s ≡ s
unfolding trim_space trim_left
trim_space-word s w =
    ap (λ (t : Text). reverse (strip blank_back (length (reverse t)) (reverse t)))
      (strip-nothing blank_front (length s) s (front-word s w))
    ∙ ap reverse (
        strip-nothing blank_back (length (reverse s)) (reverse s)
          (back-word (reverse s) (any-reverse s ∙ w)))
    ∙ reverse-reverse s

pub to_upper-to_upper : (s : Text) → to_upper (to_upper s) ≡ to_upper s
unfolding to_upper
to_upper-to_upper [] = refl
to_upper-to_upper (c ∷ s) = ground (arith, to_upper-to_upper s)
