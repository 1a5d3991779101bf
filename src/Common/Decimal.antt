-- ===== src/Common/Decimal.antt =====
-- `fmt`'s %d and `strconv`'s ParseUint in base 10, over bytes.
use Prim.Native.Nat.{ℕ, zero, suc, ◌+◌, ◌-◌, ◌*◌, ◌/◌, ◌%◌, ◌≤◌, ◌<◌}
use mathlib.Core.Path.{◌≡◌, refl, sym, ap, ◌∙◌}
use mathlib.Core.Bool.{true}
use mathlib.Core.List.{[], ◌∷◌, ◌++◌, append_assoc, append-nil}
use mathlib.Core.Logic.{inl, inr}
use mathlib.Core.Option.{Option, none, some}
use native.Mathlib.Omega.{arith}
use xdp_invisible_armor.Common.Tests.{ltb, leb, ltb→lt, if◌then◌else◌, Bool-cases}
use xdp_invisible_armor.Common.Lists.{All, All-append}
use xdp_invisible_armor.Common.Texts.{Text, is_digit}

unfoldable pub digits : ℕ → ℕ → Text
digits zero n = (b'0' + n % 10) ∷ []
digits (suc f) n =
    let rest = digits f (n / 10) in
    if ltb n 10 then (b'0' + n) ∷ [] else rest ++ (b'0' + n % 10) ∷ []

-- `n` rounds are enough: each divides by ten.
unfoldable pub format : ℕ → Text
unfolding digits
format n = digits n n

-- A digit, or a value past `limit`, ends the scan without a number.
unfoldable pub scan : ℕ → Text → ℕ → Option ℕ
scan limit [] n = some n
scan limit (c ∷ s) n =
    if is_digit c
    then if leb (n * 10 + (c - b'0')) limit then scan limit s (n * 10 + (c - b'0')) else none
    else none

-- `strconv.ParseUint(s, 10, w)` with `limit` = 2 ^ w - 1; an error of either kind is `none`.
unfoldable pub parse_uint : ℕ → Text → Option ℕ
unfolding scan
parse_uint limit [] = none
parse_uint limit (c ∷ s) = scan limit (c ∷ s) 0

scan_digit :
    (limit d n : ℕ) (s : Text)
    → d < 10
    → n * 10 + d ≤ limit
    → scan limit ((b'0' + d) ∷ s) n ≡ scan limit s (n * 10 + d)
unfolding scan
scan_digit limit d n s h k = ground (arith, ap (λ (t : ℕ). scan limit s t) same)
  where
    same : n * 10 + (b'0' + d - b'0') ≡ n * 10 + d
    same = omega arith

scan-digits :
    (f limit n : ℕ) (s : Text) → n ≤ f → n ≤ limit → scan limit (digits f n ++ s) 0 ≡ scan limit s n
unfolding digits
scan-digits zero limit n s h k =
    scan_digit limit (n % 10) 0 s (omega arith) (omega arith) ∙ ap (scan limit s) (omega arith)
scan-digits (suc f) limit n s h k = elim (Bool-cases (ltb n 10)) [
  | inl small ↦
      rw small
        (scan_digit limit n 0 s (ltb→lt n 10 small) (omega arith) ∙ ap (scan limit s) (omega arith))
  | inr large ↦
      rw (large, append_assoc (digits f (n / 10)) ((b'0' + n % 10) ∷ []) s)
        (scan-digits f limit (n / 10) ((b'0' + n % 10) ∷ s) (ground arith) (omega arith)
          ∙ scan_digit limit (n % 10) (n / 10) s (omega arith) (omega arith)
          ∙ ap (scan limit s) (omega arith))
]

digits_head : (f n : ℕ) → (c : ℕ) × (s : Text) × (digits f n ≡ c ∷ s)
unfolding digits
digits_head zero n = (b'0' + n % 10, [], refl)
digits_head (suc f) n = elim (Bool-cases (ltb n 10)) [
  | inl small ↦ (b'0' + n, [], rw small)
  | inr large ↦
      let (c, s, e) = digits_head f (n / 10) in (c, s ++ (b'0' + n % 10) ∷ [], rw (large, e))
]

pub digits-All : (f n : ℕ) → All (λ c. is_digit c ≡ true) (digits f n)
unfolding digits
digits-All zero n = (ground arith, tt)
digits-All (suc f) n = elim (Bool-cases (ltb n 10)) [
  | inl small ↦ rw small (ground arith, tt)
  | inr large ↦
      rw large (All-append _ (digits f (n / 10)) _ (digits-All f (n / 10)) (ground arith, tt))
]

-- A number never prints as the empty text, and prints digits only.
pub format_head : (n : ℕ) → (c : ℕ) × (s : Text) × (format n ≡ c ∷ s)
unfolding format
format_head n = digits_head n n

pub format-All : (n : ℕ) → All (λ c. is_digit c ≡ true) (format n)
unfolding format
format-All n = digits-All n n

-- What follows the digits is scanned from the number that they spell.
pub scan-format :
    (limit n : ℕ) (s : Text) → n ≤ limit → scan limit (format n ++ s) 0 ≡ scan limit s n
unfolding format
scan-format limit n s h = scan-digits n limit n s (omega arith) h

parse_uint_cons :
    (limit : ℕ) (t : Text) (c : ℕ) (s : Text) → t ≡ c ∷ s → parse_uint limit t ≡ scan limit t 0
unfolding parse_uint
parse_uint_cons limit t c s e = rw e

-- Printing and reading back.
pub parse_uint-format : (limit n : ℕ) → n ≤ limit → parse_uint limit (format n) ≡ some n
parse_uint-format limit n h =
    let (c, s, e) = format_head n in
    parse_uint_cons limit (format n) c s e
    ∙ ap (λ t. scan limit t 0) (sym (append-nil (format n)))
    ∙ scan-format limit n [] h
    ∙ unfold scan in refl
